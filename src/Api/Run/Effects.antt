-- ===== src/Api/Run/Effects.antt =====
-- What one step of the model phase (packages/concord-api/src/run.ts) writes: at most one impact, and
-- that one to its end.
use doc_eng_demo.Prelude.{
  ◌≡◌, ◌≢◌, refl, sym, String, Bool, true, false, ◌&&◌, Option, none, some, List, ◌∷◌, Member,
  Option-cases, Bool-cases, ◌⊎◌, inl, inr, is_some, if◌then◌else◌,
}
use doc_eng_demo.Contracts.Records.{Text, ActionClass, no_action, editorial_review, PatchProposal}
use doc_eng_demo.Concord.Types.{DocUnit, unresolved}
use doc_eng_demo.Concord.Validate.Patch.{Rejection, PatchVerdict, accepted, rejected}
use doc_eng_demo.Concord.Proposal.{parse_patch_proposal}
use doc_eng_demo.Api.Spend.{SpendState, reserve, record_model_call}
use doc_eng_demo.Api.Run.{
  Note, budget_exhausted, unit_or_delta_missing, model_refusal, ImpactRecord, RunInput, Call,
  RunState, is_grounded_patch, update, note, unit_by_id, delta_by_key, Outcome, refused, noted,
  turned_down, drafted, judge_message, judge_text, judge_verdict, Message, failed_re_validation,
  is_refusal, message_text, draft_validation,
}
use doc_eng_demo.Api.Run.Phase.{
  call_or_stop, begin_task, set_action, refuse, propose, turn_down, write_outcome, drop_call,
  finish_task, Fresh, Step, begin, answer,
}

-- The part of an impact that the phase may not touch.
abbrev pub identity_of : ImpactRecord → ImpactRecord
identity_of r = record r {
  impact = record r.impact { action = no_action; disposition = unresolved };
  resolution_note = none;
  patch_id = none;
  conflict_id = none;
}

-- Its outcome can be seen: a note or a patch.
abbrev pub IsSettled : ImpactRecord → Type 0
IsSettled r = ((n : Note) × (r.resolution_note ≡ some n)) ⊎ ((p : String) × (r.patch_id ≡ some p))

-- A write that ends an impact's task.
pub record IsWrite (f : ImpactRecord → ImpactRecord) : Type 0 where
  pub keeps : (r : ImpactRecord) → identity_of (f r) ≡ identity_of r
  pub settles : (r : ImpactRecord) → IsSettled (f r)

note-IsWrite : (n : Note) → IsWrite (note n)
note-IsWrite n = record { keeps = λ r. refl; settles = λ r. inl (n, refl) }

refuse-IsWrite : IsWrite refuse
refuse-IsWrite = record { keeps = λ r. refl; settles = λ r. inl (model_refusal, refl) }

propose-IsWrite : (id : String) → IsWrite (propose id)
propose-IsWrite id = record { keeps = λ r. refl; settles = λ r. inr (id, refl) }

turn_down-IsWrite : (rej : Rejection) (id : String) → IsWrite (turn_down rej id)
turn_down-IsWrite rej id = record {
  keeps = λ r. kept r rej.reclassify_to rej.force_editorial;
  settles = λ r. inl (_, refl);
}
  where
    kept :
        (r : ImpactRecord) (o : Option ActionClass) (b : Bool)
        → identity_of (elim o [
          | some a ↦ record (set_action a r) { conflict_id = some id }
          | none ↦ if b then set_action editorial_review r else r
        ])
          ≡ identity_of r
    kept r none true = refl
    kept r none false = refl
    kept r (some a) b = refl

-- A worker has taken the task and waits for the model.
pub record IsWaiting (s t : RunState) : Type 0 where
  pub call : Call
  pub taken : s.queue ≡ call.impact_id ∷ t.queue
  pub waits : t.in_flight ≡ call ∷ s.in_flight
  pub same : t.impacts ≡ s.impacts
  pub same_exhausted : t.exhausted ≡ s.exhausted

-- Where the task came from that has ended: from the queue, or from those that wait.
abbrev pub IsTaken : String → RunState → RunState → Type 0
IsTaken id s t =
    ((s.queue ≡ id ∷ t.queue) × (t.in_flight ≡ s.in_flight))
    ⊎ ((t.queue ≡ s.queue)
        × (t.in_flight ≡ drop_call id s.in_flight)
        × ((c : Call) × Member c s.in_flight × (c.impact_id ≡ id)))

-- A task has ended.
pub record IsEnded (s t : RunState) : Type 0 where
  pub id : String
  pub write : ImpactRecord → ImpactRecord
  pub writes : IsWrite write
  pub written : t.impacts ≡ update id write s.impacts
  pub taken : IsTaken id s t
  pub budget :
      (r : ImpactRecord)
      → (write r).resolution_note ≡ some budget_exhausted
      → (r.resolution_note ≡ some budget_exhausted) ⊎ (t.exhausted ≡ true)
  pub stays : s.exhausted ≡ true → t.exhausted ≡ true

call_or_stop-effect :
    (r : ImpactRecord) (s : RunState) (rest : List String) (o : Option SpendState)
    → s.queue ≡ r.id ∷ rest
    → let t = call_or_stop r (record s { queue = rest }) o in IsWaiting s t ⊎ IsEnded s t
unfolding call_or_stop
call_or_stop-effect r s rest none h = inr (record {
  id = r.id;
  write = note budget_exhausted;
  writes = note-IsWrite budget_exhausted;
  written = refl;
  taken = inl (h, refl);
  budget = λ x e. inr refl;
  stays = λ e. refl;
})
call_or_stop-effect r s rest (some spend) h = inl (record {
  call = record { impact_id = r.id; is_grounded = is_grounded_patch r.impact.action };
  taken = h;
  waits = refl;
  same = refl;
  same_exhausted = refl;
})

begin_task-effect :
    (input : RunInput) (r : ImpactRecord) (s : RunState) (rest : List String) (b : Bool)
    → s.queue ≡ r.id ∷ rest
    → let w : RunState = record s { queue = rest } in
      let t =
        if b
        then call_or_stop r w (reserve w.spend)
        else record w { impacts = update r.id (note unit_or_delta_missing) w.impacts } in
      IsWaiting s t ⊎ IsEnded s t
begin_task-effect input r s rest true h = call_or_stop-effect r s rest (reserve s.spend) h
begin_task-effect input r s rest false h = inr (record {
  id = r.id;
  write = note unit_or_delta_missing;
  writes = note-IsWrite unit_or_delta_missing;
  written = refl;
  taken = inl (h, refl);
  budget = λ x e. absurd (cc);
  stays = λ e. e;
})

judge_verdict-note :
    (b : Bool) (p : PatchProposal) (v : PatchVerdict) (n : Note) → judge_verdict b p v ≢ noted n
unfolding judge_verdict
judge_verdict-note b p (accepted v) n h = cc
judge_verdict-note true p (rejected r) n h = cc
judge_verdict-note false p (rejected r) n h = either r.force_editorial h
  where
    either : (f : Bool) → (if f then drafted p draft_validation else turned_down p r) ≡ noted n → ⊥
    either true k = cc
    either false k = cc

judge_text-note :
    (input : RunInput) (unit : DocUnit) (b : Bool) (o : Option Text)
    → judge_text input unit b o ≢ noted budget_exhausted
unfolding judge_text
judge_text-note input unit b none h = absurd (cc)
judge_text-note input unit b (some t) h = elim (Option-cases (parse_patch_proposal input.json t)) [
  | inl e ↦ failed (rw (e, judge_text) at h)
  | inr (p, e) ↦ judge_verdict-note b p _ budget_exhausted (rw (e, judge_text) at h)
]
  where
    failed : noted failed_re_validation ≡ noted budget_exhausted → ⊥
    failed k = cc

judge_message-note :
    (input : RunInput) (unit : DocUnit) (b : Bool) (m : Message)
    → judge_message input unit b m ≢ noted budget_exhausted
unfolding judge_message
judge_message-note input unit b m h = elim (Bool-cases (is_refusal m.stop_reason)) [
  | inl e ↦ refusal (rw e at h)
  | inr e ↦ judge_text-note input unit b (message_text m) (rw e at h)
]
  where
    refusal : refused ≡ noted budget_exhausted → ⊥
    refusal k = cc

write_outcome-effect :
    (input : RunInput) (unit : DocUnit) (r : ImpactRecord) (call : Call) (fresh : Fresh)
    (o : Outcome) (s : RunState) (spend : SpendState)
    → o ≢ noted budget_exhausted
    → Member call s.in_flight
    → r.id ≡ call.impact_id
    → IsEnded s (
        write_outcome input unit r call fresh o
          (record s { spend = spend; in_flight = drop_call r.id s.in_flight }))
unfolding write_outcome
write_outcome-effect input unit r call fresh refused s spend n m e = record {
  id = r.id;
  write = refuse;
  writes = refuse-IsWrite;
  written = refl;
  taken = inr (refl, refl, (call, m, sym e));
  budget = λ x q. absurd (cc);
  stays = λ q. q;
}
write_outcome-effect input unit r call fresh (noted k) s spend n m e = record {
  id = r.id;
  write = note k;
  writes = note-IsWrite k;
  written = refl;
  taken = inr (refl, refl, (call, m, sym e));
  budget = λ x q. absurd (n (cc));
  stays = λ q. q;
}
write_outcome-effect input unit r call fresh (turned_down p rej) s spend n m e = record {
  id = r.id;
  write = turn_down rej fresh.conflict_id;
  writes = turn_down-IsWrite rej fresh.conflict_id;
  written = refl;
  taken = inr (refl, refl, (call, m, sym e));
  budget = λ x q. absurd (cc);
  stays = λ q. q;
}
write_outcome-effect input unit r call fresh (drafted p v) s spend n m e = record {
  id = r.id;
  write = propose fresh.patch_id;
  writes = propose-IsWrite fresh.patch_id;
  written = refl;
  taken = inr (refl, refl, (call, m, sym e));
  budget = λ x q. inl q;
  stays = λ q. q;
}

-- Every step is one of the two.
pub Step-effect : {input : RunInput} {s t : RunState} → Step input s t → IsWaiting s t ⊎ IsEnded s t
unfolding begin_task finish_task
Step-effect {input} {s} (begin r rest h found room) =
    begin_task-effect input r s rest
      (is_some (unit_by_id input r.impact.doc_unit_id)
        && is_some (delta_by_key input r.impact.fact_key))
      h
Step-effect {input} {s} (answer r unit call message fresh m e found known) = inr (
    write_outcome-effect input unit r call fresh (judge_message input unit call.is_grounded message)
      s (record_model_call message.usage s.spend)
      (judge_message-note input unit call.is_grounded message) m e)
