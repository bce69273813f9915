-- ===== src/Api/Run/Drafts.antt =====
-- The patches of the model phase (packages/concord-api/src/run.ts) against the gates of
-- packages/concord-core/src/patch-validate.ts.
use doc_eng_demo.Prelude.{
  ◌≡◌, refl, Bool, true, false, ◌&&◌, Option, none, some, List, [], ◌∷◌, Member, Member-append,
  Option-cases, Bool-cases, inl, inr, is_some, if◌then◌else◌,
}
use doc_eng_demo.Contracts.Records.{Text, model_grounded, PatchProposal, PatchValidation}
use doc_eng_demo.Concord.Types.{DocUnit}
use doc_eng_demo.Concord.Proposal.{parse_patch_proposal}
use doc_eng_demo.Concord.Pipeline.Deltas.{map_get-Member}
use doc_eng_demo.Concord.Validate.Patch.{PatchVerdict, accepted, rejected, validate_patch}
use doc_eng_demo.Concord.Validate.Patch.Gates.{IsValid, validate_patch-IsValid}
use doc_eng_demo.Concord.Validate.Patch.Drafts.{IsChecked, accepted-IsChecked, forced-IsChecked}
use doc_eng_demo.Api.Spend.{SpendState, reserve}
use doc_eng_demo.Api.Run.{
  Message, Note, ImpactRecord, ConflictRecord, ModelPatchRow, RunInput, Call, RunState, start_phase,
  update, note, unit_or_delta_missing, unit_by_id, delta_by_key, Outcome, refused, noted,
  turned_down, drafted, judge_message, judge_text, judge_verdict, is_refusal, message_text,
  patch_input, draft_validation,
}
use doc_eng_demo.Api.Run.Phase.{
  call_or_stop, begin_task, finish_task, write_outcome, Fresh, patch_row, origin_of, after_text,
  Step, begin, answer, Reach, here, next,
}

-- A stored patch: a person reviews it, its proposal has passed every gate but that of the risk, and
-- this one too if the model was to rewrite and not to draft.
pub record IsReviewed (input : RunInput) (p : ModelPatchRow) : Type 0 where
  pub unit : DocUnit
  pub proposal : PatchProposal
  pub review : p.requires_review ≡ true
  pub listed : Member unit input.units
  pub same_path : p.path ≡ unit.path
  pub same_evidence : p.evidence ≡ proposal.evidence
  pub content : p.after ≡ after_text p.before unit proposal.new_body
  pub checked : IsChecked input.operations (patch_input input unit proposal)
  pub valid : p.origin ≡ model_grounded → IsValid input.operations (patch_input input unit proposal)

-- What holds of a drafted proposal.
record IsDraft (input : RunInput) (unit : DocUnit) (b : Bool) (p : PatchProposal) : Type 0 where
  checked : IsChecked input.operations (patch_input input unit p)
  valid : b ≡ true → IsValid input.operations (patch_input input unit p)

judge_verdict-IsDraft :
    (input : RunInput) (unit : DocUnit) (b : Bool) (q : PatchProposal) (w : PatchVerdict)
    (p : PatchProposal) (v : PatchValidation)
    → validate_patch input.operations (patch_input input unit q) ≡ w
    → judge_verdict b q w ≡ drafted p v
    → IsDraft input unit b p
unfolding judge_verdict
judge_verdict-IsDraft input unit b q (accepted x) p v h e =
    let same : q ≡ p = cc in
    rw (← same) (record {
      checked = accepted-IsChecked input.operations (patch_input input unit q) x h;
      valid = λ t. validate_patch-IsValid input.operations (patch_input input unit q) x h;
    })
judge_verdict-IsDraft input unit true q (rejected r) p v h e = absurd (cc)
judge_verdict-IsDraft input unit false q (rejected r) p v h e = by_force r.force_editorial refl e
  where
    by_force :
        (f : Bool)
        → r.force_editorial ≡ f
        → (if f then drafted q draft_validation else turned_down q r) ≡ drafted p v
        → IsDraft input unit false p
    by_force false f k = absurd (cc)
    by_force true f k =
        let same : q ≡ p = cc in
        rw (← same) (record {
          checked = forced-IsChecked input.operations (patch_input input unit q) r h f;
          valid = λ t. absurd (cc);
        })

judge_text-IsDraft :
    (input : RunInput) (unit : DocUnit) (b : Bool) (o : Option Text) (p : PatchProposal)
    (v : PatchValidation)
    → judge_text input unit b o ≡ drafted p v
    → IsDraft input unit b p
unfolding judge_text
judge_text-IsDraft input unit b none p v h = absurd (cc)
judge_text-IsDraft input unit b (some t) p v h =
    elim (Option-cases (parse_patch_proposal input.json t)) [
      | inl e ↦ absurd (failed (rw (e, judge_text) at h))
      | inr (q, e) ↦
          judge_verdict-IsDraft input unit b q
            (validate_patch input.operations (patch_input input unit q)) p v refl
            (rw (e, judge_text) at h)
    ]
  where
    failed : {n : Note} → noted n ≡ drafted p v → ⊥
    failed k = cc

judge_message-IsDraft :
    (input : RunInput) (unit : DocUnit) (b : Bool) (m : Message) (p : PatchProposal)
    (v : PatchValidation)
    → judge_message input unit b m ≡ drafted p v
    → IsDraft input unit b p
unfolding judge_message
judge_message-IsDraft input unit b m p v h = elim (Bool-cases (is_refusal m.stop_reason)) [
  | inl e ↦ absurd (refusal (rw e at h))
  | inr e ↦ judge_text-IsDraft input unit b (message_text m) p v (rw e at h)
]
  where
    refusal : refused ≡ drafted p v → ⊥
    refusal k = cc

abbrev AllReviewed : RunInput → RunState → Type 0
AllReviewed input t = (p : ModelPatchRow) → Member p t.patches → IsReviewed input p

origin_of-grounded : (b : Bool) → origin_of b ≡ model_grounded → b ≡ true
origin_of-grounded true h = refl
origin_of-grounded false h = absurd (cc)

write_outcome-AllReviewed :
    (input : RunInput) (unit : DocUnit) (r : ImpactRecord) (call : Call) (fresh : Fresh)
    (o : Outcome) (s : RunState)
    → Member unit input.units
    → ((p : PatchProposal) (v : PatchValidation)
        → o ≡ drafted p v
        → IsDraft input unit call.is_grounded p)
    → AllReviewed input s
    → AllReviewed input (write_outcome input unit r call fresh o s)
unfolding write_outcome patch_row
write_outcome-AllReviewed input unit r call fresh refused s k d all p m = all p m
write_outcome-AllReviewed input unit r call fresh (noted n) s k d all p m = all p m
write_outcome-AllReviewed input unit r call fresh (turned_down q rej) s k d all p m = all p m
write_outcome-AllReviewed input unit r call fresh (drafted q v) s k d all p m =
    elim (Member-append p s.patches _ m) [ inl n ↦ all p n | inr n ↦ added (d q v refl) n ]
  where
    added :
        IsDraft input unit call.is_grounded q
        → Member p (patch_row input unit call q v fresh.patch_id ∷ [])
        → IsReviewed input p
    added w (inl e) = rw e (record {
      unit = unit;
      proposal = q;
      review = refl;
      listed = k;
      same_path = refl;
      same_evidence = refl;
      content = refl;
      checked = w.checked;
      valid = λ h. w.valid (origin_of-grounded call.is_grounded h);
    })
    added w (inr n) = absurd n

begin_task-patches :
    (r : ImpactRecord) (s : RunState) (b : Bool) (o : Option SpendState)
    → (if b
        then call_or_stop r s o
        else record s { impacts = update r.id (note unit_or_delta_missing) s.impacts }).patches
      ≡ s.patches
unfolding call_or_stop
begin_task-patches r s true none = refl
begin_task-patches r s true (some spend) = refl
begin_task-patches r s false o = refl

Step-AllReviewed :
    {input : RunInput} {s t : RunState} → Step input s t → AllReviewed input s → AllReviewed input t
unfolding begin_task finish_task
Step-AllReviewed {input} {s} (begin r rest h found room) all = λ p m.
    let same =
      begin_task-patches r (record s { queue = rest })
        (is_some (unit_by_id input r.impact.doc_unit_id)
          && is_some (delta_by_key input r.impact.fact_key))
        (reserve s.spend) in
    all p (rw same at m)
Step-AllReviewed {input} {s} (answer r unit call message fresh m e found known) all =
    let (listed, _) =
      map_get-Member (λ (u : DocUnit). u.id) r.impact.doc_unit_id input.units known in
    write_outcome-AllReviewed input unit r call fresh
      (judge_message input unit call.is_grounded message) _ listed
      (λ p v. judge_message-IsDraft input unit call.is_grounded message p v) all

Reach-AllReviewed :
    {input : RunInput} {s t : RunState}
    → Reach input s t
    → AllReviewed input s
    → AllReviewed input t
Reach-AllReviewed here all = all
Reach-AllReviewed (next r st) all = Step-AllReviewed st (Reach-AllReviewed r all)

-- Every patch that the phase has stored requires review, stands in a unit's own safe path, and has
-- passed the gates: its evidence is there and resolves, no registered fact comes in without it, and
-- its body is safe; if the model was to rewrite, its risk too needs no editor.
pub Reach-IsReviewed :
    (input : RunInput) (spend : SpendState) (impacts : List ImpactRecord)
    (conflicts : List ConflictRecord) (t : RunState) (p : ModelPatchRow)
    → Reach input (start_phase spend impacts conflicts) t
    → Member p t.patches
    → IsReviewed input p
unfolding start_phase
Reach-IsReviewed input spend impacts conflicts t p r m = Reach-AllReviewed r (λ q n. absurd n) p m
