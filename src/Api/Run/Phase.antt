-- ===== src/Api/Run/Phase.antt =====
-- The steps of the model phase of `executeRun` (packages/concord-api/src/run.ts): a worker takes the
-- next task up to its wait for the model, or an answer comes and its task runs to the end.
use doc_eng_demo.Prelude.{
  ◌<◌, ◌≡◌, String, Bool, true, false, ◌&&◌, not, Option, none, some, List, [], ◌∷◌, ◌++◌, find?,
  any, length, ◌==◌, is_some, Member, if◌then◌else◌,
}
use doc_eng_demo.Contracts.Records.{
  Text, FactClaim, Evidence, ActionClass, editorial_review, PatchOrigin, model_grounded,
  model_editorial_draft, PatchProposal, PatchValidation,
}
use doc_eng_demo.Concord.Types.{DocUnit, proposed, escalated}
use doc_eng_demo.Concord.Pipeline.{map_get, SourceFile}
use doc_eng_demo.Concord.Conflicts.{insufficient_evidence_conflict}
use doc_eng_demo.Concord.Render.{index_of}
use doc_eng_demo.Concord.Validate.Patch.{Rejection}
use doc_eng_demo.Api.Spend.{SpendState, reserve, record_model_call, batch_limit}
use doc_eng_demo.Api.Replace.{replace_first}
use doc_eng_demo.Api.Run.{
  Message, unit_or_delta_missing, budget_exhausted, model_refusal, turned_down_for, ImpactRecord,
  ConflictRecord, ModelPatchRow, RunInput, Call, RunState, is_grounded_patch, update, note,
  impact_by_id, unit_by_id, delta_by_key, Outcome, refused, noted, turned_down, drafted,
  judge_message,
}
use doc_eng_demo.Concord.Diff.{make_diff}

-- `guardedCall` up to the call: the slot is reserved, or the task ends.
unfoldable pub call_or_stop : ImpactRecord → RunState → Option SpendState → RunState
call_or_stop r s none = record s {
  exhausted = true;
  impacts = update r.id (note budget_exhausted) s.impacts;
}
call_or_stop r s (some spend) = record s {
  spend = spend;
  in_flight =
      record { impact_id = r.id; is_grounded = is_grounded_patch r.impact.action } ∷ s.in_flight;
}

-- One task from its start to its first wait.
unfoldable pub begin_task : RunInput → ImpactRecord → RunState → RunState
unfolding call_or_stop
begin_task input r s =
    if is_some (unit_by_id input r.impact.doc_unit_id)
      && is_some (delta_by_key input r.impact.fact_key)
    then call_or_stop r s (reserve s.spend)
    else record s { impacts = update r.id (note unit_or_delta_missing) s.impacts }

abbrev pub set_action : ActionClass → ImpactRecord → ImpactRecord
set_action a r = record r { impact = record r.impact { action = a } }

abbrev pub refuse : ImpactRecord → ImpactRecord
refuse r = record r {
  impact = record r.impact { action = editorial_review; disposition = escalated };
  resolution_note = some model_refusal;
}

abbrev pub propose : String → ImpactRecord → ImpactRecord
propose id r = record r { impact = record r.impact { disposition = proposed }; patch_id = some id }

-- The ids that `newId` gives to the patch or the conflict of one answer.
pub record Fresh : Type 0 where
  pub patch_id : String
  pub conflict_id : String

abbrev is_claimed : List FactClaim → Evidence → Bool
is_claimed facts e = any (λ f. f.key == e.fact_key && f.locator == e.locator) facts

unfoldable pub bad_locator : List FactClaim → List Evidence → String
bad_locator facts evidence = elim (find? (λ e. not (is_claimed facts e)) evidence) [
  | none ↦ "(unknown locator)"
  | some e ↦ e.locator
]

abbrev pub conflict_of : RunInput → ImpactRecord → PatchProposal → String → ConflictRecord
conflict_of input r p id = record {
  draft =
      insufficient_evidence_conflict r.impact.fact_key (bad_locator input.facts p.evidence)
        input.facts;
  id = id;
}

-- A patch that the gates rejected: the impact's new action, with a conflict where the evidence
-- cannot be resolved.
abbrev pub turn_down : Rejection → String → ImpactRecord → ImpactRecord
turn_down rej id r = note (turned_down_for rej.reason) (elim rej.reclassify_to [
  | some a ↦ record (set_action a r) { conflict_id = some id }
  | none ↦ if rej.force_editorial then set_action editorial_review r else r
])

abbrev pub new_conflicts :
    RunInput → ImpactRecord → PatchProposal → Rejection → String → List ConflictRecord
new_conflicts input r p rej id = elim rej.reclassify_to [
  | some a ↦ conflict_of input r p id ∷ []
  | none ↦ []
]

abbrev content_or : DocUnit → Option SourceFile → Text
content_or unit none = unit.body
content_or unit (some f) = f.content

unfoldable pub before_text : RunInput → DocUnit → Text
before_text input unit = content_or unit (map_get (λ f. f.path) unit.path input.files)

unfoldable pub after_text : Text → DocUnit → Text → Text
after_text before unit new_body =
    if is_some (index_of unit.body before)
    then replace_first before unit.body new_body
    else new_body

abbrev pub origin_of : Bool → PatchOrigin
origin_of true = model_grounded
origin_of false = model_editorial_draft

abbrev human_reason : Bool → Option String → Option String
human_reason is_grounded (some t) = some t
human_reason true none = none
human_reason false none = some "editorial change — review the draft"

unfoldable pub patch_row :
    RunInput → DocUnit → Call → PatchProposal → PatchValidation → String → ModelPatchRow
unfolding before_text after_text
patch_row input unit call p validation id =
    let before = before_text input unit in
    let after = after_text before unit p.new_body in
    record {
      id = id;
      path = unit.path;
      before = before;
      after = after;
      unified = (make_diff unit.path before after).unified;
      origin = origin_of call.is_grounded;
      doc_unit_id = unit.id;
      impact_ids = call.impact_id ∷ [];
      evidence = p.evidence;
      requires_review = true;
      validation = validation;
      changed_because = p.changed_because;
      needs_human_because = human_reason call.is_grounded p.needs_human_because;
    }

-- What the task writes for each outcome.
unfoldable pub write_outcome :
    RunInput → DocUnit → ImpactRecord → Call → Fresh → Outcome → RunState → RunState
unfolding patch_row
write_outcome input unit r call fresh refused s = record s {
  impacts = update r.id refuse s.impacts;
}
write_outcome input unit r call fresh (noted n) s = record s {
  impacts = update r.id (note n) s.impacts;
}
write_outcome input unit r call fresh (turned_down p rej) s = record s {
  impacts = update r.id (turn_down rej fresh.conflict_id) s.impacts;
  conflicts = s.conflicts ++ new_conflicts input r p rej fresh.conflict_id;
}
write_outcome input unit r call fresh (drafted p v) s = record s {
  impacts = update r.id (propose fresh.patch_id) s.impacts;
  patches = s.patches ++ patch_row input unit call p v fresh.patch_id ∷ [];
}

-- The first task of the impact no longer waits.
unfoldable pub drop_call : String → List Call → List Call
drop_call id [] = []
drop_call id (c ∷ cs) = if c.impact_id == id then cs else c ∷ drop_call id cs

-- One task from its answer to its end.
unfoldable pub finish_task :
    RunInput → DocUnit → ImpactRecord → Call → Message → Fresh → RunState → RunState
unfolding write_outcome
finish_task input unit r call message fresh s =
    write_outcome input unit r call fresh (judge_message input unit call.is_grounded message)
      (record s {
        spend = record_model_call message.usage s.spend;
        in_flight = drop_call r.id s.in_flight;
      })

-- What may happen next. An answer that throws ends the run and is no step.
pub data Step (input : RunInput) (s : RunState) : RunState → Type 0 where
  begin :
      (r : ImpactRecord) (rest : List String)
      → s.queue ≡ r.id ∷ rest
      → impact_by_id r.id s.impacts ≡ some r
      → length s.in_flight < batch_limit
      → Step input s (begin_task input r (record s { queue = rest }))
  answer :
      (r : ImpactRecord) (unit : DocUnit) (call : Call) (message : Message) (fresh : Fresh)
      → Member call s.in_flight
      → r.id ≡ call.impact_id
      → impact_by_id r.id s.impacts ≡ some r
      → unit_by_id input r.impact.doc_unit_id ≡ some unit
      → Step input s (finish_task input unit r call message fresh s)

pub data Reach (input : RunInput) (s : RunState) : RunState → Type 0 where
  here : Reach input s s
  next : {t u : RunState} → Reach input s t → Step input t u → Reach input s u
