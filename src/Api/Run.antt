-- ===== src/Api/Run.antt =====
-- The model phase of `executeRun` (packages/concord-api/src/run.ts): each impact that needs prose is
-- one task of `mapConcurrent`, and tasks interleave where they wait for the model.
pub mod Phase
pub mod Effects
pub mod Kept
pub mod Settled
pub mod Calls
pub mod Drafts
pub mod Written
pub mod Tests
use doc_eng_demo.Prelude.{
  ℕ, suc, ◌<◌, ◌≡◌, String, Bool, true, false, ◌&&◌, not, Option, none, some, List, [], ◌∷◌, ◌++◌,
  map, filter, find?, any, length, ◌==◌, eqb, is_some, Member, if◌then◌else◌,
}
use doc_eng_demo.Contracts.Records.{
  Text, FactClaim, Evidence, ActionClass, grounded_patch, editorial_review, ConflictDraft,
  PatchOrigin, model_grounded, model_editorial_draft, PatchProposal, PatchValidation,
}
use doc_eng_demo.Concord.Types.{
  DocUnit, FileDiff, FactDelta, Impact, Disposition, proposed, escalated,
}
use doc_eng_demo.Concord.Pipeline.{map_get, SourceFile}
use doc_eng_demo.Concord.Proposal.{Json, parse_patch_proposal}
use doc_eng_demo.Concord.Conflicts.{insufficient_evidence_conflict}
use doc_eng_demo.Concord.Render.{index_of}
use doc_eng_demo.Concord.Validate.Patch.{
  Reason, Rejection, PatchVerdict, accepted, rejected, ValidatePatchInput, Operations,
  validate_patch,
}
use doc_eng_demo.Api.Spend.{Usage, SpendState, reserve, record_model_call, batch_limit}
use doc_eng_demo.Api.Replace.{replace_first}

pub record Block : Type 0 where
  pub kind : String
  pub text : Option Text

pub record Message : Type 0 where
  pub stop_reason : Option String
  pub content : List Block
  pub usage : Usage

-- The texts of `resolution_note`.
pub data Note : Type 0 where
  unit_or_delta_missing budget_exhausted model_refusal empty_response : Note
  failed_re_validation : Note
  turned_down_for : Reason → Note

pub record ImpactRecord : Type 0 where
  pub impact : Impact
  pub id : String
  pub resolution_note : Option Note
  pub patch_id : Option String
  pub conflict_id : Option String

pub record ConflictRecord : Type 0 where
  pub draft : ConflictDraft
  pub id : String

-- The columns of JSON hold the values themselves.
pub record ModelPatchRow : Type 0 where
  pub id : String
  pub path : String
  pub before : Text
  pub after : Text
  pub unified : Text
  pub origin : PatchOrigin
  pub doc_unit_id : String
  pub impact_ids : List String
  pub evidence : List Evidence
  pub requires_review : Bool
  pub validation : PatchValidation
  pub changed_because : String
  pub needs_human_because : Option String

-- What the phase reads, and the operations of other modules that it calls.
pub record RunInput : Type 0 where
  pub units : List DocUnit
  pub deltas : List FactDelta
  pub files : List SourceFile
  pub facts : List FactClaim
  pub started_at : String
  pub operations : Operations
  pub json : Json

-- A task that waits for the model, with its `isGrounded`.
pub record Call : Type 0 where
  pub impact_id : String
  pub is_grounded : Bool

-- `queue` holds the tasks that no worker has taken yet.
pub record RunState : Type 0 where
  pub spend : SpendState
  pub impacts : List ImpactRecord
  pub patches : List ModelPatchRow
  pub conflicts : List ConflictRecord
  pub exhausted : Bool
  pub queue : List String
  pub in_flight : List Call

abbrev pub is_grounded_patch : ActionClass → Bool
is_grounded_patch grounded_patch = true
is_grounded_patch _ = false

abbrev pub is_editorial_review : ActionClass → Bool
is_editorial_review editorial_review = true
is_editorial_review _ = false

abbrev pub is_free : ImpactRecord → Bool
is_free r = not (is_some r.conflict_id)

abbrev pub id_of : ImpactRecord → String
id_of r = r.id

-- `aiWork`, by the ids of its impacts.
unfoldable pub ai_work : List ImpactRecord → List String
ai_work impacts =
    map id_of (filter (λ r. is_grounded_patch r.impact.action && is_free r) impacts)
    ++ map id_of (filter (λ r. is_editorial_review r.impact.action && is_free r) impacts)

-- The records that the phase begins with; the n-th new id is given by a function.
abbrev pub conflict_key : ConflictRecord → String
conflict_key c = c.draft.fact_key

abbrev pub conflict_id_of : Option ConflictRecord → Option String
conflict_id_of none = none
conflict_id_of (some c) = some c.id

unfoldable pub impact_records :
    List ConflictRecord → (ℕ → String) → ℕ → List Impact → List ImpactRecord
impact_records conflicts new_id n [] = []
impact_records conflicts new_id n (i ∷ is) =
    record {
      impact = i;
      id = new_id n;
      resolution_note = none;
      patch_id = none;
      conflict_id = conflict_id_of (map_get conflict_key i.fact_key conflicts);
    }
    ∷ impact_records conflicts new_id (suc n) is

unfoldable pub start_phase : SpendState → List ImpactRecord → List ConflictRecord → RunState
start_phase spend impacts conflicts = record {
  spend = spend;
  impacts = impacts;
  patches = [];
  conflicts = conflicts;
  exhausted = false;
  queue = ai_work impacts;
  in_flight = [];
}

-- An assignment to a field of one impact.
abbrev pub update_one : String → (ImpactRecord → ImpactRecord) → ImpactRecord → ImpactRecord
update_one id f r = if r.id == id then f r else r

abbrev pub update : String → (ImpactRecord → ImpactRecord) → List ImpactRecord → List ImpactRecord
update id f impacts = map (update_one id f) impacts

abbrev pub note : Note → ImpactRecord → ImpactRecord
note n r = record r { resolution_note = some n }

abbrev pub impact_by_id : String → List ImpactRecord → Option ImpactRecord
impact_by_id id impacts = find? (λ r. r.id == id) impacts

abbrev pub unit_by_id : RunInput → String → Option DocUnit
unit_by_id input id = map_get (λ u. u.id) id input.units

abbrev pub delta_by_key : RunInput → String → Option FactDelta
delta_by_key input key = map_get (λ d. d.fact_key) key input.deltas

-- What a model's answer comes to, before it is written to the run's state.
pub data Outcome : Type 0 where
  refused : Outcome
  noted : Note → Outcome
  turned_down : PatchProposal → Rejection → Outcome
  drafted : PatchProposal → PatchValidation → Outcome

-- `message.content.find((b) => b.type === "text")?.text ?? null`, and `!text`.
abbrev pub text_of_block : Option Block → Option Text
text_of_block none = none
text_of_block (some b) = b.text

abbrev non_empty : Option Text → Option Text
non_empty none = none
non_empty (some []) = none
non_empty (some (c ∷ cs)) = some (c ∷ cs)

unfoldable pub message_text : Message → Option Text
message_text m = non_empty (text_of_block (find? (λ b. b.kind == "text") m.content))

abbrev pub is_refusal : Option String → Bool
is_refusal none = false
is_refusal (some reason) = reason == "refusal"

abbrev pub patch_input : RunInput → DocUnit → PatchProposal → ValidatePatchInput
patch_input input unit p = record {
  proposal = p;
  unit = unit;
  facts = input.facts;
  detected_at = input.started_at;
}

-- The validation that a draft is stored with although a gate asked for an editor.
abbrev pub draft_validation : PatchValidation
draft_validation = record {
  evidence_resolvable = true;
  introduces_no_new_facts = true;
  respects_editorial_register = false;
  path_allowlisted = true;
  falsification = record { attempted = false; refuted = false; refutation = none };
}

unfoldable pub judge_verdict : Bool → PatchProposal → PatchVerdict → Outcome
judge_verdict is_grounded p (accepted v) = drafted p v
judge_verdict is_grounded p (rejected r) =
    if not is_grounded && r.force_editorial then drafted p draft_validation else turned_down p r

unfoldable pub judge_text : RunInput → DocUnit → Bool → Option Text → Outcome
unfolding judge_verdict
judge_text input unit is_grounded none = noted empty_response
judge_text input unit is_grounded (some text) = elim (parse_patch_proposal input.json text) [
  | none ↦ noted failed_re_validation
  | some p ↦
      judge_verdict is_grounded p (validate_patch input.operations (patch_input input unit p))
]

unfoldable pub judge_message : RunInput → DocUnit → Bool → Message → Outcome
unfolding judge_text
judge_message input unit is_grounded m =
    if is_refusal m.stop_reason then refused else judge_text input unit is_grounded (message_text m)
