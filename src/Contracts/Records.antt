-- ===== src/Contracts/Records.antt =====
-- packages/contracts/src: product-truth.ts, patches.ts, conflicts.ts and the action classes of
-- defects.ts, as `zod` infers them.
use doc_eng_demo.Prelude.{ℕ, String, Bool, Option, List}
use doc_eng_demo.Value.{Value}
use doc_eng_demo.Contracts.Facts.{FactTier}

-- A text that the code walks: its UTF-16 code units.
abbrev pub Text : Type 0
Text = List ℕ

-- A confidence between 0 and 1, in thousandths.
abbrev pub certain : ℕ
certain = 1000

pub record FactClaim : Type 0 where
  pub key : String
  pub value : Value
  pub tier : FactTier
  pub locator : String
  pub observed_at : String
  pub confidence : ℕ

pub record ProductTruthSnapshot : Type 0 where
  pub snapshot_id : String
  pub generated_at : String
  pub relay_contracts_version : String
  pub facts : List FactClaim

pub record Evidence : Type 0 where
  pub fact_key : String
  pub tier : FactTier
  pub locator : String
  pub value : Value
  pub observed_at : String

pub data ActionClass : Type 0 where
  deterministic_regen grounded_patch editorial_review unresolved_conflict no_action : ActionClass

pub data PatchOrigin : Type 0 where
  deterministic model_grounded model_editorial_draft : PatchOrigin

pub data EditorialRisk : Type 0 where
  none tone structure meaning : EditorialRisk

pub record PatchProposal : Type 0 where
  pub new_body : Text
  pub evidence : List Evidence
  pub changed_because : String
  pub editorial_risk : EditorialRisk
  pub needs_human_because : Option String

pub record Falsification : Type 0 where
  pub attempted : Bool
  pub refuted : Bool
  pub refutation : Option String

pub record PatchValidation : Type 0 where
  pub evidence_resolvable : Bool
  pub introduces_no_new_facts : Bool
  pub respects_editorial_register : Bool
  pub path_allowlisted : Bool
  pub falsification : Falsification

pub data RunStatus : Type 0 where
  queued running completed failed partial : RunStatus

pub data ConflictKind : Type 0 where
  authority_disagreement insufficient_evidence ambiguous_ownership : ConflictKind
  temporal_contradiction circular_reference : ConflictKind

-- `resolution` is `null` by type and has no field; the two fields of prose for the owner
-- (`missing_information`, `suggested_question`) are left out.
pub record ConflictDraft : Type 0 where
  pub fact_key : String
  pub kind : ConflictKind
  pub claims : List Evidence
  pub likely_owner : String
