-- ===== src/Concord/Types.antt =====
-- packages/concord-core/src/types.ts, as `zod` infers it.
use doc_eng_demo.Prelude.{ℕ, String, Bool, Option}
use doc_eng_demo.Value.{Value}
use doc_eng_demo.Contracts.Facts.{FactTier}
use doc_eng_demo.Contracts.Records.{Text, ActionClass}

pub data Surface : Type 0 where
  mintlify helpcenter inproduct clidocs release generated : Surface

pub data Audience : Type 0 where
  developer end_user operator agent mixed : Audience

pub data EditorialRegister : Type 0 where
  terse_ui friendly_help technical_reference release_note : EditorialRegister

pub record DocUnit : Type 0 where
  pub id : String
  pub surface : Surface
  pub path : String
  pub anchor : Option String
  pub title : String
  pub body : Text
  pub body_sha256 : String
  pub audience : Audience
  pub editorial_register : EditorialRegister
  pub owner : String
  pub generated : Bool
  pub frontmatter : Value

pub record FileDiff : Type 0 where
  pub path : String
  pub before : Text
  pub after : Text
  pub unified : Text

pub data ProjectionMode : Type 0 where
  generated mechanical_value derived_prose editorial : ProjectionMode

pub data Extractor : Type 0 where
  declared_reference frontmatter_field generated_marker numeric_pattern : Extractor
  term_occurrence availability_table model_extraction : Extractor

pub record Span : Type 0 where
  pub start : ℕ
  pub end : ℕ

-- A normalized value: a number, a text or a flag. An absent one is `null` or `undefined`.
pub data Scalar : Type 0 where
  number : ℕ → Scalar
  text : Text → Scalar
  flag : Bool → Scalar

-- `confidence` is in thousandths.
pub record FactProjection : Type 0 where
  pub id : String
  pub fact_key : String
  pub doc_unit_id : String
  pub mode : ProjectionMode
  pub asserted_value : Value
  pub span : Option Span
  pub extractor : Extractor
  pub confidence : ℕ
  pub detected_at : String
  pub normalized_value : Option Scalar

pub data FindingKind : Type 0 where
  inconsistent_value undocumented_fact authority_conflict broken_ref : FindingKind
  undeclared_reference missing_coverage : FindingKind

-- The field of prose, `detail`, is left out.
pub record Finding : Type 0 where
  pub kind : FindingKind
  pub fact_key : String
  pub doc_unit_id : Option String
  pub projection_id : Option String
  pub owner : Option String

-- A detected change in one authoritative fact between two snapshots; `kind` is a free text.
pub record FactDelta : Type 0 where
  pub fact_key : String
  pub from : Value
  pub to : Value
  pub kind : String
  pub tier : FactTier
  pub locator : String

pub record Delta : Type 0 where
  pub from : Value
  pub to : Value
  pub kind : String

pub data Disposition : Type 0 where
  applied proposed escalated unresolved suppressed no_action abandoned_budget : Disposition

-- The field of prose, `explanation`, is left out.
pub record Impact : Type 0 where
  pub fact_key : String
  pub delta : Delta
  pub doc_unit_id : String
  pub projection_id : String
  pub action : ActionClass
  pub classification_rule : ℕ
  pub disposition : Disposition
