-- ===== src/Concord/Classify.antt =====
-- packages/concord-core/src/classify.ts: the table that sends one projection of a changed fact to
-- an action. Its two `throw`s are results of their own.
pub mod Table
pub mod Tests
use doc_eng_demo.Prelude.{
  ℕ, String, Bool, true, false, ◌&&◌, ◌||◌, not, Option, none, some, List, [], ◌∷◌, includes,
  is_some, if◌then◌else◌,
}
use doc_eng_demo.Value.{Value, num, str, is_nullish}
use doc_eng_demo.Contracts.Records.{
  ActionClass, deterministic_regen, grounded_patch, editorial_review, unresolved_conflict,
  no_action,
}
use doc_eng_demo.Concord.Types.{
  DocUnit, FactProjection, FactDelta, ProjectionMode, mechanical_value, derived_prose, editorial,
  Extractor, model_extraction, Disposition, proposed, unresolved,
}
use doc_eng_demo.Concord.Normalize.{Canonical, canonical, canonical_scalar, same_canonical}
use doc_eng_demo.Concord.Authority.{Arbitration, AuthorityConflict}

pub record ClassifyContext : Type 0 where
  pub projection : FactProjection
  pub delta : FactDelta
  pub unit : DocUnit
  pub arbitration : Option Arbitration

pub data Classification : Type 0 where
  classified : ActionClass → ℕ → Classification
  violation : Classification
  exhausted : Classification

abbrev pub system_owners : List String
system_owners = "concord" ∷ []

abbrev pub ia_delta_kinds : List String
ia_delta_kinds = "prerequisite_added" ∷ "page_split" ∷ "page_merged" ∷ "task_flow_changed" ∷ []

abbrev pub value_delta_kinds : List String
value_delta_kinds = "value_changed" ∷ "availability_changed" ∷ []

abbrev pub is_generated : ProjectionMode → Bool
is_generated ProjectionMode.generated = true
is_generated _ = false

abbrev pub is_mechanical : ProjectionMode → Bool
is_mechanical mechanical_value = true
is_mechanical _ = false

abbrev pub is_prose : ProjectionMode → Bool
is_prose derived_prose = true
is_prose _ = false

abbrev pub is_editorial : ProjectionMode → Bool
is_editorial editorial = true
is_editorial _ = false

abbrev pub by_model : Extractor → Bool
by_model model_extraction = true
by_model _ = false

abbrev pub is_rendered : Value → Bool
is_rendered (num n) = true
is_rendered (str s) = true
is_rendered _ = false

-- `a?.conflicts.length > 0`
abbrev pub has_any : List AuthorityConflict → Bool
has_any [] = false
has_any (c ∷ cs) = true

abbrev pub has_conflicts : Option Arbitration → Bool
has_conflicts none = false
has_conflicts (some a) = has_any a.conflicts

-- `arbitration !== null && arbitration.authoritative === null`
abbrev pub lacks_evidence : Option Arbitration → Bool
lacks_evidence none = false
lacks_evidence (some a) = not (is_some a.authoritative)

-- `arbitration?.authoritative !== null`, which holds too where there is no arbitration.
abbrev pub has_authority : Option Arbitration → Bool
has_authority none = true
has_authority (some a) = is_some a.authoritative

-- `projection.normalized_value ?? projection.asserted_value`, in the form that `sameValue` compares.
abbrev pub asserted_form : FactProjection → Canonical
asserted_form p = elim p.normalized_value [
  | none ↦ canonical p.asserted_value
  | some v ↦ canonical_scalar v
]

-- The asserted value already equals the new one.
unfoldable pub is_current : FactProjection → Value → Bool
is_current p to =
    not (is_nullish p.asserted_value) && same_canonical (asserted_form p) (canonical to)

-- The tests of the table, one for each rule in the order in which they are made.
unfoldable pub is_violation : FactProjection → Bool
is_violation p = by_model p.extractor && (is_generated p.mode || is_mechanical p.mode)

unfoldable pub is_contested : Option Arbitration → Bool
is_contested a = has_conflicts a || lacks_evidence a

unfoldable pub is_substitution : FactProjection → Value → Bool
is_substitution p to = is_mechanical p.mode && (is_some p.span && is_rendered to)

unfoldable pub is_groundable : FactProjection → String → Option Arbitration → Bool
is_groundable p kind a = is_prose p.mode && (includes value_delta_kinds kind && has_authority a)

unfoldable pub is_human_work : FactProjection → String → String → Bool
is_human_work p kind owner =
    is_editorial p.mode || (includes ia_delta_kinds kind || not (includes system_owners owner))

-- The first rule whose test holds.
unfoldable pub first_rule : Bool → Bool → Bool → Bool → Bool → Bool → Bool → Classification
first_rule violates contested current generated substitution groundable human =
    if violates
    then violation
    else if contested
    then classified unresolved_conflict 1
    else if current
    then classified no_action 6
    else if generated
    then classified deterministic_regen 2
    else if substitution
    then classified deterministic_regen 3
    else if groundable
    then classified grounded_patch 4
    else if human
    then classified editorial_review 5
    else exhausted

unfoldable pub classify : ClassifyContext → Classification
classify ctx =
    first_rule (is_violation ctx.projection) (is_contested ctx.arbitration)
      (is_current ctx.projection ctx.delta.to) (is_generated ctx.projection.mode)
      (is_substitution ctx.projection ctx.delta.to)
      (is_groundable ctx.projection ctx.delta.kind ctx.arbitration)
      (is_human_work ctx.projection ctx.delta.kind ctx.unit.owner)

unfoldable pub disposition_for : ActionClass → Disposition
disposition_for deterministic_regen = proposed
disposition_for no_action = Disposition.no_action
disposition_for grounded_patch = unresolved
disposition_for editorial_review = unresolved
disposition_for unresolved_conflict = unresolved
