-- ===== src/Concord/Pipeline.antt =====
-- packages/concord-core/src/pipeline.ts: deltas between two snapshots, the classification of every
-- projection of a changed fact, and the patches. The adapters, extractors, generators and detectors
-- are operations that the pipeline is given; a `throw` is `none`.
pub mod Deltas
pub mod Impacts
pub mod Patches
pub mod Tests
use doc_eng_demo.Prelude.{
  ℕ, String, Bool, true, false, ◌&&◌, ◌||◌, not, Option, none, some, List, [], ◌∷◌, ◌++◌, map,
  filter, flat_map, find?, includes, is_some, ◌==◌, codes, has_prefix, ◌>>=◌, if◌then◌else◌,
}
use doc_eng_demo.Value.{Value, null, bool, num, str, same_json, text_of}
use doc_eng_demo.Contracts.Facts.{
  FactTier, t0_runtime, t1_schema, t2_cli, t3_config, t4_release, t5_human,
}
use doc_eng_demo.Contracts.Records.{
  Text, FactClaim, ProductTruthSnapshot, ActionClass, deterministic_regen, ConflictDraft,
}
use doc_eng_demo.Concord.Types.{
  DocUnit, FactProjection, FactDelta, Impact, Delta, Disposition, unresolved, Span, FileDiff,
  Finding,
}
use doc_eng_demo.Concord.Normalize.{parse_value}
use doc_eng_demo.Concord.Authority.{Arbitration, arbitrate_all}
use doc_eng_demo.Concord.Consistency.{
  consistency_findings, undocumented_fact_findings, undeclared_reference_findings,
  authority_conflict_findings,
}
use doc_eng_demo.Concord.Classify.{
  ClassifyContext, Classification, classified, violation, exhausted, classify, disposition_for,
}
use doc_eng_demo.Concord.Render.{ValueStyle, style_of, format_value, replace_span}
use doc_eng_demo.Concord.Diff.{make_diff}

abbrev pub is_current_tier : FactTier → Bool
is_current_tier t4_release = false
is_current_tier t5_human = false
is_current_tier _ = true

-- `new Map(xs.map((x) => [key(x), x])).get(k)`: a later entry replaces an earlier one.
unfoldable pub map_get {ℓ} : {A : Type ℓ} → (A → String) → String → List A → Option A
map_get key k [] = none
map_get key k (x ∷ xs) = elim (map_get key k xs) [
  | some y ↦ some y
  | none ↦ if key x == k then some x else none
]

abbrev pub fact_key_of : FactClaim → String
fact_key_of f = f.key

abbrev pub current_facts : List FactClaim → List FactClaim
current_facts facts = filter (λ f. is_current_tier f.tier) facts

abbrev pub delta_kind : String → String
delta_kind key =
    if has_prefix (codes "availability.") (codes key)
    then "availability_changed"
    else "value_changed"

abbrev pub delta_of : FactClaim → FactClaim → FactDelta
delta_of prior fact = record {
  fact_key = fact.key;
  from = prior.value;
  to = fact.value;
  kind = delta_kind fact.key;
  tier = fact.tier;
  locator = fact.locator;
}

-- One round of the loop over the current facts.
pub delta_for : List FactClaim → FactClaim → List FactDelta
delta_for before fact = elim (map_get fact_key_of fact.key before) [
  | none ↦ []
  | some prior ↦ if same_json prior.value fact.value then [] else delta_of prior fact ∷ []
]

unfoldable pub detect_deltas : ProductTruthSnapshot → ProductTruthSnapshot → List FactDelta
unfolding delta_for
detect_deltas previous current =
    flat_map (delta_for (current_facts previous.facts)) (current_facts current.facts)

pub record SourceFile : Type 0 where
  pub path : String
  pub content : Text

-- A file with pending changes, as `afterByPath` holds it.
pub record PendingFile : Type 0 where
  pub path : String
  pub before : Text
  pub after : Text

pub record Pending : Type 0 where
  pub impacts : List Impact
  pub files : List PendingFile

-- What the loop over deltas and projections reads.
pub record Context : Type 0 where
  pub units : List DocUnit
  pub source_files : List SourceFile
  pub arbitrations : List (String × Arbitration)
  pub conflicted : List String
  -- `Number(value)` printed in a style, for a text that `parseValue` refuses, and what a list or an
  -- object is printed as.
  pub other_number : Value → ValueStyle → Text

abbrev pub arbitration_of : List (String × Arbitration) → String → Option Arbitration
arbitration_of [] key = none
arbitration_of ((k, a) ∷ m) key = if k == key then some a else arbitration_of m key

abbrev pub unit_of : List DocUnit → FactProjection → Option DocUnit
unit_of units p = map_get (λ u. u.id) p.doc_unit_id units

abbrev pub impact_of : FactProjection → FactDelta → Bool → ActionClass → ℕ → Impact
impact_of p d blocked action rule = record {
  fact_key = d.fact_key;
  delta = record { from = d.from; to = d.to; kind = d.kind };
  doc_unit_id = p.doc_unit_id;
  projection_id = p.id;
  action = action;
  classification_rule = rule;
  disposition = if blocked then unresolved else disposition_for action;
}

abbrev is_regen : ActionClass → Bool
is_regen deterministic_regen = true
is_regen _ = false

pub pending_file : String → List PendingFile → Option PendingFile
pending_file path files = find? (λ f. f.path == path) files

-- `afterByPath.set(path, …)`: a `Map` keeps an old entry's place.
pub set_file : PendingFile → List PendingFile → List PendingFile
set_file f [] = f ∷ []
set_file f (g ∷ fs) = if g.path == f.path then f ∷ fs else g ∷ set_file f fs

module _ (ctx : Context) where
  -- The text that replaces the span.
  pub rendered : Text → Value → Text
  rendered asserted (num n) = format_value n (style_of asserted)
  rendered asserted (str s) = elim (parse_value (codes s)) [
    | some n ↦ format_value n (style_of asserted)
    | none ↦ ctx.other_number (str s) (style_of asserted)
  ]
  rendered asserted (bool true) = format_value 1 (style_of asserted)
  rendered asserted (bool false) = format_value 0 (style_of asserted)
  rendered asserted null = format_value 0 (style_of asserted)
  rendered asserted v = ctx.other_number v (style_of asserted)

  -- The file's pending content, or what it was read with.
  abbrev base_of : SourceFile → Option PendingFile → Text
  base_of file none = file.content
  base_of file (some f) = f.after

  abbrev before_of : SourceFile → Option PendingFile → Text
  before_of file none = file.content
  before_of file (some f) = f.before

  abbrev write_back : DocUnit → Text → List PendingFile → Option Text → Option (List PendingFile)
  write_back unit before files none = none
  write_back unit before files (some after) =
      some (set_file (record { path = unit.path; before = before; after = after }) files)

  -- The substitution on top of what the file's pending content is.
  pub substitute :
      DocUnit → Span → Text → List PendingFile → Option SourceFile → Option (List PendingFile)
  substitute unit span replacement files none = some files
  substitute unit span replacement files (some file) =
      let pending = pending_file unit.path files in
      write_back unit (before_of file pending) files
        (replace_span (base_of file pending) unit.body span replacement)

  -- The tail of the loop body: a mechanical substitution in a hand-written unit.
  patch_with : DocUnit → Value → Value → Option Span → List PendingFile → Option (List PendingFile)
  patch_with unit (str asserted) to (some span) files =
      substitute unit span (rendered (codes asserted) to) files
        (find? (λ f. f.path == unit.path) ctx.source_files)
  patch_with unit _ to _ files = some files

  pub patch_step :
      DocUnit
      → FactProjection
      → FactDelta
      → ActionClass
      → List PendingFile
      → Option (List PendingFile)
  unfolding patch_with
  patch_step unit p d action files =
      if is_regen action && not unit.generated
      then patch_with unit p.asserted_value d.to p.span files
      else some files

  abbrev is_blocked : FactDelta → Bool
  is_blocked d = includes ctx.conflicted d.fact_key

  -- What the classification gives: an impact, and a patch unless the key is blocked.
  abbrev record_impact : Pending → List Impact → Option (List PendingFile) → Option Pending
  record_impact s impacts none = none
  record_impact s impacts (some files) =
      some (record { impacts = s.impacts ++ impacts; files = files })

  pub after_classify :
      DocUnit → FactProjection → FactDelta → Pending → Classification → Option Pending
  after_classify unit p d s violation = none
  after_classify unit p d s exhausted = none
  after_classify unit p d s (classified action rule) =
      record_impact s (impact_of p d (is_blocked d) action rule ∷ [])
        (if is_blocked d then some s.files else patch_step unit p d action s.files)

  abbrev pub context_of : FactProjection → FactDelta → DocUnit → ClassifyContext
  context_of p d unit = record {
    projection = p;
    delta = d;
    unit = unit;
    arbitration = arbitration_of ctx.arbitrations d.fact_key;
  }

  -- One round of the inner loop, for a delta and a projection of its fact.
  unfoldable pub visit : FactDelta × FactProjection → Pending → Option Pending
  visit (d, p) s = elim (unit_of ctx.units p) [
    | none ↦ some s
    | some unit ↦ after_classify unit p d s (classify (context_of p d unit))
  ]

  pub visit_all : List (FactDelta × FactProjection) → Pending → Option Pending
  visit_all [] s = some s
  visit_all (t ∷ ts) s = elim (visit t s) [ none ↦ none | some s' ↦ visit_all ts s' ]

-- The rounds of the two loops, in order.
pub traced : List FactDelta → List FactProjection → List (FactDelta × FactProjection)
traced deltas projections =
    flat_map (λ d. map (λ p. (d, p)) (filter (λ p. p.fact_key == d.fact_key) projections)) deltas

pub record PipelineInput : Type 0 where
  pub previous : ProductTruthSnapshot
  pub current : ProductTruthSnapshot
  pub files : List SourceFile
  pub detected_at : String
  -- The CLI capture, with which the generators run.
  pub has_cli : Bool

pub record Generated : Type 0 where
  pub diffs : List FileDiff
  pub paths : List String

pub record PipelineOutput : Type 0 where
  pub deltas : List FactDelta
  pub units : List DocUnit
  pub projections : List FactProjection
  pub impacts : List Impact
  pub patches : List FileDiff
  pub findings : List Finding
  pub generated_paths : List String
  pub conflicts : List ConflictDraft

-- The stages of the pipeline that other modules of the core implement.
pub record Stages : Type 0 where
  pub parse_estate : List SourceFile → List DocUnit
  pub run_extractors :
      List DocUnit
      → List FactClaim
      → String
      → List (String × String)
      → List FactClaim
      → List FactProjection
  pub check_internal_links : List DocUnit → List Finding
  pub missing_coverage : List FactClaim → List DocUnit → List Finding
  -- `none` where it throws.
  pub detect_conflicts : List FactClaim → List DocUnit → Option (List ConflictDraft)
  pub run_generators : List FactClaim → List FactClaim → List SourceFile → Generated
  pub other_number : Value → ValueStyle → Text

-- The previous canonical terms, by fact key.
prior_term : FactClaim → List (String × String)
prior_term fact =
    if has_prefix (codes "term.canonical.") (codes fact.key)
    then elim (text_of fact.value) [ none ↦ [] | some t ↦ (fact.key, t) ∷ [] ]
    else []

-- `new Map(…)` of the generators' diffs: the last one of a path counts.
pub seed_files : List FileDiff → List PendingFile → List PendingFile
seed_files [] files = files
seed_files (d ∷ ds) files =
    seed_files ds (set_file (record { path = d.path; before = d.before; after = d.after }) files)

module _ (stages : Stages) where
  pub projections_of : PipelineInput → List DocUnit → List FactProjection
  unfolding prior_term
  projections_of input units =
      stages.run_extractors units input.current.facts input.detected_at
        (flat_map prior_term input.previous.facts) input.previous.facts

  pub findings_of : PipelineInput → List DocUnit → List FactProjection → List Finding
  findings_of input units projections =
      consistency_findings input.current.facts projections
      ++ (undocumented_fact_findings input.current.facts projections
          ++ (authority_conflict_findings input.current.facts
              ++ (stages.check_internal_links units
                  ++ (undeclared_reference_findings units projections
                      ++ stages.missing_coverage input.current.facts units))))

  pub generated_of : PipelineInput → Generated
  generated_of input =
      if input.has_cli
      then stages.run_generators input.previous.facts input.current.facts input.files
      else record { diffs = []; paths = [] }

  unfoldable pub context : PipelineInput → List ConflictDraft → Context
  context input conflicts = record {
    units = stages.parse_estate input.files;
    source_files = input.files;
    arbitrations = arbitrate_all input.current.facts;
    conflicted = map (λ c. c.fact_key) conflicts;
    other_number = stages.other_number;
  }

  abbrev pub seed : List FileDiff → Pending
  seed diffs = record { impacts = []; files = seed_files diffs [] }

  unfoldable pub output_of : PipelineInput → List ConflictDraft → Pending → PipelineOutput
  output_of input conflicts s =
      let units = stages.parse_estate input.files in
      let projections = projections_of input units in
      record {
        deltas = detect_deltas input.previous input.current;
        units = units;
        projections = projections;
        impacts = s.impacts;
        patches = map (λ f. make_diff f.path f.before f.after) s.files;
        findings = findings_of input units projections;
        generated_paths = (generated_of input).paths;
        conflicts = conflicts;
      }

  abbrev pub finish : PipelineInput → List ConflictDraft → Option Pending → Option PipelineOutput
  finish input conflicts none = none
  finish input conflicts (some s) = some (output_of input conflicts s)

  -- The units, and the rounds of the two loops.
  abbrev pub run_units : PipelineInput → List DocUnit
  run_units input = stages.parse_estate input.files

  abbrev pub run_rounds : PipelineInput → List (FactDelta × FactProjection)
  run_rounds input =
      traced (detect_deltas input.previous input.current) (projections_of input (run_units input))

  unfoldable pub run_pipeline : PipelineInput → Option PipelineOutput
  run_pipeline input =
      stages.detect_conflicts input.current.facts (run_units input) >>= λ conflicts.
      finish input conflicts
        (visit_all (context input conflicts) (run_rounds input) (seed (generated_of input).diffs))
