-- ===== src/Concord/Falsify.antt =====
-- packages/concord-core/src/falsify.ts: which findings face a falsifier, and how its answer is read.
-- Parsing JSON into the response's shape is the platform's and `zod`'s; prompts are prose.
use doc_eng_demo.Prelude.{
  String, Bool, true, false, Option, none, some, List, [], ◌∷◌, ltb, ◌==◌, if◌then◌else◌,
}
use doc_eng_demo.Contracts.Records.{Text, certain}
use doc_eng_demo.Concord.Types.{FactProjection, Finding, FindingKind, inconsistent_value}
use doc_eng_demo.Concord.Pipeline.{map_get}

abbrev is_value_finding : FindingKind → Bool
is_value_finding inconsistent_value = true
is_value_finding _ = false

-- `id ? projectionsById.get(id) : undefined`
unfoldable pub projection_of : Option String → List FactProjection → Option FactProjection
projection_of none projections = none
projection_of (some id) projections = if id == "" then none else map_get (λ p. p.id) id projections

abbrev is_uncertain : Option FactProjection → Bool
is_uncertain none = false
is_uncertain (some p) = ltb p.confidence certain

unfoldable pub needs_falsification : Finding → List FactProjection → Bool
unfolding projection_of
needs_falsification f projections =
    if is_value_finding f.kind
    then is_uncertain (projection_of f.projection_id projections)
    else false

pub record FalsifierVerdict : Type 0 where
  pub refuted : Bool
  pub refutation : Option String

abbrev or_stated : Bool → Option String → Option String
or_stated refuted (some t) = some t
or_stated true none = some "refuted without stated reason — suppressed"
or_stated false none = none

abbrev pub stated_reason : FalsifierVerdict → FalsifierVerdict
stated_reason v = record { refuted = v.refuted; refutation = or_stated v.refuted v.refutation }

abbrev pub default_refuted : String → FalsifierVerdict
default_refuted why = record { refuted = true; refutation = some why }

abbrev pub read_response : Option FalsifierVerdict → FalsifierVerdict
read_response none =
    default_refuted "falsifier response failed schema validation — suppressed under uncertainty"
read_response (some v) = stated_reason v

-- `JSON.parse` and the schema are given; `none` is their throw.
unfoldable pub parse_falsifier_response :
    (Text → Option FalsifierVerdict) → Option Text → FalsifierVerdict
parse_falsifier_response parse none =
    default_refuted "falsifier returned no analysis — suppressed under uncertainty"
parse_falsifier_response parse (some []) =
    default_refuted "falsifier returned no analysis — suppressed under uncertainty"
parse_falsifier_response parse (some (c ∷ cs)) = read_response (parse (c ∷ cs))
