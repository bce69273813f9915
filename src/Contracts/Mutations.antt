-- ===== src/Contracts/Mutations.antt =====
-- packages/contracts/src/change-lab.ts: the allowlist of fact mutations.
use doc_eng_demo.Prelude.{
  String, Bool, true, false, Option, none, some, List, [], ◌∷◌, any, includes, if◌then◌else◌,
}
use doc_eng_demo.Value.{Value, bool, num, str, strict_eq}
use doc_eng_demo.Contracts.Facts.{own_property, prototype_names}
use doc_eng_demo.Contracts.Records.{Text}

abbrev pub fact_mutation_allowlist : List (String × List Value)
fact_mutation_allowlist =
    ("term.canonical.task", str "Job" ∷ str "Task" ∷ str "Run" ∷ [])
    ∷ ("limit.upload.csv.max_bytes", num 5_242_880 ∷ num 10_485_760 ∷ num 26_214_400 ∷ [])
    ∷ ("availability.feature.analysis_sessions.platform.ios", bool true ∷ bool false ∷ [])
    ∷ ("availability.feature.analysis_sessions.platform.android", bool true ∷ bool false ∷ [])
    ∷ ("availability.feature.connector_drive.platform.web", bool true ∷ bool false ∷ [])
    ∷ ("retention.artifact.days", num 7 ∷ num 30 ∷ num 90 ∷ [])
    ∷ ("plan.feature.analysis_sessions.min_plan", str "free" ∷ str "pro" ∷ str "team" ∷ [])
    ∷ ("flag.analysis.regression_enabled", bool true ∷ bool false ∷ [])
    ∷ ("analysis.operation.distribution_test.enabled", bool true ∷ bool false ∷ [])
    ∷ []

-- `allowed` is the list of a listed key, and a member of `Object.prototype` under its name.
-- That has no method `some`: the call throws, which is `none`.
unfoldable pub mutation_allowed : String → Value → Option Bool
mutation_allowed fact_key value = elim (own_property fact_key fact_mutation_allowlist) [
  | some allowed ↦ some (any (λ v. strict_eq v value) allowed)
  | none ↦ if includes prototype_names fact_key then none else some false
]

-- `key in FACT_MUTATION_ALLOWLIST`
unfoldable pub in_allowlist : String → Bool
in_allowlist fact_key = elim (own_property fact_key fact_mutation_allowlist) [
  | some allowed ↦ true
  | none ↦ includes prototype_names fact_key
]

pub data AllowedMutation : Type 0 where
  fact_value : String → Value → AllowedMutation
  doc_body : String → Text → AllowedMutation
