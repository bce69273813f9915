-- ===== src/Api/Setup/Tests.antt =====
-- Instances of the properties of a run's set-up: a mutation of the limit, and a run of the pipeline
-- whose only key is in conflict.
use Prim.Native.Char.{nul}
use doc_eng_demo.Prelude.{
  ℕ, zero, suc, ◌≡◌, refl, sym, ap, ◌∙◌, String, some, none, [], ◌∷◌, Member, inl, inr, true,
}
use doc_eng_demo.Value.{num, same_json}
use doc_eng_demo.Contracts.Records.{
  FactClaim, ConflictDraft, insufficient_evidence, deterministic_regen,
}
use doc_eng_demo.Contracts.Mutations.{fact_value}
use doc_eng_demo.Concord.Types.{Impact, unresolved}
use doc_eng_demo.Concord.Fixtures.{max_rows, snapshot, rows_fact, rows_projection, rows_delta}
use doc_eng_demo.Concord.Pipeline.{detect_deltas, map_get, impact_of, output_of}
use doc_eng_demo.Concord.Pipeline.Tests.{
  conflicted_stages, input, conflicted_output, conflicted_run_ends,
}
use doc_eng_demo.Api.Spend.{SpendState, max_model_calls_per_run, daily_spend_cap}
use doc_eng_demo.Api.Run.{ImpactRecord, RunInput, RunState}
use doc_eng_demo.Api.Run.Phase.{here}
use doc_eng_demo.Api.Setup.{NewIds, Services, phase_input, start_run, effective_current}
use doc_eng_demo.Api.Setup.Isolated.{effective_current-deltas}
use doc_eng_demo.Api.Setup.Blocked.{IsInjective, Reach-blocked}

alone :
    (f g : FactClaim)
    → Member f (snapshot "before" 500).facts
    → Member g (snapshot "before" 500).facts
    → f.key ≡ g.key
    → f.value ≡ g.value
alone f g (inl e) (inl q) same = ap (λ (c : FactClaim). c.value) (e ∙ sym q)
alone f g (inl e) (inr q) same = absurd q
alone f g (inr e) q same = absurd e

mutation_seen : Member rows_delta (
    detect_deltas (snapshot "before" 500) (
      effective_current "2026-01-01"
        (some (fact_value max_rows (num 900)))
        (snapshot "before" 500)))
unfolding detect_deltas effective_current map_get same_json
mutation_seen = inl refl

effective_current-deltas_example : rows_delta.fact_key ≡ max_rows
effective_current-deltas_example =
    effective_current-deltas (snapshot "before" 500) "2026-01-01" max_rows (num 900) rows_delta
      alone mutation_seen

-- Distinct ids.
ids_from : ℕ → String
ids_from zero = ""
ids_from (suc n) = String.◌∷◌ nul (ids_from n)

ids_from-IsInjective : IsInjective ids_from
unfolding ids_from
ids_from-IsInjective zero zero h = refl
ids_from-IsInjective zero (suc n) h = absurd (cc)
ids_from-IsInjective (suc m) zero h = absurd (cc)
ids_from-IsInjective (suc m) (suc n) h = ap suc (ids_from-IsInjective m n (cc))

abbrev ids : NewIds
ids = record { of_conflict = ids_from; of_impact = ids_from }

abbrev spend : SpendState
spend = record {
  calls_this_run = 0;
  max_calls_per_run = max_model_calls_per_run;
  spent_today = 0;
  daily_cap = daily_spend_cap;
}

abbrev services : Services
services = record {
  operations = record { run_extractors = λ unit facts at. []; sha256_hex = λ t. ""; nfc = λ t. t };
  json = record { parse_value = λ s. none; parse_wire = λ t. none };
}

abbrev run_input : RunInput
run_input = phase_input services [] (rows_fact 900 ∷ []) "2026-01-01" conflicted_output

abbrev started : RunState
started = start_run spend ids conflicted_output

abbrev conflict : ConflictDraft
conflict = record {
  fact_key = max_rows;
  kind = insufficient_evidence;
  claims = [];
  likely_owner = "eng-platform";
}

abbrev blocked_impact : Impact
blocked_impact = impact_of (rows_projection "docs/limits.mdx") rows_delta true deterministic_regen 3

conflict_listed : Member conflict conflicted_output.conflicts
unfolding output_of
conflict_listed = inl refl

impact_listed : Member blocked_impact conflicted_output.impacts
unfolding output_of
impact_listed = inl refl

Reach-blocked_example :
    (r : ImpactRecord) × (c : String) × Member r started.impacts
    × (r.impact ≡ blocked_impact)
    × (blocked_impact.disposition ≡ unresolved)
    × (r.patch_id ≡ none)
    × (r.conflict_id ≡ some c)
Reach-blocked_example =
    Reach-blocked conflicted_stages input conflicted_output spend ids run_input started conflict
      blocked_impact conflicted_run_ends ids_from-IsInjective here conflict_listed impact_listed
      refl
