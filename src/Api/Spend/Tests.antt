-- ===== src/Api/Spend/Tests.antt =====
-- Instances of the properties of the run's caps: one guarded call, then the extraction's.
use doc_eng_demo.Prelude.{◌+◌, ◌-◌, ◌≤◌, ◌≡◌, refl, none, [], ◌∷◌, length, arith}
use doc_eng_demo.Api.Spend.{
  Usage, SpendState, RunCalls, batch_limit, run_start, call, answer, answered, Reach, here, next,
  extract_all, max_model_calls_per_run, daily_spend_cap, estimate_cost, reserve, record_model_call,
}
use doc_eng_demo.Api.Spend.Bounds.{Reach-made, extract_all-exceeds}

abbrev fresh : SpendState
fresh = record {
  calls_this_run = 0;
  max_calls_per_run = max_model_calls_per_run;
  spent_today = 0;
  daily_cap = daily_spend_cap;
}

abbrev small : Usage
small = record {
  input_tokens = 1000;
  output_tokens = 100;
  cache_creation_input_tokens = none;
  cache_read_input_tokens = none;
}

abbrev reserved : SpendState
reserved = record fresh { calls_this_run = 1 }

abbrev waiting : RunCalls
waiting = record { spend = reserved; in_flight = 1; made = 1 }

one_call : Reach (run_start fresh) waiting
unfolding reserve
one_call = next here (call reserved refl (ground arith))

one_answer : Reach (run_start fresh) (answered small waiting)
one_answer = next one_call (answer small (ground arith))

Reach-made_example :
    ((answered small waiting).in_flight ≤ batch_limit)
    × ((answered small waiting).made ≤ fresh.max_calls_per_run - fresh.calls_this_run)
Reach-made_example = Reach-made fresh (answered small waiting) one_answer

abbrev extracted : RunCalls
extracted = extract_all (small ∷ small ∷ []) (run_start fresh)

extract_all-exceeds_example :
    (t : RunCalls) × Reach extracted t
    × (t.made ≡ length (small ∷ small ∷ []) + fresh.max_calls_per_run)
unfolding extract_all record_model_call estimate_cost
extract_all-exceeds_example = extract_all-exceeds fresh (small ∷ small ∷ []) refl (ground arith)
