-- ===== src/Api/Spend.antt =====
-- packages/concord-api/src/spend.ts and the guarded calls of run.ts. Amounts of money are in units
-- of 10^-8 USD, in which every price is a whole number.
pub mod Bounds
pub mod Tests
use doc_eng_demo.Prelude.{
  ℕ, zero, suc, ◌+◌, ◌-◌, ◌*◌, ◌≤◌, ◌<◌, ◌≡◌, Bool, true, false, Option, none, some, List, [], ◌∷◌,
  leb, length, if◌then◌else◌,
}

abbrev pub max_model_calls_per_run : ℕ
max_model_calls_per_run = 20

abbrev pub daily_spend_cap : ℕ
daily_spend_cap = 500_000_000

pub record Usage : Type 0 where
  pub input_tokens : ℕ
  pub output_tokens : ℕ
  pub cache_creation_input_tokens : Option ℕ
  pub cache_read_input_tokens : Option ℕ

-- `n ?? 0`
abbrev or_zero : Option ℕ → ℕ
or_zero none = 0
or_zero (some n) = n

unfoldable pub estimate_cost : Usage → ℕ
estimate_cost u =
    u.input_tokens * 500
    + or_zero u.cache_creation_input_tokens * 625
    + or_zero u.cache_read_input_tokens * 50
    + u.output_tokens * 2500

pub record SpendState : Type 0 where
  pub calls_this_run : ℕ
  pub max_calls_per_run : ℕ
  pub spent_today : ℕ
  pub daily_cap : ℕ

pub record Overrides : Type 0 where
  pub max_calls : Option ℕ
  pub cap : Option ℕ

abbrev or_default : Option ℕ → ℕ → ℕ
or_default none d = d
or_default (some n) d = n

-- `spent` is the sum of the day's rows in the table `model_call`.
unfoldable pub load_spend_state : ℕ → Overrides → SpendState
load_spend_state spent o = record {
  calls_this_run = 0;
  max_calls_per_run = or_default o.max_calls max_model_calls_per_run;
  spent_today = spent;
  daily_cap = or_default o.cap daily_spend_cap;
}

-- True where the source returns the reason "budget_exhausted", false for `null`.
unfoldable pub spend_gate : SpendState → Bool
spend_gate s =
    if leb s.max_calls_per_run s.calls_this_run then true else leb s.daily_cap s.spent_today

unfoldable pub record_model_call : Usage → SpendState → SpendState
record_model_call u s = record s { spent_today = s.spent_today + estimate_cost u }

-- The synchronous part of `guardedCall`: the gate, and the reserved slot.
unfoldable pub reserve : SpendState → Option SpendState
unfolding spend_gate
reserve s = if spend_gate s then none else some (record s { calls_this_run = s.calls_this_run + 1 })

-- The model calls of a run: the state that they share, those that wait for an answer, and those
-- made so far.
pub record RunCalls : Type 0 where
  pub spend : SpendState
  pub in_flight : ℕ
  pub made : ℕ

abbrev pub batch_limit : ℕ
batch_limit = 5

abbrev pub run_start : SpendState → RunCalls
run_start s = record { spend = s; in_flight = 0; made = 0 }

abbrev pub answered : Usage → RunCalls → RunCalls
answered u s = record {
  spend = record_model_call u s.spend;
  in_flight = s.in_flight - 1;
  made = s.made;
}

-- What may happen next while the batches of `mapConcurrent` run. A call that throws ends the run.
pub data Step (s : RunCalls) : RunCalls → Type 0 where
  call :
      (spend : SpendState)
      → reserve s.spend ≡ some spend
      → s.in_flight < batch_limit
      → Step s (record { spend = spend; in_flight = s.in_flight + 1; made = s.made + 1 })
  answer : (u : Usage) → 0 < s.in_flight → Step s (answered u s)

pub data Reach (s : RunCalls) : RunCalls → Type 0 where
  here : Reach s s
  next : {t u : RunCalls} → Reach s t → Step t u → Reach s u

-- The calls of `runModelExtraction`, which pass no gate: one usage for each that was answered.
unfoldable pub extract_all : List Usage → RunCalls → RunCalls
extract_all [] s = s
extract_all (u ∷ us) s =
    extract_all us
      (record { spend = record_model_call u s.spend; in_flight = s.in_flight; made = s.made + 1 })
