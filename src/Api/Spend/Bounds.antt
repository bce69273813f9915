-- ===== src/Api/Spend/Bounds.antt =====
-- The caps on model calls (packages/concord-api/src/spend.ts, run.ts) under every interleaving.
use doc_eng_demo.Prelude.{
  ℕ, zero, suc, ◌+◌, ◌-◌, ◌≤◌, ◌<◌, ◌≡◌, refl, ◌∙◌, none, some, List, [], ◌∷◌, length, arith, ◌⊎◌,
  inl, inr,
}
use doc_eng_demo.Api.Spend.{
  Usage, estimate_cost, SpendState, record_model_call, reserve, RunCalls, batch_limit, run_start,
  answered, Step, call, answer, Reach, here, next, extract_all,
}

-- What a reserved slot has passed, and what it changes.
reserve_lem :
    (s t : SpendState)
    → reserve s ≡ some t
    → (s.calls_this_run < s.max_calls_per_run)
      × (s.spent_today < s.daily_cap)
      × (t.calls_this_run ≡ s.calls_this_run + 1)
      × (t.max_calls_per_run ≡ s.max_calls_per_run)
      × (t.spent_today ≡ s.spent_today)
      × (t.daily_cap ≡ s.daily_cap)
unfolding reserve
reserve_lem s t h =
    (ground arith, ground arith, ground arith, ground arith, ground arith, ground arith)

-- The invariant of a run's guarded calls, over its first state.
pub record IsBudgeted (s : SpendState) (t : RunCalls) : Type 0 where
  pub limit : t.spend.max_calls_per_run ≡ s.max_calls_per_run
  pub counted : t.spend.calls_this_run ≡ s.calls_this_run + t.made
  pub within : (t.made ≡ 0) ⊎ (t.spend.calls_this_run ≤ s.max_calls_per_run)
  pub width : t.in_flight ≤ batch_limit

Step-IsBudgeted : {s : SpendState} {t u : RunCalls} → Step t u → IsBudgeted s t → IsBudgeted s u
unfolding record_model_call
Step-IsBudgeted {s} {t} (call spend passed room) h =
    let (calls, _, one, same, _, _) = reserve_lem t.spend spend passed in
    record {
      limit = same ∙ h.limit;
      counted = omega (arith, h.counted);
      within = inr (omega (arith, h.limit));
      width = omega arith;
    }
Step-IsBudgeted {s} {t} (answer u some_left) h = record {
  limit = h.limit;
  counted = h.counted;
  within = h.within;
  width = omega (arith, h.width);
}

Reach-IsBudgeted : {s : SpendState} {t : RunCalls} → Reach (run_start s) t → IsBudgeted s t
Reach-IsBudgeted here = record {
  limit = refl;
  counted = omega arith;
  within = inl refl;
  width = omega arith;
}
Reach-IsBudgeted (next r st) = Step-IsBudgeted st (Reach-IsBudgeted r)

-- However the guarded calls of a run interleave, at most `batch_limit` of them wait at once, and
-- no more are made than the run's cap leaves.
pub Reach-made :
    (s : SpendState) (t : RunCalls)
    → Reach (run_start s) t
    → (t.in_flight ≤ batch_limit) × (t.made ≤ s.max_calls_per_run - s.calls_this_run)
Reach-made s t r = let h = Reach-IsBudgeted r in (h.width, made_bound h.within h.counted)
  where
    made_bound :
        (t.made ≡ 0) ⊎ (t.spend.calls_this_run ≤ s.max_calls_per_run)
        → t.spend.calls_this_run ≡ s.calls_this_run + t.made
        → t.made ≤ s.max_calls_per_run - s.calls_this_run
    made_bound (inl e) c = omega arith
    made_bound (inr l) c = omega arith

-- Every answered call of a run costs at most `c`.
abbrev pub CostsAtMost : ℕ → {s t : RunCalls} → Reach s t → Type 0
CostsAtMost c here = Unit
CostsAtMost c (next r (call spend passed room)) = CostsAtMost c r
CostsAtMost c (next r (answer u left)) = (estimate_cost u ≤ c) × CostsAtMost c r

extract_all-made :
    (us : List Usage) (s : RunCalls)
    → ((extract_all us s).made ≡ s.made + length us)
      × ((extract_all us s).spend.calls_this_run ≡ s.spend.calls_this_run)
      × ((extract_all us s).spend.max_calls_per_run ≡ s.spend.max_calls_per_run)
      × ((extract_all us s).spend.daily_cap ≡ s.spend.daily_cap)
      × ((extract_all us s).in_flight ≡ s.in_flight)
unfolding extract_all record_model_call
extract_all-made [] s = (omega arith, refl, refl, refl, refl)
extract_all-made (u ∷ us) s =
    let t : RunCalls = record {
      spend = record_model_call u s.spend;
      in_flight = s.in_flight;
      made = s.made + 1;
    } in
    let (made, calls, most, cap, width) = extract_all-made us t in
    (omega (arith, made), calls, most, cap, width)

abbrev free : Usage
free = record {
  input_tokens = 0;
  output_tokens = 0;
  cache_creation_input_tokens = none;
  cache_read_input_tokens = none;
}

abbrev reserved : SpendState → SpendState
reserved s = record s { calls_this_run = s.calls_this_run + 1 }

reserve-some :
    (s : SpendState)
    → s.calls_this_run < s.max_calls_per_run
    → s.spent_today < s.daily_cap
    → reserve s ≡ some (reserved s)
unfolding reserve
reserve-some s h k = ground arith

Reach-trans : {s t u : RunCalls} → Reach s t → Reach t u → Reach s u
Reach-trans r here = r
Reach-trans r (next q st) = next (Reach-trans r q) st

-- A run that makes `k` more calls, each answered at once and free of charge.
fill :
    (k : ℕ) (t : RunCalls)
    → t.spend.calls_this_run + k ≤ t.spend.max_calls_per_run
    → t.spend.spent_today < t.spend.daily_cap
    → t.in_flight ≡ 0
    → (u : RunCalls) × Reach t u × (u.made ≡ t.made + k)
unfolding record_model_call estimate_cost
fill zero t h b w = (t, here, omega arith)
fill (suc k) t h b w =
    let waiting : RunCalls = record {
      spend = reserved t.spend;
      in_flight = t.in_flight + 1;
      made = t.made + 1;
    } in
    let (u, r, made) =
      fill k (answered free waiting) (omega arith) (omega arith) (omega (arith, w)) in
    (
      u,
      Reach-trans
          (next
            (next here
              (call (reserved t.spend) (reserve-some t.spend (omega arith) b) (omega (arith, w))))
            (answer free (omega arith)))
          r,
      omega (arith, made),
    )

-- The calls of the model extraction take no slot of the run's cap: after any number of them a run
-- that has reserved no slot and is within its daily cap can still make as many guarded calls as the
-- cap allows, so that all calls together exceed it by those of the extraction.
pub extract_all-exceeds :
    (s : SpendState) (us : List Usage)
    → s.calls_this_run ≡ 0
    → (extract_all us (run_start s)).spend.spent_today < s.daily_cap
    → (t : RunCalls) × Reach (extract_all us (run_start s)) t
      × (t.made ≡ length us + s.max_calls_per_run)
extract_all-exceeds s us fresh b =
    let (made, calls, most, cap, width) = extract_all-made us (run_start s) in
    let (t, r, e) =
      fill s.max_calls_per_run (extract_all us (run_start s)) (omega (arith, calls, most))
        (omega (arith, cap)) width in
    (t, r, omega (arith, e, made))
