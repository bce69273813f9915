-- ===== src/Relay/Limits/Tests.antt =====
-- An instance of the property of the rate limit: a table with nineteen requests of one address, which
-- counts two further requests before it inserts them.
use doc_eng_demo.Prelude.{ℕ, zero, suc, ◌≡◌, refl, String, [], ◌∷◌, arith, List}
use doc_eng_demo.Relay.Limits.{
  Request, Budgeted, Counted, Guard, check_budget, check_rate, estimated_spend_today, spend_from,
  pass_budget, count, insert, Reach, here, next, guard_start,
}
use doc_eng_demo.Relay.Limits.Window.{within_hour}

abbrev digest : String → String
digest ip = ip

abbrev repeat : ℕ → Request → List Request
repeat zero r = []
repeat (suc n) r = r ∷ repeat n r

abbrev rows : List Request
rows = repeat 19 (record { ip_hash = "10.0.0.1"; route = "analysis"; created_at = 100_000_000 })

abbrev visitor : Budgeted
visitor = record { client_ip = "10.0.0.1"; route = "analysis" }

abbrev counted : Counted
counted = record { ip_hash = "10.0.0.1"; route = "analysis"; counted_at = 100_000_500 }

-- Both requests behind the budget, and then behind the count.
two_budgeted :
    Reach digest
      (guard_start rows)
      (record (guard_start rows) { budgeted = visitor ∷ visitor ∷ [] })
unfolding check_budget estimated_spend_today spend_from
two_budgeted =
    next (next here (pass_budget [] 100_000_400 visitor refl))
      (pass_budget [] 100_000_400 visitor refl)

two_counted :
    Reach digest (guard_start rows) (record (guard_start rows) { counted = counted ∷ counted ∷ [] })
unfolding check_rate
two_counted =
    next (next two_budgeted (count [] (visitor ∷ []) visitor 100_000_500 refl refl))
      (count [] [] visitor 100_000_500 refl refl)

abbrev inserted : Guard
inserted = record {
  rows =
      record { ip_hash = "10.0.0.1"; route = "analysis"; created_at = 100_000_600 }
      ∷ record { ip_hash = "10.0.0.1"; route = "analysis"; created_at = 100_000_600 }
      ∷ rows;
  budgeted = [];
  counted = [];
  inserted = 2;
}

two_inserted : Reach digest (guard_start rows) inserted
two_inserted =
    next (next two_counted (insert [] (counted ∷ []) counted 100_000_600 refl (ground arith)))
      (insert [] [] counted 100_000_600 refl (ground arith))

-- One request beyond the limit.
beyond : within_hour "10.0.0.1" "analysis" 100_000_000 inserted.rows ≡ 21
beyond = refl
