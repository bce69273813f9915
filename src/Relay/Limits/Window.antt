-- ===== src/Relay/Limits/Window.antt =====
-- The rate limit of packages/relay-api/src/analysis/limits-guard.ts over every hour.
use doc_eng_demo.Prelude.{
  ℕ, suc, ◌+◌, ◌-◌, ◌≤◌, String, Bool, true, false, ◌&&◌, List, [], ◌∷◌, filter, length, leb, arith,
  ◌==◌, if◌then◌else◌,
}
use doc_eng_demo.Relay.Limits.{
  Request, hour, model_rate_limit_per_hour, is_request, Counted, Guard, Reach, here, next,
}

-- In the hour from a given time on.
abbrev pub is_within : String → String → ℕ → Request → Bool
is_within ip_hash route start r =
    is_request ip_hash route r && (leb start r.created_at && leb r.created_at (start + hour))

abbrev pub within_hour : String → String → ℕ → List Request → ℕ
within_hour ip_hash route start rows = length (filter (is_within ip_hash route start) rows)

-- Of every address and route, no hour has more requests than the bound.
abbrev pub IsLimited : ℕ → List Request → Type 0
IsLimited n rows = (ip_hash route : String) (start : ℕ) → within_hour ip_hash route start rows ≤ n

-- All along the run, at most `width` requests wait between their count and their insert.
abbrev pub IsNarrow :
    ℕ → {sha256_hex : String → String} {s t : Guard} → Reach sha256_hex s t → Type 0
IsNarrow width here = Unit
IsNarrow width (next {t} {u} r st) = (length u.counted ≤ width) × IsNarrow width r

-- Behind the count, and to be inserted in the hour from a given time on, if at all in it.
abbrev is_due : String → String → ℕ → Counted → Bool
is_due ip_hash route start c =
    (c.ip_hash == ip_hash && c.route == route) && leb c.counted_at (start + hour)

abbrev due : String → String → ℕ → List Counted → ℕ
due ip_hash route start cs = length (filter (is_due ip_hash route start) cs)

-- With at most `width` requests between their count and their insert: the rows of an hour, with those
-- that may yet come into it.
abbrev IsBounded : ℕ → Guard → Type 0
IsBounded width s =
    (ip_hash route : String) (start : ℕ)
    → within_hour ip_hash route start s.rows + due ip_hash route start s.counted
      ≤ model_rate_limit_per_hour - 1 + width

pub filter-length_le : {A : Type 0} (p : A → Bool) (xs : List A) → length (filter p xs) ≤ length xs
filter-length_le p [] = omega arith
filter-length_le p (x ∷ xs) = either (p x) (filter-length_le p xs)
  where
    either :
        (b : Bool)
        → length (filter p xs) ≤ length xs
        → length (if b then x ∷ filter p xs else filter p xs) ≤ suc (length xs)
    either true h = omega (arith, h)
    either false h = omega (arith, h)

-- One of a list, taken out of it: its weight is that of the rest and its own.
weight : Bool → ℕ
weight true = 1
weight false = 0
