-- ===== src/Relay/Limits.antt =====
-- packages/relay-api/src/analysis/limits-guard.ts: the guard before a model call. Times are
-- milliseconds since the epoch, in whose order the stored ISO texts are compared; the digest of an
-- address is the platform's. Each query, insert and prune is a step of its own, behind which others
-- may come: the code awaits each.
pub mod Window
pub mod Tests
use doc_eng_demo.Prelude.{
  ℕ, ◌+◌, ◌-◌, ◌≤◌, ◌<◌, ◌≡◌, ◌++◌, ◌*◌, ◌/◌, String, Bool, true, false, ◌&&◌, Option, none, some,
  List, [], ◌∷◌, filter, length, leb, ◌==◌, if◌then◌else◌,
}

-- 5 USD, in units of 10^-6 USD.
abbrev pub daily_spend_cap : ℕ
daily_spend_cap = 5_000_000

abbrev pub model_rate_limit_per_hour : ℕ
model_rate_limit_per_hour = 20

abbrev pub hour : ℕ
hour = 3_600_000

abbrev pub day : ℕ
day = 86_400_000

-- A row of `model_call` for the model in use.
pub record ModelCall : Type 0 where
  pub input_tokens : ℕ
  pub output_tokens : ℕ
  pub created_at : ℕ

-- A row of `request_rate`.
pub record Request : Type 0 where
  pub ip_hash : String
  pub route : String
  pub created_at : ℕ

pub data GuardRejection : Type 0 where
  budget_exhausted rate_limited : GuardRejection

unfoldable pub spend_from : ℕ → List ModelCall → ℕ
spend_from start [] = 0
spend_from start (c ∷ cs) =
    let rest = spend_from start cs in
    if leb start c.created_at then c.input_tokens * 5 + (c.output_tokens * 25 + rest) else rest

-- The calls since the start of the day in UTC.
unfoldable pub estimated_spend_today : ℕ → List ModelCall → ℕ
estimated_spend_today now calls = spend_from (now / day * day) calls

abbrev pub is_request : String → String → Request → Bool
is_request ip_hash route r = r.ip_hash == ip_hash && r.route == route

abbrev pub is_recent : ℕ → Request → Bool
is_recent start r = leb start r.created_at

abbrev pub recent_requests : String → String → ℕ → List Request → List Request
recent_requests ip_hash route start rows =
    filter (λ r. is_request ip_hash route r && is_recent start r) rows

abbrev or_unknown : String → String
or_unknown ip = if ip == "" then "unknown" else ip

-- The budget, asked first: `none` where it leaves room.
unfoldable pub check_budget : List ModelCall → ℕ → Option GuardRejection
check_budget calls now =
    if leb daily_spend_cap (estimated_spend_today now calls) then some budget_exhausted else none

-- The rate of the address on the route, from the rows at the time of the count.
unfoldable pub check_rate : String → String → ℕ → List Request → Option GuardRejection
check_rate ip_hash route now rows =
    if leb model_rate_limit_per_hour (length (recent_requests ip_hash route (now - hour) rows))
    then some rate_limited
    else none

-- A request between two of its waits: behind the budget, and behind the count, with its time.
pub record Budgeted : Type 0 where
  pub client_ip : String
  pub route : String

pub record Counted : Type 0 where
  pub ip_hash : String
  pub route : String
  pub counted_at : ℕ

-- The table, the requests that wait, and how many have yet to prune.
pub record Guard : Type 0 where
  pub rows : List Request
  pub budgeted : List Budgeted
  pub counted : List Counted
  pub inserted : ℕ

abbrev pub insert_row : Counted → ℕ → List Request → List Request
insert_row c now rows = record { ip_hash = c.ip_hash; route = c.route; created_at = now } ∷ rows

abbrev pub prune_rows : ℕ → List Request → List Request
prune_rows now rows = filter (is_recent (now - day)) rows

-- What may happen next: a request comes and asks the budget, one behind the budget counts and is
-- turned away or goes on, one behind the count inserts its row at a later time, or its insert fails
-- and it throws, and one behind its insert prunes.
pub data Step (sha256_hex : String → String) (s : Guard) : Guard → Type 0 where
  exhaust :
      (calls : List ModelCall) (now : ℕ)
      → check_budget calls now ≡ some budget_exhausted
      → Step sha256_hex s s
  pass_budget :
      (calls : List ModelCall) (now : ℕ) (b : Budgeted)
      → check_budget calls now ≡ none
      → Step sha256_hex s (record s { budgeted = b ∷ s.budgeted })
  turn_away :
      (front back : List Budgeted) (b : Budgeted) (now : ℕ)
      → s.budgeted ≡ front ++ b ∷ back
      → check_rate (sha256_hex (or_unknown b.client_ip)) b.route now s.rows ≡ some rate_limited
      → Step sha256_hex s (record s { budgeted = front ++ back })
  count :
      (front back : List Budgeted) (b : Budgeted) (now : ℕ)
      → s.budgeted ≡ front ++ b ∷ back
      → check_rate (sha256_hex (or_unknown b.client_ip)) b.route now s.rows ≡ none
      → Step sha256_hex s (record s {
        budgeted = front ++ back;
        counted =
            record {
              ip_hash = sha256_hex (or_unknown b.client_ip);
              route = b.route;
              counted_at = now;
            }
            ∷ s.counted;
      })
  insert :
      (front back : List Counted) (c : Counted) (now : ℕ)
      → s.counted ≡ front ++ c ∷ back
      → c.counted_at ≤ now
      → Step sha256_hex s (record s {
        rows = insert_row c now s.rows;
        counted = front ++ back;
        inserted = s.inserted + 1;
      })
  fail :
      (front back : List Counted) (c : Counted)
      → s.counted ≡ front ++ c ∷ back
      → Step sha256_hex s (record s { counted = front ++ back })
  prune :
      (now : ℕ)
      → 0 < s.inserted
      → Step sha256_hex s (record s { rows = prune_rows now s.rows; inserted = s.inserted - 1 })

pub data Reach (sha256_hex : String → String) (s : Guard) : Guard → Type 0 where
  here : Reach sha256_hex s s
  next : {t u : Guard} → Reach sha256_hex s t → Step sha256_hex t u → Reach sha256_hex s u

abbrev pub guard_start : List Request → Guard
guard_start rows = record { rows = rows; budgeted = []; counted = []; inserted = 0 }
