-- ===== src/Api/Fanout.antt =====
-- `mapConcurrent` of packages/concord-api/src/run.ts: workers that share one counter. Between two
-- `await`s a worker runs alone, so that claiming an index is one step.
pub mod Complete
pub mod Tests
use doc_eng_demo.Prelude.{ℕ, zero, suc, ◌+◌, ◌≤◌, ◌<◌, ◌≡◌, List, [], ◌∷◌, ◌++◌, length, min}

-- The next index to claim, those whose task is in flight, and those whose result is stored.
pub record Fanout : Type 0 where
  pub next : ℕ
  pub running : List ℕ
  pub done : List ℕ

abbrev pub initial : Fanout
initial = record { next = 0; running = []; done = [] }

-- `n` items, at most `limit` workers.
pub data Step (n limit : ℕ) (s : Fanout) : Fanout → Type 0 where
  claim :
      s.next < n
      → length s.running < min limit n
      → Step n limit s (record { next = s.next + 1; running = s.next ∷ s.running; done = s.done })
  finish :
      (i : ℕ) (before after : List ℕ)
      → s.running ≡ before ++ (i ∷ after)
      → Step n limit s (record { next = s.next; running = before ++ after; done = i ∷ s.done })

pub data Reach (n limit : ℕ) : Fanout → Type 0 where
  start : Reach n limit initial
  more : {s t : Fanout} → Reach n limit s → Step n limit s t → Reach n limit t

-- `Promise.all` resolves: every worker has found no index left.
pub record IsFinished (n : ℕ) (s : Fanout) : Type 0 where
  pub all_claimed : n ≤ s.next
  pub idle : s.running ≡ []
