-- ===== src/Api/Fanout/Tests.antt =====
-- Instances of the properties of `mapConcurrent`: two items with two workers, the second done first.
use doc_eng_demo.Prelude.{ℕ, ◌*◌, ◌≤◌, ◌<◌, ◌≡◌, refl, [], ◌∷◌, length, Member, arith}
use doc_eng_demo.Api.Fanout.{Fanout, Step, claim, finish, Reach, start, more, IsFinished}
use doc_eng_demo.Api.Fanout.Complete.{steps, Reach-complete, Reach-ends}

abbrev both_running : Fanout
both_running = record { next = 2; running = 1 ∷ 0 ∷ []; done = [] }

abbrev both_done : Fanout
both_done = record { next = 2; running = []; done = 0 ∷ 1 ∷ [] }

two_claims : Reach 2 2 both_running
two_claims =
    more (more start (claim (ground arith) (ground arith))) (claim (ground arith) (ground arith))

all_run : Reach 2 2 both_done
all_run = more (more two_claims (finish 1 [] (0 ∷ []) refl)) (finish 0 [] [] refl)

Reach-complete_example : (length both_done.done ≡ 2) × ((i : ℕ) → i < 2 → Member i both_done.done)
Reach-complete_example =
    Reach-complete 2 2 both_done all_run (record { all_claimed = ground arith; idle = refl })

Reach-ends_example :
    (steps two_claims ≤ 2 * 2)
    × (steps two_claims < 2 * 2 → (t : Fanout) × Step 2 2 both_running t)
    × (steps two_claims ≡ 2 * 2 → IsFinished 2 both_running)
Reach-ends_example = Reach-ends 2 2 both_running two_claims (ground arith)
