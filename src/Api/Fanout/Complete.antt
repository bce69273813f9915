-- ===== src/Api/Fanout/Complete.antt =====
-- The promise of `mapConcurrent` (packages/concord-api/src/run.ts): bounded, and complete.
use doc_eng_demo.Prelude.{
  ℕ, suc, ◌+◌, ◌*◌, ◌≤◌, ◌<◌, ◌≡◌, refl, ◌∙◌, ap, List, [], ◌∷◌, ◌++◌, length, length-append,
  Member, Member-append, Member-append_left, Member-append_right, arith, ◌⊎◌, inl, inr,
}
use native.Mathlib.Decide.{dec_lt}
use doc_eng_demo.Api.Fanout.{Fanout, Step, claim, finish, Reach, start, more, IsFinished}

pub record IsTracked (n limit : ℕ) (s : Fanout) : Type 0 where
  pub bounded : length s.running ≤ limit
  pub claimed : s.next ≤ n
  pub counted : length s.running + length s.done ≡ s.next
  pub placed : (i : ℕ) → i < s.next → Member i s.running ⊎ Member i s.done

claim_placed :
    (next : ℕ) (running done : List ℕ)
    → ((i : ℕ) → i < next → Member i running ⊎ Member i done)
    → (i : ℕ) → i < next + 1
    → Member i (next ∷ running) ⊎ Member i done
claim_placed next running done h i k = elim (dec_lt i next) [
  | yes below ↦ older (h i below)
  | no above ↦ inl (inl (omega arith))
]
  where
    older : Member i running ⊎ Member i done → Member i (next ∷ running) ⊎ Member i done
    older (inl m) = inl (inr m)
    older (inr m) = inr m

finish_placed :
    (i : ℕ) (before after running done : List ℕ)
    → running ≡ before ++ (i ∷ after)
    → (j : ℕ) → Member j running ⊎ Member j done
    → Member j (before ++ after) ⊎ Member j (i ∷ done)
finish_placed i before after running done e j (inr m) = inr (inr m)
finish_placed i before after running done e j (inl m) =
    elim (Member-append j before (i ∷ after) (rw e at m)) [
      | inl n ↦ inl (Member-append_left j before after n)
      | inr n ↦ moved n
    ]
  where
    moved : Member j (i ∷ after) → Member j (before ++ after) ⊎ Member j (i ∷ done)
    moved (inl same) = inr (inl same)
    moved (inr n) = inl (Member-append_right j before after n)

Step-IsTracked :
    {n limit : ℕ} {s t : Fanout} → Step n limit s t → IsTracked n limit s → IsTracked n limit t
Step-IsTracked {n} {limit} {s} (claim room idle) h = record {
  bounded = omega (arith, h.bounded);
  claimed = omega arith;
  counted = omega (arith, h.counted);
  placed = λ i k. claim_placed s.next s.running s.done h.placed i k;
}
Step-IsTracked {n} {limit} {s} (finish i before after e) h =
    let split : length s.running ≡ length before + suc (length after) =
      ap length e ∙ length-append before (i ∷ after) in
    record {
      bounded = omega (arith, h.bounded, split, length-append before after);
      claimed = h.claimed;
      counted = omega (arith, h.counted, split, length-append before after);
      placed = λ j k. finish_placed i before after s.running s.done e j (h.placed j k);
    }

Reach-IsTracked : {n limit : ℕ} {s : Fanout} → Reach n limit s → IsTracked n limit s
Reach-IsTracked start = record {
  bounded = omega arith;
  claimed = omega arith;
  counted = omega arith;
  placed = λ i k. absurd (omega arith);
}
Reach-IsTracked (more r st) = Step-IsTracked st (Reach-IsTracked r)

-- Whatever the order in which tasks end, no more than `limit` are ever in flight.
pub Reach-bounded : (n limit : ℕ) (s : Fanout) → Reach n limit s → length s.running ≤ limit
Reach-bounded n limit s r = (Reach-IsTracked r).bounded

-- When all workers have stopped, every item has its result, and there are `n` results in all, so
-- that none was computed twice.
pub Reach-complete :
    (n limit : ℕ) (s : Fanout)
    → Reach n limit s
    → IsFinished n s
    → (length s.done ≡ n) × ((i : ℕ) → i < n → Member i s.done)
Reach-complete n limit s r f =
    let h = Reach-IsTracked r in
    (
      omega (arith, h.counted, h.claimed, f.all_claimed, ap (λ l. length l) f.idle),
      λ i k. stored i (h.placed i (omega (arith, f.all_claimed))),
    )
  where
    stored : (i : ℕ) → Member i s.running ⊎ Member i s.done → Member i s.done
    stored i (inl m) = absurd (rw f.idle at m)
    stored i (inr m) = m

abbrev pub steps : {n limit : ℕ} {s : Fanout} → Reach n limit s → ℕ
steps start = 0
steps (more r st) = suc (steps r)

-- Each step claims one index or stores one result.
steps_lem : {n limit : ℕ} {s : Fanout} (r : Reach n limit s) → steps r ≡ s.next + length s.done
steps_lem start = omega arith
steps_lem (more r (claim room idle)) = omega (arith, steps_lem r)
steps_lem (more r (finish i before after e)) = omega (arith, steps_lem r)

can_step :
    (n limit : ℕ) (s : Fanout)
    → 0 < limit
    → s.next < n ⊎ 0 < length s.running
    → (t : Fanout) × Step n limit s t
can_step n limit s some_worker h = go s.running refl h
  where
    none_waits : (l : List ℕ) → l ≡ [] → 0 < length l → ⊥
    none_waits l e k = omega (arith, ap (λ (x : List ℕ). length x) e)

    go :
        (l : List ℕ)
        → s.running ≡ l
        → s.next < n ⊎ 0 < length s.running
        → (t : Fanout) × Step n limit s t
    go (i ∷ l) e k = (_, finish i [] l e)
    go [] e (inl below) = (_, claim below (omega (arith, ap (λ (x : List ℕ). length x) e)))
    go [] e (inr waits) = absurd (none_waits s.running e waits)

-- Whatever the order in which tasks end, a run takes exactly two steps for each item, if at least
-- one worker is allowed: it never takes more, with fewer it can go on, and then it is finished.
pub Reach-ends :
    (n limit : ℕ) (s : Fanout) (r : Reach n limit s)
    → 0 < limit
    → (steps r ≤ 2 * n)
      × (steps r < 2 * n → (t : Fanout) × Step n limit s t)
      × (steps r ≡ 2 * n → IsFinished n s)
Reach-ends n limit s r some_worker = (
  omega (arith, h.counted, h.claimed, c),
  λ k. can_step n limit s some_worker (left k),
  λ k. record {
    all_claimed = omega (arith, h.counted, h.claimed, c, k);
    idle = emptied s.running (omega (arith, h.counted, h.claimed, c, k));
  },
)
  where
    h : IsTracked n limit s
    h = Reach-IsTracked r

    c : steps r ≡ s.next + length s.done
    c = steps_lem r

    emptied : (l : List ℕ) → length l ≡ 0 → l ≡ []
    emptied [] e = refl
    emptied (x ∷ l) e = absurd (omega (arith, e))

    left : steps r < 2 * n → s.next < n ⊎ 0 < length s.running
    left k = elim (dec_lt s.next n) [
      | yes below ↦ inl below
      | no above ↦ inr (omega (arith, h.counted, h.claimed, c, k))
    ]
