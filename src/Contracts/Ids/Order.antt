-- ===== src/Contracts/Ids/Order.antt =====
-- Identifiers of packages/contracts/src/ids.ts with one prefix sort by their times.
use doc_eng_demo.Prelude.{
  ℕ, zero, suc, ◌*◌, ◌/◌, ◌%◌, ◌^◌, ◌<◌, ◌≡◌, refl, ap, ◌⊎◌, inl, inr, Bool, true, ◌&&◌, List, [],
  ◌∷◌, ◌++◌, ltb, all, length, arith, and_true,
}
use doc_eng_demo.Contracts.Records.{Text}
use doc_eng_demo.Contracts.Ids.{
  encoding, get_code, encode_rounds, encode_time, encode_random, ulid, new_id,
}

-- `a < b` on texts: by the first code unit in which they differ.
abbrev pub Less : Text → Text → Type 0
Less [] [] = ⊥
Less [] (d ∷ t) = Unit
Less (c ∷ s) [] = ⊥
Less (c ∷ s) (d ∷ t) = (c < d) ⊎ ((c ≡ d) × Less s t)

abbrev is_ascending : Text → Bool
is_ascending [] = true
is_ascending (c ∷ cs) = all (ltb c) cs && is_ascending cs

all-get_code :
    (c : ℕ) (cs : Text) (n : ℕ) → all (ltb c) cs ≡ true → n < length cs → c < get_code cs n
all-get_code c [] n h k = omega (arith, k)
all-get_code c (d ∷ cs) zero h k = ground (arith, (and_true (ltb c d) (all (ltb c) cs) h).0)
all-get_code c (d ∷ cs) (suc n) h k =
    all-get_code c cs n (and_true (ltb c d) (all (ltb c) cs) h).1 (ground arith)

get_code_monotone :
    (cs : Text) (m n : ℕ)
    → is_ascending cs ≡ true
    → m < n
    → n < length cs
    → get_code cs m < get_code cs n
get_code_monotone [] m n h k l = ground arith
get_code_monotone (c ∷ cs) m zero h k l = ground arith
get_code_monotone (c ∷ cs) zero (suc n) h k l =
    all-get_code c cs n (and_true (all (ltb c) cs) (is_ascending cs) h).0 (ground arith)
get_code_monotone (c ∷ cs) (suc m) (suc n) h k l =
    get_code_monotone cs m n (and_true (all (ltb c) cs) (is_ascending cs) h).1 (ground arith)
      (ground arith)

encoding_ascends : is_ascending encoding ≡ true
encoding_ascends = refl

abbrev limit : ℕ → ℕ
limit zero = 1
limit (suc i) = 32 * limit i

quotients : (t u : ℕ) → t < u → (t / 32 < u / 32) ⊎ ((t / 32 ≡ u / 32) × (t % 32 < u % 32))
quotients t u h = ground arith

encode_rounds-Less :
    (i t u : ℕ) (x y : Text)
    → u < limit i
    → (t < u) ⊎ ((t ≡ u) × Less x y)
    → Less (encode_rounds i t x) (encode_rounds i u y)
unfolding encode_rounds
encode_rounds-Less zero t u x y b (inl h) = absurd (ground arith)
encode_rounds-Less zero t u x y b (inr (e, h)) = h
encode_rounds-Less (suc i) t u x y b (inl h) = elim (quotients t u h) [
  | inl q ↦ encode_rounds-Less i (t / 32) (u / 32) _ _ (omega arith) (inl q)
  | inr (q, r) ↦
      encode_rounds-Less i (t / 32) (u / 32) _ _ (omega arith) (
        inr
          (q, inl (get_code_monotone encoding (t % 32) (u % 32) encoding_ascends r (omega arith))))
]
encode_rounds-Less (suc i) t u x y b (inr (e, h)) =
    encode_rounds-Less i (t / 32) (u / 32) _ _ (omega arith)
      (inr (ap (λ n. n / 32) e, inr (ap (λ n. get_code encoding (n % 32)) e, h)))

encode_rounds-append :
    (i t : ℕ) (x y : Text) → encode_rounds i t x ++ y ≡ encode_rounds i t (x ++ y)
unfolding encode_rounds
encode_rounds-append zero t x y = refl
encode_rounds-append (suc i) t x y = encode_rounds-append i (t / 32) _ y

Less-append : (p s t : Text) → Less s t → Less (p ++ s) (p ++ t)
Less-append [] s t h = h
Less-append (c ∷ p) s t h = inr (refl, Less-append p s t h)

ulid-encode_rounds : (t : ℕ) (r : List ℕ) → ulid t r ≡ encode_rounds 10 t (encode_random r)
unfolding ulid encode_time
ulid-encode_rounds t r = encode_rounds-append 10 t [] (encode_random r)

ulid-Less : (t u : ℕ) (r s : List ℕ) → t < u → u < 32 ^ 10 → Less (ulid t r) (ulid u s)
ulid-Less t u r s h b =
    rw (ulid-encode_rounds t r, ulid-encode_rounds u s)
      (encode_rounds-Less 10 t u (encode_random r) (encode_random s) b (inl h))

-- Of two identifiers with one prefix, the one made at the earlier time is the lesser text, whatever
-- their random parts, for times below 32^10 milliseconds.
pub new_id-Less :
    (prefix : Text) (t u : ℕ) (r s : List ℕ)
    → t < u
    → u < 32 ^ 10
    → Less (new_id prefix t r) (new_id prefix u s)
unfolding new_id
new_id-Less prefix t u r s h b =
    Less-append prefix (b'_' ∷ ulid t r) (b'_' ∷ ulid u s) (inr (refl, ulid-Less t u r s h b))
