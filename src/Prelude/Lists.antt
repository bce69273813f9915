-- ===== src/Prelude/Lists.antt =====
-- Lists: tests by Boolean predicates (`Array.filter`, `some`, `every`, `find`) and `All`.
use Prim.Native.Nat.{ℕ, suc, ◌+◌}
use mathlib.Core.Path.{◌≡◌, refl, ap}
use mathlib.Core.Logic.{◌⊎◌, inl, inr}
use mathlib.Core.Bool.{Bool, true, false, ◌&&◌, ◌||◌}
use mathlib.Core.Option.{Option, none, some}
use mathlib.Core.List.{List, [], ◌∷◌, ◌++◌, map}
use native.Mathlib.Omega.{arith}
use doc_eng_demo.Prelude.Tests.{if◌then◌else◌, Bool-cases}

module _ {ℓ} {A : Type ℓ} where
  abbrev pub length : List A → ℕ
  length [] = 0
  length (x ∷ xs) = suc (length xs)

  -- One structural call under `if`.
  abbrev pub filter : (A → Bool) → List A → List A
  filter p [] = []
  filter p (x ∷ xs) = if p x then x ∷ filter p xs else filter p xs

  abbrev pub any : (A → Bool) → List A → Bool
  any p [] = false
  any p (x ∷ xs) = p x || any p xs

  abbrev pub all : (A → Bool) → List A → Bool
  all p [] = true
  all p (x ∷ xs) = p x && all p xs

  abbrev pub find? : (A → Bool) → List A → Option A
  find? p [] = none
  find? p (x ∷ xs) = if p x then some x else find? p xs

  pub length-append : (xs ys : List A) → length (xs ++ ys) ≡ length xs + length ys
  length-append [] ys = omega arith
  length-append (x ∷ xs) ys = omega (arith, length-append xs ys)

  pub filter-append :
      (p : A → Bool) (xs ys : List A) → filter p (xs ++ ys) ≡ filter p xs ++ filter p ys
  filter-append p [] ys = refl
  filter-append p (x ∷ xs) ys = ground (arith, filter-append p xs ys)

module _ {ℓ κ} {A : Type ℓ} {B : Type κ} where
  -- `xs.flatMap(f)`
  abbrev pub flat_map : (A → List B) → List A → List B
  flat_map f [] = []
  flat_map f (x ∷ xs) = f x ++ flat_map f xs

module _ {A : Type 0} where
  -- Membership, by recursion: the tactics read it as a disjunction.
  abbrev pub Member : A → List A → Type 0
  Member a [] = ⊥
  Member a (x ∷ xs) = (a ≡ x) ⊎ Member a xs

  Member-filter_head :
      (p : A → Bool) {x : A} (xs : List A) (a : A)
      → p x ≡ true
      → (Member a (filter p xs) → Member a xs × (p a ≡ true))
      → Member a (x ∷ filter p xs)
      → Member a (x ∷ xs) × (p a ≡ true)
  Member-filter_head p xs a e ih (inl same) = (inl same, rw same e)
  Member-filter_head p xs a e ih (inr m) = let (h, k) = ih m in (inr h, k)

  pub Member-filter :
      (p : A → Bool) (xs : List A) (a : A) → Member a (filter p xs) → Member a xs × (p a ≡ true)
  Member-filter p [] a m = absurd m
  Member-filter p (x ∷ xs) a m = elim (Bool-cases (p x)) [
    | inl e ↦ Member-filter_head p xs a e (Member-filter p xs a) (rw e at m)
    | inr e ↦ let (h, k) = Member-filter p xs a (rw e at m) in (inr h, k)
  ]

  pub Member-append_left : (a : A) (xs ys : List A) → Member a xs → Member a (xs ++ ys)
  Member-append_left a [] ys m = absurd m
  Member-append_left a (x ∷ xs) ys (inl e) = inl e
  Member-append_left a (x ∷ xs) ys (inr m) = inr (Member-append_left a xs ys m)

  pub Member-append_right : (a : A) (xs ys : List A) → Member a ys → Member a (xs ++ ys)
  Member-append_right a [] ys m = m
  Member-append_right a (x ∷ xs) ys m = inr (Member-append_right a xs ys m)

  pub Member-append : (a : A) (xs ys : List A) → Member a (xs ++ ys) → Member a xs ⊎ Member a ys
  Member-append a [] ys m = inr m
  Member-append a (x ∷ xs) ys (inl e) = inl (inl e)
  Member-append a (x ∷ xs) ys (inr m) = elim (Member-append a xs ys m) [
    | inl h ↦ inl (inr h)
    | inr h ↦ inr h
  ]

  pub filter-Member :
      (p : A → Bool) (xs : List A) (a : A) → Member a xs → p a ≡ true → Member a (filter p xs)
  filter-Member p [] a m h = absurd m
  filter-Member p (x ∷ xs) a (inl e) h = rw (rw e at h) (inl e)
  filter-Member p (x ∷ xs) a (inr m) h = elim (Bool-cases (p x)) [
    | inl e ↦ rw e (inr (filter-Member p xs a m h))
    | inr e ↦ rw e (filter-Member p xs a m h)
  ]

  pub any-Member :
      (p : A → Bool) (xs : List A) → any p xs ≡ true → (a : A) × Member a xs × (p a ≡ true)
  any-Member p [] h = cc
  any-Member p (x ∷ xs) h = elim (Bool-cases (p x)) [
    | inl e ↦ (x, inl refl, e)
    | inr e ↦ let (a, m, k) = any-Member p xs (rw e at h) in (a, inr m, k)
  ]

  pub any-false :
      (p : A → Bool) (xs : List A) (a : A) → any p xs ≡ false → Member a xs → p a ≡ false
  any-false p [] a h m = absurd m
  any-false p (x ∷ xs) a h (inl e) = rw e (ground arith)
  any-false p (x ∷ xs) a h (inr m) = any-false p xs a (ground arith) m

  pub find?-Member :
      (p : A → Bool) (xs : List A) {a : A} → find? p xs ≡ some a → Member a xs × (p a ≡ true)
  find?-Member p [] h = cc
  find?-Member p (x ∷ xs) {a} h = elim (Bool-cases (p x)) [
    | inl e ↦ let same : a ≡ x = ground arith in (inl same, rw same e)
    | inr e ↦ let (m, k) = find?-Member p xs (rw e at h) in (inr m, k)
  ]

module _ {A : Type 0} where
  pub append-eq-nil : (xs ys : List A) → xs ++ ys ≡ [] → (xs ≡ []) × (ys ≡ [])
  append-eq-nil [] ys h = (refl, h)
  append-eq-nil (x ∷ xs) ys h = (cc, cc)

  pub not-Member-nil : (xs : List A) (a : A) → xs ≡ [] → Member a xs → ⊥
  not-Member-nil [] a h m = m
  not-Member-nil (x ∷ xs) a h m = cc

module _ {A B : Type 0} where
  pub Member-map : (f : A → B) (xs : List A) (a : A) → Member a xs → Member (f a) (map f xs)
  Member-map f [] a m = absurd m
  Member-map f (x ∷ xs) a (inl e) = inl (ap f e)
  Member-map f (x ∷ xs) a (inr m) = inr (Member-map f xs a m)

  pub map-Member :
      (f : A → B) (xs : List A) (b : B) → Member b (map f xs) → (a : A) × Member a xs × (b ≡ f a)
  map-Member f [] b m = absurd m
  map-Member f (x ∷ xs) b (inl e) = (x, inl refl, e)
  map-Member f (x ∷ xs) b (inr m) = let (a, n, e) = map-Member f xs b m in (a, inr n, e)

  pub Member-flat_map :
      (f : A → List B) (xs : List A) (a : A) (b : B)
      → Member a xs
      → Member b (f a)
      → Member b (flat_map f xs)
  Member-flat_map f [] a b m n = absurd m
  Member-flat_map f (x ∷ xs) a b (inl e) n = Member-append_left b (f x) (flat_map f xs) (rw e at n)
  Member-flat_map f (x ∷ xs) a b (inr m) n =
      Member-append_right b (f x) (flat_map f xs) (Member-flat_map f xs a b m n)

  pub flat_map-Member :
      (f : A → List B) (xs : List A) (b : B)
      → Member b (flat_map f xs)
      → (a : A) × Member a xs × Member b (f a)
  flat_map-Member f [] b m = absurd m
  flat_map-Member f (x ∷ xs) b m = elim (Member-append b (f x) (flat_map f xs) m) [
    | inl h ↦ (x, inl refl, h)
    | inr h ↦ let (a, n, k) = flat_map-Member f xs b h in (a, inr n, k)
  ]

module _ {ℓ κ} {A : Type ℓ} (P : A → Type κ) where
  -- Every element has `P`.
  abbrev pub All : List A → Type κ
  All [] = Unit
  All (x ∷ xs) = P x × All xs

  pub All-append : (xs ys : List A) → All xs → All ys → All (xs ++ ys)
  All-append [] ys hx hy = hy
  All-append (x ∷ xs) ys (h, hx) hy = (h, All-append xs ys hx hy)

module _ {A : Type 0} (P : A → Type 0) where
  pub All-of : (xs : List A) → ((a : A) → Member a xs → P a) → All P xs
  All-of [] h = tt
  All-of (x ∷ xs) h = (h x (inl refl), All-of xs (λ a m. h a (inr m)))

  pub All-Member : (xs : List A) (a : A) → All P xs → Member a xs → P a
  All-Member [] a h m = absurd m
  All-Member (x ∷ xs) a h (inl e) = rw e h.0
  All-Member (x ∷ xs) a h (inr m) = All-Member xs a h.1 m
