-- ===== src/Prelude/Texts.antt =====
-- Texts: splitting at a character, prefixes, membership.
use Prim.Native.Nat.{ℕ}
use Prim.Native.Char.{code}
use Prim.Native.String.{String}
use mathlib.Core.Path.{◌≡◌, refl}
use mathlib.Core.Bool.{Bool, true, false, ◌&&◌, ◌||◌}
use mathlib.Core.List.{List, [], ◌∷◌, ◌++◌, reverse, reverse-reverse, reverse-append}
use text.Mathlib.Text.{◌==◌}
use doc_eng_demo.Prelude.Tests.{ltb, eqb, eqb_iff, and_true, if◌then◌else◌}

-- The code points of a text; `String` has its own `[]` and `∷`.
abbrev pub codes : String → List ℕ
codes String.[] = []
codes (String.◌∷◌ c s) = code c ∷ codes s

-- `xs.includes(x)` on texts.
abbrev pub includes : List String → String → Bool
includes [] x = false
includes (y ∷ ys) x = x == y || includes ys x

-- `s.split(sep)` over code points, for a one-character separator; never empty.
abbrev pub put_first : ℕ → List (List ℕ) → List (List ℕ)
put_first c [] = (c ∷ []) ∷ []
put_first c (w ∷ ws) = (c ∷ w) ∷ ws

unfoldable pub split_on : ℕ → List ℕ → List (List ℕ)
split_on sep [] = [] ∷ []
split_on sep (c ∷ cs) =
    let rest = split_on sep cs in if eqb c sep then [] ∷ rest else put_first c rest

-- Equality of code lists.
abbrev pub same_codes : List ℕ → List ℕ → Bool
same_codes [] [] = true
same_codes [] (d ∷ ds) = false
same_codes (c ∷ cs) [] = false
same_codes (c ∷ cs) (d ∷ ds) = eqb c d && same_codes cs ds

-- `s.startsWith(p)`
abbrev pub has_prefix : List ℕ → List ℕ → Bool
has_prefix [] cs = true
has_prefix (p ∷ ps) [] = false
has_prefix (p ∷ ps) (c ∷ cs) = eqb p c && has_prefix ps cs

-- `s < t`, by the first code in which they differ.
unfoldable pub less_codes : List ℕ → List ℕ → Bool
less_codes s [] = false
less_codes [] (d ∷ t) = true
less_codes (c ∷ s) (d ∷ t) =
    let rest = less_codes s t in if ltb c d then true else (eqb c d && rest)

pub same_codes_sound : (s t : List ℕ) → same_codes s t ≡ true → s ≡ t
same_codes_sound [] [] h = refl
same_codes_sound [] (d ∷ t) h = cc
same_codes_sound (c ∷ s) [] h = cc
same_codes_sound (c ∷ s) (d ∷ t) h =
    let (p, q) = and_true (eqb c d) (same_codes s t) h in
    cc ((eqb_iff c d).0 p, same_codes_sound s t q)

pub same_codes_refl : (s : List ℕ) → same_codes s s ≡ true
same_codes_refl [] = refl
same_codes_refl (c ∷ s) = rw ((eqb_iff c c).1 refl) (same_codes_refl s)

pub has_prefix_sound : (p s : List ℕ) → has_prefix p s ≡ true → (rest : List ℕ) × (s ≡ p ++ rest)
has_prefix_sound [] s h = (s, refl)
has_prefix_sound (c ∷ p) [] h = cc
has_prefix_sound (c ∷ p) (d ∷ s) h =
    let (e, k) = and_true (eqb c d) (has_prefix p s) h in
    let (rest, q) = has_prefix_sound p s k in (rest, cc ((eqb_iff c d).0 e))

-- `s.endsWith(p)`
abbrev pub has_suffix : List ℕ → List ℕ → Bool
has_suffix p s = has_prefix (reverse p) (reverse s)

pub has_suffix_sound : (p s : List ℕ) → has_suffix p s ≡ true → (front : List ℕ) × (s ≡ front ++ p)
has_suffix_sound p s h =
    let (rest, e) = has_prefix_sound (reverse p) (reverse s) h in
    (reverse rest, rw (← reverse-reverse s, e, reverse-append, reverse-reverse) refl)
