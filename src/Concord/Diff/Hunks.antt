-- ===== src/Concord/Diff/Hunks.antt =====
-- The hunk of two files (packages/concord-core/src/diff.ts).
use mathlib.Core.List.{reverse, reverse-cons, reverse-reverse, reverse-append}
use doc_eng_demo.Prelude.{
  ◌≡◌, ◌≢◌, refl, sym, ap, ◌∙◌, ℕ, suc, zero, ◌-◌, ◌≤◌, String, Bool, true, false, List, [], ◌∷◌,
  ◌++◌, length, length-append, split_on, same_codes, same_codes_sound, same_codes_refl, arith,
  if◌then◌else◌,
}
use doc_eng_demo.Contracts.Records.{Text}
use doc_eng_demo.Concord.Diff.{take, drop, common, Hunk, hunk_of, unified_text, make_diff}

-- Two lists that do not begin with the same line.
abbrev pub Differ : List Text → List Text → Type 0
Differ [] ys = Unit
Differ (x ∷ xs) [] = Unit
Differ (x ∷ xs) (y ∷ ys) = x ≢ y

-- The hunk turns the first file into the second, and no smaller one does so at that place.
pub record IsHunk (before : List Text) (after : List Text) (h : Hunk) : Type 0 where
  pub front : List Text
  pub back : List Text
  pub old : before ≡ front ++ (h.removed ++ back)
  pub new : after ≡ front ++ (h.added ++ back)
  pub place : length front ≡ h.start
  pub first : Differ h.removed h.added
  pub last : Differ (reverse h.removed) (reverse h.added)

take-drop : (n : ℕ) (xs : List Text) → take n xs ++ drop n xs ≡ xs
take-drop zero xs = refl
take-drop (suc n) [] = refl
take-drop (suc n) (x ∷ xs) = ap (λ (ys : List Text). x ∷ ys) (take-drop n xs)

take-append : (xs ys : List Text) → take (length xs) (xs ++ ys) ≡ xs
take-append [] ys = refl
take-append (x ∷ xs) ys = ap (λ (zs : List Text). x ∷ zs) (take-append xs ys)

length-take : (n : ℕ) (xs : List Text) → n ≤ length xs → length (take n xs) ≡ n
length-take zero xs h = refl
length-take (suc n) [] h = omega (arith, h)
length-take (suc n) (x ∷ xs) h = omega (arith, length-take n xs (omega (arith, h)))

length-reverse : (xs : List Text) → length (reverse xs) ≡ length xs
length-reverse [] = refl
length-reverse (x ∷ xs) =
    rw (reverse-cons x xs, length-append (reverse xs) (x ∷ []), length-reverse xs) (omega arith)

-- The first `n` lines are the same, and then the lists differ.
abbrev Shared : ℕ → List Text → List Text → Type 0
Shared n xs ys =
    (take n xs ≡ take n ys) × ((n ≤ length xs) × (n ≤ length ys)) × Differ (drop n xs) (drop n ys)

common-Shared : (xs ys : List Text) → Shared (common xs ys) xs ys
unfolding common
common-Shared [] [] = (refl, (omega arith, omega arith), tt)
common-Shared [] (y ∷ ys) = (refl, (omega arith, omega arith), tt)
common-Shared (x ∷ xs) [] = (refl, (omega arith, omega arith), tt)
common-Shared (x ∷ xs) (y ∷ ys) = either (common-Shared xs ys) (same_codes x y) refl
  where
    either :
        Shared (common xs ys) xs ys
        → (b : Bool) → same_codes x y ≡ b
        → Shared (if b then suc (common xs ys) else 0) (x ∷ xs) (y ∷ ys)
    either (s, (m, n), d) true e =
        (cc (same_codes_sound x y e, s), (omega (arith, m), omega (arith, n)), d)
    either ih false e = (
      refl,
      (omega arith, omega arith),
      λ q. cc (e, same_codes_refl y, ap (λ z. same_codes z y) q),
    )

Differ-take : (m n : ℕ) (xs ys : List Text) → Differ xs ys → Differ (take m xs) (take n ys)
Differ-take zero n xs ys h = tt
Differ-take (suc m) n [] ys h = tt
Differ-take (suc m) zero (x ∷ xs) ys h = tt
Differ-take (suc m) (suc n) (x ∷ xs) [] h = tt
Differ-take (suc m) (suc n) (x ∷ xs) (y ∷ ys) h = h

-- Without its last `k` lines, a list is the rest of its reverse, read backwards.
take-reverse :
    (k : ℕ) (xs : List Text)
    → k ≤ length xs
    → (reverse (take (length xs - k) xs) ≡ drop k (reverse xs))
      × (xs ≡ take (length xs - k) xs ++ reverse (take k (reverse xs)))
take-reverse k xs h = (
  ap reverse front ∙ reverse-reverse (drop k (reverse xs)),
  whole ∙ ap (λ (zs : List Text). zs ++ reverse (take k (reverse xs))) (sym front),
)
  where
    whole : xs ≡ reverse (drop k (reverse xs)) ++ reverse (take k (reverse xs))
    whole =
        sym (reverse-reverse xs)
        ∙ sym (ap reverse (take-drop k (reverse xs)))
        ∙ reverse-append (take k (reverse xs)) (drop k (reverse xs))

    counted : length xs - k ≡ length (reverse (drop k (reverse xs)))
    counted =
        let n = length-reverse xs in
        let t = length-take k (reverse xs) (omega (arith, h, n)) in
        let a = length-append (take k (reverse xs)) (drop k (reverse xs)) in
        let w = ap (λ (zs : List Text). length zs) (take-drop k (reverse xs)) in
        omega (arith, length-reverse (drop k (reverse xs)), n, t, a, w, h)

    front : take (length xs - k) xs ≡ reverse (drop k (reverse xs))
    front =
        ap (λ n. take n xs) counted
        ∙ ap (take (length (reverse (drop k (reverse xs))))) whole
        ∙ take-append (reverse (drop k (reverse xs))) (reverse (take k (reverse xs)))

hunk_of-IsHunk : (before after : List Text) → IsHunk before after (hunk_of before after)
unfolding hunk_of
hunk_of-IsHunk before after =
    let n = common before after in
    let (s, (m, _), d) = common-Shared before after in
    let old = drop n before in
    let new = drop n after in
    let k = common (reverse old) (reverse new) in
    let (t, (p, q), e) = common-Shared (reverse old) (reverse new) in
    let (old_back, old_whole) = take-reverse k old (omega (arith, p, length-reverse old)) in
    let (new_back, new_whole) = take-reverse k new (omega (arith, q, length-reverse new)) in
    record {
      front = take n before;
      back = reverse (take k (reverse old));
      old = sym (take-drop n before) ∙ ap (λ (zs : List Text). take n before ++ zs) old_whole;
      new = cc (take-drop n after, new_whole, s, t);
      place = length-take n before m;
      first = Differ-take (length old - k) (length new - k) old new d;
      last = rw (old_back, new_back) e;
    }

-- The text of the diff of two files is that of a hunk which turns the lines of the first into those
-- of the second at its place, and which cannot be smaller: the lines it takes away and those it adds
-- do not begin with the same line, and do not end with the same line.
pub make_diff-IsHunk :
    (path : String) (before after : Text)
    → (h : Hunk) × ((make_diff path before after).unified ≡ unified_text path h)
      × IsHunk (split_on b'\n' before) (split_on b'\n' after) h
unfolding make_diff
make_diff-IsHunk path before after =
    let h = hunk_of (split_on b'\n' before) (split_on b'\n' after) in
    (h, refl, hunk_of-IsHunk (split_on b'\n' before) (split_on b'\n' after))
