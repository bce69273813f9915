-- ===== src/Contracts/DocIds/RoundTrip.antt =====
-- Identifiers of documentation units (packages/contracts/src/ids.ts) are read back as they were built.
use doc_eng_demo.Prelude.{
  ℕ, ◌≡◌, ◌≢◌, refl, ap, ◌∙◌, append-nil, Bool, true, false, ◌||◌, not, Option, none, some, [], ◌∷◌,
  ◌++◌, any, all, codes, eqb, has_prefix, if◌then◌else◌, arith, and_true, Bool-cases, inl, inr,
}
use doc_eng_demo.Contracts.Facts.{is_lower}
use doc_eng_demo.Contracts.Records.{Text}
use doc_eng_demo.Concord.Types.{Surface, mintlify, helpcenter, inproduct, clidocs, release}
use doc_eng_demo.Contracts.DocIds.{
  DocUnitIdParts, surface_name, is_separator, anchor_tail, build_doc_unit_id, run_of, parse_tail,
  checked, parse_path, parse_surface, parse_doc_unit_id,
}

run_of-append :
    (p : ℕ → Bool) (xs : Text) (c : ℕ) (ys : Text)
    → all p xs ≡ true
    → p c ≡ false
    → run_of p (xs ++ c ∷ ys) ≡ (xs, c ∷ ys)
run_of-append p [] c ys h k = rw k refl
run_of-append p (x ∷ xs) c ys h k =
    let (a, b) = and_true (p x) (all p xs) h in rw (a, run_of-append p xs c ys b k) refl

run_of-whole : (p : ℕ → Bool) (xs : Text) → all p xs ≡ true → run_of p xs ≡ (xs, [])
run_of-whole p [] h = refl
run_of-whole p (x ∷ xs) h =
    let (a, b) = and_true (p x) (all p xs) h in rw (a, run_of-whole p xs b) refl

-- An anchor that the pattern can read back: none, or one with a character and no `#`.
abbrev pub IsAnchor : Option Text → Type 0
IsAnchor none = Unit
IsAnchor (some a) = (a ≢ []) × (any (λ x. eqb x b'#') a ≡ false)

parse_tail-anchor_tail : (a : Option Text) → IsAnchor a → parse_tail (anchor_tail a) ≡ some a
unfolding parse_tail
parse_tail-anchor_tail none h = refl
parse_tail-anchor_tail (some []) (h, k) = absurd (h refl)
parse_tail-anchor_tail (some (c ∷ a)) (h, k) = rw k refl

run_of-anchor_tail :
    (path : Text) (a : Option Text)
    → all (λ x. not (is_separator x)) path ≡ true
    → run_of (λ x. not (is_separator x)) (path ++ anchor_tail a) ≡ (path, anchor_tail a)
run_of-anchor_tail path none h =
    rw (append-nil path) (run_of-whole (λ x. not (is_separator x)) path h)
run_of-anchor_tail path (some a) h = run_of-append (λ x. not (is_separator x)) path b'#' a h refl

any-all : (p : ℕ → Bool) (xs : Text) → any p xs ≡ false → all (λ x. not (p x)) xs ≡ true
any-all p [] h = refl
any-all p (x ∷ xs) h = elim (Bool-cases (p x)) [
  | inl e ↦ absurd (clash (rw e at h))
  | inr e ↦ rw e (any-all p xs (rw e at h))
]
  where
    clash : true ≡ false → ⊥
    clash k = cc

surface_name-lower : (s : Surface) → all is_lower (surface_name s) ≡ true
surface_name-lower mintlify = refl
surface_name-lower helpcenter = refl
surface_name-lower inproduct = refl
surface_name-lower clidocs = refl
surface_name-lower release = refl
surface_name-lower Surface.generated = refl

parse_surface-name :
    (s : Surface) (rest : Text)
    → parse_surface (surface_name s, b':' ∷ rest)
      ≡ parse_path (surface_name s) (run_of (λ x. not (is_separator x)) rest)
unfolding parse_surface
parse_surface-name mintlify rest = refl
parse_surface-name helpcenter rest = refl
parse_surface-name inproduct rest = refl
parse_surface-name clidocs rest = refl
parse_surface-name release rest = refl
parse_surface-name Surface.generated rest = refl

checked-name :
    (s : Surface) (path : Text) (a : Option Text)
    → has_prefix (codes "estate/") path ≡ false
    → checked (surface_name s) path a ≡ some (record { surface = s; path = path; anchor = a })
unfolding checked
checked-name mintlify path a h = rw h refl
checked-name helpcenter path a h = rw h refl
checked-name inproduct path a h = rw h refl
checked-name clidocs path a h = rw h refl
checked-name release path a h = rw h refl
checked-name Surface.generated path a h = rw h refl

parse_path-path :
    (s : Surface) (path : Text) (a : Option Text)
    → path ≢ []
    → IsAnchor a
    → has_prefix (codes "estate/") path ≡ false
    → parse_path (surface_name s) (path, anchor_tail a)
      ≡ some (record { surface = s; path = path; anchor = a })
unfolding parse_path
parse_path-path s [] a filled h k = absurd (filled refl)
parse_path-path s (c ∷ path) a filled h k =
    rw (parse_tail-anchor_tail a h, parse_path) (checked-name s (c ∷ path) a k)

build_gates :
    (a b c : Bool) {t id : Text}
    → (if a || b then none else if c then none else some t) ≡ some id
    → (a ≡ false) × (c ≡ false) × (id ≡ t)
build_gates a b c h = ground arith

-- What is built from a path that is not empty, and an anchor that is neither empty nor has a `#`, is
-- parsed to the same parts.
pub parse_doc_unit_id-build_doc_unit_id :
    (parts : DocUnitIdParts) (id : Text)
    → build_doc_unit_id parts ≡ some id
    → parts.path ≢ []
    → IsAnchor parts.anchor
    → parse_doc_unit_id id ≡ some parts
unfolding build_doc_unit_id parse_doc_unit_id
parse_doc_unit_id-build_doc_unit_id parts id h filled anchored =
    let (local, plain, same) =
      build_gates (has_prefix (codes "estate/") parts.path) (has_prefix (codes "/") parts.path)
        (any is_separator parts.path) h in
    let rest = parts.path ++ anchor_tail parts.anchor in
    rw same (
      ap parse_surface (
        run_of-append is_lower (surface_name parts.surface) b':' rest
          (surface_name-lower parts.surface) refl)
      ∙ (parse_surface-name parts.surface rest
          ∙ (ap (parse_path (surface_name parts.surface))
                (run_of-anchor_tail parts.path parts.anchor (any-all is_separator parts.path plain))
              ∙ parse_path-path parts.surface parts.path parts.anchor filled anchored local)))
