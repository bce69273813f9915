-- ===== src/Concord/Validate/Path/Safe.antt =====
-- What an allowlisted path of packages/concord-core/src/patch-validate.ts is like.
use doc_eng_demo.Prelude.{
  ℕ, String, ◌≡◌, ◌≢◌, refl, sym, Bool, true, false, ◌||◌, not, List, [], ◌∷◌, ◌++◌, inl, inr, ◌≤◌,
  any, any-false, any-Member, length, codes, leb, Member, and_true, arith, same_codes_sound,
  same_codes, eqb, has_prefix_sound, if◌then◌else◌,
}
use doc_eng_demo.Contracts.Records.{Text}
use doc_eng_demo.Concord.Validate.Path.{
  segments, is_filled, is_traversal, is_absolute, is_encoded, is_control, path_is_sane, is_dotted,
  is_denied, is_allowed, below, is_page, is_line, is_name, path_denylist, path_allowlist,
  path_allowlisted,
}

abbrev pub roots : List String
roots = "docs-mintlify/" ∷ "help-center/" ∷ "in-product-copy/" ∷ []

-- The path lies below one of the three roots, in the form that the platform normalizes to, and no
-- segment of it is empty, a traversal or hidden.
pub record IsSafePath (nfc : Text → Text) (path : Text) : Type 0 where
  pub root : String
  pub known : Member root roots
  pub rest : Text
  pub below_root : path ≡ codes root ++ rest
  pub short : length path ≤ 512
  pub normal : nfc path ≡ path
  pub visible :
      (seg : Text)
      → Member seg (segments path)
      → (seg ≢ []) × (seg ≢ codes "..") × ((tail : Text) → seg ≢ b'.' ∷ tail)

allowlist_gates :
    (s d a : Bool)
    → (if not s then false else if d then false else a) ≡ true
    → (s ≡ true) × (d ≡ false) × (a ≡ true)
allowlist_gates s d a h = ground arith

sane_gates :
    (a b c d e f g : Bool)
    → (if a
        then false
        else if b
        then false
        else if c
        then false
        else if d
        then false
        else if e
        then false
        else if f
        then false
        else g)
      ≡ true
    → (a ≡ false) × (d ≡ false) × (g ≡ true)
sane_gates a b c d e f g h = ground arith

path_is_sane_lem :
    (nfc : Text → Text) (path : Text)
    → path_is_sane nfc path ≡ true
    → (length path ≤ 512) × (any is_traversal (segments path) ≡ false) × (nfc path ≡ path)
unfolding path_is_sane
path_is_sane_lem nfc path h =
    let (a, d, g) =
      sane_gates (not (is_filled path) || leb 513 (length path)) (any (λ c. eqb c 92) path)
        (is_absolute path) (any is_traversal (segments path)) (is_encoded path)
        (any is_control path) (same_codes path (nfc path)) h in
    (short_of (not (is_filled path)) (length path) a, d, sym (same_codes_sound path (nfc path) g))
  where
    short_of : (b : Bool) (n : ℕ) → (b || leb 513 n) ≡ false → n ≤ 512
    short_of b n k = ground arith

is_traversal-filled : (seg : Text) → is_traversal seg ≡ false → seg ≢ []
is_traversal-filled [] h e = absurd (ground arith)
is_traversal-filled (c ∷ seg) h e = cc

is_dotted-visible : (seg tail : Text) → is_dotted seg ≡ false → seg ≢ b'.' ∷ tail
is_dotted-visible seg tail h e = dotted (rw e at h)
  where
    dotted : is_dotted (b'.' ∷ tail) ≡ false → ⊥
    dotted k = ground arith

below-root :
    (root : String) (p : Text → Bool) (path : Text)
    → below root p path ≡ true
    → (rest : Text) × (path ≡ codes root ++ rest)
below-root root p path h = has_prefix_sound (codes root) path (and_true _ _ h).0

is_denied-visible :
    (path seg : Text) → is_denied path ≡ false → Member seg (segments path) → is_dotted seg ≡ false
unfolding is_denied path_denylist
is_denied-visible path seg h m =
    any-false is_dotted (segments path) seg
      (any-false (λ re. re path) path_denylist (λ p. any is_dotted (segments p)) h (inl refl)) m

-- A root of the list, and what follows it in a path.
abbrev Rooted : Text → Type 0
Rooted path = (root : String) × Member root roots × ((rest : Text) × (path ≡ codes root ++ rest))

exact-root : (path name : Text) → same_codes name path ≡ true → Path Text path name
exact-root path name h = sym (same_codes_sound name path h)

-- A pattern of the list, by the root that it names.
path_allowlist-Rooted :
    (path : Text) (re : Text → Bool) → Member re path_allowlist → re path ≡ true → Rooted path
unfolding path_allowlist
path_allowlist-Rooted path re (inl e) h = (
  "docs-mintlify/",
  inl refl,
  below-root "docs-mintlify/" (is_page (codes ".mdx")) path (rw e at h),
)
path_allowlist-Rooted path re (inr (inl e)) h = (
  "docs-mintlify/",
  inl refl,
  (codes "docs.json", exact-root path (codes "docs-mintlify/docs.json") (rw e at h)),
)
path_allowlist-Rooted path re (inr (inr (inl e))) h =
    let (rest, q) = below-root "docs-mintlify/generated/" is_line path (rw e at h) in
    ("docs-mintlify/", inl refl, (codes "generated/" ++ rest, q))
path_allowlist-Rooted path re (inr (inr (inr (inl e)))) h = (
  "help-center/",
  inr (inl refl),
  below-root "help-center/" (is_page (codes ".md")) path (rw e at h),
)
path_allowlist-Rooted path re (inr (inr (inr (inr (inl e))))) h = (
  "help-center/",
  inr (inl refl),
  (codes "index.json", exact-root path (codes "help-center/index.json") (rw e at h)),
)
path_allowlist-Rooted path re (inr (inr (inr (inr (inr (inl e)))))) h = (
  "in-product-copy/",
  inr (inr (inl refl)),
  below-root "in-product-copy/" (is_name (codes ".json")) path (rw e at h),
)
path_allowlist-Rooted path re (inr (inr (inr (inr (inr (inr e)))))) h = absurd e

is_allowed-Rooted : (path : Text) → is_allowed path ≡ true → Rooted path
unfolding is_allowed
is_allowed-Rooted path h =
    let (re, m, k) = any-Member (λ re. re path) path_allowlist h in
    path_allowlist-Rooted path re m k

-- Every allowlisted path lies below one of the three roots, in its normal form, and none of its
-- segments is empty, is a traversal or begins with a point.
pub path_allowlisted-IsSafePath :
    (nfc : Text → Text) (path : Text) → path_allowlisted nfc path ≡ true → IsSafePath nfc path
unfolding path_allowlisted
path_allowlisted-IsSafePath nfc path h =
    let (sane, apart, allowed) =
      allowlist_gates (path_is_sane nfc path) (is_denied path) (is_allowed path) h in
    let (short, no_traversal, normal) = path_is_sane_lem nfc path sane in
    let (root, known, (rest, e)) = is_allowed-Rooted path allowed in
    record {
      root = root;
      known = known;
      rest = rest;
      below_root = e;
      short = short;
      normal = normal;
      visible = λ seg m. (
        is_traversal-filled seg (any-false is_traversal (segments path) seg no_traversal m),
        is_dotted-visible seg (b'.' ∷ []) (is_denied-visible path seg apart m),
        λ tail. is_dotted-visible seg tail (is_denied-visible path seg apart m),
      );
    }
