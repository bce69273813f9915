-- ===== src/Concord/Validate/Path.antt =====
-- packages/concord-core/src/patch-validate.ts: the paths that a patch may write. The normal form C
-- of a text is the platform's.
pub mod Safe
use doc_eng_demo.Prelude.{
  ℕ, String, Bool, true, false, ◌&&◌, ◌||◌, not, Option, none, some, List, [], ◌∷◌, any, all, map,
  length, codes, eqb, leb, same_codes, has_prefix, has_suffix, split_on, if◌then◌else◌, ◌+◌,
}
use doc_eng_demo.Contracts.Records.{Text}
use doc_eng_demo.Concord.Normalize.{is_letter, ascii_lower, drop_prefix}
use doc_eng_demo.Concord.Content.{somewhere}

-- `path.split("/")`
abbrev pub segments : Text → List Text
segments path = split_on b'/' path

abbrev is_filled : Text → Bool
is_filled [] = false
is_filled (c ∷ cs) = true

-- `seg === ".." || seg === "." || seg === ""`
abbrev pub is_traversal : Text → Bool
is_traversal seg =
    same_codes seg (codes "..") || (same_codes seg (codes ".") || not (is_filled seg))

-- `^[A-Za-z]:`
abbrev has_drive : Text → Bool
has_drive (c ∷ d ∷ cs) = is_letter c && eqb d b':'
has_drive _ = false

-- `%2e|%2f|%5c` with the flag `i`.
is_encoded : Text → Bool
unfolding somewhere ascii_lower
is_encoded path =
    somewhere
      (λ cs.
        has_prefix (codes "%2e") cs || (has_prefix (codes "%2f") cs || has_prefix (codes "%5c") cs))
      (ascii_lower path)

abbrev is_control : ℕ → Bool
is_control c = leb c 0x1f || eqb c 0x7f

abbrev pub is_absolute : Text → Bool
is_absolute path = has_prefix (codes "/") path || has_drive path

-- `nfc` is `path.normalize("NFC")`.
unfoldable pub path_is_sane : (Text → Text) → Text → Bool
unfolding is_encoded
path_is_sane nfc path =
    if not (is_filled path) || leb 513 (length path)
    then false
    else if any (λ c. eqb c 92) path
    then false
    else if is_absolute path
    then false
    else if any is_traversal (segments path)
    then false
    else if is_encoded path
    then false
    else if any is_control path
    then false
    else same_codes path (nfc path)

-- A segment that begins with a point, for `(^|\/)\.[^/]*($|\/)`.
abbrev pub is_dotted : Text → Bool
is_dotted [] = false
is_dotted (c ∷ cs) = eqb c b'.'

abbrev last_segment : List Text → Text
last_segment [] = []
last_segment (s ∷ []) = s
last_segment (s ∷ t ∷ ts) = last_segment (t ∷ ts)

abbrev denied_extensions : List Text
denied_extensions =
    map codes
      (".ts" ∷ ".tsx" ∷ ".js" ∷ ".py" ∷ ".sql" ∷ ".sh" ∷ ".ps1" ∷ ".yml" ∷ ".yaml" ∷ ".pem" ∷ [])

abbrev denied_names : List Text
denied_names = map codes ("Dockerfile" ∷ "package.json" ∷ "pnpm-lock.yaml" ∷ [])

pub path_denylist : List (Text → Bool)
unfolding somewhere ascii_lower
path_denylist =
    (λ path. any is_dotted (segments path))
    ∷ (λ path. any (λ e. has_suffix e (ascii_lower path)) denied_extensions)
    ∷ (λ path. any (λ n. same_codes n (last_segment (segments path))) denied_names)
    ∷ (λ path. somewhere (has_prefix (codes ".env")) (ascii_lower (last_segment (segments path))))
    ∷ []

unfoldable pub is_denied : Text → Bool
unfolding path_denylist
is_denied path = any (λ re. re path) path_denylist

-- `([^/]+\/)*[^/]+ext$`
abbrev is_page : Text → Text → Bool
is_page ext rest =
    all is_filled (segments rest)
    && (has_suffix ext (last_segment (segments rest))
        && leb (length ext + 1) (length (last_segment (segments rest))))

-- `.+$`
abbrev is_line : Text → Bool
is_line rest =
    is_filled rest && not (any (λ c. eqb c 10 || eqb c 13 || eqb c 0x2028 || eqb c 0x2029) rest)

-- `[^/]+ext$`
abbrev is_name : Text → Text → Bool
is_name ext rest =
    not (any (λ c. eqb c b'/') rest) && (has_suffix ext rest && leb (length ext + 1) (length rest))

-- `^root` and a pattern for the rest.
abbrev pub below : String → (Text → Bool) → Text → Bool
below root p path = has_prefix (codes root) path && p (drop_prefix (codes root) path)

pub path_allowlist : List (Text → Bool)
path_allowlist =
    below "docs-mintlify/" (is_page (codes ".mdx"))
    ∷ same_codes (codes "docs-mintlify/docs.json")
    ∷ below "docs-mintlify/generated/" is_line
    ∷ below "help-center/" (is_page (codes ".md"))
    ∷ same_codes (codes "help-center/index.json")
    ∷ below "in-product-copy/" (is_name (codes ".json"))
    ∷ []

unfoldable pub is_allowed : Text → Bool
unfolding path_allowlist
is_allowed path = any (λ re. re path) path_allowlist

unfoldable pub path_allowlisted : (Text → Text) → Text → Bool
unfolding path_is_sane is_denied is_allowed
path_allowlisted nfc path =
    if not (path_is_sane nfc path) then false else if is_denied path then false else is_allowed path
