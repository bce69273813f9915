-- ===== src/Contracts/DocIds.antt =====
-- packages/contracts/src/ids.ts: the stable identifiers of documentation units. A `throw` is
-- `none`; that a surface is one of the six is its type.
pub mod RoundTrip
pub mod Tests
use doc_eng_demo.Prelude.{
  ℕ, String, Bool, true, false, ◌&&◌, ◌||◌, not, Option, none, some, List, [], ◌∷◌, ◌++◌, any,
  codes, eqb, has_prefix, same_codes, if◌then◌else◌,
}
use doc_eng_demo.Contracts.Facts.{is_lower}
use doc_eng_demo.Contracts.Records.{Text}
use doc_eng_demo.Concord.Types.{
  Surface, mintlify, helpcenter, inproduct, clidocs, release, generated,
}

pub record DocUnitIdParts : Type 0 where
  pub surface : Surface
  pub path : Text
  pub anchor : Option Text

abbrev pub surface_name : Surface → Text
surface_name mintlify = codes "mintlify"
surface_name helpcenter = codes "helpcenter"
surface_name inproduct = codes "inproduct"
surface_name clidocs = codes "clidocs"
surface_name release = codes "release"
surface_name Surface.generated = codes "generated"

abbrev doc_surfaces : List Surface
doc_surfaces = mintlify ∷ helpcenter ∷ inproduct ∷ clidocs ∷ release ∷ Surface.generated ∷ []

abbrev pub is_separator : ℕ → Bool
is_separator c = eqb c b'#' || eqb c b':'

abbrev pub anchor_tail : Option Text → Text
anchor_tail none = []
anchor_tail (some a) = b'#' ∷ a

unfoldable pub build_doc_unit_id : DocUnitIdParts → Option Text
build_doc_unit_id parts =
    if has_prefix (codes "estate/") parts.path || has_prefix (codes "/") parts.path
    then none
    else if any is_separator parts.path
    then none
    else some (surface_name parts.surface ++ b':' ∷ (parts.path ++ anchor_tail parts.anchor))

-- `DOC_SURFACES.includes(surface)`
abbrev find_surface : List Surface → Text → Option Surface
find_surface [] name = none
find_surface (s ∷ ss) name =
    if same_codes (surface_name s) name then some s else find_surface ss name

-- The longest run at the front, and what is left.
abbrev pub run_of : (ℕ → Bool) → Text → Text × Text
run_of p [] = ([], [])
run_of p (c ∷ cs) = let (run, rest) = run_of p cs in if p c then (c ∷ run, rest) else ([], c ∷ cs)

-- `(#([^#]+))?$`
parse_tail : Text → Option (Option Text)
parse_tail [] = some none
parse_tail (c ∷ []) = none
parse_tail (c ∷ d ∷ cs) =
    if eqb c b'#' && not (any (λ x. eqb x b'#') (d ∷ cs)) then some (some (d ∷ cs)) else none

-- The tests after the match.
checked : Text → Text → Option Text → Option DocUnitIdParts
checked name path anchor = elim (find_surface doc_surfaces name) [
  | none ↦ none
  | some surface ↦
      if has_prefix (codes "estate/") path
      then none
      else some (record { surface = surface; path = path; anchor = anchor })
]

-- `([^#:]+?)(#([^#]+))?$`
parse_path : Text → Text × Text → Option DocUnitIdParts
unfolding checked parse_tail
parse_path name ([], rest) = none
parse_path name (c ∷ path, rest) = elim (parse_tail rest) [
  | none ↦ none
  | some anchor ↦ checked name (c ∷ path) anchor
]

-- `^([a-z]+):`
parse_surface : Text × Text → Option DocUnitIdParts
unfolding parse_path
parse_surface ([], rest) = none
parse_surface (c ∷ name, []) = none
parse_surface (c ∷ name, d ∷ rest) =
    if eqb d b':' then parse_path (c ∷ name) (run_of (λ x. not (is_separator x)) rest) else none

unfoldable pub parse_doc_unit_id : Text → Option DocUnitIdParts
unfolding parse_surface
parse_doc_unit_id id = parse_surface (run_of is_lower id)
