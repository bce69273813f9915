-- ===== src/Concord/Conflicts/Circular.antt =====
-- `circularReferences` (packages/concord-core/src/conflicts.ts): two pages that cite each other. A
-- cited page is a text of the body, a page's name a `String`.
use Prim.Native.String.{◌++◌ as join}
use doc_eng_demo.Prelude.{
  ℕ, zero, suc, ◌-◌, String, Bool, true, false, ◌&&◌, ◌||◌, not, Option, none, some, List, [], ◌∷◌,
  ◌++◌, map, flat_map, filter, any, length, eqb, ◌==◌, codes, ◌>>=◌, less_codes, code, has_prefix,
  same_codes, if◌then◌else◌,
}
use doc_eng_demo.Value.{str}
use doc_eng_demo.Contracts.Facts.{t5_human}
use doc_eng_demo.Contracts.Records.{Text, Evidence, ConflictDraft, circular_reference}
use doc_eng_demo.Concord.Types.{DocUnit}
use doc_eng_demo.Concord.Normalize.{ascii_lower, is_space, is_word, skip_spaces, span}
use doc_eng_demo.Concord.Render.{drop}

abbrev bracket_open : ℕ
bracket_open = 91

abbrev bracket_close : ℕ
bracket_close = 93

abbrev paren_open : ℕ
paren_open = 40

abbrev paren_close : ℕ
paren_close = 41

abbrev pub cite_words : List Text
cite_words = codes "source" ∷ codes "per" ∷ codes "according to" ∷ codes "as documented in" ∷ []

-- The text behind one character, if it begins with it.
abbrev pub after_code : ℕ → Text → Option Text
after_code c [] = none
after_code c (d ∷ cs) = if eqb c d then some cs else none

abbrev pub is_target : ℕ → Bool
is_target c = not (eqb c paren_close || eqb c b'#' || is_space c)

-- `([^)#\s]+)[^)]*\)`: the target, and what follows the match.
target_here : Text × Text → Option (Text × Text)
target_here ([], rest) = none
target_here (c ∷ cs, rest) = do
  tail ← after_code paren_close (span (λ d. not (eqb d paren_close)) rest).1
  some (c ∷ cs, tail)

abbrev drop_colon : Text → Text
drop_colon [] = []
drop_colon (c ∷ cs) = if eqb c b':' then cs else c ∷ cs

-- `:?\s*\[[^\]]*\]\(([^)#\s]+)[^)]*\)`
unfoldable pub link_tail : Text → Option (Text × Text)
unfolding target_here
link_tail cs = do
  label ← after_code bracket_open (skip_spaces (drop_colon cs))
  closed ← after_code bracket_close (span (λ d. not (eqb d bracket_close)) label).1
  target ← after_code paren_open closed
  target_here (span is_target target)

-- The first of the words with which the text begins.
word_tail : List Text → Text → Option Text
word_tail [] cs = none
word_tail (w ∷ ws) cs =
    if has_prefix w (ascii_lower cs) then some (drop (length w) cs) else word_tail ws cs

-- `CITE_PATTERN` at one place, whose preceding character is a word character or not.
unfoldable pub cite_here : Bool → Text → Option (Text × Text)
unfolding word_tail
cite_here true cs = none
cite_here false cs = do tail ← word_tail cite_words cs; link_tail tail

abbrev matched_length : Text → Option (Text × Text) → ℕ
matched_length cs none = 0
matched_length cs (some (target, rest)) = length cs - length rest

abbrev put_match : Option (Text × Text) → List Text → List Text
put_match none found = found
put_match (some (target, rest)) found = target ∷ found

-- `body.matchAll(CITE_PATTERN)` without overlap: the first number counts the characters of the
-- last match that are still to be passed.
unfoldable pub cites_from : Bool → ℕ → Text → List Text
cites_from prev skip [] = []
cites_from prev zero (c ∷ cs) =
    let found = cite_here prev (c ∷ cs) in
    put_match found (cites_from (is_word c) (matched_length (c ∷ cs) found - 1) cs)
cites_from prev (suc skip) (c ∷ cs) = cites_from (is_word c) skip cs

abbrev without_slash : Text → Text
without_slash [] = []
without_slash (c ∷ cs) = if eqb c b'/' then cs else c ∷ cs

unfoldable pub cites_of : DocUnit → List Text
cites_of unit = map without_slash (cites_from false 0 unit.body)

-- `s.split("/").pop()`
last_from : String → String → String
last_from last String.[] = last
last_from last (String.◌∷◌ c s) = last_from (if eqb (code c) b'/' then s else last) s

last_codes_from : Text → Text → Text
last_codes_from last [] = last
last_codes_from last (c ∷ cs) = last_codes_from (if eqb c b'/' then cs else last) cs

unfoldable pub last_segment : Text → Text
unfolding last_codes_from
last_segment cs = last_codes_from cs cs

-- `\.(mdx?|json)$`
abbrev is_extension : String → Bool
is_extension s = s == ".md" || (s == ".mdx" || s == ".json")

without_extension : String → String
without_extension String.[] = ""
without_extension (String.◌∷◌ c s) =
    if is_extension (String.◌∷◌ c s) then "" else String.◌∷◌ c (without_extension s)

unfoldable pub page_of : DocUnit → String
unfolding last_from without_extension
page_of unit = without_extension (last_from unit.path unit.path)

abbrev pub is_page : Text → DocUnit → Bool
is_page page unit = same_codes (codes (page_of unit)) page

-- The rounds of the three loops: a unit, and a unit of a page that it cites.
unfoldable pub cited_by : List DocUnit → DocUnit → List (DocUnit × DocUnit)
cited_by units unit =
    flat_map (λ cited. map (λ v. (unit, v)) (filter (is_page (last_segment cited)) units))
      (cites_of unit)

unfoldable pub cite_rounds : List DocUnit → List (DocUnit × DocUnit)
cite_rounds units = flat_map (cited_by units) units

unfoldable pub cites_back : DocUnit → DocUnit → Bool
cites_back unit cited = any (λ c. is_page (last_segment c) unit) (cites_of cited)

-- `[a, b].sort().join("↔")`
unfoldable pub pair_key : String → String → Text
pair_key a b =
    if less_codes (codes b) (codes a)
    then codes b ++ 0x2194 ∷ codes a
    else codes a ++ 0x2194 ∷ codes b

citation : DocUnit → String → Evidence
citation unit page = record {
  fact_key = unit.id;
  tier = t5_human;
  locator = unit.path;
  value = str (join "cites " (join page " as source"));
  observed_at = "";
}

unfoldable pub circular_draft : DocUnit → DocUnit → ConflictDraft
unfolding citation
circular_draft unit cited = record {
  fact_key = join "doc.circular." (join (page_of unit) (join "." (page_of cited)));
  kind = circular_reference;
  claims = citation unit (page_of cited) ∷ citation cited (page_of unit) ∷ [];
  likely_owner = unit.owner;
}

unfoldable pub is_new_pair : List Text → DocUnit → DocUnit → Bool
is_new_pair seen unit cited =
    cites_back unit cited
    && not (any (same_codes (pair_key unit.path cited.path)) seen || unit.path == cited.path)

-- The pairs for which the loops add a conflict, given the keys seen so far.
unfoldable pub circular_pairs : List Text → List (DocUnit × DocUnit) → List (DocUnit × DocUnit)
circular_pairs seen [] = []
circular_pairs seen ((u, v) ∷ rounds) =
    let fresh = is_new_pair seen u v in
    let rest = circular_pairs (if fresh then pair_key u.path v.path ∷ seen else seen) rounds in
    if fresh then (u, v) ∷ rest else rest

abbrev draft_of : DocUnit × DocUnit → ConflictDraft
draft_of (u, v) = circular_draft u v

unfoldable pub circular_references : List DocUnit → List ConflictDraft
circular_references units = map draft_of (circular_pairs [] (cite_rounds units))
