-- ===== src/Concord/Diff.antt =====
-- `makeDiff` (packages/concord-core/src/diff.ts): one hunk, over lines.
pub mod Hunks
pub mod Tests
use doc_eng_demo.Prelude.{
  ℕ, suc, zero, ◌+◌, ◌-◌, String, Bool, true, false, List, [], ◌∷◌, ◌++◌, map, length, eqb, codes,
  split_on, same_codes, if◌then◌else◌,
}
use mathlib.Core.List.{reverse}
use doc_eng_demo.Contracts.Records.{Text}
use doc_eng_demo.Concord.Types.{FileDiff}
use doc_eng_demo.Concord.Render.{digits}

abbrev pub take : ℕ → List Text → List Text
take zero xs = []
take (suc n) [] = []
take (suc n) (x ∷ xs) = x ∷ take n xs

abbrev pub drop : ℕ → List Text → List Text
drop zero xs = xs
drop (suc n) [] = []
drop (suc n) (x ∷ xs) = drop n xs

-- How many lines agree from the start on: the loops' counters.
unfoldable pub common : List Text → List Text → ℕ
common [] ys = 0
common (x ∷ xs) [] = 0
common (x ∷ xs) (y ∷ ys) = let n = common xs ys in if same_codes x y then suc n else 0

-- `start`, and the slices up to `endBefore` and `endAfter`.
pub record Hunk : Type 0 where
  pub start : ℕ
  pub removed : List Text
  pub added : List Text

-- The second loop runs backwards and stops at `start`.
unfoldable pub hunk_of : List Text → List Text → Hunk
hunk_of before after =
    let start = common before after in
    let old = drop start before in
    let new = drop start after in
    let kept = common (reverse old) (reverse new) in
    record {
      start = start;
      removed = take (length old - kept) old;
      added = take (length new - kept) new;
    }

-- `lines.join("\n")`
abbrev pub join_lines : List Text → Text
join_lines [] = []
join_lines (l ∷ []) = l
join_lines (l ∷ m ∷ ls) = l ++ (b'\n' ∷ join_lines (m ∷ ls))

unfoldable pub hunk_text : Hunk → Text
unfolding digits
hunk_text h =
    let removed = length h.removed in
    let added = length h.added in
    let place = digits (h.start + 1) in
    let header =
      codes "@@ -"
      ++ place
      ++ b',' ∷ digits removed
      ++ codes " +"
      ++ place
      ++ b',' ∷ digits added
      ++ codes " @@" in
    if eqb (removed + added) 0
    then []
    else join_lines (header ∷ map (λ l. b'-' ∷ l) h.removed ++ map (λ l. b'+' ∷ l) h.added)

abbrev pub end_line : Text → Text
end_line [] = []
end_line (c ∷ cs) = (c ∷ cs) ++ b'\n' ∷ []

unfoldable pub unified_text : String → Hunk → Text
unfolding hunk_text
unified_text path h =
    codes "--- a/" ++ codes path ++ codes "\n+++ b/" ++ codes path ++ b'\n' ∷ end_line (hunk_text h)

unfoldable pub make_diff : String → Text → Text → FileDiff
unfolding hunk_of unified_text split_on
make_diff path before after = record {
  path = path;
  before = before;
  after = after;
  unified = unified_text path (hunk_of (split_on b'\n' before) (split_on b'\n' after));
}
