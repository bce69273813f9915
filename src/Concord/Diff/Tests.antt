-- ===== src/Concord/Diff/Tests.antt =====
-- Instances of the property of diffs: a line changed between two that stay, and two equal files.
use doc_eng_demo.Prelude.{◌≡◌, refl, codes, split_on}
use doc_eng_demo.Contracts.Records.{Text}
use doc_eng_demo.Concord.Render.{digits}
use doc_eng_demo.Concord.Diff.{Hunk, common, hunk_of, hunk_text, unified_text, make_diff}
use doc_eng_demo.Concord.Diff.Hunks.{IsHunk, make_diff-IsHunk}

abbrev before : Text
before = codes "a\nb\nc"

abbrev after : Text
after = codes "a\nx\ny\nc"

one_hunk :
    (make_diff "p" before after).unified ≡ codes "--- a/p\n+++ b/p\n@@ -2,1 +2,2 @@\n-b\n+x\n+y\n"
unfolding make_diff unified_text hunk_text hunk_of common split_on digits
one_hunk = refl

no_hunk : (make_diff "p" before before).unified ≡ codes "--- a/p\n+++ b/p\n"
unfolding make_diff unified_text hunk_text hunk_of common split_on digits
no_hunk = refl

make_diff-IsHunk_example :
    (h : Hunk) × ((make_diff "p" before after).unified ≡ unified_text "p" h)
    × IsHunk (split_on b'\n' before) (split_on b'\n' after) h
make_diff-IsHunk_example = make_diff-IsHunk "p" before after
