-- ===== src/Concord/Render/Tests.antt =====
-- Instances of the properties of `replaceSpan`: a limit in the body of a page, in a file with a title.
use doc_eng_demo.Prelude.{◌≡◌, ◌≢◌, refl, none, some, codes, arith}
use doc_eng_demo.Contracts.Records.{Text}
use doc_eng_demo.Concord.Types.{Span}
use doc_eng_demo.Concord.Render.{replace_span}
use doc_eng_demo.Concord.Render.Spans.{IsReplaced, replace_span-IsReplaced, replace_span-repeated}

abbrev body : Text
body = codes "Up to 500 rows."

abbrev new_body : Text
new_body = codes "Up to 900 rows."

abbrev rows_span : Span
rows_span = record { start = 6; end = 9 }

in_file :
    replace_span (codes "# Limits Up to 500 rows. End") body rows_span (codes "900")
    ≡ some (codes "# Limits Up to 900 rows. End")
unfolding replace_span
in_file = refl

replace_span-IsReplaced_example :
    IsReplaced
      (codes "# Limits Up to 500 rows. End")
      body
      rows_span
      (codes "900")
      (codes "# Limits Up to 900 rows. End")
replace_span-IsReplaced_example =
    replace_span-IsReplaced (codes "# Limits Up to 500 rows. End") body rows_span (codes "900")
      (codes "# Limits Up to 900 rows. End") in_file (ground arith) (ground arith)

first_time : replace_span body body rows_span (codes "900") ≡ some new_body
unfolding replace_span
first_time = refl

changed : new_body ≢ body
changed e = ground arith

replace_span-repeated_example : replace_span new_body body rows_span (codes "1") ≡ none
replace_span-repeated_example =
    replace_span-repeated body rows_span (codes "900") new_body first_time (ground arith) changed
      rows_span (codes "1")
