-- ===== src/Api/Run/Written/Tests.antt =====
-- Instances of the properties of the stored texts: a body behind the title of its file, with and
-- without a `$$` in what is proposed for it.
use doc_eng_demo.Prelude.{◌≡◌, refl, some, none, [], ◌∷◌, ◌++◌, codes}
use doc_eng_demo.Contracts.Records.{Text, PatchProposal, EditorialRisk}
use doc_eng_demo.Concord.Types.{DocUnit}
use doc_eng_demo.Concord.Fixtures.{page, page_unit}
use doc_eng_demo.Concord.Pipeline.{map_get}
use doc_eng_demo.Concord.Render.{index_of}
use doc_eng_demo.Api.Replace.{dollar}
use doc_eng_demo.Api.Run.{RunInput}
use doc_eng_demo.Api.Run.Phase.{before_text, patch_row}
use doc_eng_demo.Api.Run.Tests.{input, limits_path, call, validation}
use doc_eng_demo.Api.Run.Written.{IsWritten, patch_row-IsWritten, patch_row-dollars}

abbrev titled : RunInput
titled = record input {
  files = record { path = limits_path; content = codes "# Limits\n" ++ page } ∷ [];
}

abbrev unit : DocUnit
unit = page_unit limits_path page

abbrev proposal : Text → PatchProposal
proposal new = record {
  new_body = new;
  evidence = [];
  changed_because = "the price rose";
  editorial_risk = EditorialRisk.none;
  needs_human_because = none;
}

body_there : index_of page (before_text titled unit) ≡ some 9
unfolding index_of before_text map_get
body_there = refl

patch_row-IsWritten_example :
    IsWritten unit
      (codes "Up to 900 rows.")
      (patch_row titled unit call (proposal (codes "Up to 900 rows.")) validation "pat_1").before
      (patch_row titled unit call (proposal (codes "Up to 900 rows.")) validation "pat_1").after
patch_row-IsWritten_example =
    patch_row-IsWritten titled unit call (proposal (codes "Up to 900 rows.")) validation "pat_1" 9
      body_there refl

abbrev priced : PatchProposal
priced = proposal (codes "A " ++ dollar ∷ (dollar ∷ codes " sign."))

patch_row-dollars_example :
    IsWritten unit
      (codes "A " ++ dollar ∷ codes " sign.")
      (patch_row titled unit call priced validation "pat_1").before
      (patch_row titled unit call priced validation "pat_1").after
patch_row-dollars_example =
    patch_row-dollars titled unit call priced validation "pat_1" 9 (codes "A ") (codes " sign.")
      body_there refl refl refl
