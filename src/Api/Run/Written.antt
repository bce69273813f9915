-- ===== src/Api/Run/Written.antt =====
-- How the new body of a unit is written into its file (packages/concord-api/src/run.ts).
pub mod Tests
use doc_eng_demo.Prelude.{
  ℕ, ◌≡◌, refl, sym, ap, ◌∙◌, String, false, true, Option, some, ◌∷◌, ◌++◌, any, is_some,
  if◌then◌else◌,
}
use doc_eng_demo.Contracts.Records.{Text, PatchProposal, PatchValidation}
use doc_eng_demo.Concord.Types.{DocUnit}
use doc_eng_demo.Concord.Render.{index_of}
use doc_eng_demo.Api.Replace.{
  dollar, is_dollar, expand, expand-plain, expand-dollars, replace_first, replace_first-found,
}
use doc_eng_demo.Api.Run.{RunInput, Call}
use doc_eng_demo.Api.Run.Phase.{before_text, after_text, patch_row}

-- The two texts differ in the unit's body alone, for which the second has the given one.
abbrev pub IsWritten : DocUnit → Text → Text → Text → Type 0
IsWritten unit new before after =
    (front : Text) × (back : Text) × (before ≡ front ++ (unit.body ++ back))
    × (after ≡ front ++ (new ++ back))

after_text-found :
    (before : Text) (unit : DocUnit) (new : Text) (n : ℕ)
    → index_of unit.body before ≡ some n
    → (front : Text) × (back : Text) × (before ≡ front ++ (unit.body ++ back))
      × (after_text before unit new ≡ front ++ (expand front unit.body back false new ++ back))
unfolding after_text
after_text-found before unit new n h =
    let (front, back, split, e) = replace_first-found before unit.body new n h in
    (front, back, split, rw h e)

module _ (input : RunInput) (unit : DocUnit) (call : Call) (p : PatchProposal)
    (validation : PatchValidation) (id : String) (n : ℕ) where
  -- If the unit's body is in its file and the new body has no `$`, the stored texts differ in that
  -- body alone, for which the second has the new one.
  pub patch_row-IsWritten :
      index_of unit.body (before_text input unit) ≡ some n
      → any is_dollar p.new_body ≡ false
      → IsWritten unit p.new_body
          (patch_row input unit call p validation id).before
          (patch_row input unit call p validation id).after
  unfolding patch_row
  patch_row-IsWritten found plain =
      let (front, back, split, e) =
        after_text-found (before_text input unit) unit p.new_body n found in
      (
        front,
        back,
        split,
        e
            ∙ ap (λ (t : Text). front ++ (t ++ back))
                (expand-plain front unit.body back p.new_body plain),
      )

  -- If the new body has a `$$` and no other `$`, the stored text has one `$` for it, and so another
  -- body than the one that was proposed and checked.
  pub patch_row-dollars :
      (x y : Text)
      → index_of unit.body (before_text input unit) ≡ some n
      → p.new_body ≡ x ++ dollar ∷ (dollar ∷ y)
      → any is_dollar x ≡ false
      → any is_dollar y ≡ false
      → IsWritten unit
          (x ++ dollar ∷ y)
          (patch_row input unit call p validation id).before
          (patch_row input unit call p validation id).after
  unfolding patch_row
  patch_row-dollars x y found same h k =
      let (front, back, split, e) =
        after_text-found (before_text input unit) unit p.new_body n found in
      let once =
        ap (expand front unit.body back false) same ∙ expand-dollars front unit.body back x y h k in
      (front, back, split, e ∙ ap (λ (t : Text). front ++ (t ++ back)) once)
