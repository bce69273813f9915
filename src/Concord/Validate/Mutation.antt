-- ===== src/Concord/Validate/Mutation.antt =====
-- packages/concord-core/src/mutation-validate.ts: what a visitor of the change lab may change. A
-- `throw` is `none`; of the detail of a refusal only the code is kept.
pub mod Closed
use doc_eng_demo.Prelude.{
  ℕ, ◌+◌, Bool, true, false, ◌&&◌, not, String, Option, none, some, List, [], ◌∷◌, find?, map,
  includes, codes, leb, if◌then◌else◌,
}
use doc_eng_demo.Contracts.Records.{Text}
use doc_eng_demo.Contracts.Mutations.{
  AllowedMutation, fact_value, doc_body, mutation_allowed, in_allowlist,
}
use doc_eng_demo.Concord.Content.{
  has_tag, has_handler, has_javascript_uri, has_braces, has_indented_statement,
  has_foreign_component,
}

pub data MutationCode : Type 0 where
  mutation_not_allowed mutation_value_not_allowed : MutationCode
  mutation_body_too_large mutation_content_forbidden : MutationCode

pub data MutationVerdict : Type 0 where
  allowed : MutationVerdict
  refused : MutationCode → MutationVerdict

abbrev pub max_body_bytes : ℕ
max_body_bytes = 8192

abbrev is_high : ℕ → Bool
is_high c = leb 0xd800 c && leb c 0xdbff

abbrev is_low : ℕ → Bool
is_low c = leb 0xdc00 c && leb c 0xdfff

-- The bytes that a code unit adds in UTF-8: a pair of surrogates has four, one alone is written as
-- U+FFFD with three.
abbrev unit_bytes : Bool → ℕ → ℕ
unit_bytes paired c =
    if leb c 0x7f then 1 else if leb c 0x7ff then 2 else if paired && is_low c then 1 else 3

utf8_from : Bool → Text → ℕ
utf8_from paired [] = 0
utf8_from paired (c ∷ cs) = unit_bytes paired c + utf8_from (is_high c) cs

unfoldable pub utf8_length : Text → ℕ
unfolding utf8_from
utf8_length body = utf8_from false body

abbrev jsx_tag_allowlist : List Text
jsx_tag_allowlist = map codes ("Note" ∷ "Warning" ∷ "Info" ∷ "Tip" ∷ [])

unfoldable pub forbidden_content : List (Text → Bool)
forbidden_content =
    has_tag (codes "script")
    ∷ has_tag (codes "iframe")
    ∷ has_tag (codes "object")
    ∷ has_tag (codes "embed")
    ∷ has_handler
    ∷ has_javascript_uri
    ∷ has_braces
    ∷ has_indented_statement (codes "import")
    ∷ has_indented_statement (codes "export")
    ∷ has_foreign_component jsx_tag_allowlist
    ∷ []

abbrev verdict_of : Option (Text → Bool) → MutationVerdict
verdict_of none = allowed
verdict_of (some re) = refused mutation_content_forbidden

unfoldable pub validate_doc_body : Text → MutationVerdict
validate_doc_body body =
    if leb (max_body_bytes + 1) (utf8_length body)
    then refused mutation_body_too_large
    else verdict_of (find? (λ re. re body) forbidden_content)

abbrev value_verdict : Option Bool → Option MutationVerdict
value_verdict none = none
value_verdict (some true) = some allowed
value_verdict (some false) = some (refused mutation_value_not_allowed)

unfoldable pub validate_mutation : AllowedMutation → List String → Option MutationVerdict
validate_mutation (fact_value key value) editable =
    if not (in_allowlist key)
    then some (refused mutation_not_allowed)
    else value_verdict (mutation_allowed key value)
validate_mutation (doc_body id body) editable =
    if not (includes editable id)
    then some (refused mutation_not_allowed)
    else some (validate_doc_body body)
