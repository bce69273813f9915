-- ===== src/Concord/Content.antt =====
-- The searches in untrusted bodies that packages/concord-core/src/patch-validate.ts and
-- mutation-validate.ts write as regular expressions, on UTF-16 code units. Their flag `i` folds
-- ASCII letters alone.
use doc_eng_demo.Prelude.{
  ℕ, Bool, true, false, ◌&&◌, ◌||◌, not, List, [], ◌∷◌, any, codes, eqb, has_prefix, same_codes,
}
use doc_eng_demo.Contracts.Facts.{is_lower}
use doc_eng_demo.Contracts.Records.{Text}
use doc_eng_demo.Concord.Normalize.{
  is_upper, is_letter, is_digit, span, skip_spaces, drop_prefix, starts_word, starts_space,
  ascii_lower, search_word, word_here,
}

-- A place from which the pattern matches.
unfoldable pub somewhere : (Text → Bool) → Text → Bool
somewhere p [] = false
somewhere p (c ∷ cs) = p (c ∷ cs) || somewhere p cs

abbrev is_line_end : ℕ → Bool
is_line_end c = eqb c 10 || eqb c 13 || eqb c 0x2028 || eqb c 0x2029

-- A place at the start of a line, for `^` with the flag `m`.
unfoldable pub at_line_start : Bool → (Text → Bool) → Text → Bool
at_line_start fresh p [] = false
at_line_start fresh p (c ∷ cs) = (fresh && p (c ∷ cs)) || at_line_start (is_line_end c) p cs

-- `<\s*rest`
abbrev after_bracket : (Text → Bool) → Text → Bool
after_bracket p [] = false
after_bracket p (c ∷ cs) = eqb c b'<' && p (skip_spaces cs)

-- `<\s*word\b`
unfoldable pub has_tag : Text → Text → Bool
unfolding somewhere skip_spaces ascii_lower
has_tag word body = somewhere (after_bracket (word_here word)) (ascii_lower body)

abbrev starts_equals : Text → Bool
starts_equals [] = false
starts_equals (c ∷ cs) = eqb c b'='

abbrev attribute_tail : Text × Text → Bool
attribute_tail ([], rest) = false
attribute_tail (c ∷ cs, rest) = starts_equals (skip_spaces rest)

-- `on[a-z]+\s*=`
handler_here : Text → Bool
unfolding span skip_spaces
handler_here cs =
    has_prefix (codes "on") cs && attribute_tail (span is_lower (drop_prefix (codes "on") cs))

-- `\bon[a-z]+\s*=`
unfoldable pub has_handler : Text → Bool
unfolding handler_here search_word ascii_lower
has_handler body = search_word false handler_here (ascii_lower body)

unfoldable pub has_javascript_uri : Text → Bool
unfolding somewhere ascii_lower
has_javascript_uri body = somewhere (has_prefix (codes "javascript:")) (ascii_lower body)

-- `word\s`
abbrev statement_here : Text → Text → Bool
statement_here w cs = has_prefix w cs && starts_space (drop_prefix w cs)

-- `^word\s`
unfoldable pub has_statement : Text → Text → Bool
unfolding at_line_start
has_statement w body = at_line_start true (statement_here w) body

-- `^\s*word\s`
unfoldable pub has_indented_statement : Text → Text → Bool
unfolding at_line_start skip_spaces
has_indented_statement w body = at_line_start true (λ cs. statement_here w (skip_spaces cs)) body

-- `\{[^}]*\}`
abbrev braces_here : Text → Bool
braces_here [] = false
braces_here (c ∷ cs) = eqb c b'{' && any (λ d. eqb d b'}') cs

unfoldable pub has_braces : Text → Bool
unfolding somewhere
has_braces body = somewhere braces_here body

abbrev is_alnum : ℕ → Bool
is_alnum c = is_letter c || is_digit c

-- The name of `<\s*([A-Z][A-Za-z0-9]*)\b`, if it is none of the allowed ones.
abbrev foreign_name : List Text → Text × Text → Bool
foreign_name allowed ([], rest) = false
foreign_name allowed (c ∷ cs, rest) =
    is_upper c && (not (starts_word rest) && not (any (λ w. same_codes w (c ∷ cs)) allowed))

unfoldable pub has_foreign_component : List Text → Text → Bool
unfolding somewhere skip_spaces span
has_foreign_component allowed body =
    somewhere (after_bracket (λ cs. foreign_name allowed (span is_alnum cs))) body
