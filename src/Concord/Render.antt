-- ===== src/Concord/Render.antt =====
-- packages/concord-core/src/normalize-value.ts, the way back: the style of an existing rendering and
-- the text of a number in that style; and `replaceSpan` of packages/concord-core/src/pipeline.ts.
pub mod Spans
pub mod Tests
use doc_eng_demo.Prelude.{
  ℕ, zero, suc, ◌+◌, ◌*◌, ◌/◌, ◌%◌, ◌||◌, Option, none, some, [], ◌∷◌, ◌++◌, eqb, ltb, any, codes,
  has_prefix, has_suffix, if◌then◌else◌,
}
use mathlib.Core.List.{reverse}
use doc_eng_demo.Contracts.Records.{Text}
use doc_eng_demo.Concord.Types.{Span}
use doc_eng_demo.Concord.Normalize.{mb, kb, trim, ascii_lower}

pub data ValueStyle : Type 0 where
  megabytes kilobytes bytes_commas bytes plain : ValueStyle

unfoldable pub style_of : Text → ValueStyle
style_of t =
    let s = ascii_lower (trim t) in
    if has_suffix (codes "mb") s
    then megabytes
    else if has_suffix (codes "kb") s
    then kilobytes
    else if has_suffix (codes "byte") s || has_suffix (codes "bytes") s
    then bytes_commas
    else if any (eqb b',') (trim t)
    then bytes_commas
    else plain

-- The decimal digits of a number, the last one first. The fuel bounds their count.
unfoldable pub digits_fuel : ℕ → ℕ → Text
digits_fuel zero n = []
digits_fuel (suc f) n =
    let rest = digits_fuel f (n / 10) in
    if ltb n 10 then (b'0' + n) ∷ [] else (b'0' + n % 10) ∷ rest

-- `String(n)`; a number has at most `n + 1` digits.
unfoldable pub digits : ℕ → Text
unfolding digits_fuel
digits n = reverse (digits_fuel (suc n) n)

-- `n.toLocaleString("en-US")`, from the last digit on: a comma before each further group of three.
unfoldable pub grouped : ℕ → Text → Text
grouped k [] = []
grouped zero (c ∷ cs) = c ∷ grouped 1 cs
grouped (suc zero) (c ∷ cs) = c ∷ grouped 2 cs
grouped (suc (suc zero)) (c ∷ cs) = c ∷ grouped 3 cs
grouped (suc (suc (suc k))) (c ∷ cs) = b',' ∷ c ∷ grouped 1 cs

unfoldable pub locale_digits : ℕ → Text
unfolding digits_fuel grouped
locale_digits n = reverse (grouped 0 (digits_fuel (suc n) n))

-- `Number.isInteger(v / unit) ? v / unit : Number((v / unit).toFixed(1))`, where a half is rounded
-- up and a fraction of 0 is not printed.
unfoldable pub tenths : ℕ → ℕ → ℕ
tenths v unit = (20 * v + unit) / (2 * unit)

unfoldable pub amount : ℕ → ℕ → Text
unfolding digits tenths
amount v unit =
    let t = tenths v unit in
    if eqb (v % unit) 0
    then digits (v / unit)
    else if eqb (t % 10) 0
    then digits (t / 10)
    else digits (t / 10) ++ (b'.' ∷ digits (t % 10))

unfoldable pub format_value : ℕ → ValueStyle → Text
unfolding amount locale_digits digits
format_value v megabytes = amount v mb ++ codes " MB"
format_value v kilobytes = amount v kb ++ codes " KB"
format_value v bytes_commas = locale_digits v ++ codes " bytes"
format_value v bytes = digits v ++ codes " bytes"
format_value v plain = digits v

-- `s.indexOf(needle)`
unfoldable pub index_of : Text → Text → Option ℕ
index_of needle [] = if has_prefix needle [] then some 0 else none
index_of needle (c ∷ cs) =
    if has_prefix needle (c ∷ cs)
    then some 0
    else elim (index_of needle cs) [ none ↦ none | some i ↦ some (suc i) ]

abbrev pub take : ℕ → Text → Text
take zero cs = []
take (suc n) [] = []
take (suc n) (c ∷ cs) = c ∷ take n cs

abbrev pub drop : ℕ → Text → Text
drop zero cs = cs
drop (suc n) [] = []
drop (suc n) (c ∷ cs) = drop n cs

-- `replaceSpan`; `none` is its `throw`.
unfoldable pub replace_span : Text → Text → Span → Text → Option Text
unfolding index_of
replace_span content body s replacement = elim (index_of body content) [
  | none ↦ none
  | some i ↦ some (take (i + s.start) content ++ (replacement ++ drop (i + s.end) content))
]
