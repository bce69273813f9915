-- ===== src/Concord/Normalize.antt =====
-- packages/concord-core/src/normalize-value.ts: the comparison form of rendered values. Regular
-- expressions are read by hand over code points. Numbers are exact: the source's doubles agree
-- with them up to 2^53. A refusal's reason, a text for logs, is left out.
use doc_eng_demo.Prelude.{
  ℕ, ◌+◌, ◌*◌, ◌-◌, ◌/◌, ◌^◌, String, Bool, true, false, ◌&&◌, ◌||◌, not, Option, none, some, List,
  [], ◌∷◌, leb, eqb, codes, ◌>>=◌, same_codes, has_prefix, has_suffix, any, all, if◌then◌else◌,
  length,
}
use mathlib.Core.List.{reverse}
use doc_eng_demo.Value.{Value, undefined, null, bool, num, str, strict_eq, same_bool}
use doc_eng_demo.Contracts.Facts.{
  FactValueType, integer, boolean, semver, term, string, json, enum_plan, is_lower,
}
use doc_eng_demo.Contracts.Records.{Text}
use doc_eng_demo.Concord.Types.{Scalar, number, text, flag}

abbrev pub mb : ℕ
mb = 1_048_576

abbrev pub kb : ℕ
kb = 1_024

-- `no_unit` is the source's "none".
pub data FactUnit : Type 0 where
  bytes days count no_unit : FactUnit

unfoldable pub unit_of_fact_key : String → FactUnit
unit_of_fact_key key =
    let k = codes key in
    if has_suffix (codes ".max_bytes") k
    then bytes
    else if has_suffix (codes ".days") k
    then days
    else if has_suffix (codes ".max_rows") k
    then count
    else no_unit

-- What `\s` matches and `trim` removes.
abbrev pub is_space : ℕ → Bool
is_space c =
    (leb 9 c && leb c 13)
    || eqb c 32
    || eqb c 0xa0
    || eqb c 0x1680
    || (leb 0x2000 c && leb c 0x200a)
    || eqb c 0x2028
    || eqb c 0x2029
    || eqb c 0x202f
    || eqb c 0x205f
    || eqb c 0x3000
    || eqb c 0xfeff

abbrev pub is_digit : ℕ → Bool
is_digit c = leb b'0' c && leb c b'9'

abbrev pub is_upper : ℕ → Bool
is_upper c = leb b'A' c && leb c b'Z'

-- `\w`
abbrev pub is_word : ℕ → Bool
is_word c = is_lower c || is_upper c || is_digit c || eqb c b'_'

-- `toLowerCase`, as far as it can yield an ASCII letter: the Latin capitals and the Kelvin sign.
abbrev pub lower : ℕ → ℕ
lower c = if is_upper c then c + 32 else if eqb c 0x212a then b'k' else c

unfoldable pub lower_case : Text → Text
lower_case [] = []
lower_case (c ∷ cs) = lower c ∷ lower_case cs

-- The longest run at the front, and what is left.
unfoldable pub span : (ℕ → Bool) → Text → Text × Text
span p [] = ([], [])
span p (c ∷ cs) = let (run, rest) = span p cs in if p c then (c ∷ run, rest) else ([], c ∷ cs)

unfoldable pub skip_spaces : Text → Text
unfolding span
skip_spaces cs = (span is_space cs).1

unfoldable pub trim : Text → Text
unfolding skip_spaces
trim cs = reverse (skip_spaces (reverse (skip_spaces cs)))

abbrev digit_comma : ℕ → Bool
digit_comma c = is_digit c || eqb c b','

-- The number that a run of digits and commas denotes, `Number(run.replaceAll(",", ""))`.
unfoldable pub decimal_from : ℕ → Text → ℕ
decimal_from n [] = n
decimal_from n (c ∷ cs) = decimal_from (if eqb c b',' then n else n * 10 + (c - b'0')) cs

unfoldable pub decimal : Text → ℕ
unfolding decimal_from
decimal cs = decimal_from 0 cs

-- The two digit runs around a point; a point that no digit follows is not consumed.
abbrev fraction_of : Text → Text → Text × Text
fraction_of [] all_of = ([], all_of)
fraction_of (d ∷ ds) rest = (d ∷ ds, rest)

unfoldable pub take_fraction : Text → Text × Text
unfolding span
take_fraction [] = ([], [])
take_fraction (c ∷ cs) =
    let (ds, rest) = span is_digit cs in
    if eqb c b'.' && not (same_codes ds []) then (ds, rest) else ([], c ∷ cs)

-- `Math.round(Number(whole.fraction) * unit)`
unfoldable pub scaled : Text → Text → ℕ → ℕ
unfolding decimal
scaled whole fraction unit =
    let p = 10 ^ length fraction in
    let n = decimal whole * p + decimal fraction in (2 * n * unit + p) / (2 * p)

-- The `i` flag over ASCII letters.
unfoldable pub ascii_lower : Text → Text
ascii_lower [] = []
ascii_lower (c ∷ cs) = (if is_upper c then c + 32 else c) ∷ ascii_lower cs

-- What follows the number: nothing, or a unit behind optional spaces.
abbrev unit_is : String → Text → Bool
unit_is unit rest = same_codes (codes unit) (ascii_lower (skip_spaces rest))

-- `parseValue`: megabytes, kilobytes, bytes, or a bare number; `none` is `null`.
parse_parts : Text → Text → Text → Text → Option ℕ
unfolding span skip_spaces ascii_lower scaled decimal
parse_parts whole after fraction rest =
    if unit_is "mb" rest
    then some (scaled whole fraction mb)
    else if unit_is "kb" rest
    then some (scaled whole fraction kb)
    else if unit_is "byte" after || unit_is "bytes" after
    then some (decimal whole)
    else if same_codes after []
    then some (decimal whole)
    else none

unfoldable pub parse_value : Text → Option ℕ
unfolding parse_parts span take_fraction trim
parse_value t =
    let (whole, after) = span digit_comma (trim t) in
    let (fraction, rest) = take_fraction after in
    if same_codes whole [] then none else parse_parts whole after fraction rest

-- The outcome of normalization.
pub data Normalized : Type 0 where
  known : Scalar → Normalized
  unknown : Normalized

abbrev pub drop_prefix : Text → Text → Text
drop_prefix [] cs = cs
drop_prefix (p ∷ ps) [] = []
drop_prefix (p ∷ ps) (c ∷ cs) = drop_prefix ps cs

abbrev pub starts_space : Text → Bool
starts_space [] = false
starts_space (c ∷ cs) = is_space c

abbrev pub starts_word : Text → Bool
starts_word [] = false
starts_word (c ∷ cs) = is_word c

-- `(?:calendar\s+)?` before "day" or "days"; at least the spaces are optional.
after_calendar : Text → Text
unfolding skip_spaces span
after_calendar rest =
    let tail = drop_prefix (codes "calendar") rest in
    if has_prefix (codes "calendar") rest && starts_space tail then skip_spaces tail else rest

unfoldable pub parse_duration : Text → Normalized
unfolding after_calendar span trim decimal lower_case
parse_duration t =
    let (run, after) = span digit_comma (lower_case (trim t)) in
    let unit = skip_spaces after in
    let day = after_calendar unit in
    if same_codes run []
    then unknown
    else if same_codes day (codes "day") || same_codes day (codes "days")
    then known (number (decimal run))
    else if same_codes unit (codes "week") || same_codes unit (codes "weeks")
    then known (number (decimal run * 7))
    else if same_codes after []
    then known (number (decimal run))
    else unknown

-- A match of `p` that begins at a word boundary, anywhere in the text.
unfoldable pub search_word : Bool → (Text → Bool) → Text → Bool
search_word inside p [] = false
search_word inside p (c ∷ cs) = (not inside && p (c ∷ cs)) || search_word (is_word c) p cs

-- `word\b` at the front.
abbrev pub word_here : Text → Text → Bool
word_here w cs = has_prefix w cs && not (starts_word (drop_prefix w cs))

abbrev available_here : Text → Bool
available_here cs = word_here (codes "available") cs || word_here (codes "supported") cs

-- `not\s+(yet\s+)?(available|supported)\b` at the front.
not_available_here : Text → Bool
unfolding skip_spaces span
not_available_here cs =
    let after = drop_prefix (codes "not") cs in
    let next = skip_spaces after in
    let later = drop_prefix (codes "yet") next in
    has_prefix (codes "not") cs
    && starts_space after
    && (available_here next
        || (has_prefix (codes "yet") next
            && starts_space later
            && available_here (skip_spaces later)))

-- `^(…|…)$`
abbrev one_of : List Text → Text → Bool
one_of words t = any (λ w. same_codes w t) words

unfoldable pub parse_availability : Text → Normalized
unfolding trim lower_case not_available_here search_word
parse_availability raw =
    let t = lower_case (trim raw) in
    if one_of
      (codes "true"
        ∷ codes "yes"
        ∷ codes "✓"
        ∷ codes "✔"
        ∷ codes "available"
        ∷ codes "supported"
        ∷ codes "enabled"
        ∷ [])
      t
    then known (flag true)
    else if one_of
        (codes "false"
          ∷ codes "no"
          ∷ codes "✗"
          ∷ codes "✕"
          ∷ codes "—"
          ∷ codes "-"
          ∷ codes "unavailable"
          ∷ codes "unsupported"
          ∷ codes "disabled"
          ∷ [])
        t
    then known (flag false)
    else if search_word false not_available_here t
    then known (flag false)
    else if search_word false available_here t
    then known (flag true)
    else unknown

abbrev plans : List Text
plans = codes "free" ∷ codes "pro" ∷ codes "team" ∷ []

-- `t.replace(/\s+plan$/, "")`
without_plan : Text → Text
unfolding skip_spaces span
without_plan t =
    let rest = drop_prefix (codes "nalp") (reverse t) in
    if has_prefix (codes "nalp") (reverse t) && starts_space rest
    then reverse (skip_spaces rest)
    else t

-- `t.replace(/^the\s+/, "")`
without_the : Text → Text
unfolding skip_spaces span
without_the t =
    let rest = drop_prefix (codes "the") t in
    if has_prefix (codes "the") t && starts_space rest then skip_spaces rest else t

unfoldable pub parse_plan : Text → Normalized
unfolding trim lower_case without_plan without_the
parse_plan raw =
    let t = without_the (without_plan (lower_case (trim raw))) in
    if one_of plans t then known (text t) else unknown

-- `\d+` at the front: what follows it, if there is a digit.
after_digits : Text → Option Text
unfolding span
after_digits cs =
    let (run, rest) = span is_digit cs in if same_codes run [] then none else some rest

-- A point and digits at the front.
after_point : Text → Option Text
unfolding after_digits
after_point [] = none
after_point (c ∷ cs) = if eqb c b'.' then after_digits cs else none

-- `(?:\.\d+)?`
abbrev or_same : Text → Option Text → Text
or_same cs none = cs
or_same cs (some rest) = rest

-- `(?:[-+][\w.]+)?$`
is_suffix : Text → Bool
is_suffix [] = true
is_suffix (c ∷ []) = false
is_suffix (c ∷ d ∷ ds) = (eqb c b'-' || eqb c b'+') && all (λ x. is_word x || eqb x b'.') (d ∷ ds)

is_version : Text → Option Bool
unfolding after_digits after_point is_suffix
is_version t = do
  major ← after_digits t
  minor ← after_point major
  some (is_suffix (or_same minor (after_point minor)))

without_v : Text → Text
without_v [] = []
without_v (c ∷ cs) = if eqb c b'v' then cs else c ∷ cs

abbrev pub holds : Option Bool → Bool
holds none = false
holds (some b) = b

unfoldable pub parse_version : Text → Normalized
unfolding is_version without_v trim
parse_version raw =
    let t = without_v (trim raw) in if holds (is_version t) then known (text t) else unknown

-- `^[A-Za-z][A-Za-z-]*$`
abbrev pub is_letter : ℕ → Bool
is_letter c = is_lower c || is_upper c

is_term : Text → Bool
is_term [] = false
is_term (c ∷ cs) = is_letter c && all (λ x. is_letter x || eqb x b'-') cs

-- `t.endsWith("s") && t.length > 1 ? t.slice(0, -1) : t`; the first argument is `t` reversed.
drop_s : Text → Text → Text
drop_s (c ∷ d ∷ ds) t = if eqb c b's' then reverse (d ∷ ds) else t
drop_s _ t = t

singular : Text → Text
unfolding drop_s
singular t = drop_s (reverse t) t

unfoldable pub parse_term : Text → Normalized
unfolding trim is_term singular
parse_term raw = let t = trim raw in if is_term t then known (text (singular t)) else unknown

-- `normalizeForFact`: the comparison form of a raw value, by the fact's declared type. A type that
-- is absent selects no case: the call gives `undefined`, on which the callers fail (`none`).
-- A bare number is accepted for every unit, and a size in bytes for all but a count.
has_byte_unit : Text → Bool
unfolding trim ascii_lower
has_byte_unit t =
    any (λ unit. has_suffix unit (ascii_lower (trim t)))
      (codes "mb" ∷ codes "kb" ∷ codes "byte" ∷ codes "bytes" ∷ [])

abbrev is_count : FactUnit → Bool
is_count count = true
is_count _ = false

number_of : FactUnit → Text → Option ℕ → Normalized
unfolding has_byte_unit
number_of unit t none = unknown
number_of unit t (some n) = if is_count unit && has_byte_unit t then unknown else known (number n)

normalize_integer : Value → FactUnit → Normalized
unfolding parse_value parse_duration number_of
normalize_integer (num n) unit = known (number n)
normalize_integer (str s) days = parse_duration (codes s)
normalize_integer (str s) unit = number_of unit (codes s) (parse_value (codes s))
normalize_integer _ unit = unknown

normalize_boolean : Value → Normalized
normalize_boolean (bool b) = known (flag b)
normalize_boolean (str s) = parse_availability (codes s)
normalize_boolean _ = unknown

normalize_string : (Text → Normalized) → Value → Normalized
normalize_string p (str s) = p (codes s)
normalize_string p _ = unknown

normalize_as : FactValueType → FactUnit → Value → Normalized
unfolding normalize_integer normalize_boolean normalize_string
normalize_as integer unit raw = normalize_integer raw unit
normalize_as boolean unit raw = normalize_boolean raw
normalize_as enum_plan unit raw = normalize_string parse_plan raw
normalize_as semver unit raw = normalize_string parse_version raw
normalize_as term unit raw = normalize_string parse_term raw
normalize_as string unit raw = normalize_string (λ t. known (text (trim t))) raw
normalize_as json unit raw = unknown

unfoldable pub normalize_for_fact : Value → Option FactValueType → FactUnit → Option Normalized
unfolding normalize_as
normalize_for_fact undefined value_type unit = some unknown
normalize_for_fact null value_type unit = some unknown
normalize_for_fact raw none unit = none
normalize_for_fact raw (some value_type) unit = some (normalize_as value_type unit raw)

-- `na.value === nb.value`
unfoldable pub same_scalar : Scalar → Scalar → Bool
same_scalar (number m) (number n) = eqb m n
same_scalar (text s) (text t) = same_codes s t
same_scalar (flag a) (flag b) = same_bool a b
same_scalar _ _ = false

unfoldable pub same_known : Normalized → Normalized → Bool
unfolding same_scalar
same_known (known a) (known b) = same_scalar a b
same_known _ _ = false

unfoldable pub same_normalized : Value → Value → Option FactValueType → FactUnit → Option Bool
unfolding same_known
same_normalized a b value_type unit = do
  na ← normalize_for_fact a value_type unit
  nb ← normalize_for_fact b value_type unit
  some (same_known na nb)

-- `canonical` of `sameValue`: a text that renders a number is that number.
pub data Canonical : Type 0 where
  a_number : ℕ → Canonical
  a_text : Text → Canonical
  raw : Value → Canonical

canonical_text : Text → Canonical
canonical_text t = elim (parse_value t) [ none ↦ a_text t | some n ↦ a_number n ]

unfoldable pub canonical : Value → Canonical
unfolding canonical_text
canonical (str s) = canonical_text (codes s)
canonical (num n) = a_number n
canonical v = raw v

unfoldable pub canonical_scalar : Scalar → Canonical
unfolding canonical_text
canonical_scalar (number n) = a_number n
canonical_scalar (text t) = canonical_text t
canonical_scalar (flag b) = raw (bool b)

-- `canonical(a) === canonical(b)`
unfoldable pub same_canonical : Canonical → Canonical → Bool
same_canonical (a_number m) (a_number n) = eqb m n
same_canonical (a_text s) (a_text t) = same_codes s t
same_canonical (raw v) (raw w) = strict_eq v w
same_canonical _ _ = false

unfoldable pub same_value : Value → Value → Bool
unfolding canonical
same_value a b = same_canonical (canonical a) (canonical b)
