-- ===== src/Contracts/Facts.antt =====
-- packages/contracts/src/facts.ts and product-truth.ts: tiers, the registry of fact keys and its
-- lookup. A JavaScript object answers a lookup of a name that its prototype defines, so
-- `matchFactKey` finds an entry without fields under such a name.
pub mod Authority
pub mod Tests
use doc_eng_demo.Prelude.{
  ℕ, String, ◌≡◌, refl, Bool, true, false, ◌&&◌, ◌||◌, Option, none, some, List, [], ◌∷◌, ◌==◌, leb,
  eqb, eqb_iff, codes, includes, all, find?, if◌then◌else◌, ◌↔◌, arith, code, Char,
}

pub data FactTier : Type 0 where
  t0_runtime t1_schema t2_cli t3_config t4_release t5_human : FactTier

-- The position of a tier in `FACT_TIERS`.
abbrev pub tier_rank : FactTier → ℕ
tier_rank t0_runtime = 0
tier_rank t1_schema = 1
tier_rank t2_cli = 2
tier_rank t3_config = 3
tier_rank t4_release = 4
tier_rank t5_human = 5

abbrev pub same_tier : FactTier → FactTier → Bool
same_tier a b = eqb (tier_rank a) (tier_rank b)

pub same_tier_iff : (a b : FactTier) → (same_tier a b ≡ true) ↔ (a ≡ b)
same_tier_iff a b = (same_tier_sound a b, λ e. ground arith)
  where
    same_tier_sound : (a b : FactTier) → same_tier a b ≡ true → a ≡ b
    same_tier_sound a b h = ground arith

pub data FactValueType : Type 0 where
  integer boolean semver term string json enum_plan : FactValueType

-- An entry as `matchFactKey` returns it: a field is absent on what the prototype supplies.
pub record FactRegistryEntry : Type 0 where
  pub tier : Option FactTier
  pub value_type : Option FactValueType
  pub owner : Option String

abbrev pub entry : FactTier → FactValueType → String → FactRegistryEntry
entry t v o = record { tier = some t; value_type = some v; owner = some o }

unfoldable pub fact_registry : List (String × FactRegistryEntry)
fact_registry =
    ("limit.upload.csv.max_bytes", entry t1_schema integer "eng-platform")
    ∷ ("limit.upload.csv.max_rows", entry t1_schema integer "eng-platform")
    ∷ ("support.file_type.csv", entry t1_schema boolean "eng-platform")
    ∷ ("support.file_type.tsv", entry t1_schema boolean "eng-platform")
    ∷ ("support.file_type.xlsx", entry t1_schema boolean "eng-platform")
    ∷ ("runtime.package.pandas.version", entry t0_runtime semver "eng-platform")
    ∷ ("runtime.package.scipy.version", entry t0_runtime semver "eng-platform")
    ∷ ("runtime.package.statsmodels.version", entry t0_runtime semver "eng-platform")
    ∷ ("runtime.package.matplotlib.version", entry t0_runtime semver "eng-platform")
    ∷ ("runtime.python.version", entry t0_runtime semver "eng-platform")
    ∷ ("term.canonical.task", entry t3_config term "product-content")
    ∷ ("term.canonical.project", entry t3_config term "product-content")
    ∷ ("term.canonical.artifact", entry t3_config term "product-content")
    ∷ ("availability.feature.analysis_sessions.platform.web", entry t3_config boolean "product")
    ∷ ("availability.feature.analysis_sessions.platform.ios", entry t3_config boolean "product")
    ∷ ("availability.feature.analysis_sessions.platform.android", entry t3_config boolean "product")
    ∷ ("availability.feature.analysis_sessions.platform.cli", entry t3_config boolean "product")
    ∷ ("availability.feature.connector_drive.platform.web", entry t3_config boolean "product")
    ∷ ("availability.feature.chat.platform.web", entry t3_config boolean "product")
    ∷ ("availability.feature.chat.platform.ios", entry t3_config boolean "product")
    ∷ ("availability.feature.chat.platform.android", entry t3_config boolean "product")
    ∷ ("availability.feature.chat.platform.cli", entry t3_config boolean "product")
    ∷ ("availability.feature.terminal.platform.web", entry t3_config boolean "product")
    ∷ ("limit.chat.message.max_chars", entry t1_schema integer "eng-platform")
    ∷ ("plan.feature.analysis_sessions.min_plan", entry t3_config enum_plan "product")
    ∷ ("plan.feature.connector_drive.min_plan", entry t3_config enum_plan "product")
    ∷ ("retention.artifact.days", entry t3_config integer "product")
    ∷ ("retention.uploaded_file.days", entry t3_config integer "product")
    ∷ ("flag.analysis.regression_enabled", entry t3_config boolean "eng-analysis")
    ∷ []

-- The names on which `Object.prototype` answers a property lookup.
abbrev pub prototype_names : List String
prototype_names =
    "constructor" ∷ "__proto__" ∷ "hasOwnProperty" ∷ "isPrototypeOf" ∷ "propertyIsEnumerable"
    ∷ "toString" ∷ "toLocaleString" ∷ "valueOf" ∷ "__defineGetter__" ∷ "__defineSetter__"
    ∷ "__lookupGetter__" ∷ "__lookupSetter__" ∷ []

abbrev pub operation_ids : List String
operation_ids =
    "inspect_schema" ∷ "summary_statistics" ∷ "filter_rows" ∷ "group_aggregate"
    ∷ "correlation_matrix" ∷ "linear_regression" ∷ "distribution_test" ∷ "plot" ∷ []

-- `[a-z_]`, `[a-z0-9_-]`
abbrev pub is_lower : ℕ → Bool
is_lower c = leb b'a' c && leb c b'z'

abbrev op_char : ℕ → Bool
op_char c = is_lower c || eqb c b'_'

abbrev path_char : ℕ → Bool
path_char c = is_lower c || (leb b'0' c && leb c b'9') || eqb c b'_' || eqb c b'-'

-- `[…]+` over a whole segment.
some_of : (ℕ → Bool) → String → Bool
some_of p String.[] = false
some_of p (String.◌∷◌ c s) = p (code c) && all p (codes s)

-- The segments of a key between its dots; the character classes hold no dot.
abbrev put_char : Char → List String → List String
put_char c [] = String.◌∷◌ c "" ∷ []
put_char c (w ∷ ws) = String.◌∷◌ c w ∷ ws

unfoldable pub segments : String → List String
segments String.[] = "" ∷ []
segments (String.◌∷◌ c s) =
    let rest = segments s in if eqb (code c) b'.' then "" ∷ rest else put_char c rest

pub data Family : Type 0 where
  operation_enabled command_flags release_changes decision_record command_summary : Family

-- `^analysis\.operation\.([a-z_]+)\.enabled$`, and the operation is known.
is_operation : List String → Bool
is_operation (a ∷ b ∷ op ∷ e ∷ []) =
    a == "analysis"
    && b == "operation"
    && e == "enabled"
    && some_of op_char op
    && includes operation_ids op
is_operation _ = false

-- `([a-z0-9_-]+)(\.[a-z0-9_-]+)*\.last$`
is_path_to : String → List String → Bool
is_path_to last [] = false
is_path_to last (s ∷ []) = false
is_path_to last (s ∷ t ∷ []) = some_of path_char s && t == last
is_path_to last (s ∷ t ∷ u ∷ r) = some_of path_char s && is_path_to last (t ∷ u ∷ r)

is_command : String → List String → Bool
is_command last (a ∷ b ∷ r) = a == "cli" && b == "command" && is_path_to last r
is_command last _ = false

-- `^first\.[a-z0-9_-]+\.last$`
is_record : String → String → List String → Bool
is_record first last (a ∷ i ∷ c ∷ []) = a == first && c == last && some_of path_char i
is_record first last _ = false

unfoldable pub matches_segments : Family → List String → Bool
unfolding is_operation is_path_to is_command is_record some_of
matches_segments operation_enabled k = is_operation k
matches_segments command_flags k = is_command "flags" k
matches_segments release_changes k = is_record "release" "changes" k
matches_segments decision_record k = is_record "decision" "record" k
matches_segments command_summary k = is_command "summary" k

unfoldable pub family_matches : Family → String → Bool
unfolding matches_segments segments
family_matches f key = matches_segments f (segments key)

abbrev pub family_entry : Family → FactRegistryEntry
family_entry operation_enabled = entry t0_runtime boolean "eng-analysis"
family_entry command_flags = entry t2_cli json "eng-platform"
family_entry release_changes = entry t4_release json "product"
family_entry decision_record = entry t5_human json "product"
family_entry command_summary = entry t2_cli string "eng-platform"

abbrev pub templated_families : List Family
templated_families =
    operation_enabled ∷ command_flags ∷ release_changes ∷ decision_record ∷ command_summary ∷ []

-- The own properties of an object, as an association list.
unfoldable pub own_property {ℓ} : {A : Type ℓ} → String → List (String × A) → Option A
own_property k [] = none
own_property k ((j, v) ∷ m) = if j == k then some v else own_property k m

unfoldable pub first_family : String → List Family → Option FactRegistryEntry
first_family key [] = none
first_family key (f ∷ fs) =
    if family_matches f key then some (family_entry f) else first_family key fs

-- `literal` is what the property lookup gives, the prototype's members included.
literal_entry : String → Option FactRegistryEntry
literal_entry key = elim (own_property key fact_registry) [
  | some e ↦ some e
  | none ↦
      if includes prototype_names key
      then some (record { tier = none; value_type = none; owner = none })
      else none
]

unfoldable pub match_fact_key : String → Option FactRegistryEntry
unfolding literal_entry
match_fact_key key = elim (literal_entry key) [
  | some e ↦ some e
  | none ↦ first_family key templated_families
]
