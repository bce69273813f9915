-- ===== src/Contracts/Facts/Authority.antt =====
-- The promise of the registry in packages/contracts/src/facts.ts: no key has two authorities, and
-- what `matchFactKey` answers on a name that the object's prototype defines.
use doc_eng_demo.Prelude.{
  String, ◌≡◌, refl, sym, ◌∙◌, ap, ◌≢◌, inl, inr, Bool, true, false, Option, none, some, List, [],
  ◌∷◌, ◌==◌, eq_iff, arith, any, all, not, includes, is_some, ◌||◌, Option-cases, Bool-cases,
  and_true,
}
use doc_eng_demo.Contracts.Facts.{
  Family, operation_enabled, command_flags, release_changes, decision_record, command_summary,
  is_operation, is_path_to, is_command, is_record, matches_segments, family_matches, segments,
  own_property, fact_registry, templated_families, FactRegistryEntry, match_fact_key, first_family,
  family_entry, literal_entry, prototype_names,
}

differ : (a b : String) → (a == b) ≡ false → a ≢ b
differ a b h e = ground (arith, eq_iff a b)

abbrev first_of : List String → String
first_of [] = ""
first_of (s ∷ r) = s

abbrev family_first : Family → String
family_first operation_enabled = "analysis"
family_first command_flags = "cli"
family_first release_changes = "release"
family_first decision_record = "decision"
family_first command_summary = "cli"

operation-first : (k : List String) → is_operation k ≡ true → first_of k ≡ "analysis"
unfolding is_operation
operation-first (a ∷ b ∷ op ∷ e ∷ []) h = ground (arith, eq_iff a "analysis")
operation-first _ h = cc

command-first : (l : String) (k : List String) → is_command l k ≡ true → first_of k ≡ "cli"
unfolding is_command
command-first l (a ∷ b ∷ r) h = ground (arith, eq_iff a "cli")
command-first l _ h = cc

record-first : (f l : String) (k : List String) → is_record f l k ≡ true → first_of k ≡ f
unfolding is_record
record-first f l (a ∷ i ∷ c ∷ []) h = ground (arith, eq_iff a f)
record-first f l _ h = cc

matches-first :
    (f : Family) (k : List String) → matches_segments f k ≡ true → first_of k ≡ family_first f
unfolding matches_segments
matches-first operation_enabled k h = operation-first k h
matches-first command_flags k h = command-first "flags" k h
matches-first release_changes k h = record-first "release" "changes" k h
matches-first decision_record k h = record-first "decision" "record" k h
matches-first command_summary k h = command-first "summary" k h

-- The two command families differ in the last segment of the key.
is_path_to_unique :
    (a b : String) (ks : List String) → is_path_to a ks ≡ true → is_path_to b ks ≡ true → a ≡ b
unfolding is_path_to
is_path_to_unique a b [] h k = cc
is_path_to_unique a b (s ∷ []) h k = cc
is_path_to_unique a b (s ∷ t ∷ []) h k = ground (arith, eq_iff t a, eq_iff t b)
is_path_to_unique a b (s ∷ t ∷ u ∷ r) h k = ground (arith, is_path_to_unique a b (t ∷ u ∷ r))

is_command_unique :
    (a b : String) (ks : List String) → is_command a ks ≡ true → is_command b ks ≡ true → a ≡ b
unfolding is_command
is_command_unique a b (x ∷ y ∷ r) h k = ground (arith, is_path_to_unique a b r)
is_command_unique a b _ h k = cc

family_unique :
    (f g : Family) (k : List String)
    → matches_segments f k ≡ true
    → matches_segments g k ≡ true
    → f ≡ g
unfolding matches_segments
family_unique operation_enabled operation_enabled k h j = refl
family_unique command_flags command_flags k h j = refl
family_unique release_changes release_changes k h j = refl
family_unique decision_record decision_record k h j = refl
family_unique command_summary command_summary k h j = refl
family_unique command_flags command_summary k h j =
    absurd (differ "flags" "summary" refl (is_command_unique "flags" "summary" k h j))
family_unique command_summary command_flags k h j =
    absurd (differ "summary" "flags" refl (is_command_unique "summary" "flags" k h j))
family_unique f g k h j = absurd (
    differ (family_first f) (family_first g) refl (sym (matches-first f k h) ∙ matches-first g k j))

-- Where a key's authority is written: in the literal table, or in one of the families.
pub data Source : Type 0 where
  literal : Source
  family : Family → Source

abbrev pub claims : Source → String → Bool
claims literal key = is_some (own_property key fact_registry)
claims (family f) key = family_matches f key

literals_apart :
    all (λ r. not (any (λ f. family_matches f r.0) templated_families)) fact_registry ≡ true
unfolding fact_registry family_matches
literals_apart = refl

any_family :
    (key : String) (f : Family)
    → family_matches f key ≡ true
    → any (λ g. family_matches g key) templated_families ≡ true
any_family key operation_enabled h = ground arith
any_family key _ h = ground arith

own_property-all :
    (key : String) (p : String → Bool) (m : List (String × FactRegistryEntry))
    → all (λ r. p r.0) m ≡ true
    → is_some (own_property key m) ≡ true
    → p key ≡ true
unfolding own_property
own_property-all key p [] h k = cc
own_property-all key p ((j, e) ∷ m) h k = elim (Bool-cases (j == key)) [
  | inl same ↦ rw (← (eq_iff j key).0 same) (and_true (p j) (all (λ r. p r.0) m) h).0
  | inr other ↦ own_property-all key p m (and_true (p j) (all (λ r. p r.0) m) h).1 (rw other at k)
]

literal_not_family :
    (key : String) (f : Family) → claims literal key ≡ true → family_matches f key ≡ true → ⊥
literal_not_family key f h k =
    let apart =
      own_property-all key (λ j. not (any (λ g. family_matches g j) templated_families))
        fact_registry literals_apart h in
    ground (arith, any_family key f k)

-- No fact key is authoritative in two places: whatever two of the literal table and the five
-- templated families claim a key, they are the same one.
pub one_authority :
    (key : String) (s t : Source) → claims s key ≡ true → claims t key ≡ true → s ≡ t
unfolding family_matches
one_authority key literal literal h k = refl
one_authority key literal (family g) h k = absurd (literal_not_family key g h k)
one_authority key (family f) literal h k = absurd (literal_not_family key f k h)
one_authority key (family f) (family g) h k = ap family (family_unique f g (segments key) h k)

-- What each source says of the keys that it claims.
abbrev pub source_entry : Source → String → Option FactRegistryEntry
source_entry literal key = own_property key fact_registry
source_entry (family f) key = some (family_entry f)

first_family_lem :
    (key : String) (f : Family) (fs : List Family)
    → family_matches f key ≡ true
    → any (λ g. family_matches g key) fs ≡ true
    → first_family key fs ≡ some (family_entry f)
unfolding first_family
first_family_lem key f [] h k = cc
first_family_lem key f (g ∷ fs) h k = elim (Bool-cases (family_matches g key)) [
  | inl e ↦
      rw e
        (ap (λ x. some (family_entry x)) (family_of (one_authority key (family g) (family f) e h)))
  | inr e ↦ rw e (first_family_lem key f fs h (rw e at k))
]
  where
    family_of : family g ≡ family f → g ≡ f
    family_of e = cc

prototype_apart :
    all
      (λ n. not (
        is_some (own_property n fact_registry) || any (λ f. family_matches f n) templated_families))
      prototype_names
    ≡ true
unfolding fact_registry own_property family_matches
prototype_apart = refl

pub includes-all :
    (x : String) (p : String → Bool) (ys : List String)
    → all p ys ≡ true
    → includes ys x ≡ true
    → p x ≡ true
includes-all x p [] h k = cc
includes-all x p (y ∷ ys) h k = elim (Bool-cases (x == y)) [
  | inl same ↦ rw ((eq_iff x y).0 same) (and_true (p y) (all p ys) h).0
  | inr other ↦ includes-all x p ys (and_true (p y) (all p ys) h).1 (rw other at k)
]

not_prototype :
    (key : String)
    → is_some (own_property key fact_registry) || any (λ f. family_matches f key) templated_families
      ≡ true
    → includes prototype_names key ≡ false
not_prototype key h = elim (Bool-cases (includes prototype_names key)) [
  | inl e ↦ absurd (
      clash (
        includes-all key
          (λ n. not (
            is_some (own_property n fact_registry)
            || any (λ f. family_matches f n) templated_families))
          prototype_names prototype_apart e))
  | inr e ↦ e
]
  where
    clash :
        not (
            is_some (own_property key fact_registry)
            || any (λ f. family_matches f key) templated_families)
          ≡ true
        → ⊥
    clash k = ground arith

literal_none :
    (key : String) (f : Family)
    → family_matches f key ≡ true
    → own_property key fact_registry ≡ none
literal_none key f h = elim (Option-cases (own_property key fact_registry)) [
  | inl e ↦ e
  | inr (r, e) ↦ absurd (literal_not_family key f (rw e refl) h)
]

-- A key is resolved to the entry of whatever claims it: the literal table or a templated family.
pub match_fact_key-source :
    (key : String) (s : Source) → claims s key ≡ true → match_fact_key key ≡ source_entry s key
unfolding match_fact_key
match_fact_key-source key literal h = elim (Option-cases (own_property key fact_registry)) [
  | inl e ↦ absurd (ground arith)
  | inr (r, e) ↦ rw (e, match_fact_key, literal_entry) refl
]
match_fact_key-source key (family f) h =
    let open_key = any_family key f h in
    let nowhere = literal_none key f h in
    rw (nowhere, match_fact_key, literal_entry)
      (rw (not_prototype key (ground arith)) (first_family_lem key f templated_families h open_key))

prototype_no_source :
    (key : String) → includes prototype_names key ≡ true → own_property key fact_registry ≡ none
prototype_no_source key h = elim (Option-cases (own_property key fact_registry)) [
  | inl e ↦ e
  | inr (r, e) ↦ absurd (clash (not_prototype key (ground arith)))
]
  where
    clash : includes prototype_names key ≡ false → ⊥
    clash k = cc

-- The look-up of a name that every JavaScript object inherits gives an entry without a tier, a value
-- type or an owner.
pub match_fact_key-inherited :
    (key : String)
    → includes prototype_names key ≡ true
    → match_fact_key key ≡ some (record { tier = none; value_type = none; owner = none })
unfolding match_fact_key
match_fact_key-inherited key h =
    rw (prototype_no_source key h, match_fact_key, literal_entry) (rw h refl)
