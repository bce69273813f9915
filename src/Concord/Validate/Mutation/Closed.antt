-- ===== src/Concord/Validate/Mutation/Closed.antt =====
-- What packages/concord-core/src/mutation-validate.ts admits, and on which keys it fails.
use doc_eng_demo.Prelude.{
  String, ◌≡◌, refl, Bool, true, false, not, Option, none, some, List, [], ◌∷◌, ◌≤◌, any, all,
  any-Member, find?, is_some, includes, Member, Option-cases, Bool-cases, arith, ◌==◌, eq_iff, inl,
  inr, if◌then◌else◌, leb, ◌+◌, ◌⊎◌,
}
use doc_eng_demo.Value.{Value, strict_eq, strict_eq_sound}
use doc_eng_demo.Contracts.Facts.{own_property, prototype_names}
use doc_eng_demo.Contracts.Facts.Authority.{includes-all}
use doc_eng_demo.Contracts.Records.{Text}
use doc_eng_demo.Contracts.Mutations.{
  AllowedMutation, fact_value, doc_body, mutation_allowed, in_allowlist, fact_mutation_allowlist,
}
use doc_eng_demo.Concord.Validate.Mutation.{
  MutationVerdict, allowed, refused, mutation_body_too_large, mutation_not_allowed, max_body_bytes,
  utf8_length, forbidden_content, verdict_of, validate_doc_body, value_verdict, validate_mutation,
}
use doc_eng_demo.Concord.Validate.Patch.Gates.{find?-none}

-- A value of the closed set of a listed key, or a body of an editable unit that is small enough and
-- in which nothing forbidden is found.
abbrev pub IsAllowed : AllowedMutation → List String → Type 0
IsAllowed (fact_value key value) editable =
    (values : List Value) × Member (key, values) fact_mutation_allowlist × Member value values
IsAllowed (doc_body id body) editable =
    Member id editable
    × (utf8_length body ≤ max_body_bytes)
    × ((re : Text → Bool) → Member re forbidden_content → re body ≡ false)

own_property-Member :
    {A : Type 0} (k : String) (m : List (String × A)) (v : A)
    → own_property k m ≡ some v
    → Member (k, v) m
unfolding own_property
own_property-Member k [] v h = cc
own_property-Member k ((j, w) ∷ m) v h = elim (Bool-cases (j == k)) [
  | inl e ↦ let same : v ≡ w = cc (rw e at h) in inl (rw (same, (eq_iff j k).0 e) refl)
  | inr e ↦ inr (own_property-Member k m v (rw e at h))
]

includes-Member : (xs : List String) (x : String) → includes xs x ≡ true → Member x xs
includes-Member [] x h = cc
includes-Member (y ∷ ys) x h = elim (Bool-cases (x == y)) [
  | inl e ↦ inl ((eq_iff x y).0 e)
  | inr e ↦ inr (includes-Member ys x (rw e at h))
]

fact_value-IsAllowed :
    (key : String) (value : Value) (editable : List String)
    → mutation_allowed key value ≡ some true
    → IsAllowed (fact_value key value) editable
unfolding mutation_allowed
fact_value-IsAllowed key value editable h =
    elim (Option-cases (own_property key fact_mutation_allowlist)) [
      | inl e ↦
          absurd
            (elsewhere (Bool-cases (includes prototype_names key)) (rw (e, mutation_allowed) at h))
      | inr (values, e) ↦
          let (v, m, k) =
            any-Member (λ v. strict_eq v value) values
              (listed values (rw (e, mutation_allowed) at h)) in
          (
            values,
            own_property-Member key fact_mutation_allowlist values e,
            rw (← strict_eq_sound v value k) m,
          )
    ]
  where
    elsewhere :
        (includes prototype_names key ≡ true) ⊎ (includes prototype_names key ≡ false)
        → (if includes prototype_names key then none else some false) ≡ some true
        → ⊥
    elsewhere (inl p) k = absurd (cc (rw p at k))
    elsewhere (inr p) k = absurd (cc (rw p at k))

    listed :
        (values : List Value)
        → some (any (λ v. strict_eq v value) values) ≡ some true
        → any (λ v. strict_eq v value) values ≡ true
    listed values k = cc

value_verdict-allowed : (o : Option Bool) → value_verdict o ≡ some allowed → o ≡ some true
value_verdict-allowed none h = cc
value_verdict-allowed (some true) h = refl
value_verdict-allowed (some false) h = cc

-- The three outcomes of the check of a body.
doc_body-gates :
    (big : Bool) (o : Option (Text → Bool))
    → (if big then refused mutation_body_too_large else verdict_of o) ≡ allowed
    → (big ≡ false) × (o ≡ none)
doc_body-gates true o h = cc
doc_body-gates false none h = (refl, refl)
doc_body-gates false (some re) h = cc

first_gate :
    (b : Bool) (v : Option MutationVerdict)
    → (if not b then some (refused mutation_not_allowed) else v) ≡ some allowed
    → (b ≡ true) × (v ≡ some allowed)
first_gate true v h = (refl, h)
first_gate false v h = cc

-- A mutation is admitted only with a value of the closed set of its key, or as a body of an editable
-- unit that is no longer than the bound and in which no forbidden pattern is found.
pub validate_mutation-IsAllowed :
    (m : AllowedMutation) (editable : List String)
    → validate_mutation m editable ≡ some allowed
    → IsAllowed m editable
unfolding validate_mutation validate_doc_body
validate_mutation-IsAllowed (fact_value key value) editable h =
    let (_, k) = first_gate (in_allowlist key) (value_verdict (mutation_allowed key value)) h in
    fact_value-IsAllowed key value editable (value_verdict-allowed (mutation_allowed key value) k)
validate_mutation-IsAllowed (doc_body id body) editable h =
    let (e, k) = first_gate (includes editable id) (some (validate_doc_body body)) h in
    let (small, clean) =
      doc_body-gates (leb (max_body_bytes + 1) (utf8_length body))
        (find? (λ re. re body) forbidden_content) (some_of k) in
    (
      includes-Member editable id e,
      bounded small,
      λ re m. find?-none (λ r. r body) forbidden_content re clean m,
    )
  where
    some_of : some (validate_doc_body body) ≡ some allowed → validate_doc_body body ≡ allowed
    some_of q = cc

    bounded :
        leb (max_body_bytes + 1) (utf8_length body) ≡ false → utf8_length body ≤ max_body_bytes
    bounded q = ground arith

prototype_unlisted :
    all (λ n. not (is_some (own_property n fact_mutation_allowlist))) prototype_names ≡ true
unfolding own_property
prototype_unlisted = refl

inherited_unlisted :
    (key : String)
    → includes prototype_names key ≡ true
    → own_property key fact_mutation_allowlist ≡ none
inherited_unlisted key h = elim (Option-cases (own_property key fact_mutation_allowlist)) [
  | inl e ↦ e
  | inr (v, e) ↦ absurd (
      clash (
        rw e at (
          includes-all key (λ n. not (is_some (own_property n fact_mutation_allowlist)))
            prototype_names prototype_unlisted h)))
]
  where
    clash : false ≡ true → ⊥
    clash k = cc

-- The validation throws on a fact value under a name that every JavaScript object inherits.
validate_mutation-inherited :
    (key : String) (value : Value) (editable : List String)
    → includes prototype_names key ≡ true
    → validate_mutation (fact_value key value) editable ≡ none
unfolding validate_mutation in_allowlist mutation_allowed
validate_mutation-inherited key value editable h =
    let e = inherited_unlisted key h in rw (e, in_allowlist, mutation_allowed, h) refl
