-- ===== src/Concord/Pipeline/Deltas.antt =====
-- `detectDeltas` (packages/concord-core/src/pipeline.ts): the deltas are exactly the changed values
-- of facts that both snapshots hold in a current-value tier.
use doc_eng_demo.Prelude.{
  String, ◌≡◌, ◌≢◌, refl, true, false, none, some, List, [], ◌∷◌, flat_map, Member, Member-filter,
  filter-Member, flat_map-Member, Member-flat_map, ◌==◌, eq_iff, arith, Bool-cases, Option-cases,
  if◌then◌else◌, inl, inr, ◌⊎◌, ◌↔◌,
}
use doc_eng_demo.Value.{same_json, same_json_iff}
use doc_eng_demo.Contracts.Records.{FactClaim, ProductTruthSnapshot}
use doc_eng_demo.Concord.Types.{FactDelta}
use doc_eng_demo.Concord.Pipeline.{
  is_current_tier, map_get, fact_key_of, current_facts, delta_of, delta_for, detect_deltas,
}

pub map_get-Member :
    {A : Type 0} (key : A → String) (k : String) (xs : List A) {x : A}
    → map_get key k xs ≡ some x
    → Member x xs × (key x ≡ k)
unfolding map_get
map_get-Member {A} key k [] h = cc
map_get-Member {A} key k (y ∷ ys) {x} h = elim (Option-cases (map_get key k ys)) [
  | inr (z, e) ↦ let (m, same) = map_get-Member key k ys {x = x} (e_to z e) in (inr m, same)
  | inl e ↦ found (Bool-cases (key y == k)) e
]
  where
    e_to : (z : A) → map_get key k ys ≡ some z → map_get key k ys ≡ some x
    e_to z e = ground arith

    found :
        ((key y == k) ≡ true) ⊎ ((key y == k) ≡ false)
        → map_get key k ys ≡ none
        → Member x (y ∷ ys) × (key x ≡ k)
    found (inl same) e =
        let here : x ≡ y = ground arith in (inl here, rw here ((eq_iff (key y) k).0 same))
    found (inr other) e = absurd (ground arith)

-- A fact that two snapshots both hold as a current value, and not with one value. Of several prior
-- facts with its key the last is compared.
pub record IsChange (previous current : ProductTruthSnapshot) (d : FactDelta) : Type 0 where
  pub prior : FactClaim
  pub fact : FactClaim
  pub held : map_get fact_key_of fact.key (current_facts previous.facts) ≡ some prior
  pub listed : Member fact current.facts
  pub current_tier : is_current_tier fact.tier ≡ true
  pub changed : prior.value ≢ fact.value
  pub delta : d ≡ delta_of prior fact

delta_for-Member :
    (before : List FactClaim) (fact : FactClaim) (d : FactDelta)
    → Member d (delta_for before fact)
    → (prior : FactClaim) × (map_get fact_key_of fact.key before ≡ some prior)
      × (prior.value ≢ fact.value)
      × (d ≡ delta_of prior fact)
unfolding delta_for
delta_for-Member before fact d m = elim (Option-cases (map_get fact_key_of fact.key before)) [
  | inl e ↦ absurd (rw (e, delta_for) at m)
  | inr (prior, e) ↦
      changed prior e (Bool-cases (same_json prior.value fact.value)) (rw (e, delta_for) at m)
]
  where
    changed :
        (prior : FactClaim)
        → map_get fact_key_of fact.key before ≡ some prior
        → (same_json prior.value fact.value ≡ true) ⊎ (same_json prior.value fact.value ≡ false)
        → Member d (if same_json prior.value fact.value then [] else delta_of prior fact ∷ [])
        → (prior : FactClaim) × (map_get fact_key_of fact.key before ≡ some prior)
          × (prior.value ≢ fact.value)
          × (d ≡ delta_of prior fact)
    changed prior e (inl same) n = absurd (rw same at n)
    changed prior e (inr other) n = (
      prior,
      e,
      (λ q. false_of other ((same_json_iff prior.value fact.value).1 q)),
      only (rw other at n),
    )
      where
        false_of :
            same_json prior.value fact.value ≡ false → same_json prior.value fact.value ≡ true → ⊥
        false_of a b = cc

        only : Member d (delta_of prior fact ∷ []) → d ≡ delta_of prior fact
        only (inl q) = q
        only (inr q) = absurd q

delta_for-IsChange :
    (before : List FactClaim) (prior fact : FactClaim)
    → map_get fact_key_of fact.key before ≡ some prior
    → prior.value ≢ fact.value
    → Member (delta_of prior fact) (delta_for before fact)
unfolding delta_for
delta_for-IsChange before prior fact e h = elim (Bool-cases (same_json prior.value fact.value)) [
  | inl same ↦ absurd (h ((same_json_iff prior.value fact.value).0 same))
  | inr other ↦ rw (e, delta_for) (rw other (inl refl))
]

-- A delta is detected exactly for a change of a current-value fact that both snapshots hold.
pub detect_deltas_iff :
    (previous current : ProductTruthSnapshot) (d : FactDelta)
    → Member d (detect_deltas previous current) ↔ IsChange previous current d
unfolding detect_deltas
detect_deltas_iff previous current d = (to, from)
  where
    before : List FactClaim
    before = current_facts previous.facts

    to :
        Member d (flat_map (delta_for before) (current_facts current.facts))
        → IsChange previous current d
    to m =
        let (fact, n, k) = flat_map-Member (delta_for before) (current_facts current.facts) d m in
        let (listed, tier) = Member-filter (λ f. is_current_tier f.tier) current.facts fact n in
        let (prior, held, changed, delta) = delta_for-Member before fact d k in
        record {
          prior = prior;
          fact = fact;
          held = held;
          listed = listed;
          current_tier = tier;
          changed = changed;
          delta = delta;
        }

    from :
        IsChange previous current d
        → Member d (flat_map (delta_for before) (current_facts current.facts))
    from c = rw c.delta (
        Member-flat_map (delta_for before) (current_facts current.facts) c.fact
          (delta_of c.prior c.fact)
          (filter-Member (λ f. is_current_tier f.tier) current.facts c.fact c.listed c.current_tier)
          (delta_for-IsChange before c.prior c.fact c.held c.changed))

-- Nothing is detected between a snapshot and itself, if it holds no key twice with two values.
pub detect_deltas_self :
    (s : ProductTruthSnapshot)
    → ((f g : FactClaim) → Member f s.facts → Member g s.facts → f.key ≡ g.key → f.value ≡ g.value)
    → (d : FactDelta) → ¬ Member d (detect_deltas s s)
detect_deltas_self s one d m =
    let c = (detect_deltas_iff s s d).0 m in
    let (n, same) = map_get-Member fact_key_of c.fact.key (current_facts s.facts) c.held in
    c.changed (
      one c.prior c.fact (Member-filter (λ f. is_current_tier f.tier) s.facts c.prior n).0 c.listed
        same)
