-- ===== src/Api/Setup/Isolated.antt =====
-- A change-lab mutation (packages/concord-api/src/run.ts) under the pipeline's comparison.
use doc_eng_demo.Prelude.{
  String, ◌≡◌, sym, ap, ◌∙◌, true, false, some, Member, map-Member, Member-filter, Bool-cases, inl,
  inr, ◌⊎◌, ◌==◌, eq_iff,
}
use doc_eng_demo.Value.{Value}
use doc_eng_demo.Contracts.Records.{FactClaim, ProductTruthSnapshot}
use doc_eng_demo.Contracts.Mutations.{fact_value}
use doc_eng_demo.Concord.Types.{FactDelta}
use doc_eng_demo.Concord.Pipeline.{fact_key_of, current_facts, is_current_tier, detect_deltas}
use doc_eng_demo.Concord.Pipeline.Deltas.{map_get-Member, IsChange, detect_deltas_iff}
use doc_eng_demo.Api.Setup.{mutated_fact, effective_current}

-- Between a snapshot and its copy under a mutation of one fact, only that fact is detected as
-- changed, if the snapshot holds no key with two values.
pub effective_current-deltas :
    (s : ProductTruthSnapshot) (started_at key : String) (value : Value) (d : FactDelta)
    → ((f g : FactClaim) → Member f s.facts → Member g s.facts → f.key ≡ g.key → f.value ≡ g.value)
    → Member d (detect_deltas s (effective_current started_at (some (fact_value key value)) s))
    → d.fact_key ≡ key
unfolding effective_current
effective_current-deltas s started_at key value d one m =
    let copy = effective_current started_at (some (fact_value key value)) s in
    let c = (detect_deltas_iff s copy d).0 m in
    let (f, n, e) = map-Member (mutated_fact started_at key value) s.facts c.fact c.listed in
    let named : d.fact_key ≡ c.fact.key = ap (λ (x : FactDelta). x.fact_key) c.delta in
    named ∙ by_key c f n e (Bool-cases (f.key == key))
  where
    by_key :
        (c : IsChange s (effective_current started_at (some (fact_value key value)) s) d)
        (f : FactClaim)
        → Member f s.facts
        → c.fact ≡ mutated_fact started_at key value f
        → ((f.key == key) ≡ true) ⊎ ((f.key == key) ≡ false)
        → c.fact.key ≡ key
    by_key c f n e (inl h) =
        let there : c.fact ≡ record f { value = value; observed_at = started_at } = rw h at e in
        ap (λ (x : FactClaim). x.key) there ∙ (eq_iff f.key key).0 h
    by_key c f n e (inr h) =
        let there : c.fact ≡ f = rw h at e in
        let (k, same) = map_get-Member fact_key_of c.fact.key (current_facts s.facts) c.held in
        let (l, _) = Member-filter (λ x. is_current_tier x.tier) s.facts c.prior k in
        absurd (
          c.changed (
            one c.prior f l n (same ∙ ap (λ (x : FactClaim). x.key) there)
            ∙ sym (ap (λ (x : FactClaim). x.value) there)))
