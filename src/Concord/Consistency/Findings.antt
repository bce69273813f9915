-- ===== src/Concord/Consistency/Findings.antt =====
-- When packages/concord-core/src/consistency.ts reports a finding.
use doc_eng_demo.Prelude.{
  String, Bool, true, false, not, Option, none, some, List, [], ◌∷◌, ◌≡◌, refl, inl, inr, arith,
  Member, Member-flat_map, flat_map-Member, Option-cases, Bool-cases, and_true, ◌↔◌, if◌then◌else◌,
}
use doc_eng_demo.Contracts.Facts.{FactRegistryEntry, match_fact_key}
use doc_eng_demo.Contracts.Records.{FactClaim}
use doc_eng_demo.Concord.Types.{FactProjection, Finding, Scalar}
use doc_eng_demo.Concord.Normalize.{
  Normalized, known, unknown, normalize_for_fact, same_scalar, unit_of_fact_key,
}
use doc_eng_demo.Concord.Authority.{Arbitration, TierClaim, arbitrate_all}
use doc_eng_demo.Concord.Consistency.{
  truth_of, disagrees, is_json, differs, is_inconsistent, value_finding, value_findings,
  consistency_findings,
}

-- A stated value and an authoritative one that normalizes, which are not the same.
pub record Differ (stated : Option Scalar) (truth : Option TierClaim) (key : String)
    (entry : FactRegistryEntry) : Type 0 where
  pub value : Scalar
  pub claim : TierClaim
  pub actual : Scalar
  pub states : stated ≡ some value
  pub decided : truth ≡ some claim
  pub comparable : is_json entry.value_type ≡ false
  pub normalizes :
      normalize_for_fact claim.value entry.value_type (unit_of_fact_key key) ≡ some (known actual)
  pub different : same_scalar value actual ≡ false

differs-known :
    (v : Scalar) (o : Option Normalized)
    → differs v o ≡ true
    → (w : Scalar) × (o ≡ some (known w)) × (same_scalar v w ≡ false)
unfolding differs
differs-known v none h = absurd (ground arith)
differs-known v (some unknown) h = absurd (ground arith)
differs-known v (some (known w)) h = (w, refl, ground arith)

not-true : (b : Bool) → not b ≡ true → b ≡ false
not-true b h = ground arith

disagrees-Differ :
    (v : Option Scalar) (t : Option TierClaim) (key : String) (entry : FactRegistryEntry)
    → disagrees v t key entry ≡ true
    → Differ v t key entry
unfolding disagrees
disagrees-Differ none t key entry h = absurd (ground arith)
disagrees-Differ (some v) none key entry h = absurd (ground arith)
disagrees-Differ (some v) (some truth) key entry h =
    let (c, d) =
      and_true (not (is_json entry.value_type))
        (differs v (normalize_for_fact truth.value entry.value_type (unit_of_fact_key key))) h in
    let (w, n, s) = differs-known v _ d in
    record {
      value = v;
      claim = truth;
      actual = w;
      states = refl;
      decided = refl;
      comparable = not-true _ c;
      normalizes = n;
      different = s;
    }

Differ-disagrees :
    (v : Option Scalar) (t : Option TierClaim) (key : String) (entry : FactRegistryEntry)
    → Differ v t key entry
    → disagrees v t key entry ≡ true
unfolding disagrees differs
Differ-disagrees v t key entry c =
    rw (c.states, c.decided, disagrees, c.comparable, c.normalizes, differs, c.different) refl

-- A projection of a registered fact that states another value than the one that the authority of
-- the fact holds.
pub record IsInconsistent (facts : List FactClaim) (projections : List FactProjection) (f : Finding)
    : Type 0 where
  pub projection : FactProjection
  pub listed : Member projection projections
  pub entry : FactRegistryEntry
  pub registered : match_fact_key projection.fact_key ≡ some entry
  pub differ :
      Differ projection.normalized_value
        (truth_of (arbitrate_all facts) projection.fact_key)
        projection.fact_key
        entry
  pub finding : f ≡ value_finding projection entry

value_findings-some :
    (arbitrations : List (String × Arbitration)) (p : FactProjection) (entry : FactRegistryEntry)
    → match_fact_key p.fact_key ≡ some entry
    → value_findings arbitrations p
      ≡ (if is_inconsistent arbitrations p entry then value_finding p entry ∷ [] else [])
unfolding value_findings
value_findings-some arbitrations p entry e = rw (e, value_findings) refl

value_findings-none :
    (arbitrations : List (String × Arbitration)) (p : FactProjection)
    → match_fact_key p.fact_key ≡ none
    → value_findings arbitrations p ≡ []
unfolding value_findings
value_findings-none arbitrations p e = rw (e, value_findings) refl

value_findings-Member :
    (facts : List FactClaim) (projections : List FactProjection) (p : FactProjection) (f : Finding)
    → Member p projections
    → Member f (value_findings (arbitrate_all facts) p)
    → IsInconsistent facts projections f
value_findings-Member facts projections p f m n = elim (Option-cases (match_fact_key p.fact_key)) [
  | inl e ↦ absurd (rw (value_findings-none (arbitrate_all facts) p e) at n)
  | inr (entry, e) ↦ elim (Bool-cases (is_inconsistent (arbitrate_all facts) p entry)) [
    | inl found ↦ record {
      projection = p;
      listed = m;
      entry = entry;
      registered = e;
      differ =
          disagrees-Differ p.normalized_value (truth_of (arbitrate_all facts) p.fact_key) p.fact_key
            entry (unfold is_inconsistent in found);
      finding =
          only (value_finding p entry)
            (rw (value_findings-some (arbitrate_all facts) p entry e, found) at n);
    }
    | inr other ↦ absurd (rw (value_findings-some (arbitrate_all facts) p entry e, other) at n)
  ]
]
  where
    only : (g : Finding) → Member f (g ∷ []) → f ≡ g
    only g (inl q) = q
    only g (inr q) = absurd q

-- The check reports a finding of kind `inconsistent_value` exactly for the projections of registered
-- facts that state a value, where the fact's type is not JSON, an authority holds a value for it, that
-- value has a normal form, and what is stated is not that normal form.
pub consistency_findings_iff :
    (facts : List FactClaim) (projections : List FactProjection) (f : Finding)
    → Member f (consistency_findings facts projections) ↔ IsInconsistent facts projections f
unfolding consistency_findings is_inconsistent
consistency_findings_iff facts projections f = (to, from)
  where
    to : Member f (consistency_findings facts projections) → IsInconsistent facts projections f
    to m =
        let (p, n, k) = flat_map-Member (value_findings (arbitrate_all facts)) projections f m in
        value_findings-Member facts projections p f n k

    from : IsInconsistent facts projections f → Member f (consistency_findings facts projections)
    from c =
        Member-flat_map (value_findings (arbitrate_all facts)) projections c.projection f c.listed (
          rw
            (
              value_findings-some (arbitrate_all facts) c.projection c.entry c.registered,
              is_inconsistent,
              Differ-disagrees c.projection.normalized_value
                  (truth_of (arbitrate_all facts) c.projection.fact_key) c.projection.fact_key
                  c.entry c.differ,
            )
            (inl c.finding))
