-- ===== src/Concord/Consistency.antt =====
-- packages/concord-core/src/consistency.ts: findings over projections and facts. The prose of a
-- finding, `detail`, is left out.
pub mod Findings
pub mod Tests
use doc_eng_demo.Prelude.{
  String, Bool, true, false, ◌&&◌, ◌||◌, not, Option, none, some, List, [], ◌∷◌, map, flat_map,
  includes, is_some, any, ◌==◌, codes, has_prefix, if◌then◌else◌,
}
use doc_eng_demo.Value.{Value, str, get_field, items_of, text_of}
use doc_eng_demo.Contracts.Facts.{
  FactTier, t4_release, t5_human, same_tier, FactRegistryEntry, FactValueType, json, match_fact_key,
}
use doc_eng_demo.Contracts.Records.{FactClaim}
use doc_eng_demo.Concord.Types.{
  DocUnit, FactProjection, Finding, FindingKind, inconsistent_value, undocumented_fact,
  authority_conflict, undeclared_reference, Scalar, Extractor, declared_reference, Surface,
  inproduct,
}
use doc_eng_demo.Concord.Normalize.{
  Normalized, known, unknown, normalize_for_fact, same_scalar, unit_of_fact_key,
}
use doc_eng_demo.Concord.Authority.{Arbitration, TierClaim, arbitrate_all, AuthorityConflict}

-- `arbitrations.get(key)`
unfoldable pub get_arbitration : String → List (String × Arbitration) → Option Arbitration
get_arbitration key [] = none
get_arbitration key ((k, a) ∷ m) = if k == key then some a else get_arbitration key m

abbrev pub truth_of : List (String × Arbitration) → String → Option TierClaim
truth_of arbitrations key = elim (get_arbitration key arbitrations) [
  | none ↦ none
  | some a ↦ a.authoritative
]

abbrev pub is_json : Option FactValueType → Bool
is_json (some json) = true
is_json _ = false

-- The value that the document asserts against the normalized truth; a truth that does not
-- normalize denies nothing. A registered authority has a value type, so the call does not fail.
differs : Scalar → Option Normalized → Bool
differs v (some (known w)) = not (same_scalar v w)
differs v _ = false

-- The tests of the loop's body after the look-up, on the projection's value and the truth.
unfoldable pub disagrees : Option Scalar → Option TierClaim → String → FactRegistryEntry → Bool
unfolding differs
disagrees none truth key entry = false
disagrees (some v) none key entry = false
disagrees (some v) (some truth) key entry =
    not (is_json entry.value_type)
    && differs v (normalize_for_fact truth.value entry.value_type (unit_of_fact_key key))

unfoldable pub is_inconsistent :
    List (String × Arbitration) → FactProjection → FactRegistryEntry → Bool
unfolding disagrees
is_inconsistent arbitrations p entry =
    disagrees p.normalized_value (truth_of arbitrations p.fact_key) p.fact_key entry

abbrev pub value_finding : FactProjection → FactRegistryEntry → Finding
value_finding p entry = record {
  kind = inconsistent_value;
  fact_key = p.fact_key;
  doc_unit_id = some p.doc_unit_id;
  projection_id = some p.id;
  owner = entry.owner;
}

unfoldable pub value_findings : List (String × Arbitration) → FactProjection → List Finding
value_findings arbitrations p = elim (match_fact_key p.fact_key) [
  | none ↦ []
  | some entry ↦ if is_inconsistent arbitrations p entry then value_finding p entry ∷ [] else []
]

unfoldable pub consistency_findings : List FactClaim → List FactProjection → List Finding
consistency_findings facts projections = flat_map (value_findings (arbitrate_all facts)) projections

abbrev owner_of : String → Option String
owner_of key = elim (match_fact_key key) [ none ↦ none | some e ↦ e.owner ]

-- A fact of a current-value tier that no projection names.
unfoldable pub is_undocumented : List FactProjection → FactClaim → Bool
is_undocumented projections fact =
    not (same_tier fact.tier t4_release)
    && not (same_tier fact.tier t5_human)
    && not (any (λ p. p.fact_key == fact.key) projections)

unfoldable pub undocumented_fact_findings : List FactClaim → List FactProjection → List Finding
undocumented_fact_findings facts projections =
    flat_map
      (λ fact.
        if is_undocumented projections fact
        then record {
          kind = undocumented_fact;
          fact_key = fact.key;
          doc_unit_id = none;
          projection_id = none;
          owner = owner_of fact.key;
        }
          ∷ []
        else [])
      facts

abbrev is_declared : Extractor → Bool
is_declared declared_reference = true
is_declared _ = false

abbrev is_inproduct : Surface → Bool
is_inproduct inproduct = true
is_inproduct _ = false

-- `new Map(units.map((u) => [u.id, u])).get(id)`: a later unit replaces an earlier one.
unit_by_id : List DocUnit → String → Option DocUnit
unit_by_id [] id = none
unit_by_id (u ∷ us) id = elim (unit_by_id us id) [
  | some v ↦ some v
  | none ↦ if u.id == id then some u else none
]

-- `declared.includes(key)`
declares : DocUnit → String → Bool
declares unit key =
    any (λ v. elim (text_of v) [ none ↦ false | some k ↦ k == key ])
      (items_of (get_field "references_facts" unit.frontmatter))

is_undeclared : FactProjection → DocUnit → Bool
unfolding declares
is_undeclared p unit =
    not (is_declared p.extractor)
    && is_inproduct unit.surface
    && not (declares unit p.fact_key)
    && is_some (match_fact_key p.fact_key)
    && not (has_prefix (codes "term.canonical.") (codes p.fact_key))

reference_findings : List DocUnit → FactProjection → List Finding
unfolding unit_by_id is_undeclared
reference_findings units p = elim (unit_by_id units p.doc_unit_id) [
  | none ↦ []
  | some unit ↦
      if is_undeclared p unit
      then record {
        kind = undeclared_reference;
        fact_key = p.fact_key;
        doc_unit_id = some p.doc_unit_id;
        projection_id = some p.id;
        owner = some unit.owner;
      }
        ∷ []
      else []
]

unfoldable pub undeclared_reference_findings : List DocUnit → List FactProjection → List Finding
unfolding reference_findings
undeclared_reference_findings units projections = flat_map (reference_findings units) projections

abbrev conflict_finding : AuthorityConflict → Finding
conflict_finding c = record {
  kind = authority_conflict;
  fact_key = c.fact_key;
  doc_unit_id = none;
  projection_id = none;
  owner = owner_of c.fact_key;
}

unfoldable pub authority_conflict_findings : List FactClaim → List Finding
authority_conflict_findings facts =
    flat_map (λ r. map conflict_finding r.1.conflicts) (arbitrate_all facts)
