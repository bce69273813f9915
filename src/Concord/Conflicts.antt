-- ===== src/Concord/Conflicts.antt =====
-- packages/concord-core/src/conflicts.ts: the conflicts that a snapshot and the units show. The
-- prose for the owner is left out, and texts are compared by code point.
pub mod Circular
pub mod Claims
pub mod Latest
pub mod Temporal
pub mod Tests
use doc_eng_demo.Prelude.{
  ℕ, String, Bool, true, false, ◌&&◌, not, Option, none, some, List, [], ◌∷◌, ◌++◌, flat_map,
  filter, find?, ltb, leb, length, eqb, ◌==◌, codes, less_codes, if◌then◌else◌,
}
use doc_eng_demo.Value.{Value, null, str, same_json, get_field, items_of, text_of}
use doc_eng_demo.Contracts.Facts.{
  FactTier, t4_release, t5_human, same_tier, FactRegistryEntry, FactValueType, json, match_fact_key,
}
use doc_eng_demo.Contracts.Records.{
  FactClaim, Evidence, ConflictDraft, ConflictKind, authority_disagreement, insufficient_evidence,
  ambiguous_ownership, temporal_contradiction,
}
use doc_eng_demo.Concord.Types.{DocUnit}
use doc_eng_demo.Concord.Normalize.{same_normalized, unit_of_fact_key}
use doc_eng_demo.Concord.Authority.{
  Arbitration, AuthorityConflict, ConflictCause, lower_tier_disagreement, t5_double_claim,
  TierClaim, arbitrate_all,
}
use doc_eng_demo.Concord.Pipeline.{map_get, fact_key_of, current_facts}
use doc_eng_demo.Concord.Conflicts.Circular.{circular_references}

unfoldable pub to_evidence : FactClaim → Evidence
to_evidence c = record {
  fact_key = c.key;
  tier = c.tier;
  locator = c.locator;
  value = c.value;
  observed_at = c.observed_at;
}

-- A claim without a time of observation.
unfoldable pub claim_evidence : String → TierClaim → Evidence
claim_evidence key c = record {
  fact_key = key;
  tier = c.tier;
  locator = c.source;
  value = c.value;
  observed_at = "";
}

unfoldable pub owner_of : String → String
owner_of key = elim (match_fact_key key) [
  | none ↦ "unowned"
  | some e ↦ elim e.owner [ none ↦ "unowned" | some o ↦ o ]
]

abbrev pub kind_of : ConflictCause → ConflictKind
kind_of t5_double_claim = ambiguous_ownership
kind_of lower_tier_disagreement = authority_disagreement

unfoldable pub claims_of : Arbitration → AuthorityConflict → List Evidence
unfolding claim_evidence
claims_of a c = elim a.authoritative [
  | none ↦ claim_evidence c.fact_key c.claim ∷ []
  | some auth ↦ claim_evidence c.fact_key auth ∷ claim_evidence c.fact_key c.claim ∷ []
]

-- One conflict of an arbitration; with a single claim it is passed over.
unfoldable pub arbitration_draft : Arbitration → AuthorityConflict → List ConflictDraft
unfolding claims_of owner_of
arbitration_draft a c =
    if ltb (length (claims_of a c)) 2
    then []
    else record {
      fact_key = c.fact_key;
      kind = kind_of c.kind;
      claims = claims_of a c;
      likely_owner = owner_of c.fact_key;
    }
      ∷ []

unfoldable pub arbitration_conflicts : List FactClaim → List ConflictDraft
unfolding arbitration_draft
arbitration_conflicts facts =
    flat_map (λ r. flat_map (arbitration_draft r.1) r.1.conflicts) (arbitrate_all facts)

-- `a < b` on texts.
unfoldable pub less : String → String → Bool
less a b = less_codes (codes a) (codes b)

-- An announced change of a fact, as the latest per key are held.
pub record Transition : Type 0 where
  pub fact_key : String
  pub from : Value
  pub to : Value
  pub release_key : String
  pub locator : String
  pub released_at : String

abbrev or_empty : Option String → String
or_empty none = ""
or_empty (some s) = s

-- `record?.released_at ?? ""`
unfoldable pub released_at_of : FactClaim → String
released_at_of fact = or_empty (text_of (get_field "released_at" fact.value))

change_transition : FactClaim → Value → List Transition
unfolding released_at_of
change_transition fact change = elim (text_of (get_field "fact_key" change)) [
  | none ↦ []
  | some k ↦
      record {
        fact_key = k;
        from = get_field "from" change;
        to = get_field "to" change;
        release_key = fact.key;
        locator = fact.locator;
        released_at = released_at_of fact;
      }
      ∷ []
]

-- The changes that a release record lists, in order; a change without a key is left out.
transitions_of : FactClaim → List Transition
unfolding change_transition
transitions_of fact =
    if same_tier fact.tier t4_release
    then flat_map (change_transition fact) (items_of (get_field "changes" fact.value))
    else []

unfoldable pub announced : List FactClaim → List Transition
unfolding transitions_of
announced facts = flat_map transitions_of facts

-- One round of the loop over the changes: a later release replaces the entry of its key, in place.
unfoldable pub put_transition : Transition → List Transition → List Transition
put_transition t [] = t ∷ []
put_transition t (s ∷ ss) =
    if s.fact_key == t.fact_key
    then (if less s.released_at t.released_at then t ∷ ss else s ∷ ss)
    else s ∷ put_transition t ss

unfoldable pub latest_from : List Transition → List Transition → List Transition
latest_from held [] = held
latest_from held (t ∷ ts) = latest_from (put_transition t held) ts

unfoldable pub latest_transitions : List FactClaim → List Transition
latest_transitions facts = latest_from [] (announced facts)

-- `same(a, b)`, which throws where the entry has no value type.
unfoldable pub same_as : FactRegistryEntry → String → Value → Value → Option Bool
same_as entry key v w = elim entry.value_type [
  | some json ↦ some (same_json v w)
  | t ↦ same_normalized v w t (unit_of_fact_key key)
]

unfoldable pub temporal_draft : FactClaim → Transition → ConflictDraft
unfolding to_evidence owner_of
temporal_draft current t = record {
  fact_key = t.fact_key;
  kind = temporal_contradiction;
  claims =
      to_evidence current
      ∷ record {
        fact_key = t.fact_key;
        tier = t4_release;
        locator = t.locator;
        value = t.to;
        observed_at = t.released_at;
      }
      ∷ [];
  likely_owner = owner_of t.fact_key;
}

abbrev unless_same : Option Bool → Option (List ConflictDraft) → Option (List ConflictDraft)
unless_same none rest = none
unless_same (some true) rest = some []
unless_same (some false) rest = rest

abbrev when_same : Option Bool → ConflictDraft → Option (List ConflictDraft)
when_same none d = none
when_same (some true) d = some (d ∷ [])
when_same (some false) d = some []

-- One round of the loop over the latest transitions; `none` is a throw.
judge_known : FactRegistryEntry → Option FactClaim → Transition → Option (List ConflictDraft)
unfolding same_as
judge_known entry none t = some []
judge_known entry (some current) t =
    unless_same (same_as entry t.fact_key t.to current.value)
      (when_same (same_as entry t.fact_key t.from current.value) (temporal_draft current t))

unfoldable pub judge : List FactClaim → Transition → Option (List ConflictDraft)
unfolding judge_known
judge facts t = elim (match_fact_key t.fact_key) [
  | none ↦ some []
  | some entry ↦ judge_known entry (map_get fact_key_of t.fact_key (current_facts facts)) t
]

abbrev both :
    Option (List ConflictDraft) → Option (List ConflictDraft) → Option (List ConflictDraft)
both none r = none
both (some ds) none = none
both (some ds) (some es) = some (ds ++ es)

unfoldable pub judge_all : List FactClaim → List Transition → Option (List ConflictDraft)
judge_all facts [] = some []
judge_all facts (t ∷ ts) = both (judge facts t) (judge_all facts ts)

unfoldable pub temporal_contradictions : List FactClaim → Option (List ConflictDraft)
temporal_contradictions facts = judge_all facts (latest_transitions facts)

abbrev nearest_evidence : String → Option FactClaim → Evidence
nearest_evidence key none = record {
  fact_key = key;
  tier = t5_human;
  locator = "(no claim in the current snapshot)";
  value = null;
  observed_at = "";
}
nearest_evidence key (some c) = record {
  fact_key = key;
  tier = c.tier;
  locator = c.locator;
  value = c.value;
  observed_at = c.observed_at;
}

unfoldable pub insufficient_evidence_conflict : String → String → List FactClaim → ConflictDraft
unfolding owner_of
insufficient_evidence_conflict key attempted facts = record {
  fact_key = key;
  kind = insufficient_evidence;
  claims =
      nearest_evidence key (find? (λ f. f.key == key) facts)
      ∷ record {
        fact_key = key;
        tier = t5_human;
        locator = attempted;
        value = str "(evidence cited but unresolvable)";
        observed_at = "";
      }
      ∷ [];
  likely_owner = owner_of key;
}

unfoldable pub detect_conflicts : List FactClaim → List DocUnit → Option (List ConflictDraft)
detect_conflicts facts units =
    both (some (arbitration_conflicts facts))
      (both (temporal_contradictions facts) (some (circular_references units)))
