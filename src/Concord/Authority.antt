-- ===== src/Concord/Authority.antt =====
-- packages/concord-core/src/authority.ts: expansion of a snapshot into claims on fact keys, and
-- the arbitration of all claims on one key. The prose of a conflict, `detail`, is left out.
pub mod Loop
pub mod Outcome
pub mod Tests
use doc_eng_demo.Prelude.{
  ℕ, String, Bool, true, false, ◌&&◌, ◌||◌, not, Option, none, some, List, [], ◌∷◌, ◌++◌, map,
  filter, flat_map, includes, ◌==◌, if◌then◌else◌,
}
use doc_eng_demo.Value.{
  Value, Fields, null, obj, str, same_json, get_field, items_of, text_of, is_nullish,
}
use doc_eng_demo.Contracts.Facts.{
  FactTier, t4_release, t5_human, same_tier, FactValueType, json, FactRegistryEntry, match_fact_key,
}
use doc_eng_demo.Contracts.Records.{FactClaim}
use doc_eng_demo.Concord.Normalize.{same_normalized, unit_of_fact_key, holds}

pub record TierClaim : Type 0 where
  pub key : String
  pub value : Value
  pub tier : FactTier
  pub source : String

pub data ConflictCause : Type 0 where
  lower_tier_disagreement t5_double_claim : ConflictCause

pub record AuthorityConflict : Type 0 where
  pub fact_key : String
  pub kind : ConflictCause
  pub authoritative_tier : Option FactTier
  pub claim : TierClaim

pub record Arbitration : Type 0 where
  pub key : String
  pub owner : Option String
  pub authoritative_tier : Option FactTier
  pub authoritative : Option TierClaim
  pub human_claims : List TierClaim
  pub ignored_temporal : List TierClaim
  pub conflicts : List AuthorityConflict

-- The claims that a release record makes by its `changes`, and a decision record by its
-- `claims_fact_keys`; members that lack the declared text field claim no key.
change_claim : String → Value → List TierClaim
change_claim source change = elim (text_of (get_field "fact_key" change)) [
  | none ↦ []
  | some k ↦
      record { key = k; value = get_field "to" change; tier = t4_release; source = source } ∷ []
]

-- `record?.statement ?? null`
statement_of : Value → Value
statement_of v = let s = get_field "statement" v in if is_nullish s then null else s

key_claim : String → Value → Value → List TierClaim
key_claim source statement key = elim (text_of key) [
  | none ↦ []
  | some k ↦ record { key = k; value = statement; tier = t5_human; source = source } ∷ []
]

expand_claim : FactClaim → List TierClaim
unfolding change_claim statement_of key_claim
expand_claim fact =
    record { key = fact.key; value = fact.value; tier = fact.tier; source = fact.locator }
    ∷ ((if same_tier fact.tier t4_release
          then flat_map (change_claim fact.key) (items_of (get_field "changes" fact.value))
          else [])
        ++ (if same_tier fact.tier t5_human
            then flat_map (key_claim fact.key (statement_of fact.value))
                (items_of (get_field "claims_fact_keys" fact.value))
            else []))

unfoldable pub expand_claims : List FactClaim → List TierClaim
unfolding expand_claim
expand_claims facts = flat_map expand_claim facts

-- A tier against the registry's, which may be absent.
abbrev pub is_tier : Option FactTier → FactTier → Bool
is_tier none t = false
is_tier (some s) t = same_tier t s

abbrev pub cause_of : FactTier → ConflictCause
cause_of t = if same_tier t t5_human then t5_double_claim else lower_tier_disagreement

module _ (key : String) (entry : FactRegistryEntry) where
  -- `t4` when the registry does not name it, and so for `t5`.
  pub is_temporal : TierClaim → Bool
  is_temporal c = same_tier c.tier t4_release && not (is_tier entry.tier t4_release)

  pub is_human : TierClaim → Bool
  unfolding is_temporal
  is_human c = not (is_temporal c) && same_tier c.tier t5_human && not (is_tier entry.tier t5_human)

  pub is_ranked : TierClaim → Bool
  unfolding is_temporal is_human
  is_ranked c = not (is_temporal c) && not (is_human c) && is_tier entry.tier c.tier

  abbrev pub conflict : ConflictCause → TierClaim → AuthorityConflict
  conflict cause c = record {
    fact_key = key;
    kind = cause;
    authoritative_tier = entry.tier;
    claim = c;
  }

  -- A further claim of the authoritative tier: a conflict where its value differs.
  rank : TierClaim → Arbitration → Arbitration
  rank c a = elim a.authoritative [
    | none ↦ record a { authoritative = some c }
    | some first ↦
        if same_json first.value c.value
        then a
        else record a { conflicts = a.conflicts ++ conflict (cause_of c.tier) c ∷ [] }
  ]

  -- One round of the loop over the relevant claims.
  unfoldable pub consider : TierClaim → Arbitration → Arbitration
  unfolding rank is_temporal is_human
  consider c a =
      if is_temporal c
      then record a { ignored_temporal = a.ignored_temporal ++ c ∷ [] }
      else if is_human c
      then record a { human_claims = a.human_claims ++ c ∷ [] }
      else if is_tier entry.tier c.tier
      then rank c a
      else a

  unfoldable pub consider_all : List TierClaim → Arbitration → Arbitration
  consider_all [] a = a
  consider_all (c ∷ cs) a = consider_all cs (consider c a)

  -- Decisions that claim the key with another position than the first.
  unfoldable pub human_conflicts : List TierClaim → List AuthorityConflict
  human_conflicts [] = []
  human_conflicts (first ∷ rest) =
      map (conflict t5_double_claim) (filter (λ c. not (same_json first.value c.value)) rest)

  -- A claim of another tier than the registry's against the authoritative one, T4 and T5 apart.
  -- The test `claim === authClaim` is within the first: that claim has the registry's tier. An
  -- entry with a tier has a value type, so the comparison does not fail.
  abbrev agrees_as : Option FactValueType → Value → Value → Bool
  agrees_as (some json) v w = same_json v w
  agrees_as t v w = holds (same_normalized v w t (unit_of_fact_key key))

  unfoldable pub disagrees : TierClaim → TierClaim → Bool
  disagrees auth c =
      not (is_tier entry.tier c.tier)
      && not (same_tier c.tier t4_release)
      && not (same_tier c.tier t5_human)
      && not (agrees_as entry.value_type c.value auth.value)

  unfoldable pub lower_conflicts : List TierClaim → Option TierClaim → List AuthorityConflict
  lower_conflicts relevant none = []
  lower_conflicts relevant (some auth) =
      map (conflict lower_tier_disagreement) (filter (disagrees auth) relevant)

abbrev pub on_key : String → TierClaim → Bool
on_key key c = c.key == key

abbrev pub unregistered : String → Arbitration
unregistered key = record {
  key = key;
  owner = none;
  authoritative_tier = none;
  authoritative = none;
  human_claims = [];
  ignored_temporal = [];
  conflicts = [];
}

-- The two passes after the loop only add conflicts.
abbrev pub finish : String → FactRegistryEntry → List TierClaim → Arbitration → Arbitration
finish key entry relevant a = record a {
  conflicts =
      a.conflicts
      ++ (human_conflicts key entry a.human_claims
          ++ lower_conflicts key entry relevant a.authoritative);
}

unfoldable pub arbitrate_entry : String → Option FactRegistryEntry → List TierClaim → Arbitration
arbitrate_entry key none relevant = unregistered key
arbitrate_entry key (some entry) relevant = finish key entry relevant (
    consider_all key entry relevant
      (record (unregistered key) { owner = entry.owner; authoritative_tier = entry.tier }))

unfoldable pub arbitrate : String → List TierClaim → Arbitration
unfolding arbitrate_entry
arbitrate key claims = arbitrate_entry key (match_fact_key key) (filter (on_key key) claims)

-- `[...new Set(keys)]`: the first occurrences, in order.
distinct_from : List String → List String → List String
distinct_from seen [] = []
distinct_from seen (k ∷ ks) =
    if includes seen k then distinct_from seen ks else k ∷ distinct_from (k ∷ seen) ks

unfoldable pub distinct : List String → List String
unfolding distinct_from
distinct ks = distinct_from [] ks

-- A `Map` with the arbitrations as an association list.
unfoldable pub arbitrate_all : List FactClaim → List (String × Arbitration)
arbitrate_all facts =
    let claims = expand_claims facts in
    map (λ k. (k, arbitrate k claims)) (distinct (map (λ c. c.key) claims))

pub owner_of_fact : String → Option String
owner_of_fact key = elim (match_fact_key key) [ none ↦ none | some e ↦ e.owner ]
