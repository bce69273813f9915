-- ===== src/Concord/Authority/Outcome.antt =====
-- What an arbitration (packages/concord-core/src/authority.ts) decides, by list functions over the
-- claims on its key, and what its silence means.
use doc_eng_demo.Prelude.{
  String, ◌≡◌, refl, sym, ◌∙◌, ap, inl, inr, ◌≢◌, Bool, true, false, ◌&&◌, not, Option, none, some,
  List, [], ◌++◌, filter, find?, arith, Bool-cases, Option-cases, Member, Member-filter,
  filter-Member, Member-map, Member-append_right, append-eq-nil, not-Member-nil, find?-Member,
  eq_iff,
}
use doc_eng_demo.Value.{same_json, same_json_iff}
use doc_eng_demo.Contracts.Facts.{
  FactRegistryEntry, FactTier, t4_release, t5_human, same_tier, same_tier_iff, match_fact_key,
}
use doc_eng_demo.Concord.Authority.{
  TierClaim, Arbitration, is_temporal, is_human, is_ranked, is_tier, conflict, human_conflicts,
  lower_conflicts, on_key, unregistered, arbitrate_entry, arbitrate, disagrees, agrees_as,
  lower_tier_disagreement, cause_of,
}
use doc_eng_demo.Concord.Authority.Loop.{
  differing, consider_all-ignored, consider_all-human, consider_all-authoritative,
  consider_all-conflicts, consider_all-header,
}

-- The claims on a key, in the snapshot's order.
abbrev pub relevant : String → List TierClaim → List TierClaim
relevant key claims = filter (on_key key) claims

-- The outcome of an arbitration as functions of the relevant claims.
pub record IsOutcome (key : String) (entry : FactRegistryEntry) (cs : List TierClaim)
    (a : Arbitration) : Type 0 where
  pub authority : a.authoritative ≡ find? (is_ranked key entry) cs
  pub temporal : a.ignored_temporal ≡ filter (is_temporal key entry) cs
  pub human : a.human_claims ≡ filter (is_human key entry) cs
  pub disputes :
      a.conflicts
      ≡ differing key entry (find? (is_ranked key entry) cs) cs
        ++ (human_conflicts key entry (filter (is_human key entry) cs)
            ++ lower_conflicts key entry cs (find? (is_ranked key entry) cs))
  pub tier : a.authoritative_tier ≡ entry.tier
  pub owner : a.owner ≡ entry.owner

arbitrate_entry-IsOutcome :
    (key : String) (entry : FactRegistryEntry) (cs : List TierClaim)
    → IsOutcome key entry cs (arbitrate_entry key (some entry) cs)
unfolding arbitrate_entry
arbitrate_entry-IsOutcome key entry cs =
    let start : Arbitration = record (unregistered key) {
      owner = entry.owner;
      authoritative_tier = entry.tier;
    } in
    let (tier, owner) = consider_all-header key entry cs start in
    record {
      authority = consider_all-authoritative key entry cs start;
      temporal = consider_all-ignored key entry cs start;
      human = consider_all-human key entry cs start;
      disputes =
          rw
            (
              consider_all-conflicts key entry cs start,
              consider_all-human key entry cs start,
              consider_all-authoritative key entry cs start,
            )
            refl;
      tier = tier;
      owner = owner;
    }

-- For a registered key: the first claim of the registry's tier is authoritative, T4 claims are set
-- aside and T5 claims listed unless the registry names those tiers, and the conflicts are the
-- later claims of that tier that differ from the first, the decisions that differ from the first
-- decision, and the claims of other tiers that disagree with the authoritative one, in this order.
pub arbitrate-IsOutcome :
    (key : String) (entry : FactRegistryEntry) (claims : List TierClaim)
    → match_fact_key key ≡ some entry
    → IsOutcome key entry (relevant key claims) (arbitrate key claims)
unfolding arbitrate
arbitrate-IsOutcome key entry claims h =
    rw h (arbitrate_entry-IsOutcome key entry (relevant key claims))

-- A rank that a claim reaches, as a statement on tiers.
is_ranked-tier :
    (key : String) (entry : FactRegistryEntry) (c : TierClaim)
    → is_ranked key entry c ≡ true
    → entry.tier ≡ some c.tier
unfolding is_ranked
is_ranked-tier key entry c h = elim (Option-cases entry.tier) [
  | inl e ↦ absurd (ground arith)
  | inr (t, e) ↦ e ∙ ap some (sym ((same_tier_iff c.tier t).0 (ground arith)))
]

tier-is_ranked :
    (key : String) (entry : FactRegistryEntry) (c : TierClaim)
    → entry.tier ≡ some c.tier
    → is_ranked key entry c ≡ true
unfolding is_ranked is_temporal is_human
tier-is_ranked key entry c h =
    ground (arith, same_tier_iff c.tier t4_release, same_tier_iff c.tier t5_human)

-- What is authoritative was claimed on the key, by a source of the tier that the registry names.
pub arbitrate-authoritative :
    (key : String) (claims : List TierClaim) (c : TierClaim)
    → (arbitrate key claims).authoritative ≡ some c
    → Member c claims
      × (c.key ≡ key)
      × ((entry : FactRegistryEntry) × (match_fact_key key ≡ some entry)
          × (entry.tier ≡ some c.tier))
unfolding arbitrate arbitrate_entry
arbitrate-authoritative key claims c h = elim (Option-cases (match_fact_key key)) [
  | inl e ↦ absurd (ground arith)
  | inr (entry, e) ↦ authoritative_entry entry (rw (e, arbitrate) at h) e
]
  where
    authoritative_entry :
        (entry : FactRegistryEntry)
        → (arbitrate_entry key (some entry) (relevant key claims)).authoritative ≡ some c
        → match_fact_key key ≡ some entry
        → Member c claims
          × (c.key ≡ key)
          × ((entry : FactRegistryEntry) × (match_fact_key key ≡ some entry)
              × (entry.tier ≡ some c.tier))
    authoritative_entry entry k e =
        let first = sym (arbitrate_entry-IsOutcome key entry (relevant key claims)).authority ∙ k in
        let (m, ranked) = find?-Member (is_ranked key entry) (relevant key claims) first in
        let (n, on) = Member-filter (on_key key) claims c m in
        (n, (eq_iff c.key key).0 on, (entry, e, is_ranked-tier key entry c ranked))

relevant-Member :
    (key : String) (claims : List TierClaim) (c : TierClaim)
    → Member c claims
    → c.key ≡ key
    → Member c (relevant key claims)
relevant-Member key claims c m on = filter-Member (on_key key) claims c m ((eq_iff c.key key).1 on)

differing-Member :
    (key : String) (entry : FactRegistryEntry) (cs : List TierClaim) (auth c : TierClaim)
    → Member c cs
    → entry.tier ≡ some c.tier
    → same_json auth.value c.value ≡ false
    → Member (conflict key entry (cause_of c.tier) c) (differing key entry (some auth) cs)
differing-Member key entry cs auth c m same e =
    let differs : TierClaim → Bool =
      λ d. is_ranked key entry d && not (same_json auth.value d.value) in
    Member-map (λ d. conflict key entry (cause_of d.tier) d) (filter differs cs) c
      (filter-Member differs cs c m (rw (tier-is_ranked key entry c same) (rw e refl)))

-- Two claims of the authoritative tier never differ in silence: if an arbitration lists no
-- conflict, every claim of that tier on the key has the value of the authoritative claim.
pub arbitrate-unanimous :
    (key : String) (entry : FactRegistryEntry) (claims : List TierClaim) (auth c : TierClaim)
    → match_fact_key key ≡ some entry
    → (arbitrate key claims).conflicts ≡ []
    → (arbitrate key claims).authoritative ≡ some auth
    → Member c claims
    → c.key ≡ key
    → entry.tier ≡ some c.tier
    → auth.value ≡ c.value
arbitrate-unanimous key entry claims auth c registered quiet found m on same =
    let o = arbitrate-IsOutcome key entry claims registered in
    let cs = relevant key claims in
    let first = sym o.authority ∙ found in
    let (none_differ, _) =
      append-eq-nil (differing key entry (find? (is_ranked key entry) cs) cs)
        (human_conflicts key entry (filter (is_human key entry) cs)
          ++ lower_conflicts key entry cs (find? (is_ranked key entry) cs))
        (sym o.disputes ∙ quiet) in
    let silent : differing key entry (some auth) cs ≡ [] = rw first at none_differ in
    elim (Bool-cases (same_json auth.value c.value)) [
      | inl e ↦ (same_json_iff auth.value c.value).0 e
      | inr e ↦ absurd (
          not-Member-nil (differing key entry (some auth) cs)
            (conflict key entry (cause_of c.tier) c) silent
            (differing-Member key entry cs auth c (relevant-Member key claims c m on) same e))
    ]

-- A claim of another tier below T4 whose value is not that of the authoritative claim.
pub record IsContradiction (key : String) (entry : FactRegistryEntry) (auth c : TierClaim)
    : Type 0 where
  pub other : entry.tier ≢ some c.tier
  pub current : (c.tier ≢ t4_release) × (c.tier ≢ t5_human)
  pub unequal : agrees_as key entry entry.value_type c.value auth.value ≡ false

same_tier_ne : (s t : FactTier) → s ≢ t → same_tier s t ≡ false
same_tier_ne s t h = elim (Bool-cases (same_tier s t)) [
  | inl e ↦ absurd (h ((same_tier_iff s t).0 e))
  | inr e ↦ e
]

is_tier_ne : (o : Option FactTier) (t : FactTier) → o ≢ some t → is_tier o t ≡ false
is_tier_ne none t h = refl
is_tier_ne (some s) t h = same_tier_ne t s (λ e. h (ap some (sym e)))

IsContradiction-disagrees :
    (key : String) (entry : FactRegistryEntry) (auth c : TierClaim)
    → IsContradiction key entry auth c
    → disagrees key entry auth c ≡ true
unfolding disagrees
IsContradiction-disagrees key entry auth c h =
    let apart : is_tier entry.tier c.tier ≡ false = is_tier_ne entry.tier c.tier h.other in
    let t4 : same_tier c.tier t4_release ≡ false = same_tier_ne c.tier t4_release h.current.0 in
    let t5 : same_tier c.tier t5_human ≡ false = same_tier_ne c.tier t5_human h.current.1 in
    rw (apart) (rw t4 (rw t5 (rw h.unequal refl)))

lower_conflicts_lem :
    (key : String) (entry : FactRegistryEntry) (cs : List TierClaim) (auth c : TierClaim)
    → Member c cs
    → IsContradiction key entry auth c
    → Member
        (conflict key entry lower_tier_disagreement c)
        (lower_conflicts key entry cs (some auth))
unfolding lower_conflicts
lower_conflicts_lem key entry cs auth c m h =
    Member-map (conflict key entry lower_tier_disagreement) (filter (disagrees key entry auth) cs) c
      (filter-Member (disagrees key entry auth) cs c m
        (IsContradiction-disagrees key entry auth c h))

-- A claim on a registered key, of another tier below T4, that contradicts the authoritative claim is
-- listed as a conflict.
arbitrate-conflict :
    (key : String) (entry : FactRegistryEntry) (claims : List TierClaim) (auth c : TierClaim)
    → match_fact_key key ≡ some entry
    → (arbitrate key claims).authoritative ≡ some auth
    → Member c claims
    → c.key ≡ key
    → IsContradiction key entry auth c
    → Member (conflict key entry lower_tier_disagreement c) (arbitrate key claims).conflicts
arbitrate-conflict key entry claims auth c registered found m on h =
    let o = arbitrate-IsOutcome key entry claims registered in
    let cs = relevant key claims in
    let first = sym o.authority ∙ found in
    rw o.disputes (
      Member-append_right _ (differing key entry (find? (is_ranked key entry) cs) cs) _ (
        Member-append_right _ (human_conflicts key entry (filter (is_human key entry) cs)) _ (
          rw first
            (lower_conflicts_lem key entry cs auth c (relevant-Member key claims c m on) h))))
