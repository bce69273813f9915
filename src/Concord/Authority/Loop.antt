-- ===== src/Concord/Authority/Loop.antt =====
-- The loop of `arbitrate` (packages/concord-core/src/authority.ts) against list functions.
use doc_eng_demo.Prelude.{
  String, ◌≡◌, refl, sym, Bool, ◌&&◌, not, Option, none, some, List, [], ◌∷◌, ◌++◌, filter, find?,
  arith, if◌then◌else◌, append-nil, append_assoc, map, ◌∙◌, ap,
}
use doc_eng_demo.Value.{same_json, same_json_refl}
use doc_eng_demo.Contracts.Facts.{FactRegistryEntry}
use doc_eng_demo.Concord.Authority.{
  TierClaim, AuthorityConflict, Arbitration, is_temporal, is_human, is_ranked, consider,
  consider_all, conflict, cause_of,
}

-- The first ranked claim, given what has been found already.
abbrev first_ranked : Option TierClaim → Option TierClaim → Option TierClaim
first_ranked (some c) later = some c
first_ranked none later = later

module _ (key : String) (entry : FactRegistryEntry) where
  -- Later ranked claims whose value differs from that of the first.
  abbrev pub differing : Option TierClaim → List TierClaim → List AuthorityConflict
  differing none cs = []
  differing (some f) cs =
      map (λ c. conflict key entry (cause_of c.tier) c)
        (filter (λ c. is_ranked key entry c && not (same_json f.value c.value)) cs)

  abbrev one_if : Bool → TierClaim → List TierClaim
  one_if b c = if b then c ∷ [] else []

  filter_cons :
      (p : TierClaim → Bool) (c : TierClaim) (cs : List TierClaim)
      → filter p (c ∷ cs) ≡ one_if (p c) c ++ filter p cs
  filter_cons p c cs = ground arith

  consider-ignored :
      (c : TierClaim) (a : Arbitration)
      → (consider key entry c a).ignored_temporal
        ≡ a.ignored_temporal ++ one_if (is_temporal key entry c) c
  unfolding consider
  consider-ignored c a = ground (arith, append-nil a.ignored_temporal)

  consider-human :
      (c : TierClaim) (a : Arbitration)
      → (consider key entry c a).human_claims ≡ a.human_claims ++ one_if (is_human key entry c) c
  unfolding consider is_human
  consider-human c a = ground (arith, append-nil a.human_claims)

  consider-authoritative :
      (c : TierClaim) (a : Arbitration)
      → (consider key entry c a).authoritative
        ≡ first_ranked a.authoritative (if is_ranked key entry c then some c else none)
  unfolding consider is_ranked
  consider-authoritative c a = ground arith

  consider-conflicts :
      (c : TierClaim) (a : Arbitration)
      → (consider key entry c a).conflicts ≡ a.conflicts ++ differing a.authoritative (c ∷ [])
  unfolding consider is_ranked
  consider-conflicts c a = ground (arith, append-nil a.conflicts)

  pub consider_all-ignored :
      (cs : List TierClaim) (a : Arbitration)
      → (consider_all key entry cs a).ignored_temporal
        ≡ a.ignored_temporal ++ filter (is_temporal key entry) cs
  unfolding consider_all
  consider_all-ignored [] a = sym (append-nil _)
  consider_all-ignored (c ∷ cs) a =
      rw (consider_all-ignored cs (consider key entry c a), consider-ignored, append_assoc)
        (ap (λ l. a.ignored_temporal ++ l) (sym (filter_cons (is_temporal key entry) c cs)))

  pub consider_all-human :
      (cs : List TierClaim) (a : Arbitration)
      → (consider_all key entry cs a).human_claims
        ≡ a.human_claims ++ filter (is_human key entry) cs
  unfolding consider_all
  consider_all-human [] a = sym (append-nil _)
  consider_all-human (c ∷ cs) a =
      rw (consider_all-human cs (consider key entry c a), consider-human, append_assoc)
        (ap (λ l. a.human_claims ++ l) (sym (filter_cons (is_human key entry) c cs)))

  first_ranked_cons :
      (o : Option TierClaim) (c : TierClaim) (cs : List TierClaim)
      → first_ranked
          (first_ranked o (if is_ranked key entry c then some c else none))
          (find? (is_ranked key entry) cs)
        ≡ first_ranked o (find? (is_ranked key entry) (c ∷ cs))
  first_ranked_cons o c cs = ground arith

  pub consider_all-authoritative :
      (cs : List TierClaim) (a : Arbitration)
      → (consider_all key entry cs a).authoritative
        ≡ first_ranked a.authoritative (find? (is_ranked key entry) cs)
  unfolding consider_all
  consider_all-authoritative [] a = ground arith
  consider_all-authoritative (c ∷ cs) a =
      rw (consider_all-authoritative cs (consider key entry c a), consider-authoritative)
        (first_ranked_cons a.authoritative c cs)

  differing_cons :
      (o : Option TierClaim) (c : TierClaim) (cs : List TierClaim)
      → differing o (c ∷ [])
          ++ differing
              (first_ranked
                (first_ranked o (if is_ranked key entry c then some c else none))
                (find? (is_ranked key entry) cs))
              cs
        ≡ differing (first_ranked o (find? (is_ranked key entry) (c ∷ cs))) (c ∷ cs)
  differing_cons (some f) c cs = ground arith
  differing_cons none c cs = ground (arith, same_json_refl c.value)

  pub consider_all-conflicts :
      (cs : List TierClaim) (a : Arbitration)
      → (consider_all key entry cs a).conflicts
        ≡ a.conflicts
          ++ differing (first_ranked a.authoritative (find? (is_ranked key entry) cs)) cs
  unfolding consider_all
  consider_all-conflicts [] a = ground (arith, append-nil a.conflicts)
  consider_all-conflicts (c ∷ cs) a =
      rw
        (
          consider_all-conflicts cs (consider key entry c a),
          consider-conflicts,
          consider-authoritative,
          append_assoc,
        )
        (ap (λ l. a.conflicts ++ l) (differing_cons a.authoritative c cs))

  consider-header :
      (c : TierClaim) (a : Arbitration)
      → ((consider key entry c a).authoritative_tier ≡ a.authoritative_tier)
        × ((consider key entry c a).owner ≡ a.owner)
  unfolding consider
  consider-header c a = (ground arith, ground arith)

  pub consider_all-header :
      (cs : List TierClaim) (a : Arbitration)
      → ((consider_all key entry cs a).authoritative_tier ≡ a.authoritative_tier)
        × ((consider_all key entry cs a).owner ≡ a.owner)
  unfolding consider_all
  consider_all-header [] a = (refl, refl)
  consider_all-header (c ∷ cs) a =
      let (tier, owner) = consider_all-header cs (consider key entry c a) in
      let (tier', owner') = consider-header c a in (tier ∙ tier', owner ∙ owner')
