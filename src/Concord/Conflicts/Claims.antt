-- ===== src/Concord/Conflicts/Claims.antt =====
-- What each reported conflict (packages/concord-core/src/conflicts.ts) sets against each other.
use doc_eng_demo.Prelude.{
  ◌≡◌, ◌≢◌, refl, ◌≤◌, Bool, true, false, ◌&&◌, ◌||◌, not, some, List, [], ◌∷◌, ◌++◌, filter, any,
  Member, Member-append, flat_map-Member, map-Member, Member-filter, any-Member, Bool-cases, arith,
  ◌⊎◌, inl, inr, length, ltb, ◌==◌, eq_iff, if◌then◌else◌, same_codes,
}
use doc_eng_demo.Contracts.Records.{Text, FactClaim, ConflictDraft}
use doc_eng_demo.Concord.Types.{DocUnit}
use doc_eng_demo.Concord.Authority.{Arbitration, AuthorityConflict, arbitrate_all}
use doc_eng_demo.Concord.Conflicts.{
  kind_of, owner_of, claims_of, arbitration_draft, arbitration_conflicts, temporal_draft,
  temporal_contradictions, detect_conflicts,
}
use doc_eng_demo.Concord.Conflicts.Temporal.{both-some, temporal_contradictions-IsContradiction}
use doc_eng_demo.Concord.Conflicts.Circular.{
  cites_of, last_segment, is_page, cited_by, cite_rounds, cites_back, pair_key, is_new_pair,
  circular_pairs, circular_draft, circular_references,
}

abbrev pub HasTwoClaims : ConflictDraft → Type 0
HasTwoClaims d = 2 ≤ length d.claims

arbitration_draft-HasTwoClaims :
    (a : Arbitration) (c : AuthorityConflict) (d : ConflictDraft)
    → Member d (arbitration_draft a c)
    → HasTwoClaims d
unfolding arbitration_draft
arbitration_draft-HasTwoClaims a c d m = elim (Bool-cases (ltb (length (claims_of a c)) 2)) [
  | inl e ↦ absurd (rw e at m)
  | inr e ↦ alone e (rw e at m)
]
  where
    alone :
        ltb (length (claims_of a c)) 2 ≡ false
        → (d ≡ record {
          fact_key = c.fact_key;
          kind = kind_of c.kind;
          claims = claims_of a c;
          likely_owner = owner_of c.fact_key;
        })
          ⊎ ⊥
        → HasTwoClaims d
    alone e (inl q) = rw q (ground arith)
    alone e (inr q) = absurd q

-- A unit that cites a page of another file, whose unit cites a page of the first.
pub record IsCircular (units : List DocUnit) (u v : DocUnit) : Type 0 where
  pub listed : Member u units
  pub cited_listed : Member v units
  pub cited : (c : Text) × Member c (cites_of u) × (is_page (last_segment c) v ≡ true)
  pub back : (c : Text) × Member c (cites_of v) × (is_page (last_segment c) u ≡ true)
  pub apart : u.path ≢ v.path

circular_pairs-Member :
    (rounds : List (DocUnit × DocUnit)) (seen : List Text) (p : DocUnit × DocUnit)
    → Member p (circular_pairs seen rounds)
    → Member p rounds × (cites_back p.0 p.1 ≡ true) × ((p.0.path == p.1.path) ≡ false)
unfolding circular_pairs is_new_pair
circular_pairs-Member [] seen p m = absurd m
circular_pairs-Member ((u, v) ∷ rounds) seen p m =
    pick (cites_back u v) (any (same_codes (pair_key u.path v.path)) seen) (u.path == v.path) refl
      refl (circular_pairs-Member rounds _ p) m
  where
    pick :
        (a s e : Bool)
        → cites_back u v ≡ a
        → (u.path == v.path) ≡ e
        → (Member p (
              circular_pairs
                (if a && not (s || e) then pair_key u.path v.path ∷ seen else seen)
                rounds)
            → Member p rounds × (cites_back p.0 p.1 ≡ true) × ((p.0.path == p.1.path) ≡ false))
        → Member p (
            if a && not (s || e)
            then (u, v)
              ∷ circular_pairs
                  (if a && not (s || e) then pair_key u.path v.path ∷ seen else seen)
                  rounds
            else circular_pairs
                (if a && not (s || e) then pair_key u.path v.path ∷ seen else seen)
                rounds)
        → Member p ((u, v) ∷ rounds)
          × (cites_back p.0 p.1 ≡ true)
          × ((p.0.path == p.1.path) ≡ false)
    pick true false false x y ih (inl q) = (inl q, rw q x, rw q y)
    pick true false false x y ih (inr n) = let (k, r, q) = ih n in (inr k, r, q)
    pick true false true x y ih n = let (k, r, q) = ih n in (inr k, r, q)
    pick true true e x y ih n = let (k, r, q) = ih n in (inr k, r, q)
    pick false s e x y ih n = let (k, r, q) = ih n in (inr k, r, q)

cited_by-Member :
    (units : List DocUnit) (w : DocUnit) (p : DocUnit × DocUnit)
    → Member p (cited_by units w)
    → (p.0 ≡ w)
      × Member p.1 units
      × ((c : Text) × Member c (cites_of w) × (is_page (last_segment c) p.1 ≡ true))
unfolding cited_by
cited_by-Member units w p m =
    let (c, n, k) = flat_map-Member _ (cites_of w) p m in
    let (v, l, e) = map-Member _ (filter (is_page (last_segment c)) units) p k in
    let (there, cited) = Member-filter (is_page (last_segment c)) units v l in
    (rw e refl, rw e there, (c, n, rw e cited))

-- A circular reference is reported only between two units of different files that cite each other's
-- pages.
circular_references-IsCircular :
    (units : List DocUnit) (d : ConflictDraft)
    → Member d (circular_references units)
    → (u : DocUnit) × (v : DocUnit) × IsCircular units u v × (d ≡ circular_draft u v)
unfolding circular_references cite_rounds cites_back
circular_references-IsCircular units d m =
    let ((u, v), n, e) = map-Member _ (circular_pairs [] (cite_rounds units)) d m in
    let (k, back, apart) = circular_pairs-Member (cite_rounds units) [] (u, v) n in
    let (w, l, j) = flat_map-Member (cited_by units) units (u, v) k in
    let (same, there, cited) = cited_by-Member units w (u, v) j in
    (
      u,
      v,
      record {
        listed = rw same l;
        cited_listed = there;
        cited = rw same cited;
        back = any-Member (λ c. is_page (last_segment c) u) (cites_of v) back;
        apart = λ q. clash ((eq_iff u.path v.path).1 q) apart;
      },
      e,
    )
  where
    clash : {b : Bool} → b ≡ true → b ≡ false → ⊥
    clash p q = cc

-- Every reported conflict sets at least two claims against each other.
pub detect_conflicts-HasTwoClaims :
    (facts : List FactClaim) (units : List DocUnit) (ds : List ConflictDraft) (d : ConflictDraft)
    → detect_conflicts facts units ≡ some ds
    → Member d ds
    → HasTwoClaims d
unfolding detect_conflicts arbitration_conflicts temporal_draft circular_draft
detect_conflicts-HasTwoClaims facts units ds d h m =
    let (xs, rest, e, q, same) = both-some (some (arbitration_conflicts facts)) _ ds h in
    let (ts, cs, t, c, same') = both-some (temporal_contradictions facts) _ rest q in
    by_stage xs ts cs e t c (Member-append d xs (ts ++ cs) (rw (same, same') at m))
  where
    by_stage :
        (xs ts cs : List ConflictDraft)
        → some (arbitration_conflicts facts) ≡ some xs
        → temporal_contradictions facts ≡ some ts
        → some (circular_references units) ≡ some cs
        → Member d xs ⊎ Member d (ts ++ cs)
        → HasTwoClaims d
    by_stage xs ts cs e t c (inl n) =
        let here : xs ≡ arbitration_conflicts facts = cc in
        let (r, _, k) = flat_map-Member _ (arbitrate_all facts) d (rw here at n) in
        let (x, _, l) = flat_map-Member (arbitration_draft r.1) r.1.conflicts d k in
        arbitration_draft-HasTwoClaims r.1 x d l
    by_stage xs ts cs e t c (inr n) = elim (Member-append d ts cs n) [
      | inl k ↦
          let (u, w) = temporal_contradictions-IsContradiction facts ts d t k in
          rw w.draft (omega arith)
      | inr k ↦
          let there : cs ≡ circular_references units = cc in
          let (u, v, _, q) = circular_references-IsCircular units d (rw there at k) in
          rw q (omega arith)
    ]
