-- ===== src/Concord/Conflicts/Temporal.antt =====
-- `temporalContradictions` (packages/concord-core/src/conflicts.ts): which of the announced
-- transitions contradict the present.
use doc_eng_demo.Prelude.{
  ◌≡◌, refl, sym, Bool, true, false, Option, none, some, List, [], ◌∷◌, ◌++◌, Member, Member-append,
  Member-append_left, Member-append_right, Option-cases, ◌⊎◌, inl, inr,
}
use doc_eng_demo.Contracts.Facts.{FactRegistryEntry, match_fact_key}
use doc_eng_demo.Contracts.Records.{FactClaim, ConflictDraft}
use doc_eng_demo.Concord.Pipeline.{map_get, fact_key_of, current_facts}
use doc_eng_demo.Concord.Conflicts.{
  Transition, less, announced, latest_transitions, same_as, temporal_draft, judge_known, judge,
  judge_all, both, unless_same, when_same, temporal_contradictions,
}
use doc_eng_demo.Concord.Conflicts.Latest.{IsNewest, IsAnnounced, latest_transitions-IsHeld}

-- An announced transition that no later release follows, against the current value of its key: the
-- last claim on it in a current-value tier has not the announced value, but the one before.
pub record IsContradiction (facts : List FactClaim) (t : Transition) (d : ConflictDraft)
    : Type 0 where
  pub announced_there : Member t (announced facts)
  pub newest : IsNewest (IsAnnounced facts) t
  pub entry : FactRegistryEntry
  pub registered : match_fact_key t.fact_key ≡ some entry
  pub current : FactClaim
  pub holds_now : map_get fact_key_of t.fact_key (current_facts facts) ≡ some current
  pub not_moved : same_as entry t.fact_key t.to current.value ≡ some false
  pub stayed : same_as entry t.fact_key t.from current.value ≡ some true
  pub draft : d ≡ temporal_draft current t

judge_known-draft :
    (entry : FactRegistryEntry) (c : FactClaim) (t : Transition) (moved stayed : Option Bool)
    (ds : List ConflictDraft) (d : ConflictDraft)
    → unless_same moved (when_same stayed (temporal_draft c t)) ≡ some ds
    → Member d ds
    → (moved ≡ some false) × (stayed ≡ some true) × (d ≡ temporal_draft c t)
judge_known-draft entry c t none stayed ds d h m = absurd (cc)
judge_known-draft entry c t (some true) stayed [] d h m = absurd m
judge_known-draft entry c t (some true) stayed (x ∷ ds) d h m = absurd (cc)
judge_known-draft entry c t (some false) none ds d h m = absurd (cc)
judge_known-draft entry c t (some false) (some false) [] d h m = absurd m
judge_known-draft entry c t (some false) (some false) (x ∷ ds) d h m = absurd (cc)
judge_known-draft entry c t (some false) (some true) [] d h m = absurd m
judge_known-draft entry c t (some false) (some true) (x ∷ ds) d h (inl e) = (refl, refl, cc)
judge_known-draft entry c t (some false) (some true) (x ∷ []) d h (inr m) = absurd m
judge_known-draft entry c t (some false) (some true) (x ∷ y ∷ ds) d h (inr m) = absurd (cc)

judge-draft :
    (facts : List FactClaim) (t : Transition) (ds : List ConflictDraft) (d : ConflictDraft)
    → judge facts t ≡ some ds
    → Member d ds
    → Member t (latest_transitions facts)
    → IsContradiction facts t d
unfolding judge judge_known
judge-draft facts t ds d h m n = elim (Option-cases (match_fact_key t.fact_key)) [
  | inl e ↦ absurd (empty ds (rw (e, judge) at h) m)
  | inr (entry, e) ↦
      on_current entry e (map_get fact_key_of t.fact_key (current_facts facts)) refl
        (rw (e, judge) at h)
]
  where
    empty : (es : List ConflictDraft) → some [] ≡ some es → Member d es → ⊥
    empty [] q k = k
    empty (x ∷ es) q k = cc

    on_current :
        (entry : FactRegistryEntry)
        → match_fact_key t.fact_key ≡ some entry
        → (o : Option FactClaim) → map_get fact_key_of t.fact_key (current_facts facts) ≡ o
        → judge_known entry o t ≡ some ds
        → IsContradiction facts t d
    on_current entry e none q k = absurd (empty ds k m)
    on_current entry e (some c) q k =
        let (moved, stayed, same) =
          judge_known-draft entry c t (same_as entry t.fact_key t.to c.value)
            (same_as entry t.fact_key t.from c.value) ds d k m in
        let held = latest_transitions-IsHeld facts in
        record {
          announced_there = held.passed t n;
          newest = held.newest t n;
          entry = entry;
          registered = e;
          current = c;
          holds_now = q;
          not_moved = moved;
          stayed = stayed;
          draft = same;
        }

pub both-some :
    (a b : Option (List ConflictDraft)) (cs : List ConflictDraft)
    → both a b ≡ some cs
    → (ds : List ConflictDraft) × (es : List ConflictDraft) × (a ≡ some ds)
      × (b ≡ some es)
      × (cs ≡ ds ++ es)
both-some none b cs h = absurd (cc)
both-some (some ds) none cs h = absurd (cc)
both-some (some ds) (some es) cs h = (ds, es, refl, refl, cc)

judge_all-Member :
    (facts : List FactClaim) (ts : List Transition) (ds : List ConflictDraft) (d : ConflictDraft)
    → judge_all facts ts ≡ some ds
    → Member d ds
    → (t : Transition) × (es : List ConflictDraft) × Member t ts
      × (judge facts t ≡ some es)
      × Member d es
unfolding judge_all
judge_all-Member facts [] [] d h m = absurd m
judge_all-Member facts [] (x ∷ ds) d h m = absurd (cc)
judge_all-Member facts (t ∷ ts) ds d h m =
    let (es, fs, p, q, same) = both-some (judge facts t) (judge_all facts ts) ds h in
    split es fs p q (Member-append d es fs (rw same at m)) (judge_all-Member facts ts fs d q)
  where
    split :
        (es fs : List ConflictDraft)
        → judge facts t ≡ some es
        → judge_all facts ts ≡ some fs
        → Member d es ⊎ Member d fs
        → (Member d fs
            → (u : Transition) × (gs : List ConflictDraft) × Member u ts
              × (judge facts u ≡ some gs)
              × Member d gs)
        → (u : Transition) × (gs : List ConflictDraft) × Member u (t ∷ ts)
          × (judge facts u ≡ some gs)
          × Member d gs
    split es fs p q (inl n) ih = (t, es, inl refl, p, n)
    split es fs p q (inr n) ih = let (u, gs, k, r, l) = ih n in (u, gs, inr k, r, l)

-- A temporal contradiction is reported only for an announced transition that no later announcement
-- on its key follows, and which the current value of the key contradicts: it has not the announced
-- value, but the one before.
pub temporal_contradictions-IsContradiction :
    (facts : List FactClaim) (ds : List ConflictDraft) (d : ConflictDraft)
    → temporal_contradictions facts ≡ some ds
    → Member d ds
    → (t : Transition) × IsContradiction facts t d
unfolding temporal_contradictions
temporal_contradictions-IsContradiction facts ds d h m =
    let (t, es, n, q, k) = judge_all-Member facts (latest_transitions facts) ds d h m in
    (t, judge-draft facts t es d q k n)

judge_all-of :
    (facts : List FactClaim) (ts : List Transition) (ds : List ConflictDraft) (t : Transition)
    (d : ConflictDraft)
    → judge_all facts ts ≡ some ds
    → Member t ts
    → judge facts t ≡ some (d ∷ [])
    → Member d ds
unfolding judge_all
judge_all-of facts [] ds t d h m k = absurd m
judge_all-of facts (u ∷ ts) ds t d h (inl e) k =
    let (es, fs, p, q, same) = both-some (judge facts u) (judge_all facts ts) ds h in
    rw same (Member-append_left d es fs (first es (rw e at k) p))
  where
    first :
        (es : List ConflictDraft)
        → judge facts u ≡ some (d ∷ [])
        → judge facts u ≡ some es
        → Member d es
    first [] a b = absurd (cc)
    first (x ∷ es) a b = inl (cc)
judge_all-of facts (u ∷ ts) ds t d h (inr m) k =
    let (es, fs, p, q, same) = both-some (judge facts u) (judge_all facts ts) ds h in
    rw same (Member-append_right d es fs (judge_all-of facts ts fs t d q m k))

judge-some :
    (facts : List FactClaim) (t : Transition) (d : ConflictDraft)
    → IsContradiction facts t d
    → judge facts t ≡ some (d ∷ [])
unfolding judge judge_known
judge-some facts t d c =
    rw (c.registered, judge)
      (rw (c.holds_now, judge_known) (rw (c.not_moved) (rw (c.stayed) (cc (c.draft)))))

-- Every such transition that was announced after all others of its key is reported.
pub temporal_contradictions_complete :
    (facts : List FactClaim) (ds : List ConflictDraft) (t : Transition) (d : ConflictDraft)
    → temporal_contradictions facts ≡ some ds
    → IsContradiction facts t d
    → ((u : Transition)
        → Member u (announced facts)
        → u.fact_key ≡ t.fact_key
        → (u ≡ t) ⊎ (less u.released_at t.released_at ≡ true))
    → Member d ds
unfolding temporal_contradictions
temporal_contradictions_complete facts ds t d h c last =
    let held = latest_transitions-IsHeld facts in
    let (s, m, same) = held.covers t c.announced_there in
    judge_all-of facts (latest_transitions facts) ds t d h
      (the_same s m same (last s (held.passed s m) same)
        (held.newest s m t c.announced_there (sym same)))
      (judge-some facts t d c)
  where
    the_same :
        (s : Transition)
        → Member s (latest_transitions facts)
        → s.fact_key ≡ t.fact_key
        → (s ≡ t) ⊎ (less s.released_at t.released_at ≡ true)
        → less s.released_at t.released_at ≡ false
        → Member t (latest_transitions facts)
    the_same s m k (inl e) q = rw e at m
    the_same s m k (inr e) q = absurd (cc)
