-- ===== src/Concord/Conflicts/Latest.antt =====
-- The map `latestTransition` of `temporalContradictions` (packages/concord-core/src/conflicts.ts):
-- for each announced key the loop holds one transition, which no later one follows.
use doc_eng_demo.Prelude.{
  ℕ, String, ◌≡◌, ◌≢◌, refl, sym, ◌∙◌, Bool, true, false, List, [], ◌∷◌, Member, Bool-cases, arith,
  ◌⊎◌, inl, inr, less_codes, codes, ltb, eqb, ◌==◌, eq_iff, ◌&&◌, if◌then◌else◌,
}
use doc_eng_demo.Contracts.Records.{FactClaim}
use doc_eng_demo.Concord.Conflicts.{
  Transition, less, announced, put_transition, latest_from, latest_transitions,
}

less_codes_irrefl : (s : List ℕ) → less_codes s s ≡ false
unfolding less_codes
less_codes_irrefl [] = refl
less_codes_irrefl (c ∷ s) = ground (arith, less_codes_irrefl s)

less_codes_trans :
    (s t u : List ℕ) → less_codes s t ≡ true → less_codes t u ≡ true → less_codes s u ≡ true
unfolding less_codes
less_codes_trans s [] u h k = cc
less_codes_trans s (d ∷ t) [] h k = cc
less_codes_trans [] (d ∷ t) (e ∷ u) h k = refl
less_codes_trans (c ∷ s) (d ∷ t) (e ∷ u) h k =
    chain (less_codes s t) (less_codes t u) (less_codes s u) h k (less_codes_trans s t u)
  where
    chain :
        (x y z : Bool)
        → (if ltb c d then true else (eqb c d && x)) ≡ true
        → (if ltb d e then true else (eqb d e && y)) ≡ true
        → (x ≡ true → y ≡ true → z ≡ true)
        → (if ltb c e then true else (eqb c e && z)) ≡ true
    chain x y z p q r = ground arith

less_irrefl : (a : String) → less a a ≡ false
unfolding less
less_irrefl a = less_codes_irrefl (codes a)

less_trans : (a b c : String) → less a b ≡ true → less b c ≡ true → less a c ≡ true
unfolding less
less_trans a b c h k = less_codes_trans (codes a) (codes b) (codes c) h k

-- Nothing that `P` holds of, on the key, was released after `s`.
abbrev pub IsNewest : (Transition → Type 0) → Transition → Type 0
IsNewest P s =
    (t : Transition) → P t → t.fact_key ≡ s.fact_key → less s.released_at t.released_at ≡ false

pub Distinct : List Transition → Type 0
Distinct [] = Unit
Distinct (s ∷ ss) = ((t : Transition) → Member t ss → t.fact_key ≢ s.fact_key) × Distinct ss

-- What the loop holds once it has passed the transitions of which `P` holds.
pub record IsHeld (P : Transition → Type 0) (held : List Transition) : Type 0 where
  pub distinct : Distinct held
  pub covers : (t : Transition) → P t → (s : Transition) × Member s held × (s.fact_key ≡ t.fact_key)
  pub passed : (s : Transition) → Member s held → P s
  pub newest : (s : Transition) → Member s held → IsNewest P s

-- An entry after one round: the new transition, where all that it replaces are older, or an old
-- entry that it does not replace.
Origin : Transition → List Transition → Transition → Type 0
Origin t held x =
    ((x ≡ t)
      × ((s : Transition)
          → Member s held
          → s.fact_key ≡ t.fact_key
          → less s.released_at t.released_at ≡ true))
    ⊎ (Member x held × (x.fact_key ≡ t.fact_key → less x.released_at t.released_at ≡ false))

same_key-false : (s t : Transition) → (s.fact_key == t.fact_key) ≡ false → s.fact_key ≢ t.fact_key
same_key-false s t h e = absurd (clash ((eq_iff s.fact_key t.fact_key).1 e) h)
  where
    clash : (s.fact_key == t.fact_key) ≡ true → (s.fact_key == t.fact_key) ≡ false → ⊥
    clash p q = cc

module _ (t s : Transition) (ss : List Transition) where
  put_here :
      (b : Bool)
      → less s.released_at t.released_at ≡ b
      → s.fact_key ≡ t.fact_key
      → ((u : Transition) → Member u ss → u.fact_key ≢ s.fact_key)
      → (x : Transition) → Member x (if b then t ∷ ss else s ∷ ss)
      → Origin t (s ∷ ss) x
  unfolding Origin
  put_here true older same apart x (inl e) = inl (e, only)
    where
      only :
          (u : Transition)
          → Member u (s ∷ ss)
          → u.fact_key ≡ t.fact_key
          → less u.released_at t.released_at ≡ true
      only u (inl q) k = rw q older
      only u (inr m) k = absurd (apart u m (k ∙ sym same))
  put_here true older same apart x (inr m) = inr (inr m, λ k. absurd (apart x m (k ∙ sym same)))
  put_here false older same apart x (inl e) = inr (inl e, λ k. rw e older)
  put_here false older same apart x (inr m) = inr (inr m, λ k. absurd (apart x m (k ∙ sym same)))

  put_there :
      s.fact_key ≢ t.fact_key
      → ((x : Transition) → Member x (put_transition t ss) → Origin t ss x)
      → (x : Transition) → Member x (s ∷ put_transition t ss)
      → Origin t (s ∷ ss) x
  unfolding Origin
  put_there other ih x (inl e) = inr (inl e, λ k. absurd (other (rw e at k)))
  put_there other ih x (inr m) = elim (ih x m) [
    | inl (e, older) ↦ inl (e, λ u n k. all_older older u n k)
    | inr (n, keeps) ↦ inr (inr n, keeps)
  ]
    where
      all_older :
          ((u : Transition)
            → Member u ss
            → u.fact_key ≡ t.fact_key
            → less u.released_at t.released_at ≡ true)
          → (u : Transition) → Member u (s ∷ ss)
          → u.fact_key ≡ t.fact_key
          → less u.released_at t.released_at ≡ true
      all_older older u (inl e) k = absurd (other (rw e at k))
      all_older older u (inr n) k = older u n k

put-Origin :
    (t : Transition) (held : List Transition)
    → Distinct held
    → (x : Transition) → Member x (put_transition t held)
    → Origin t held x
unfolding put_transition Distinct Origin
put-Origin t [] d x (inl e) = inl (e, λ s m. absurd m)
put-Origin t [] d x (inr m) = absurd m
put-Origin t (s ∷ ss) d x m = elim (Bool-cases (s.fact_key == t.fact_key)) [
  | inl e ↦
      put_here t s ss (less s.released_at t.released_at) refl ((eq_iff s.fact_key t.fact_key).0 e)
        d.0 x (rw (e, put_transition) at m)
  | inr e ↦
      put_there t s ss (same_key-false s t e) (put-Origin t ss d.1) x (rw (e, put_transition) at m)
]

-- A key stays held.
put-key :
    (t : Transition) (held : List Transition) (k : String)
    → (k ≡ t.fact_key) ⊎ ((s : Transition) × Member s held × (s.fact_key ≡ k))
    → (s : Transition) × Member s (put_transition t held) × (s.fact_key ≡ k)
unfolding put_transition
put-key t [] k (inl e) = (t, inl refl, sym e)
put-key t [] k (inr (s, m, e)) = absurd m
put-key t (s ∷ ss) k h = elim (Bool-cases (s.fact_key == t.fact_key)) [
  | inl e ↦
      rw (e, put_transition)
        (replaced (less s.released_at t.released_at) ((eq_iff s.fact_key t.fact_key).0 e) h)
  | inr e ↦ rw (e, put_transition) (kept h (put-key t ss k))
]
  where
    replaced :
        (b : Bool)
        → s.fact_key ≡ t.fact_key
        → (k ≡ t.fact_key) ⊎ ((u : Transition) × Member u (s ∷ ss) × (u.fact_key ≡ k))
        → (u : Transition) × Member u (if b then t ∷ ss else s ∷ ss) × (u.fact_key ≡ k)
    replaced true same (inl e) = (t, inl refl, sym e)
    replaced false same (inl e) = (s, inl refl, same ∙ sym e)
    replaced true same (inr (u, inl q, e)) = (t, inl refl, cc)
    replaced false same (inr (u, inl q, e)) = (s, inl refl, cc)
    replaced true same (inr (u, inr m, e)) = (u, inr m, e)
    replaced false same (inr (u, inr m, e)) = (u, inr m, e)

    kept :
        (k ≡ t.fact_key) ⊎ ((u : Transition) × Member u (s ∷ ss) × (u.fact_key ≡ k))
        → ((k ≡ t.fact_key) ⊎ ((u : Transition) × Member u ss × (u.fact_key ≡ k))
            → (u : Transition) × Member u (put_transition t ss) × (u.fact_key ≡ k))
        → (u : Transition) × Member u (s ∷ put_transition t ss) × (u.fact_key ≡ k)
    kept (inl e) ih = let (u, m, q) = ih (inl e) in (u, inr m, q)
    kept (inr (u, inl q, e)) ih = (u, inl q, e)
    kept (inr (u, inr n, e)) ih = let (v, m, q) = ih (inr (u, n, e)) in (v, inr m, q)

put-Distinct :
    (t : Transition) (held : List Transition) → Distinct held → Distinct (put_transition t held)
unfolding put_transition Distinct Origin
put-Distinct t [] d = ((λ x m. absurd m), tt)
put-Distinct t (s ∷ ss) d = elim (Bool-cases (s.fact_key == t.fact_key)) [
  | inl e ↦
      rw (e, put_transition)
        (replaced (less s.released_at t.released_at) ((eq_iff s.fact_key t.fact_key).0 e))
  | inr e ↦
      rw (e, put_transition)
        ((λ x m. apart (same_key-false s t e) x (put-Origin t ss d.1 x m)), put-Distinct t ss d.1)
]
  where
    replaced : (b : Bool) → s.fact_key ≡ t.fact_key → Distinct (if b then t ∷ ss else s ∷ ss)
    replaced true same = ((λ x m e. d.0 x m (e ∙ sym same)), d.1)
    replaced false same = d

    apart :
        s.fact_key ≢ t.fact_key
        → (x : Transition)
        → ((x ≡ t)
            × ((u : Transition)
                → Member u ss
                → u.fact_key ≡ t.fact_key
                → less u.released_at t.released_at ≡ true))
          ⊎ (Member x ss × (x.fact_key ≡ t.fact_key → less x.released_at t.released_at ≡ false))
        → x.fact_key ≢ s.fact_key
    apart other x (inl (e, older)) q = other (cc)
    apart other x (inr (m, keeps)) q = d.0 x m q

abbrev Passed : (Transition → Type 0) → Transition → Transition → Type 0
Passed P t x = P x ⊎ (x ≡ t)

put-IsHeld :
    (P : Transition → Type 0) (t : Transition) (held : List Transition)
    → IsHeld P held
    → IsHeld (Passed P t) (put_transition t held)
unfolding Origin
put-IsHeld P t held h = record {
  distinct = put-Distinct t held h.distinct;
  covers = λ x p. covered x p;
  passed = λ x m. listed x (put-Origin t held h.distinct x m);
  newest = λ x m u p k. latest x (put-Origin t held h.distinct x m) u p k;
}
  where
    covered :
        (x : Transition)
        → Passed P t x
        → (s : Transition) × Member s (put_transition t held) × (s.fact_key ≡ x.fact_key)
    covered x (inl p) = put-key t held x.fact_key (inr (h.covers x p))
    covered x (inr e) = put-key t held x.fact_key (inl (cc))

    listed : (x : Transition) → Origin t held x → Passed P t x
    listed x (inl (e, older)) = inr e
    listed x (inr (m, keeps)) = inl (h.passed x m)

    not_after :
        (s u : Transition)
        → less s.released_at t.released_at ≡ true
        → less s.released_at u.released_at ≡ false
        → (b : Bool) → less t.released_at u.released_at ≡ b
        → b ≡ false
    not_after s u p q false e = refl
    not_after s u p q true e =
        absurd (cc (less_trans s.released_at t.released_at u.released_at p e))

    latest :
        (x : Transition)
        → Origin t held x
        → (u : Transition) → Passed P t u
        → u.fact_key ≡ x.fact_key
        → less x.released_at u.released_at ≡ false
    latest x (inl (e, older)) u (inr q) k = rw (e, q) (less_irrefl t.released_at)
    latest x (inl (e, older)) u (inl p) k =
        let (s, m, same) = h.covers u p in
        rw e (
          not_after s u (older s m (cc)) (h.newest s m u p (sym same))
            (less t.released_at u.released_at) refl)
    latest x (inr (m, keeps)) u (inl p) k = h.newest x m u p k
    latest x (inr (m, keeps)) u (inr q) k = rw q (keeps (cc))

IsHeld-same :
    (P Q : Transition → Type 0) (held : List Transition)
    → ((t : Transition) → P t → Q t)
    → ((t : Transition) → Q t → P t)
    → IsHeld P held
    → IsHeld Q held
IsHeld-same P Q held f g h = record {
  distinct = h.distinct;
  covers = λ t q. h.covers t (g t q);
  passed = λ s m. f s (h.passed s m);
  newest = λ s m t q k. h.newest s m t (g t q) k;
}

latest_from-IsHeld :
    (P : Transition → Type 0) (ts held : List Transition)
    → IsHeld P held
    → IsHeld (λ x. P x ⊎ Member x ts) (latest_from held ts)
unfolding latest_from
latest_from-IsHeld P [] held h =
    IsHeld-same P (λ x. P x ⊎ Member x []) held (λ t p. inl p)
      (λ t q. elim q [ inl p ↦ p | inr m ↦ absurd m ]) h
latest_from-IsHeld P (t ∷ ts) held h =
    IsHeld-same (λ x. Passed P t x ⊎ Member x ts) (λ x. P x ⊎ Member x (t ∷ ts))
      (latest_from (put_transition t held) ts) into out
      (latest_from-IsHeld (Passed P t) ts (put_transition t held) (put-IsHeld P t held h))
  where
    into : (x : Transition) → Passed P t x ⊎ Member x ts → P x ⊎ Member x (t ∷ ts)
    into x (inl (inl p)) = inl p
    into x (inl (inr e)) = inr (inl e)
    into x (inr m) = inr (inr m)

    out : (x : Transition) → P x ⊎ Member x (t ∷ ts) → Passed P t x ⊎ Member x ts
    out x (inl p) = inl (inl p)
    out x (inr (inl e)) = inl (inr e)
    out x (inr (inr m)) = inr m

abbrev pub IsAnnounced : List FactClaim → Transition → Type 0
IsAnnounced facts t = Member t (announced facts)

pub latest_transitions-IsHeld :
    (facts : List FactClaim) → IsHeld (IsAnnounced facts) (latest_transitions facts)
unfolding latest_transitions Distinct
latest_transitions-IsHeld facts =
    IsHeld-same (λ x. ⊥ ⊎ Member x (announced facts)) (IsAnnounced facts)
      (latest_from [] (announced facts)) (λ t q. elim q [ inl p ↦ absurd p | inr m ↦ m ])
      (λ t m. inr m)
      (latest_from-IsHeld (λ x. ⊥) (announced facts) []
        (record {
          distinct = tt;
          covers = λ t p. absurd p;
          passed = λ s m. m;
          newest = λ s m. absurd m;
        }))
