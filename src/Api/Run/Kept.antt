-- ===== src/Api/Run/Kept.antt =====
-- What the model phase (packages/concord-api/src/run.ts) leaves as it was: the identity of every
-- impact, and all of an impact that is no task of the phase.
use doc_eng_demo.Prelude.{
  ◌≡◌, ◌≢◌, refl, ◌∙◌, ap, String, Bool, true, false, ◌&&◌, ◌||◌, List, [], ◌∷◌, map, filter,
  Member, Member-map, Member-append, map-Member, Member-filter, Bool-cases, arith, ◌⊎◌, inl, inr,
  ◌==◌, eq_iff, if◌then◌else◌,
}
use doc_eng_demo.Api.Spend.{SpendState}
use doc_eng_demo.Api.Run.{
  ImpactRecord, ConflictRecord, RunInput, Call, RunState, update, update_one, ai_work, id_of,
  start_phase, is_grounded_patch, is_editorial_review, is_free,
}
use doc_eng_demo.Api.Run.Phase.{drop_call, Step, Reach, here, next}
use doc_eng_demo.Api.Run.Effects.{identity_of, IsWrite, IsWaiting, IsTaken, Step-effect}

update-identity :
    (id : String) (f : ImpactRecord → ImpactRecord) (impacts : List ImpactRecord)
    → IsWrite f
    → map identity_of (update id f impacts) ≡ map identity_of impacts
update-identity id f [] w = refl
update-identity id f (r ∷ rs) w = joined (r.id == id) (update-identity id f rs w)
  where
    joined :
        (b : Bool)
        → map identity_of (update id f rs) ≡ map identity_of rs
        → identity_of (if b then f r else r) ∷ map identity_of (update id f rs)
          ≡ identity_of r ∷ map identity_of rs
    joined true ih = cc (w.keeps r)
    joined false ih = cc

Step-identity :
    {input : RunInput} {s t : RunState}
    → Step input s t
    → map identity_of t.impacts ≡ map identity_of s.impacts
Step-identity {input} {s} {t} st = elim (Step-effect st) [
  | inl w ↦ ap (map identity_of) w.same
  | inr e ↦ ap (map identity_of) e.written ∙ update-identity e.id e.write s.impacts e.writes
]

-- However the tasks of the phase interleave, it loses no impact and adds none, and changes of each
-- only the action, the disposition, the note, the patch and the conflict.
pub Reach-identity :
    (input : RunInput) (s t : RunState)
    → Reach input s t
    → map identity_of t.impacts ≡ map identity_of s.impacts
Reach-identity input s t here = refl
Reach-identity input s t (next {t = m} r st) = Step-identity st ∙ Reach-identity input s m r

-- The tasks of the phase come from the given ids alone, and the impact stays.
record IsApart (work : List String) (r : ImpactRecord) (t : RunState) : Type 0 where
  queued : (id : String) → Member id t.queue → Member id work
  waiting : (c : Call) → Member c t.in_flight → Member c.impact_id work
  kept : Member r t.impacts

drop_call-Member :
    (id : String) (cs : List Call) (c : Call) → Member c (drop_call id cs) → Member c cs
unfolding drop_call
drop_call-Member id [] c m = absurd m
drop_call-Member id (d ∷ cs) c m = elim (Bool-cases (d.impact_id == id)) [
  | inl e ↦ inr (rw (e, drop_call) at m)
  | inr e ↦ later (drop_call-Member id cs c) (rw (e, drop_call) at m)
]
  where
    later :
        (Member c (drop_call id cs) → Member c cs)
        → Member c (d ∷ drop_call id cs)
        → Member c (d ∷ cs)
    later ih (inl q) = inl q
    later ih (inr n) = inr (ih n)

update-Member :
    (id : String) (f : ImpactRecord → ImpactRecord) (impacts : List ImpactRecord) (r : ImpactRecord)
    → Member r impacts
    → r.id ≢ id
    → Member r (update id f impacts)
update-Member id f impacts r m h =
    rw (← other (Bool-cases (r.id == id))) (Member-map (update_one id f) impacts r m)
  where
    other : ((r.id == id) ≡ true) ⊎ ((r.id == id) ≡ false) → update_one id f r ≡ r
    other (inl e) = absurd (h ((eq_iff r.id id).0 e))
    other (inr e) = rw e refl

taken_id :
    (id : String) (work : List String) (r : ImpactRecord) (s t : RunState)
    → IsTaken id s t
    → IsApart work r s
    → Member id work
taken_id id work r s t (inl (q, f)) a = a.queued id (rw q (inl refl))
taken_id id work r s t (inr (q, f, (c, m, e))) a = rw (← e) (a.waiting c m)

ended_queue :
    (id : String) (work : List String) (r : ImpactRecord) (s t : RunState)
    → IsTaken id s t
    → IsApart work r s
    → (k : String) → Member k t.queue
    → Member k work
ended_queue id work r s t (inl (q, f)) a k m = a.queued k (rw q (inr m))
ended_queue id work r s t (inr (q, f, c)) a k m = a.queued k (rw q at m)

ended_waiting :
    (id : String) (work : List String) (r : ImpactRecord) (s t : RunState)
    → IsTaken id s t
    → IsApart work r s
    → (c : Call) → Member c t.in_flight
    → Member c.impact_id work
ended_waiting id work r s t (inl (q, f)) a c m = a.waiting c (rw f at m)
ended_waiting id work r s t (inr (q, f, _)) a c m =
    a.waiting c (drop_call-Member id s.in_flight c (rw f at m))

Step-IsApart :
    {input : RunInput} {s t : RunState} (work : List String) (r : ImpactRecord)
    → Step input s t
    → ¬ Member r.id work
    → IsApart work r s
    → IsApart work r t
Step-IsApart {input} {s} {t} work r st out a = elim (Step-effect st) [
  | inl w ↦ record {
    queued = λ k m. a.queued k (rw (w.taken) (inr m));
    waiting = λ c m. started w c (rw (w.waits) at m);
    kept = rw (w.same) (a.kept);
  }
  | inr e ↦ record {
    queued = ended_queue e.id work r s t e.taken a;
    waiting = ended_waiting e.id work r s t e.taken a;
    kept = rw (e.written) (
        update-Member e.id e.write s.impacts r a.kept
          (λ q. out (rw q (taken_id e.id work r s t e.taken a))));
  }
]
  where
    started :
        (w : IsWaiting s t) (c : Call) → Member c (w.call ∷ s.in_flight) → Member c.impact_id work
    started w c (inl q) = rw q (a.queued w.call.impact_id (rw w.taken (inl refl)))
    started w c (inr n) = a.waiting c n

Reach-IsApart :
    {input : RunInput} {s t : RunState} (work : List String) (r : ImpactRecord)
    → Reach input s t
    → ¬ Member r.id work
    → IsApart work r s
    → IsApart work r t
Reach-IsApart work r here out a = a
Reach-IsApart work r (next q st) out a = Step-IsApart work r st out (Reach-IsApart work r q out a)

-- No two impacts have one id.
abbrev pub HasDistinctIds : List ImpactRecord → Type 0
HasDistinctIds impacts =
    (r q : ImpactRecord) → Member r impacts → Member q impacts → r.id ≡ q.id → r ≡ q

-- A task of the phase: to be rewritten by the model, or drafted for an editor, and in no conflict.
abbrev pub is_work : ImpactRecord → Bool
is_work r = (is_grounded_patch r.impact.action || is_editorial_review r.impact.action) && is_free r

ai_work-is_work :
    (impacts : List ImpactRecord) (id : String)
    → Member id (ai_work impacts)
    → (q : ImpactRecord) × Member q impacts × (is_work q ≡ true) × (id ≡ q.id)
unfolding ai_work
ai_work-is_work impacts id m = elim (Member-append id _ _ m) [
  | inl n ↦ found (λ q. is_grounded_patch q.impact.action && is_free q) (λ q h. ground arith) n
  | inr n ↦ found (λ q. is_editorial_review q.impact.action && is_free q) (λ q h. ground arith) n
]
  where
    found :
        (p : ImpactRecord → Bool)
        → ((q : ImpactRecord) → p q ≡ true → is_work q ≡ true)
        → Member id (map id_of (filter p impacts))
        → (q : ImpactRecord) × Member q impacts × (is_work q ≡ true) × (id ≡ q.id)
    found p into n =
        let (q, k, e) = map-Member id_of (filter p impacts) id n in
        let (l, h) = Member-filter p impacts q k in (q, l, into q h, e)

-- An impact that is in conflict, or whose action is neither a grounded patch nor an editorial
-- review, leaves the phase as it entered it, where no two impacts have one id.
pub Reach-kept :
    (input : RunInput) (spend : SpendState) (impacts : List ImpactRecord)
    (conflicts : List ConflictRecord) (t : RunState) (r : ImpactRecord)
    → Reach input (start_phase spend impacts conflicts) t
    → HasDistinctIds impacts
    → Member r impacts
    → is_work r ≡ false
    → Member r t.impacts
unfolding start_phase
Reach-kept input spend impacts conflicts t r reach distinct m h =
    (Reach-IsApart (ai_work impacts) r reach no_task
      (record { queued = λ id n. n; waiting = λ c n. absurd n; kept = m })).kept
  where
    clash : {b : Bool} → b ≡ true → b ≡ false → ⊥
    clash p q = cc

    no_task : ¬ Member r.id (ai_work impacts)
    no_task n =
        let (q, k, w, e) = ai_work-is_work impacts r.id n in
        clash (rw (← distinct r q m k e) at w) h
