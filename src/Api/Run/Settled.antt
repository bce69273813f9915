-- ===== src/Api/Run/Settled.antt =====
-- The end of the model phase (packages/concord-api/src/run.ts): it comes after a bounded number of
-- steps, and no task is dropped in silence.
use doc_eng_demo.Prelude.{
  ℕ, suc, ◌+◌, ◌*◌, ◌≤◌, ◌<◌, ◌≡◌, ◌≢◌, refl, sym, ap, ◌∙◌, String, Bool, true, false, some, List,
  [], ◌∷◌, length, Member, Member-map, map-Member, filter-Member, Member-append_left,
  Member-append_right, Bool-cases, arith, ◌⊎◌, inl, inr, ◌==◌, eq_iff,
}
use doc_eng_demo.Api.Spend.{SpendState}
use doc_eng_demo.Api.Run.{
  budget_exhausted, ImpactRecord, ConflictRecord, RunInput, Call, RunState, update_one, ai_work,
  id_of, start_phase, is_grounded_patch,
}
use doc_eng_demo.Api.Run.Phase.{drop_call, Step, Reach, here, next}
use doc_eng_demo.Api.Run.Effects.{identity_of, IsSettled, IsWaiting, IsEnded, IsTaken, Step-effect}
use doc_eng_demo.Api.Run.Kept.{is_work, Reach-identity}

abbrev pub IsAwaited : String → List Call → Type 0
IsAwaited id cs = (c : Call) × Member c cs × (c.impact_id ≡ id)

drop_call-keeps :
    (id k : String) (cs : List Call) → k ≢ id → IsAwaited k cs → IsAwaited k (drop_call id cs)
unfolding drop_call
drop_call-keeps id k [] h (c, m, e) = absurd m
drop_call-keeps id k (d ∷ cs) h (c, m, e) = elim (Bool-cases (d.impact_id == id)) [
  | inl q ↦ rw (q, drop_call) (later ((eq_iff d.impact_id id).0 q) m)
  | inr q ↦ rw (q, drop_call) (kept (λ n. drop_call-keeps id k cs h (c, n, e)) m)
]
  where
    later : d.impact_id ≡ id → Member c (d ∷ cs) → IsAwaited k cs
    later q (inl s) = absurd (h (cc))
    later q (inr n) = (c, n, e)

    kept :
        (Member c cs → IsAwaited k (drop_call id cs))
        → Member c (d ∷ cs)
        → IsAwaited k (d ∷ drop_call id cs)
    kept ih (inl s) = (d, inl refl, ap (λ (x : Call). x.impact_id) (sym s) ∙ e)
    kept ih (inr n) = let (x, l, q) = ih n in (x, inr l, q)

pub drop_call-length :
    (id : String) (cs : List Call) → IsAwaited id cs → suc (length (drop_call id cs)) ≡ length cs
unfolding drop_call
drop_call-length id [] (c, m, e) = absurd m
drop_call-length id (d ∷ cs) (c, m, e) = elim (Bool-cases (d.impact_id == id)) [
  | inl q ↦ rw (q, drop_call) refl
  | inr q ↦ rw (q, drop_call) (ap suc (drop_call-length id cs (c, rest q m, e)))
]
  where
    rest : (d.impact_id == id) ≡ false → Member c (d ∷ cs) → Member c cs
    rest q (inl s) = absurd (clash ((eq_iff d.impact_id id).1 (cc)) q)
      where
        clash : {b : Bool} → b ≡ true → b ≡ false → ⊥
        clash x y = cc
    rest q (inr n) = n

-- Where an impact of the phase is: not begun, waiting for the model, or settled.
abbrev IsTracked : RunState → ImpactRecord → Type 0
IsTracked t r = Member r.id t.queue ⊎ (IsAwaited r.id t.in_flight ⊎ IsSettled r)

IsTaken-IsTracked :
    (id : String) (s t : RunState) (r : ImpactRecord)
    → IsTaken id s t
    → r.id ≢ id
    → IsTracked s r
    → IsTracked t r
IsTaken-IsTracked id s t r (inl (q, f)) h (inl m) = inl (tail (rw q at m))
  where
    tail : Member r.id (id ∷ t.queue) → Member r.id t.queue
    tail (inl e) = absurd (h e)
    tail (inr n) = n
IsTaken-IsTracked id s t r (inl (q, f)) h (inr (inl a)) = inr (inl (rw f a))
IsTaken-IsTracked id s t r (inr (q, f, c)) h (inl m) = inl (rw q m)
IsTaken-IsTracked id s t r (inr (q, f, c)) h (inr (inl a)) =
    inr (inl (rw f (drop_call-keeps id r.id s.in_flight h a)))
IsTaken-IsTracked id s t r k h (inr (inr a)) = inr (inr a)

abbrev AllTracked : List String → RunState → Type 0
AllTracked work t = (r : ImpactRecord) → Member r t.impacts → Member r.id work → IsTracked t r

Step-AllTracked :
    {input : RunInput} {s t : RunState} (work : List String)
    → Step input s t
    → AllTracked work s
    → AllTracked work t
Step-AllTracked {input} {s} {t} work st all r m k = elim (Step-effect st) [
  | inl w ↦ waiting w (all r (rw w.same at m) k)
  | inr e ↦
      let (q, n, same) = map-Member (update_one e.id e.write) s.impacts r (rw e.written at m) in
      ended e q n same (Bool-cases (q.id == e.id))
]
  where
    waiting : IsWaiting s t → IsTracked s r → IsTracked t r
    waiting w (inl n) = elim (rw w.taken at n) [
      | inl q ↦ inr (inl (rw w.waits (w.call, inl refl, sym q)))
      | inr l ↦ inl l
    ]
    waiting w (inr (inl (c, n, q))) = inr (inl (rw w.waits (c, inr n, q)))
    waiting w (inr (inr a)) = inr (inr a)

    ended :
        (e : IsEnded s t) (q : ImpactRecord)
        → Member q s.impacts
        → r ≡ update_one e.id e.write q
        → ((q.id == e.id) ≡ true) ⊎ ((q.id == e.id) ≡ false)
        → IsTracked t r
    ended e q n same (inl h) = inr (inr (rw (same, h) (e.writes.settles q)))
    ended e q n same (inr h) =
        let here : r ≡ q = rw h at same in
        IsTaken-IsTracked e.id s t r e.taken (λ x. clash ((eq_iff q.id e.id).1 (rw (← here) x)) h)
          (all r (rw here n) k)
      where
        clash : {b : Bool} → b ≡ true → b ≡ false → ⊥
        clash x y = cc

Reach-AllTracked :
    {input : RunInput} {s t : RunState} (work : List String)
    → Reach input s t
    → AllTracked work s
    → AllTracked work t
Reach-AllTracked work here all = all
Reach-AllTracked work (next r st) all = Step-AllTracked work st (Reach-AllTracked work r all)

is_work-ai_work :
    (impacts : List ImpactRecord) (r : ImpactRecord)
    → Member r impacts
    → is_work r ≡ true
    → Member r.id (ai_work impacts)
unfolding ai_work
is_work-ai_work impacts r m h = elim (Bool-cases (is_grounded_patch r.impact.action)) [
  | inl e ↦
      Member-append_left r.id _ _
        (Member-map id_of _ r (filter-Member _ impacts r m (ground (arith, e, h))))
  | inr e ↦
      Member-append_right r.id _ _
        (Member-map id_of _ r (filter-Member _ impacts r m (ground (arith, e, h))))
]

-- When no task waits or is left, each impact that was a task of the phase is there, with a patch or
-- a note that says why it has none.
pub Reach-IsSettled :
    (input : RunInput) (spend : SpendState) (impacts : List ImpactRecord)
    (conflicts : List ConflictRecord) (t : RunState) (r : ImpactRecord)
    → Reach input (start_phase spend impacts conflicts) t
    → t.queue ≡ []
    → t.in_flight ≡ []
    → Member r impacts
    → is_work r ≡ true
    → (q : ImpactRecord) × Member q t.impacts × (identity_of q ≡ identity_of r) × IsSettled q
unfolding start_phase
Reach-IsSettled input spend impacts conflicts t r reach empty idle m h =
    let same = Reach-identity input (start_phase spend impacts conflicts) t reach in
    let (q, n, e) =
      map-Member identity_of t.impacts (identity_of r)
        (rw same (Member-map identity_of impacts r m)) in
    let same_id : q.id ≡ r.id = ap (λ (x : ImpactRecord). x.id) (sym e) in
    let tracked =
      Reach-AllTracked (ai_work impacts) reach (λ x l k. inl k) q n
        (rw same_id (is_work-ai_work impacts r m h)) in
    (q, n, sym e, done q (rw (empty, idle) at tracked))
  where
    done :
        (q : ImpactRecord)
        → ⊥ ⊎ (((c : Call) × ⊥ × (c.impact_id ≡ q.id)) ⊎ IsSettled q)
        → IsSettled q
    done q (inl x) = absurd x
    done q (inr (inl (c, x, e))) = absurd x
    done q (inr (inr a)) = a

-- The number of steps taken.
abbrev pub steps : {input : RunInput} {s t : RunState} → Reach input s t → ℕ
steps here = 0
steps (next r st) = suc (steps r)

abbrev pub measure : RunState → ℕ
measure s = 2 * length s.queue + length s.in_flight

Step-measure : {input : RunInput} {s t : RunState} → Step input s t → measure t < measure s
Step-measure {input} {s} {t} st = elim (Step-effect st) [
  | inl w ↦ waiting w.taken w.waits
  | inr e ↦ ended e.id e.taken
]
  where
    waiting :
        {c : Call}
        → s.queue ≡ c.impact_id ∷ t.queue
        → t.in_flight ≡ c ∷ s.in_flight
        → measure t < measure s
    waiting q f = rw (q, f) (omega arith)

    ended : (id : String) → IsTaken id s t → measure t < measure s
    ended id (inl (q, f)) = rw (q, f) (omega arith)
    ended id (inr (q, f, c)) = rw (q, f) (omega (arith, drop_call-length id s.in_flight c))

-- A run of the phase takes at most two steps for each of its tasks.
pub Reach-steps :
    (input : RunInput) (spend : SpendState) (impacts : List ImpactRecord)
    (conflicts : List ConflictRecord) {t : RunState}
    (r : Reach input (start_phase spend impacts conflicts) t)
    → steps r + measure t ≤ 2 * length (ai_work impacts)
unfolding start_phase
Reach-steps input spend impacts conflicts here = omega arith
Reach-steps input spend impacts conflicts (next r st) =
    omega (arith, Reach-steps input spend impacts conflicts r, Step-measure st)

abbrev SaysExhausted : RunState → Type 0
SaysExhausted t =
    (r : ImpactRecord)
    → Member r t.impacts
    → r.resolution_note ≡ some budget_exhausted
    → t.exhausted ≡ true

Step-SaysExhausted :
    {input : RunInput} {s t : RunState} → Step input s t → SaysExhausted s → SaysExhausted t
Step-SaysExhausted {input} {s} {t} st says r m h = elim (Step-effect st) [
  | inl w ↦ rw (w.same_exhausted) (says r (rw w.same at m) h)
  | inr e ↦
      let (q, n, same) = map-Member (update_one e.id e.write) s.impacts r (rw e.written at m) in
      ended e q n same (Bool-cases (q.id == e.id))
]
  where
    written :
        (e : IsEnded s t) (q : ImpactRecord)
        → Member q s.impacts
        → (q.resolution_note ≡ some budget_exhausted) ⊎ (t.exhausted ≡ true)
        → t.exhausted ≡ true
    written e q n (inl x) = e.stays (says q n x)
    written e q n (inr x) = x

    ended :
        (e : IsEnded s t) (q : ImpactRecord)
        → Member q s.impacts
        → r ≡ update_one e.id e.write q
        → ((q.id == e.id) ≡ true) ⊎ ((q.id == e.id) ≡ false)
        → t.exhausted ≡ true
    ended e q n same (inl b) =
        let here : r ≡ e.write q = rw b at same in written e q n (e.budget q (rw here at h))
    ended e q n same (inr b) = let here : r ≡ q = rw b at same in e.stays (says q n (rw here at h))

pub Reach-SaysExhausted :
    {input : RunInput} {s t : RunState} → Reach input s t → SaysExhausted s → SaysExhausted t
Reach-SaysExhausted here says = says
Reach-SaysExhausted (next r st) says = Step-SaysExhausted st (Reach-SaysExhausted r says)
