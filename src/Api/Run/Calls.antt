-- ===== src/Api/Run/Calls.antt =====
-- The model phase (packages/concord-api/src/run.ts) as a user of the guarded calls of `Api.Spend`.
use doc_eng_demo.Prelude.{
  ℕ, ◌+◌, ◌<◌, ◌≡◌, refl, sym, Bool, true, false, ◌&&◌, Option, none, some, List, length, arith,
  String, is_some, Member, if◌then◌else◌,
}
use doc_eng_demo.Api.Spend.{
  Usage, SpendState, reserve, record_model_call, RunCalls, run_start, batch_limit, answered,
}
use mathlib.Core.Path.{subst}
use doc_eng_demo.Api.Spend as Spend
use doc_eng_demo.Api.Run.{
  ImpactRecord, ConflictRecord, RunInput, Call, RunState, start_phase, update, note, unit_by_id,
  Outcome, refused, noted, turned_down, drafted, delta_by_key, unit_or_delta_missing, judge_message,
}
use doc_eng_demo.Concord.Types.{DocUnit}
use doc_eng_demo.Api.Run.Phase.{
  call_or_stop, begin_task, finish_task, write_outcome, drop_call, Fresh, Step, begin, answer,
  Reach, here, next,
}
use doc_eng_demo.Api.Run.Settled.{drop_call-length}

-- The calls of a state, after so many made.
abbrev pub calls_of : RunState → ℕ → RunCalls
calls_of s made = record { spend = s.spend; in_flight = length s.in_flight; made = made }

-- Calls that the guard lets pass lead to those of the state.
abbrev pub IsGuarded : SpendState → RunState → Type 0
IsGuarded spend t = (made : ℕ) × Spend.Reach (run_start spend) (calls_of t made)

call_or_stop-IsGuarded :
    (spend : SpendState) (r : ImpactRecord) (s : RunState) (rest : List String)
    (o : Option SpendState)
    → reserve s.spend ≡ o
    → length s.in_flight < batch_limit
    → IsGuarded spend s
    → IsGuarded spend (call_or_stop r (record s { queue = rest }) o)
unfolding call_or_stop
call_or_stop-IsGuarded spend r s rest none h room g = g
call_or_stop-IsGuarded spend r s rest (some left) h room (made, g) = (
  made + 1,
  subst
      (λ (n : ℕ).
        Spend.Reach (run_start spend) (record { spend = left; in_flight = n; made = made + 1 }))
      (omega arith) (Spend.Reach.next g (Spend.Step.call left h room)),
)

begin_task-IsGuarded :
    (spend : SpendState) (r : ImpactRecord) (s : RunState) (rest : List String) (b : Bool)
    → length s.in_flight < batch_limit
    → IsGuarded spend s
    → let w : RunState = record s { queue = rest } in
      IsGuarded spend (
        if b
        then call_or_stop r w (reserve w.spend)
        else record w { impacts = update r.id (note unit_or_delta_missing) w.impacts })
begin_task-IsGuarded spend r s rest true room g =
    call_or_stop-IsGuarded spend r s rest (reserve s.spend) refl room g
begin_task-IsGuarded spend r s rest false room g = g

-- No outcome changes the calls.
write_outcome-calls :
    (input : RunInput) (unit : DocUnit) (r : ImpactRecord) (call : Call) (fresh : Fresh)
    (o : Outcome) (s : RunState)
    → ((write_outcome input unit r call fresh o s).spend ≡ s.spend)
      × ((write_outcome input unit r call fresh o s).in_flight ≡ s.in_flight)
unfolding write_outcome
write_outcome-calls input unit r call fresh refused s = (refl, refl)
write_outcome-calls input unit r call fresh (noted n) s = (refl, refl)
write_outcome-calls input unit r call fresh (turned_down p rej) s = (refl, refl)
write_outcome-calls input unit r call fresh (drafted p v) s = (refl, refl)

answered-IsGuarded :
    (spend : SpendState) (s : RunState) (id : String) (call : Call) (u : Usage) (t : RunState)
    → Member call s.in_flight
    → call.impact_id ≡ id
    → t.spend ≡ record_model_call u s.spend
    → t.in_flight ≡ drop_call id s.in_flight
    → IsGuarded spend s
    → IsGuarded spend t
answered-IsGuarded spend s id call u t m e paid dropped (made, g) =
    let less = drop_call-length id s.in_flight (call, m, e) in
    (
      made,
      rw (paid, dropped)
          (subst
            (λ (n : ℕ).
              Spend.Reach (run_start spend)
                (record { spend = record_model_call u s.spend; in_flight = n; made = made }))
            (omega (arith, less)) (Spend.Reach.next g (Spend.Step.answer u (omega (arith, less))))),
    )

Step-IsGuarded :
    {input : RunInput} {s t : RunState} (spend : SpendState)
    → Step input s t
    → IsGuarded spend s
    → IsGuarded spend t
unfolding begin_task finish_task
Step-IsGuarded {input} {s} spend (begin r rest h found room) g =
    begin_task-IsGuarded spend r s rest
      (is_some (unit_by_id input r.impact.doc_unit_id)
        && is_some (delta_by_key input r.impact.fact_key))
      room g
Step-IsGuarded {input} {s} spend (answer r unit call message fresh m e found known) g =
    let judged = judge_message input unit call.is_grounded message in
    let paid : RunState = record s {
      spend = record_model_call message.usage s.spend;
      in_flight = drop_call r.id s.in_flight;
    } in
    let (spent, dropped) = write_outcome-calls input unit r call fresh judged paid in
    answered-IsGuarded spend s r.id call message.usage
      (write_outcome input unit r call fresh judged paid) m (sym e) spent dropped g

-- Whatever the interleaving, the model calls of the phase are calls that the guard of the caps lets
-- pass: each state of the phase has the spend and the waiting calls of a state that they reach.
pub Reach-IsGuarded :
    (input : RunInput) (spend : SpendState) (impacts : List ImpactRecord)
    (conflicts : List ConflictRecord) (t : RunState)
    → Reach input (start_phase spend impacts conflicts) t
    → IsGuarded spend t
unfolding start_phase
Reach-IsGuarded input spend impacts conflicts t here = (0, Spend.Reach.here)
Reach-IsGuarded input spend impacts conflicts t (next {t = m} r st) =
    Step-IsGuarded spend st (Reach-IsGuarded input spend impacts conflicts m r)
