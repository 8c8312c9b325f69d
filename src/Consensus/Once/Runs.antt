-- ===== src/Consensus/Once/Runs.antt =====
-- Whole schedules without overlap: what each event, and so a schedule, does to a transfer's chances.
use sol_gateway_dcc.Base.{
  ℕ, zero, suc, ◌≡◌, refl, sym, subst, inl, inr, false, Option, none, some, List, [], ◌∷◌, ◌++◌,
  arith, JsString, str_eq, get_elem?, All, Option-cases,
}
use sol_gateway_dcc.Js.Bytes.{Bytes}
use sol_gateway_dcc.Consensus.Message.{AttestationRequest}
use sol_gateway_dcc.Consensus.Engine.{
  Attestation, Output, Proposal, skipped, thrown, signing, propose_begin, propose_finish,
  receive_attestation, fire, ConsensusEngine,
}
use sol_gateway_dcc.Consensus.Schedule.{
  System, InFlight, Event, begins, finishes, receives, fires, step, run, begin_step, finish_step,
  remove_at,
}
use sol_gateway_dcc.Consensus.Rules.{All-remove_at, All-get_elem?, propose_begin-eq-signing}
use sol_gateway_dcc.Consensus.Counting.{broadcast_count, broadcast_count-append}
use sol_gateway_dcc.Consensus.Once.{
  is_spent, TimerIsDue, NoOverlap, IsWaiting, IsWaiting-keep, IsQuiet, StepSpends, after-StepSpends,
  propose_finish-Spends, receive_attestation-Spends, fire-Spends,
}
use sol_gateway_dcc.Consensus.Once.Keeping.{receive_attestation-Keeps, fire-Keeps}

-- A step that changes neither the engine nor the timers.
idle-StepSpends :
    (id : JsString) (s : System) (fs : List InFlight)
    → All (TimerIsDue s.engine) s.timers
    → IsWaiting s.engine fs
    → StepSpends id s (record s { in_flight = fs }, [])
unfolding broadcast_count
idle-StepSpends id s fs q w = (record { waiting = w; due = q }, omega arith)

begin_step-StepSpends :
    (id : JsString) (s : System) (request : AttestationRequest) (p : Proposal)
    → propose_begin s.engine request ≡ p
    → s.in_flight ≡ []
    → IsQuiet s
    → StepSpends id s (begin_step s request p)
unfolding begin_step
begin_step-StepSpends id s request skipped e alone q =
    idle-StepSpends id s s.in_flight q.due q.waiting
begin_step-StepSpends id s request thrown e alone q =
    idle-StepSpends id s s.in_flight q.due q.waiting
begin_step-StepSpends id s request (signing message) e alone q =
    let free = propose_begin-eq-signing s.engine request e in
    let f : InFlight = record { request = request; message = message } in
    idle-StepSpends id s (s.in_flight ++ f ∷ []) q.due (
      subst (λ fs. IsWaiting s.engine (fs ++ f ∷ [])) (sym alone)
        (let unspent : is_spent request.transfer_id s.engine ≡ false =
            ground (arith, free.0, free.1) in
          unspent))

-- Completing a proposal, where no other waits.
finish_step-StepSpends :
    (id : JsString) (s : System) (f : InFlight) (signature key : Option Bytes) (now begun : ℕ)
    → All (TimerIsDue s.engine) s.timers
    → s.in_flight ≡ []
    → is_spent f.request.transfer_id s.engine ≡ false
    → StepSpends id s (finish_step s f signature key now begun)
unfolding finish_step
finish_step-StepSpends id s f (some signature) (some key) now begun q alone fresh =
    after-StepSpends id s _ q
      (propose_finish-Spends id s.engine f.request f.message signature key now begun fresh)
      (subst (IsWaiting (propose_finish s.engine f.request f.message signature key now begun).0)
        (sym alone) tt)
finish_step-StepSpends id s f (some signature) none now begun q alone fresh =
    idle-StepSpends id s s.in_flight q (subst (IsWaiting s.engine) (sym alone) tt)
finish_step-StepSpends id s f none key now begun q alone fresh =
    idle-StepSpends id s s.in_flight q (subst (IsWaiting s.engine) (sym alone) tt)

-- The proposal that is taken out was the only one, and its transfer is not spent.
taken_out :
    (e : ConsensusEngine) (fs : List InFlight) (i : ℕ) {f : InFlight}
    → IsWaiting e fs
    → get_elem? fs i ≡ some f
    → (remove_at i fs ≡ []) × (is_spent f.request.transfer_id e ≡ false)
unfolding remove_at
taken_out e [] i w found = absurd (ground arith)
taken_out e (g ∷ []) zero {f} w found =
    let same : g ≡ f = ground arith in
    (refl, subst (λ (x : InFlight). is_spent x.request.transfer_id e ≡ false) same w)
taken_out e (g ∷ []) (suc i) w found = absurd (ground arith)
taken_out e (g ∷ h ∷ fs) i w found = absurd w

finishes-StepSpends :
    (id : JsString) (s : System) (i : ℕ) (signature key : Option Bytes) (now begun : ℕ)
    → IsQuiet s
    → StepSpends id s (step s (finishes i signature key now begun))
unfolding step
finishes-StepSpends id s i signature key now begun q =
    elim (Option-cases (get_elem? s.in_flight i)) [
      | inl missing ↦ rw (missing, step) (idle-StepSpends id s s.in_flight q.due q.waiting)
      | inr (f, found) ↦
          let out = taken_out s.engine s.in_flight i q.waiting found in
          rw (found, step)
            (finish_step-StepSpends id (record s { in_flight = remove_at i s.in_flight }) f
              signature key now begun q.due out.0 out.1)
    ]

begins-StepSpends :
    (id : JsString) (s : System) (request : AttestationRequest)
    → s.in_flight ≡ []
    → IsQuiet s
    → StepSpends id s (step s (begins request))
unfolding step
begins-StepSpends id s request alone q = begin_step-StepSpends id s request _ refl alone q

receive-StepSpends :
    (id : JsString) (s : System) (a : Attestation)
    → IsQuiet s
    → StepSpends id s (step s (receives a))
unfolding step
receive-StepSpends id s a q =
    after-StepSpends id s _ q.due (receive_attestation-Spends id s.engine a) (
      IsWaiting-keep s.engine (receive_attestation s.engine a)
        (receive_attestation-Keeps s.engine a) s.in_flight q.waiting)

pub fire-StepSpends :
    (id : JsString) (s : System) (i : ℕ) → IsQuiet s → StepSpends id s (step s (fires i))
unfolding step
fire-StepSpends id s i q = elim (Option-cases (get_elem? s.timers i)) [
  | inl missing ↦ rw (missing, step) (idle-StepSpends id s s.in_flight q.due q.waiting)
  | inr (t, found) ↦
      rw (found, step)
        (after-StepSpends id (record s { timers = remove_at i s.timers }) _
          (All-remove_at (TimerIsDue s.engine) i s.timers q.due)
          (fire-Spends id s.engine t (All-get_elem? (TimerIsDue s.engine) i s.timers q.due found))
          (IsWaiting-keep s.engine (fire s.engine t) (fire-Keeps s.engine t) s.in_flight q.waiting))
]

-- A step, and then the rest of a schedule.
StepSpends-trans :
    (id : JsString) (s : System) (r t : System × List Output)
    → StepSpends id s r
    → StepSpends id r.0 t
    → StepSpends id s (t.0, r.1 ++ t.1)
StepSpends-trans id s r t (_, h) (q, k) =
    (q, omega (arith, h, k, broadcast_count-append id r.1 t.1))

pub run-StepSpends :
    (id : JsString) (evs : List Event) (s : System)
    → NoOverlap s evs
    → IsQuiet s
    → StepSpends id s (run s evs)
unfolding run broadcast_count
run-StepSpends id [] s free q = (q, omega arith)
run-StepSpends id (begins request ∷ evs) s (alone, free) q =
    let first = begins-StepSpends id s request alone q in
    StepSpends-trans id s (step s (begins request)) _ first
      (run-StepSpends id evs (step s (begins request)).0 free first.0)
run-StepSpends id (finishes i signature key now begun ∷ evs) s free q =
    let first = finishes-StepSpends id s i signature key now begun q in
    StepSpends-trans id s (step s (finishes i signature key now begun)) _ first
      (run-StepSpends id evs (step s (finishes i signature key now begun)).0 free first.0)
run-StepSpends id (receives a ∷ evs) s free q =
    let first = receive-StepSpends id s a q in
    StepSpends-trans id s (step s (receives a)) _ first
      (run-StepSpends id evs (step s (receives a)).0 free first.0)
run-StepSpends id (fires i ∷ evs) s free q =
    let first = fire-StepSpends id s i q in
    StepSpends-trans id s (step s (fires i)) _ first
      (run-StepSpends id evs (step s (fires i)).0 free first.0)
