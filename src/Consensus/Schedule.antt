-- ===== src/Consensus/Schedule.antt =====
-- Schedules of the consensus engine: an order in which the event loop runs proposals (in two parts, see
-- Engine), arriving attestations and armed timers. A part or timer is named by its place in the list of
-- those that wait; a place with none waiting is a step that does nothing. Any order of the timers is
-- allowed, whatever their delays.
use sol_gateway_dcc.Base.{ℕ, zero, suc, Option, none, some, List, [], ◌∷◌, ◌++◌, get_elem?}
use sol_gateway_dcc.Js.Bytes.{Bytes}
use sol_gateway_dcc.Consensus.Message.{AttestationRequest}
use sol_gateway_dcc.Consensus.Engine.{
  ConsensusConfig, ConsensusEngine, Attestation, Output, set_timeout, Timer, Proposal, skipped,
  thrown, signing, new_engine, propose_begin, propose_finish, receive_attestation, fire,
}

-- A proposal that waits for its signature.
pub record InFlight : Type 0 where
  pub request : AttestationRequest
  pub message : Bytes

pub record System : Type 0 where
  pub engine : ConsensusEngine
  pub in_flight : List InFlight
  pub timers : List Timer

pub data Event : Type 0 where
  begins : AttestationRequest → Event
  finishes : ℕ → Option Bytes → Option Bytes → ℕ → ℕ → Event
  receives : Attestation → Event
  fires : ℕ → Event

unfoldable pub remove_at {ℓ} : {A : Type ℓ} → ℕ → List A → List A
remove_at i [] = []
remove_at zero (x ∷ xs) = xs
remove_at (suc i) (x ∷ xs) = x ∷ remove_at i xs

unfoldable pub armed : List Output → List Timer
armed [] = []
armed (set_timeout t delay ∷ os) = t ∷ armed os
armed (o ∷ os) = armed os

unfoldable pub start : ConsensusConfig → System
start config = record { engine = new_engine config; in_flight = []; timers = [] }

-- The system after an operation of the engine.
unfoldable pub after : System → ConsensusEngine × List Output → System × List Output
unfolding armed
after s (e, os) = (record s { engine = e; timers = s.timers ++ armed os }, os)

unfoldable pub begin_step : System → AttestationRequest → Proposal → System × List Output
begin_step s request skipped = (s, [])
begin_step s request thrown = (s, [])
begin_step s request (signing message) = (
  record s { in_flight = s.in_flight ++ record { request = request; message = message } ∷ [] },
  [],
)

unfoldable pub finish_step :
    System → InFlight → Option Bytes → Option Bytes → ℕ → ℕ → System × List Output
unfolding after
finish_step s f (some signature) (some key) now begun =
    after s (propose_finish s.engine f.request f.message signature key now begun)
finish_step s f (some signature) none now begun = (s, [])
finish_step s f none key now begun = (s, [])

unfoldable pub step : System → Event → System × List Output
unfolding begin_step finish_step after remove_at
step s (begins request) = begin_step s request (propose_begin s.engine request)
step s (finishes i signature key now begun) = elim (get_elem? s.in_flight i) [
  | none ↦ (s, [])
  | some f ↦
      finish_step (record s { in_flight = remove_at i s.in_flight }) f signature key now begun
]
step s (receives a) = after s (receive_attestation s.engine a)
step s (fires i) = elim (get_elem? s.timers i) [
  | none ↦ (s, [])
  | some t ↦ after (record s { timers = remove_at i s.timers }) (fire s.engine t)
]

unfoldable pub run : System → List Event → System × List Output
unfolding step
run s [] = (s, [])
run s (ev ∷ evs) = let (s', os) = step s ev in let (s'', later) = run s' evs in (s'', os ++ later)
