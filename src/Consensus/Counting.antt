-- ===== src/Consensus/Counting.antt =====
-- How often a transfer reaches consensus. Each local proposal that completes broadcasts one attestation
-- and opens one round; a round is resolved at most once.
use sol_gateway_dcc.Base.{
  ℕ, ◌+◌, ◌≤◌, ◌≡◌, inl, inr, Bool, true, false, not, Option, none, some, List, [], ◌∷◌, ◌++◌,
  arith, JsString, ◌==◌, str_eq, get_elem?, Option-cases,
}
use sol_gateway_dcc.Js.Map.{get, get-set, get-delete}
use sol_gateway_dcc.Js.Bytes.{Bytes}
use sol_gateway_dcc.Consensus.Message.{AttestationRequest}
use sol_gateway_dcc.Consensus.Engine.{
  ConsensusConfig, ConsensusEngine, Attestation, PendingConsensus, Output, attestation_broadcast,
  consensus_reached, Timer, check_timeout, cleanup, Proposal, skipped, thrown, signing, new_engine,
  local_attestation, new_pending, with_attestation, propose_finish, check_pending, check_consensus,
  receive_pending, receive_attestation, expire_pending, check_consensus_timeout, fire,
}
use sol_gateway_dcc.Consensus.Schedule.{
  System, InFlight, Event, begins, finishes, receives, fires, start, step, run, after, begin_step,
  finish_step, remove_at,
}

abbrev pub bit : Bool → ℕ
bit true = 1
bit false = 0

-- How many outputs announce consensus for the transfer, and how many broadcast its attestation.
unfoldable pub reached_count : JsString → List Output → ℕ
reached_count id [] = 0
reached_count id (consensus_reached r ∷ os) = bit (r.transfer_id == id) + reached_count id os
reached_count id (o ∷ os) = reached_count id os

unfoldable pub broadcast_count : JsString → List Output → ℕ
broadcast_count id [] = 0
broadcast_count id (attestation_broadcast a ∷ os) =
    bit (a.transfer_id == id) + broadcast_count id os
broadcast_count id (o ∷ os) = broadcast_count id os

abbrev pub is_open : Option PendingConsensus → ℕ
is_open none = 0
is_open (some p) = bit (not p.resolved)

-- One if a round of the transfer is open.
abbrev pub open_rounds : JsString → ConsensusEngine → ℕ
open_rounds id e = is_open (get id e.pending_consensus)

-- An operation announces consensus only by closing a round, and opens a round only by a broadcast.
abbrev Accounted : JsString → ConsensusEngine → ConsensusEngine × List Output → Type 0
Accounted id e r =
    reached_count id r.1 + open_rounds id r.0 ≤ broadcast_count id r.1 + open_rounds id e

module _ (id : JsString) (e : ConsensusEngine) where
  check_pending-Accounted :
      (k : JsString) (p : PendingConsensus)
      → get k e.pending_consensus ≡ some p
      → Accounted id e (check_pending e k p)
  unfolding check_pending reached_count broadcast_count
  check_pending-Accounted k p found =
      ground (
        arith,
        get-set k id (record p { resolved = true }) e.pending_consensus,
        str_eq.eqb_iff k id,
      )

  expire_pending-Accounted :
      (k : JsString) (p : PendingConsensus)
      → get k e.pending_consensus ≡ some p
      → Accounted id e (expire_pending e k p)
  unfolding expire_pending reached_count broadcast_count
  expire_pending-Accounted k p found =
      ground (
        arith,
        get-set k id (record p { resolved = true }) e.pending_consensus,
        str_eq.eqb_iff k id,
      )

  check_consensus-Accounted : (k : JsString) → Accounted id e (check_consensus e k)
  unfolding check_consensus reached_count broadcast_count
  check_consensus-Accounted k = elim (Option-cases (get k e.pending_consensus)) [
    | inl missing ↦ rw (missing, check_consensus) (omega arith)
    | inr (p, found) ↦ rw (found, check_consensus) (check_pending-Accounted k p found)
  ]

  propose_finish-Accounted :
      (request : AttestationRequest) (message signature key : Bytes) (now begun : ℕ)
      → Accounted id e (propose_finish e request message signature key now begun)
  unfolding propose_finish reached_count broadcast_count
  propose_finish-Accounted request message signature key now begun = ground (
    arith,
    get-set request.transfer_id id
        (new_pending request (local_attestation e request message signature key now) message begun)
        e.pending_consensus,
  )

  fire-Accounted : (t : Timer) → Accounted id e (fire e t)
  unfolding fire check_consensus_timeout reached_count broadcast_count
  fire-Accounted (check_timeout k) = elim (Option-cases (get k e.pending_consensus)) [
    | inl missing ↦ rw (missing, check_consensus_timeout) (omega arith)
    | inr (p, found) ↦ rw (found, check_consensus_timeout) (expire_pending-Accounted k p found)
  ]
  fire-Accounted (cleanup k) = ground (arith, get-delete k id e.pending_consensus)

module _ (id : JsString) (e : ConsensusEngine) where
  open_rounds-with_attestation :
      (a : Attestation) (p : PendingConsensus)
      → get a.transfer_id e.pending_consensus ≡ some p
      → open_rounds id (with_attestation e a p) ≡ open_rounds id e
  open_rounds-with_attestation a p found = ground (
    arith,
    get-set a.transfer_id id (record p { attestations = p.attestations ++ a ∷ [] })
        e.pending_consensus,
    str_eq.eqb_iff a.transfer_id id,
  )

  receive_pending-Accounted :
      (a : Attestation) (p : PendingConsensus)
      → get a.transfer_id e.pending_consensus ≡ some p
      → Accounted id e (receive_pending e a p)
  unfolding receive_pending reached_count broadcast_count
  receive_pending-Accounted a p found = ground (
    arith,
    open_rounds-with_attestation a p found,
    check_consensus-Accounted id (with_attestation e a p) a.transfer_id,
  )

  receive_attestation-Accounted : (a : Attestation) → Accounted id e (receive_attestation e a)
  unfolding receive_attestation reached_count broadcast_count
  receive_attestation-Accounted a = elim (Option-cases (get a.transfer_id e.pending_consensus)) [
    | inl missing ↦ rw (missing, receive_attestation) (omega arith)
    | inr (p, found) ↦ rw (found, receive_attestation) (receive_pending-Accounted a p found)
  ]

abbrev pub StepAccounted : JsString → System → System × List Output → Type 0
StepAccounted id s r =
    reached_count id r.1 + open_rounds id r.0.engine
    ≤ broadcast_count id r.1 + open_rounds id s.engine

begin_step-StepAccounted :
    (id : JsString) (s : System) (request : AttestationRequest) (p : Proposal)
    → StepAccounted id s (begin_step s request p)
unfolding begin_step reached_count broadcast_count
begin_step-StepAccounted id s request skipped = omega arith
begin_step-StepAccounted id s request thrown = omega arith
begin_step-StepAccounted id s request (signing message) = omega arith

finish_step-StepAccounted :
    (id : JsString) (s : System) (f : InFlight) (signature key : Option Bytes) (now begun : ℕ)
    → StepAccounted id s (finish_step s f signature key now begun)
unfolding finish_step after reached_count broadcast_count
finish_step-StepAccounted id s f (some signature) (some key) now begun =
    propose_finish-Accounted id s.engine f.request f.message signature key now begun
finish_step-StepAccounted id s f (some signature) none now begun = omega arith
finish_step-StepAccounted id s f none key now begun = omega arith

step-StepAccounted : (id : JsString) (s : System) (ev : Event) → StepAccounted id s (step s ev)
unfolding step reached_count broadcast_count
step-StepAccounted id s (begins request) = begin_step-StepAccounted id s request _
step-StepAccounted id s (finishes i signature key now begun) =
    elim (Option-cases (get_elem? s.in_flight i)) [
      | inl missing ↦ rw (missing, step) (omega arith)
      | inr (f, found) ↦
          rw (found, step)
            (finish_step-StepAccounted id (record s { in_flight = remove_at i s.in_flight }) f
              signature key now begun)
    ]
step-StepAccounted id s (receives a) = receive_attestation-Accounted id s.engine a
step-StepAccounted id s (fires i) = elim (Option-cases (get_elem? s.timers i)) [
  | inl missing ↦ rw (missing, step) (omega arith)
  | inr (t, found) ↦ rw (found, step) (fire-Accounted id s.engine t)
]

pub reached_count-append :
    (id : JsString) (os ps : List Output)
    → reached_count id (os ++ ps) ≡ reached_count id os + reached_count id ps
unfolding reached_count
reached_count-append id [] ps = omega arith
reached_count-append id (consensus_reached r ∷ os) ps = omega (arith, reached_count-append id os ps)
reached_count-append id (_ ∷ os) ps = reached_count-append id os ps

pub broadcast_count-append :
    (id : JsString) (os ps : List Output)
    → broadcast_count id (os ++ ps) ≡ broadcast_count id os + broadcast_count id ps
unfolding broadcast_count
broadcast_count-append id [] ps = omega arith
broadcast_count-append id (attestation_broadcast a ∷ os) ps =
    omega (arith, broadcast_count-append id os ps)
broadcast_count-append id (_ ∷ os) ps = broadcast_count-append id os ps

pub run-StepAccounted :
    (id : JsString) (s : System) (evs : List Event) → StepAccounted id s (run s evs)
unfolding run reached_count broadcast_count
run-StepAccounted id s [] = omega arith
run-StepAccounted id s (ev ∷ evs) =
    let r = step s ev in
    omega (
      arith,
      step-StepAccounted id s ev,
      run-StepAccounted id r.0 evs,
      reached_count-append id r.1 (run r.0 evs).1,
      broadcast_count-append id r.1 (run r.0 evs).1,
    )

-- In every schedule, also where proposals of one transfer overlap, consensus on a transfer is announced
-- at most as often as the node broadcasts its own attestation of it.
pub reached_count-le-broadcast_count :
    (config : ConsensusConfig) (id : JsString) (evs : List Event)
    → reached_count id (run (start config) evs).1 ≤ broadcast_count id (run (start config) evs).1
unfolding start new_engine get
reached_count-le-broadcast_count config id evs =
    omega (arith, run-StepAccounted id (start config) evs)
