-- ===== src/Consensus/Once.antt =====
-- Schedules in which no two proposals overlap: proposeAttestation is called only while no other call
-- awaits its signature.
pub mod Keeping
pub mod Runs
pub mod Reached
use sol_gateway_dcc.Base.{
  ℕ, zero, suc, ◌+◌, ◌≤◌, ◌≡◌, refl, sym, ap, ◌∙◌, ◌≢◌, subst, inl, inr, Bool, true, false, not,
  ◌||◌, Option, none, some, List, [], ◌∷◌, ◌++◌, arith, JsString, ◌==◌, str_eq, if◌then◌else◌, leb,
  length, any, get_elem?, All, All-append, All-mono, Bool-cases, Option-cases,
}
use sol_gateway_dcc.Js.Map.{
  get, has, set, delete, includes, add, has-get, has-set, has-delete, includes-add,
}
use sol_gateway_dcc.Js.Bytes.{Bytes}
use sol_gateway_dcc.Consensus.Message.{AttestationRequest, construct_canonical_message}
use sol_gateway_dcc.Consensus.Engine.{
  ConsensusConfig, ConsensusEngine, Attestation, ConsensusResult, PendingConsensus, Output,
  attestation_broadcast, byzantine_detected, consensus_reached, consensus_failed, set_timeout,
  Timer, check_timeout, cleanup, Proposal, skipped, thrown, signing, new_engine, local_attestation,
  new_pending, propose_begin, propose_finish, check_pending, check_consensus, receive_pending,
  receive_attestation, with_attestation, expire_pending, check_consensus_timeout, fire,
}
use sol_gateway_dcc.Consensus.Schedule.{
  System, InFlight, Event, begins, finishes, receives, fires, start, step, run, after, armed,
  begin_step, finish_step, remove_at,
}
use sol_gateway_dcc.Consensus.Schedule
use sol_gateway_dcc.Consensus.Rules.{
  All-remove_at, All-get_elem?, propose_begin-eq-signing, receive_pending_cases,
}
use sol_gateway_dcc.Consensus.Counting.{
  bit, broadcast_count, reached_count, reached_count-le-broadcast_count, broadcast_count-append,
}

-- The engine will not propose the transfer again.
abbrev pub is_spent : JsString → ConsensusEngine → Bool
is_spent id e = includes id e.processed_transfers || has id e.pending_consensus

-- The cleanup of a round is armed only for a processed transfer.
abbrev pub TimerIsDue : ConsensusEngine → Timer → Type 0
TimerIsDue e (check_timeout id) = Unit
TimerIsDue e (cleanup id) = includes id e.processed_transfers ≡ true

-- What one operation of the engine does to a transfer's chances.
pub record Spends (id : JsString) (e : ConsensusEngine) (r : ConsensusEngine × List Output)
    : Type 0 where
  pub counts : broadcast_count id r.1 + bit (is_spent id e) ≤ bit (is_spent id r.0)
  pub grows :
      (k : JsString)
      → includes k e.processed_transfers ≡ true
      → includes k r.0.processed_transfers ≡ true
  pub due : All (TimerIsDue r.0) (armed r.1)

Spends-same : (id : JsString) (e : ConsensusEngine) → Spends id e (e, [])
unfolding broadcast_count armed
Spends-same id e = record { counts = omega arith; grows = λ k h. h; due = tt }

module _ (id : JsString) (e : ConsensusEngine) where
  check_pending-Spends : (k : JsString) (p : PendingConsensus) → Spends id e (check_pending e k p)
  unfolding check_pending broadcast_count armed
  check_pending-Spends k p = record {
    counts = ground (
      arith,
      has-set k id (record p { resolved = true }) e.pending_consensus,
      includes-add k id e.processed_transfers,
    );
    grows = λ j h. ground (arith, includes-add k j e.processed_transfers);
    due = ground (arith, includes-add k k e.processed_transfers, str_eq.eqb_iff k k);
  }

  expire_pending-Spends : (k : JsString) (p : PendingConsensus) → Spends id e (expire_pending e k p)
  unfolding expire_pending broadcast_count armed
  expire_pending-Spends k p = record {
    counts = ground (arith, has-set k id (record p { resolved = true }) e.pending_consensus);
    grows = λ j h. ground arith;
    due = ground arith;
  }

  check_consensus-Spends : (k : JsString) → Spends id e (check_consensus e k)
  unfolding check_consensus
  check_consensus-Spends k = elim (Option-cases (get k e.pending_consensus)) [
    | inl missing ↦ rw (missing, check_consensus) (Spends-same id e)
    | inr (p, found) ↦ rw (found, check_consensus) (check_pending-Spends k p)
  ]

  pub fire-Spends : (t : Timer) → TimerIsDue e t → Spends id e (fire e t)
  unfolding fire check_consensus_timeout broadcast_count armed
  fire-Spends (check_timeout k) h = elim (Option-cases (get k e.pending_consensus)) [
    | inl missing ↦ rw (missing, check_consensus_timeout) (Spends-same id e)
    | inr (p, found) ↦ rw (found, check_consensus_timeout) (expire_pending-Spends k p)
  ]
  fire-Spends (cleanup k) h = record {
    counts = ground (arith, has-delete k id e.pending_consensus, str_eq.eqb_iff k id);
    grows = λ j g. g;
    due = tt;
  }

  pub propose_finish-Spends :
      (request : AttestationRequest) (message signature key : Bytes) (now begun : ℕ)
      → is_spent request.transfer_id e ≡ false
      → Spends id e (propose_finish e request message signature key now begun)
  unfolding propose_finish broadcast_count armed local_attestation
  propose_finish-Spends request message signature key now begun fresh = record {
    counts = ground (
      arith,
      has-set request.transfer_id id
          (new_pending request (local_attestation e request message signature key now) message
            begun)
          e.pending_consensus,
      str_eq.eqb_iff request.transfer_id id,
    );
    grows = λ j g. g;
    due = (tt, tt);
  }

-- From one engine to another that spends no less.
Spends-trans :
    {id : JsString} (e d : ConsensusEngine) {r : ConsensusEngine × List Output}
    → bit (is_spent id e) ≤ bit (is_spent id d)
    → e.processed_transfers ≡ d.processed_transfers
    → Spends id d r
    → Spends id e r
Spends-trans e d {r} spent same v = record {
  counts = omega (arith, v.counts);
  grows = λ k h. v.grows k (subst (λ s. includes k s ≡ true) same h);
  due = v.due;
}

module _ (id : JsString) (e : ConsensusEngine) where
  receive_pending-Spends :
      (a : Attestation) (p : PendingConsensus) → Spends id e (receive_pending e a p)
  unfolding broadcast_count armed
  receive_pending-Spends a p =
      receive_pending_cases (Spends id e) e a p (Spends-same id e)
        (record { counts = omega arith; grows = λ k h. h; due = tt })
        (Spends-trans e (with_attestation e a p)
          (ground (
            arith,
            has-set a.transfer_id id (record p { attestations = p.attestations ++ a ∷ [] })
                e.pending_consensus,
          ))
          refl (check_consensus-Spends id (with_attestation e a p) a.transfer_id))

  pub receive_attestation-Spends : (a : Attestation) → Spends id e (receive_attestation e a)
  unfolding receive_attestation
  receive_attestation-Spends a = elim (Option-cases (get a.transfer_id e.pending_consensus)) [
    | inl missing ↦ rw (missing, receive_attestation) (Spends-same id e)
    | inr (p, found) ↦ rw (found, receive_attestation) (receive_pending-Spends a p)
  ]

-- Whenever a proposal begins, no other one waits for its signature. Attestations may arrive and timers
-- may fire at any time, also while a proposal waits.
abbrev pub NoOverlap : System → List Event → Type 0
NoOverlap s [] = Unit
NoOverlap s (begins request ∷ evs) = (s.in_flight ≡ []) × NoOverlap (step s (begins request)).0 evs
NoOverlap s (finishes i signature key now begun ∷ evs) =
    NoOverlap (step s (finishes i signature key now begun)).0 evs
NoOverlap s (receives a ∷ evs) = NoOverlap (step s (receives a)).0 evs
NoOverlap s (fires i ∷ evs) = NoOverlap (step s (fires i)).0 evs

-- At most one proposal waits, and its transfer is not spent.
abbrev pub IsWaiting : ConsensusEngine → List InFlight → Type 0
IsWaiting e [] = Unit
IsWaiting e (f ∷ []) = is_spent f.request.transfer_id e ≡ false
IsWaiting e (f ∷ g ∷ fs) = ⊥

-- A system without an overlap, in which a cleanup waits only for a processed transfer.
pub record IsQuiet (s : System) : Type 0 where
  pub waiting : IsWaiting s.engine s.in_flight
  pub due : All (TimerIsDue s.engine) s.timers

-- What is not spent before an operation is not spent after it.
abbrev pub Keeps : ConsensusEngine → ConsensusEngine × List Output → Type 0
Keeps e r = (k : JsString) → is_spent k e ≡ false → is_spent k r.0 ≡ false

pub IsWaiting-keep :
    (e : ConsensusEngine) (r : ConsensusEngine × List Output)
    → Keeps e r
    → (fs : List InFlight) → IsWaiting e fs
    → IsWaiting r.0 fs
IsWaiting-keep e r keeps [] h = tt
IsWaiting-keep e r keeps (f ∷ []) h = keeps f.request.transfer_id h
IsWaiting-keep e r keeps (f ∷ g ∷ fs) h = h

TimerIsDue-mono :
    {id : JsString} {e : ConsensusEngine} {r : ConsensusEngine × List Output}
    → Spends id e r
    → (t : Timer) → TimerIsDue e t
    → TimerIsDue r.0 t
TimerIsDue-mono v (check_timeout id) h = tt
TimerIsDue-mono v (cleanup id) h = v.grows id h

-- A step from a quiet system to a quiet one.
abbrev pub StepSpends : JsString → System → System × List Output → Type 0
StepSpends id s r =
    IsQuiet r.0
    × (broadcast_count id r.1 + bit (is_spent id s.engine) ≤ bit (is_spent id r.0.engine))

pub after-StepSpends :
    (id : JsString) (s : System) (r : ConsensusEngine × List Output)
    → All (TimerIsDue s.engine) s.timers
    → Spends id s.engine r
    → IsWaiting r.0 s.in_flight
    → StepSpends id s (after s r)
unfolding after
after-StepSpends id s r q v w = (
  record {
    waiting = w;
    due =
        All-append (TimerIsDue r.0) s.timers (armed r.1)
          (All-mono (TimerIsDue s.engine) (TimerIsDue r.0) (TimerIsDue-mono v) s.timers q) v.due;
  },
  v.counts,
)
