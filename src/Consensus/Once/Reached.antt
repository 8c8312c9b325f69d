-- ===== src/Consensus/Once/Reached.antt =====
-- How often consensus on a transfer is announced, where no two proposals overlap.
use sol_gateway_dcc.Base.{
  ℕ, ◌≤◌, ◌≡◌, ap, Bool, true, false, some, List, arith, JsString, str_eq, get_elem?,
}
use sol_gateway_dcc.Js.Map.{get, has-get, get-set, has-set}
use sol_gateway_dcc.Consensus.Engine.{
  ConsensusConfig, ConsensusEngine, PendingConsensus, check_timeout, check_consensus_timeout,
  expire_pending, fire,
}
use sol_gateway_dcc.Consensus.Schedule.{System, Event, start, step, run, after}
use sol_gateway_dcc.Consensus.Counting.{
  bit, reached_count, reached_count-le-broadcast_count, run-StepAccounted, open_rounds,
}
use sol_gateway_dcc.Consensus.Once.Runs.{run-StepSpends, fire-StepSpends}
use sol_gateway_dcc.Consensus.Once.{is_spent, IsQuiet, NoOverlap}

pub start-IsQuiet : (config : ConsensusConfig) → IsQuiet (start config)
unfolding start
start-IsQuiet config = record { waiting = tt; due = tt }

bit-le : (b : Bool) → bit b ≤ 1
bit-le true = omega arith
bit-le false = omega arith

-- Let every proposal begin only while no other one waits for its signature. Then a transfer's consensus
-- is announced at most once, whatever attestations arrive and whichever timers fire in whatever order,
-- also while a proposal waits.
pub reached_count_once :
    (config : ConsensusConfig) (id : JsString) (evs : List Event)
    → NoOverlap (start config) evs
    → reached_count id (run (start config) evs).1 ≤ 1
reached_count_once config id evs free = omega (
  arith,
  reached_count-le-broadcast_count config id evs,
  (run-StepSpends id evs (start config) free (start-IsQuiet config)).1,
  bit-le (is_spent id (run (start config) evs).0.engine),
)

-- A spent transfer with no open round is lost: no schedule brings it to consensus.
spent_never_reached :
    (id : JsString) (s : System) (evs : List Event)
    → NoOverlap s evs
    → IsQuiet s
    → is_spent id s.engine ≡ true
    → open_rounds id s.engine ≡ 0
    → reached_count id (run s evs).1 ≡ 0
spent_never_reached id s evs free q spent closed = omega (
  arith,
  run-StepAccounted id s evs,
  (run-StepSpends id evs s free q).1,
  ap bit spent,
  bit-le (is_spent id (run s evs).0.engine),
)

-- When its timeout fires, an open round closes, and its transfer is spent.
expired_closed :
    (id : JsString) (e : ConsensusEngine) {p : PendingConsensus}
    → get id e.pending_consensus ≡ some p
    → (is_spent id (fire e (check_timeout id)).0 ≡ true)
      × (open_rounds id (fire e (check_timeout id)).0 ≡ 0)
unfolding fire check_consensus_timeout expire_pending
expired_closed id e {p} found =
    rw (found, check_consensus_timeout)
      (ground (
        arith,
        get-set id id (record p { resolved = true }) e.pending_consensus,
        has-set id id (record p { resolved = true }) e.pending_consensus,
        has-get id e.pending_consensus,
        str_eq.eqb_iff id id,
      ))

-- Let every proposal begin only while no other one waits for its signature. Once the timeout of a pending
-- transfer has fired, no later proposal, attestation or timer brings that transfer to consensus, however
-- often it is retried.
pub timed_out_never_reached :
    (config : ConsensusConfig) (id : JsString) (before later : List Event) (i : ℕ)
    (p : PendingConsensus)
    → NoOverlap (start config) before
    → let s = (run (start config) before).0 in
      get_elem? s.timers i ≡ some (check_timeout id)
      → get id s.engine.pending_consensus ≡ some p
      → NoOverlap (step s (Event.fires i)).0 later
      → reached_count id (run (step s (Event.fires i)).0 later).1 ≡ 0
unfolding step after
timed_out_never_reached config id before later i p alone armed_at found free =
    let s : System = (run (start config) before).0 in
    let q = (run-StepSpends id before (start config) alone (start-IsQuiet config)).0 in
    let closed = expired_closed id s.engine found in
    spent_never_reached id (step s (Event.fires i)).0 later free (fire-StepSpends id s i q).0
      (rw (armed_at, step) closed.0) (rw (armed_at, step) closed.1)
