-- ===== src/Consensus/Engine.antt =====
-- validator/src/consensus/engine.ts: the state of ConsensusEngine and its operations. What an operation
-- emits and the timers that it arms are its outputs, in order. `proposeAttestation` is cut at its
-- `await this.signMessage(message)`: other operations may run between the two parts. The signature and
-- the key are the callbacks' results, `none` where a callback throws.
use sol_gateway_dcc.Base.{
  ℕ, Bool, true, false, Option, none, some, List, [], ◌∷◌, ◌++◌, map, JsString, ◌==◌, str_eq,
  if◌then◌else◌, leb, length, any,
}
use sol_gateway_dcc.Js.Map.{JsMap, get, has, set, delete, includes, add}
use sol_gateway_dcc.Js.Bytes.{Bytes}
use sol_gateway_dcc.Events.{BridgeEvent}
use sol_gateway_dcc.Consensus.Message.{
  TransferKind, AttestationRequest, construct_canonical_message,
}

pub record ConsensusConfig : Type 0 where
  pub node_id : JsString
  pub min_validators : ℕ
  pub consensus_timeout_ms : ℕ
  pub max_retries : ℕ

pub record Attestation : Type 0 where
  pub node_id : JsString
  pub transfer_id : JsString
  pub kind : TransferKind
  pub signature : Bytes
  pub public_key : Bytes
  pub message_hash : Bytes
  pub timestamp : ℕ

pub record ConsensusResult : Type 0 where
  pub transfer_id : JsString
  pub kind : TransferKind
  pub attestations : List Attestation
  pub achieved : Bool
  pub required_signatures : ℕ
  pub received_signatures : ℕ
  pub event : Option BridgeEvent

pub record PendingConsensus : Type 0 where
  pub request : AttestationRequest
  pub attestations : List Attestation
  pub message : Bytes
  pub start_time : ℕ
  pub resolved : Bool

pub record ConsensusEngine : Type 0 where
  pub config : ConsensusConfig
  pub pending_consensus : JsMap JsString PendingConsensus
  pub processed_transfers : List JsString

pub data Timer : Type 0 where
  check_timeout cleanup : JsString → Timer

pub data Output : Type 0 where
  attestation_broadcast : Attestation → Output
  byzantine_detected : JsString → JsString → Attestation → Output
  consensus_reached consensus_failed : ConsensusResult → Output
  set_timeout : Timer → ℕ → Output

unfoldable pub new_engine : ConsensusConfig → ConsensusEngine
new_engine config = record { config = config; pending_consensus = []; processed_transfers = [] }

-- proposeAttestation up to the await: skipped by a guard, an exception, or a message to sign.
pub data Proposal : Type 0 where
  skipped thrown : Proposal
  signing : Bytes → Proposal

unfoldable pub propose_begin : ConsensusEngine → AttestationRequest → Proposal
propose_begin e request =
    if includes request.transfer_id e.processed_transfers
    then skipped
    else if has request.transfer_id e.pending_consensus
    then skipped
    else elim (construct_canonical_message request) [
      | none ↦ thrown
      | some message ↦ signing message
    ]

unfoldable pub local_attestation :
    ConsensusEngine → AttestationRequest → Bytes → Bytes → Bytes → ℕ → Attestation
local_attestation e request message signature public_key now = record {
  node_id = e.config.node_id;
  transfer_id = request.transfer_id;
  kind = request.kind;
  signature = signature;
  public_key = public_key;
  message_hash = message;
  timestamp = now;
}

unfoldable pub new_pending : AttestationRequest → Attestation → Bytes → ℕ → PendingConsensus
new_pending request local message begun = record {
  request = request;
  attestations = local ∷ [];
  message = message;
  start_time = begun;
  resolved = false;
}

-- What follows the await. `now` and `begun` are the two calls of Date.now().
unfoldable pub propose_finish :
    ConsensusEngine
    → AttestationRequest
    → Bytes
    → Bytes
    → Bytes
    → ℕ
    → ℕ
    → ConsensusEngine × List Output
unfolding local_attestation new_pending
propose_finish e request message signature public_key now begun =
    let local = local_attestation e request message signature public_key now in
    (
      record e {
        pending_consensus =
            set request.transfer_id (new_pending request local message begun) e.pending_consensus;
      },
      attestation_broadcast local
          ∷ set_timeout (check_timeout request.transfer_id) e.config.consensus_timeout_ms
          ∷ [],
    )

unfoldable pub reached_result : ConsensusEngine → JsString → PendingConsensus → ConsensusResult
reached_result e id p = record {
  transfer_id = id;
  kind = p.request.kind;
  attestations = p.attestations;
  achieved = true;
  required_signatures = e.config.min_validators;
  received_signatures = length p.attestations;
  event = some p.request.event;
}

unfoldable pub check_pending :
    ConsensusEngine → JsString → PendingConsensus → ConsensusEngine × List Output
unfolding reached_result
check_pending e id p =
    if p.resolved
    then (e, [])
    else if leb e.config.min_validators (length p.attestations)
    then (
      record e {
        pending_consensus = set id (record p { resolved = true }) e.pending_consensus;
        processed_transfers = add id e.processed_transfers;
      },
      consensus_reached (reached_result e id p) ∷ set_timeout (cleanup id) 60000 ∷ [],
    )
    else (e, [])

unfoldable pub check_consensus : ConsensusEngine → JsString → ConsensusEngine × List Output
unfolding check_pending
check_consensus e id = elim (get id e.pending_consensus) [
  | none ↦ (e, [])
  | some p ↦ check_pending e id p
]

-- `pending.attestations.push(attestation)`
abbrev pub with_attestation : ConsensusEngine → Attestation → PendingConsensus → ConsensusEngine
with_attestation e a p = record e {
  pending_consensus =
      set a.transfer_id (record p { attestations = p.attestations ++ a ∷ [] }) e.pending_consensus;
}

unfoldable pub receive_pending :
    ConsensusEngine → Attestation → PendingConsensus → ConsensusEngine × List Output
receive_pending e a p =
    if p.resolved
    then (e, [])
    else if any (λ b. b.node_id == a.node_id) p.attestations
    then (e, [])
    else if p.message == a.message_hash
    then check_consensus (with_attestation e a p) a.transfer_id
    else (e, byzantine_detected a.node_id a.transfer_id a ∷ [])

unfoldable pub receive_attestation : ConsensusEngine → Attestation → ConsensusEngine × List Output
unfolding receive_pending
receive_attestation e a = elim (get a.transfer_id e.pending_consensus) [
  | none ↦ (e, [])
  | some p ↦ receive_pending e a p
]

unfoldable pub failed_result : ConsensusEngine → JsString → PendingConsensus → ConsensusResult
failed_result e id p = record {
  transfer_id = id;
  kind = p.request.kind;
  attestations = p.attestations;
  achieved = false;
  required_signatures = e.config.min_validators;
  received_signatures = length p.attestations;
  event = none;
}

unfoldable pub expire_pending :
    ConsensusEngine → JsString → PendingConsensus → ConsensusEngine × List Output
unfolding failed_result
expire_pending e id p = if p.resolved then (e, []) else (
  record e { pending_consensus = set id (record p { resolved = true }) e.pending_consensus },
  consensus_failed (failed_result e id p) ∷ [],
)

unfoldable pub check_consensus_timeout : ConsensusEngine → JsString → ConsensusEngine × List Output
unfolding expire_pending
check_consensus_timeout e id = elim (get id e.pending_consensus) [
  | none ↦ (e, [])
  | some p ↦ expire_pending e id p
]

unfoldable pub fire : ConsensusEngine → Timer → ConsensusEngine × List Output
fire e (check_timeout id) = check_consensus_timeout e id
fire e (cleanup id) = (record e { pending_consensus = delete id e.pending_consensus }, [])

pub record RoundStatus : Type 0 where
  pub transfer_id : JsString
  pub attestations : ℕ
  pub required : ℕ

pub record EngineStatus : Type 0 where
  pub pending : ℕ
  pub processed : ℕ
  pub details : List RoundStatus

unfoldable pub get_status : ConsensusEngine → EngineStatus
get_status e = record {
  pending = length e.pending_consensus;
  processed = length e.processed_transfers;
  details =
      map
        (λ (id, p). record {
          transfer_id = id;
          attestations = length p.attestations;
          required = e.config.min_validators;
        })
        e.pending_consensus;
}
