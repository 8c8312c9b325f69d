-- ===== src/Consensus/Tests.antt =====
-- Runs of the consensus engine, and the theorems at concrete inputs.
use sol_gateway_dcc.Base.{
  ℕ, ◌≤◌, ◌≡◌, ◌↔◌, refl, true, false, ◌++◌, none, some, List, [], ◌∷◌, arith, JsString, codes,
  replicate, All, str_eq,
}
use sol_gateway_dcc.Base.Int.{pos}
use sol_gateway_dcc.Js.Map.{get, has, set, delete, includes, add}
use sol_gateway_dcc.Js.Bytes.{
  Bytes, le_bytes, write_u64, write_u32, hex_encode, hex_decode, utf8, to_number,
}
use sol_gateway_dcc.Events.{SolanaDepositEvent, deposit}
use sol_gateway_dcc.Consensus.Message.{
  AttestationRequest, mint, deposit_request, construct_canonical_message, event_fields, mint_fields,
  uint64_to_buffer,
}
use sol_gateway_dcc.Consensus.Engine.{
  ConsensusConfig, ConsensusEngine, Attestation, ConsensusResult, PendingConsensus,
  byzantine_detected, new_engine, propose_begin, propose_finish, receive_attestation,
  check_consensus, check_consensus_timeout, fire,
}
use sol_gateway_dcc.Consensus.Schedule.{Event, begins, finishes, receives, fires, start, step, run}
use sol_gateway_dcc.Consensus.Counting.{reached_count}
use sol_gateway_dcc.Consensus.Quorum.{OutputHasQuorum}
use sol_gateway_dcc.Consensus.Quorum.Schedules.{WasProposed, reached-HasQuorum}
use sol_gateway_dcc.Consensus.Once.Reached.{reached_count_once, timed_out_never_reached}
use sol_gateway_dcc.Submission.Mint.{MintCall, submit_mint_to_dcc, mint_call}
use sol_gateway_dcc.Submission.Minting.{IsFounded, broadcast-IsFounded}
use sol_gateway_dcc.Consensus.Binding.{HasWidths, SameDeposit, canonical_message-deposit}
use sol_gateway_dcc.Consensus.Receiving.{Completes, receive-reached_iff, honest_peer-byzantine}

abbrev two_of_three : ConsensusConfig
two_of_three = record {
  node_id = codes "v1";
  min_validators = 2;
  consensus_timeout_ms = 30000;
  max_retries = 3;
}

-- Names what a run of the engine computes with.
engine_code : Unit {0}
unfolding hex_encode hex_decode utf8 le_bytes write_u64 write_u32 construct_canonical_message
    event_fields mint_fields uint64_to_buffer start new_engine run step propose_begin propose_finish
    receive_attestation check_consensus check_consensus_timeout fire get has set delete includes add
engine_code = tt

abbrev lock : SolanaDepositEvent
unfolding hex_encode
lock = record {
  transfer_id = hex_encode (replicate 32 7);
  sender = codes "9abc";
  recipient_dcc = hex_encode (replicate 32 5);
  amount = 1_000_000;
  nonce = 4;
  slot = 250;
  timestamp = pos 1_700_000_000;
  chain_id = 2;
  signature = codes "sig";
  confirmations = pos 32;
}

abbrev request_at : ℕ → AttestationRequest
request_at t = record {
  kind = mint;
  transfer_id = lock.transfer_id;
  event = deposit lock;
  timestamp = t;
}

abbrev message_at : ℕ → Bytes
unfolding construct_canonical_message event_fields mint_fields uint64_to_buffer write_u64 write_u32
    le_bytes utf8 hex_encode hex_decode
message_at t = elim (construct_canonical_message (request_at t)) [ none ↦ [] | some m ↦ m ]

abbrev attested : JsString → ℕ → Attestation
attested node t = record {
  node_id = node;
  transfer_id = lock.transfer_id;
  kind = mint;
  signature = 1 ∷ [];
  public_key = 2 ∷ [];
  message_hash = message_at t;
  timestamp = 0;
}

-- One proposal and one peer make a quorum of two. The peer's attestation that arrives before the signature
-- is ignored; the one of another peer that arrives afterwards adds nothing.
abbrev agreement : List Event
agreement =
    begins (request_at 5)
    ∷ receives (attested (codes "v2") 5)
    ∷ finishes 0 (some (1 ∷ [])) (some (2 ∷ [])) 5 6
    ∷ receives (attested (codes "v2") 5)
    ∷ receives (attested (codes "v3") 5)
    ∷ begins (request_at 5)
    ∷ fires 0
    ∷ []

agreement_test : reached_count lock.transfer_id (run (start two_of_three) agreement).1 ≡ 1
unfolding engine_code reached_count
agreement_test = refl

reached-HasQuorum_example :
    All (OutputHasQuorum (WasProposed agreement) 2) (run (start two_of_three) agreement).1
reached-HasQuorum_example = reached-HasQuorum two_of_three agreement

-- Two proposals that overlap open two rounds, and so reach consensus twice.
abbrev overlapping : List Event
overlapping =
    begins (request_at 5)
    ∷ begins (request_at 5)
    ∷ finishes 0 (some (1 ∷ [])) (some (2 ∷ [])) 5 6
    ∷ receives (attested (codes "v2") 5)
    ∷ finishes 0 (some (1 ∷ [])) (some (2 ∷ [])) 7 8
    ∷ receives (attested (codes "v2") 5)
    ∷ []

overlapping_test : reached_count lock.transfer_id (run (start two_of_three) overlapping).1 ≡ 2
unfolding engine_code reached_count
overlapping_test = refl

reached_count_once_example :
    reached_count lock.transfer_id (run (start two_of_three) agreement).1 ≤ 1
unfolding engine_code
reached_count_once_example =
    reached_count_once two_of_three lock.transfer_id agreement (refl, (refl, tt))

abbrev round : PendingConsensus
round = record {
  request = request_at 5;
  attestations =
      record (attested (codes "v1") 5) { signature = 1 ∷ []; public_key = 2 ∷ []; timestamp = 5 }
      ∷ [];
  message = message_at 5;
  start_time = 6;
  resolved = false;
}

abbrev waiting : ConsensusEngine
waiting = record {
  config = two_of_three;
  pending_consensus = (lock.transfer_id, round) ∷ [];
  processed_transfers = [];
}

abbrev proposal : List Event
proposal = begins (request_at 5) ∷ finishes 0 (some (1 ∷ [])) (some (2 ∷ [])) 5 6 ∷ []

timed_out_never_reached_example :
    reached_count lock.transfer_id
      (run (step (run (start two_of_three) proposal).0 (fires 0)).0 agreement).1
    ≡ 0
unfolding engine_code
timed_out_never_reached_example =
    timed_out_never_reached two_of_three lock.transfer_id proposal agreement 0 round (refl, tt) refl
      refl (refl, (refl, tt))

message_at_5 : construct_canonical_message (request_at 5) ≡ some (message_at 5)
unfolding engine_code
message_at_5 = refl

lock-HasWidths : HasWidths lock
unfolding engine_code
lock-HasWidths = record { id_width = refl; recipient_width = refl }

canonical_message-deposit_example : SameDeposit lock lock × ◌≡◌ {A = ℕ} 5 5
unfolding deposit_request
canonical_message-deposit_example =
    canonical_message-deposit lock lock 5 5 (message_at 5) lock-HasWidths lock-HasWidths
      message_at_5 message_at_5

waiting-Completes : Completes waiting (attested (codes "v2") 5) round
unfolding engine_code
waiting-Completes = record {
  found = refl;
  open_round = refl;
  new_node = refl;
  same_message = refl;
  enough = omega arith;
}

receive-reached_iff_example :
    (reached_count lock.transfer_id (receive_attestation waiting (attested (codes "v2") 5)).1 ≡ 1)
    ↔ ((p : PendingConsensus) × Completes waiting (attested (codes "v2") 5) p)
receive-reached_iff_example = receive-reached_iff waiting (attested (codes "v2") 5)

waiting_reached :
    reached_count lock.transfer_id (receive_attestation waiting (attested (codes "v2") 5)).1 ≡ 1
unfolding engine_code reached_count
waiting_reached = refl

honest_peer-byzantine_example :
    receive_attestation waiting (attested (codes "v2") 9)
    ≡ (waiting, byzantine_detected (codes "v2") lock.transfer_id (attested (codes "v2") 9) ∷ [])
unfolding engine_code
honest_peer-byzantine_example =
    honest_peer-byzantine waiting (attested (codes "v2") 9) round 9 refl refl refl refl refl
      (λ e. absurd (omega arith))

abbrev agreed : ConsensusResult
agreed = record {
  transfer_id = lock.transfer_id;
  kind = mint;
  attestations = round.attestations ++ attested (codes "v2") 5 ∷ [];
  achieved = true;
  required_signatures = 2;
  received_signatures = 2;
  event = some (deposit lock);
}

abbrev minted : MintCall
minted = record {
  transfer_id = lock.transfer_id;
  recipient = lock.recipient_dcc;
  amount = 1_000_000;
  sol_slot = 250;
  signatures = (1 ∷ []) ∷ (1 ∷ []) ∷ [];
  pubkeys = (2 ∷ []) ∷ (2 ∷ []) ∷ [];
}

broadcast-IsFounded_example : IsFounded agreement 2 lock minted
unfolding engine_code submit_mint_to_dcc mint_call to_number
broadcast-IsFounded_example =
    broadcast-IsFounded two_of_three agreement 2 agreed lock minted refl refl refl
