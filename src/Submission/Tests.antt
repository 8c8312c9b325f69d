-- ===== src/Submission/Tests.antt =====
-- The submission's theorems at a concrete unlock.
use sol_gateway_dcc.Base.{
  ℕ, ◌↔◌, ◌≡◌, ◌≢◌, refl, true, none, some, [], ◌∷◌, ◌++◌, arith, codes, replicate, All,
}
use sol_gateway_dcc.Base.Int.{pos}
use sol_gateway_dcc.Js.Bytes.{
  Bytes, le_bytes, write_u64, write_u32, write_i64, hex_decode, utf8, copy_into,
}
use sol_gateway_dcc.Events.{DccBurnEvent, int, burn}
use sol_gateway_dcc.Consensus.Message.{
  AttestationRequest, unlock, construct_canonical_message, event_fields, unlock_fields,
  uint64_to_buffer, bigint_to_buffer,
}
use sol_gateway_dcc.Consensus.Engine.{Attestation, ConsensusResult}
use sol_gateway_dcc.Consensus.Quorum.{HasQuorum}
use sol_gateway_dcc.Submission.Unlock.{
  UnlockParamsInput, unlock_message, serialize_unlock_params, serialize_attestations, serialize_all,
  serialize_attestation,
}
use sol_gateway_dcc.Submission.Borsh.{deserialize, params_of, deserialize-serialize}
use sol_gateway_dcc.Submission.Signing.{
  construct_unlock_message, unlock_message-construct_iff, IsKeptId, legacy_mint_message,
  quorum-ne-verified_messages,
}

abbrev burnt : DccBurnEvent
burnt = record {
  burn_id = codes "ab12";
  sender = codes "3Dx";
  sol_recipient = codes "9abc";
  amount = pos 5_000;
  height = int (pos 90);
  timestamp = int (pos 1_700_000_000);
  tx_id = codes "cd34";
  confirmations = pos 10;
}

abbrev request : AttestationRequest
request = record { kind = unlock; transfer_id = codes "ab12"; event = burn burnt; timestamp = 5 }

abbrev message : Bytes
unfolding construct_canonical_message event_fields unlock_fields uint64_to_buffer bigint_to_buffer
    write_u64 write_u32 le_bytes utf8 hex_decode
message = elim (construct_canonical_message request) [ none ↦ [] | some m ↦ m ]

abbrev attestation : Attestation
attestation = record {
  node_id = codes "v1";
  transfer_id = codes "ab12";
  kind = unlock;
  signature = replicate 64 1;
  public_key = replicate 32 2;
  message_hash = message;
  timestamp = 0;
}

abbrev result : ConsensusResult
result = record {
  transfer_id = codes "ab12";
  kind = unlock;
  achieved = true;
  attestations = attestation ∷ [];
  required_signatures = 1;
  received_signatures = 1;
  event = some (burn burnt);
}

result-HasQuorum : HasQuorum 1 result
unfolding construct_canonical_message event_fields unlock_fields uint64_to_buffer bigint_to_buffer
    write_u64 write_u32 le_bytes utf8 hex_decode
result-HasQuorum = record {
  request = request;
  message = message;
  achieved = refl;
  same_transfer = refl;
  same_kind = refl;
  same_event = refl;
  canonical = refl;
  signed = ((refl, refl), tt);
  distinct = (tt, tt);
  counted = refl;
  enough = omega arith;
}

abbrev params : UnlockParamsInput
params = record {
  transfer_id = replicate 32 7;
  recipient = replicate 32 8;
  amount = pos 5_000;
  burn_tx_hash = replicate 32 9;
  dcc_chain_id = 2;
  expiration = 1_700_003_600;
  attestations = attestation ∷ [];
}

abbrev written : Bytes
unfolding serialize_unlock_params serialize_attestations serialize_all serialize_attestation
    write_u64 write_u32 write_i64 le_bytes copy_into
written = elim (serialize_unlock_params params) [ none ↦ [] | some bs ↦ bs ]

deserialize-serialize_example :
    (amount : ℕ) × (params.amount ≡ pos amount)
    × (deserialize (written ++ 0 ∷ []) ≡ some (params_of params amount, 0 ∷ []))
unfolding serialize_unlock_params serialize_attestations serialize_all serialize_attestation
    write_u64 write_u32 write_i64 le_bytes copy_into
deserialize-serialize_example = deserialize-serialize params written (0 ∷ []) refl refl

-- Ids as they come from base58 texts.
abbrev partial : UnlockParamsInput
partial = record params {
  transfer_id = hex_decode (codes "8c1f5b2eG9");
  burn_tx_hash = hex_decode (codes "3DaQ");
}

unlock_message-construct_iff_example :
    (unlock_message partial
      ≡ construct_unlock_message
          (copy_into 32 (hex_decode (codes "8c1f5b2eG9")))
          (replicate 32 8)
          5_000
          (copy_into 32 (hex_decode (codes "3DaQ")))
          2
          1_700_003_600)
    ↔ (IsKeptId (hex_decode (codes "8c1f5b2eG9")) × IsKeptId (hex_decode (codes "3DaQ")))
unlock_message-construct_iff_example =
    unlock_message-construct_iff partial 5_000 refl (omega arith) (omega arith) (omega arith)

quorum-ne-verified_messages_example :
    All
      (λ a.
        (a.message_hash ≢ unlock_message params)
        × (a.message_hash ≢ utf8 (legacy_mint_message (codes "ab12|"))))
      result.attestations
quorum-ne-verified_messages_example =
    quorum-ne-verified_messages 1 result params (codes "ab12|") result-HasQuorum
