-- ===== src/Submission/Unlock.antt =====
-- submitUnlockToSolana of validator/src/main.ts: the message that the Ed25519 instructions are to verify,
-- and the Borsh data of the unlock instruction. The recipient's public key stands by its 32 bytes.
use sol_gateway_dcc.Base.{
  ◌>>=◌, ℕ, ◌+◌, ◌-◌, ◌/◌, ◌%◌, ◌^◌, Option, none, some, List, [], ◌∷◌, ◌++◌, map, JsString, codes,
  ◌==◌, str_eq, nat_eqb, if◌then◌else◌, length, replicate,
}
use sol_gateway_dcc.Base.Int.{ℤ, pos, negsuc}
use sol_gateway_dcc.Js.Bytes.{
  Bytes, le_bytes, write_u64, write_u32, write_i64, copy_into, utf8, hex_decode,
}
use sol_gateway_dcc.Events.{DccBurnEvent}
use sol_gateway_dcc.Consensus.Engine.{Attestation, ConsensusResult}

-- The element of a BigInt64Array: 64 bits of the integer, in two's complement.
unfoldable pub int64_bits : ℤ → ℕ
int64_bits (pos n) = n % 2 ^ 64
int64_bits (negsuc n) = 2 ^ 64 - 1 - n % 2 ^ 64

abbrev pub unlock_domain : JsString
unlock_domain = codes "SOL_DCC_BRIDGE_UNLOCK_V1"

-- A field of 32 bytes: the bytes, or zeros where there are more or fewer.
unfoldable pub field32 : Bytes → Bytes
field32 b = if nat_eqb (length b) 32 then b else replicate 32 0

pub record UnlockParamsInput : Type 0 where
  pub transfer_id : Bytes
  pub recipient : Bytes
  pub amount : ℤ
  pub burn_tx_hash : Bytes
  pub dcc_chain_id : ℕ
  pub expiration : ℕ
  pub attestations : List Attestation

-- What submitUnlockToSolana takes from the consensus result and its event, an hour before expiry.
-- `decode_key` is the constructor of PublicKey, `none` where it throws; `default_key` its default.
unfoldable pub unlock_input :
    (JsString → Option Bytes)
    → Bytes
    → ℕ
    → ℕ
    → ConsensusResult
    → Option DccBurnEvent
    → Option UnlockParamsInput
unlock_input decode_key default_key chain now result none = some (record {
  transfer_id = hex_decode result.transfer_id;
  recipient = default_key;
  amount = pos 0;
  burn_tx_hash = [];
  dcc_chain_id = chain;
  expiration = now / 1000 + 3600;
  attestations = result.attestations;
})
unlock_input decode_key default_key chain now result (some e) = do
  recipient ← if e.sol_recipient == [] then some default_key else decode_key e.sol_recipient
  some (record {
    transfer_id = hex_decode result.transfer_id;
    recipient = recipient;
    amount = e.amount;
    burn_tx_hash = hex_decode e.tx_id;
    dcc_chain_id = chain;
    expiration = now / 1000 + 3600;
    attestations = result.attestations;
  })

unfoldable pub unlock_message : UnlockParamsInput → Bytes
unfolding int64_bits field32
unlock_message p =
    utf8 unlock_domain
    ++ (field32 p.transfer_id
        ++ (p.recipient
            ++ (le_bytes 8 (int64_bits p.amount)
                ++ (field32 p.burn_tx_hash
                    ++ (le_bytes 4 (p.dcc_chain_id % 2 ^ 32)
                        ++ le_bytes 8 (int64_bits (pos p.expiration)))))))

-- One Ed25519 instruction: a key, a message and a signature to verify.
pub record Ed25519Check : Type 0 where
  pub public_key : Bytes
  pub message : Bytes
  pub signature : Bytes

unfoldable pub ed25519_checks : UnlockParamsInput → List Ed25519Check
ed25519_checks p =
    map
      (λ a. record {
        public_key = a.public_key;
        message = unlock_message p;
        signature = a.signature;
      })
      p.attestations

-- One ValidatorAttestation: a key of 32 bytes and a signature of 64.
unfoldable pub serialize_attestation : Attestation → Bytes
serialize_attestation a = copy_into 32 a.public_key ++ copy_into 64 a.signature

unfoldable pub serialize_all : List Attestation → Bytes
unfolding serialize_attestation
serialize_all [] = []
serialize_all (a ∷ as') = serialize_attestation a ++ serialize_all as'

unfoldable pub serialize_attestations : List Attestation → Option Bytes
unfolding serialize_all
serialize_attestations as' = do count ← write_u32 (length as'); some (count ++ serialize_all as')

-- `none` is a RangeError of a write.
unfoldable pub serialize_unlock_params : UnlockParamsInput → Option Bytes
unfolding serialize_attestations
serialize_unlock_params p = do
  amount ← write_u64 p.amount
  chain ← write_u32 p.dcc_chain_id
  expiration ← write_i64 p.expiration
  attestations ← serialize_attestations p.attestations
  some (
      copy_into 32 p.transfer_id
      ++ (p.recipient
          ++ (amount ++ (copy_into 32 p.burn_tx_hash ++ (chain ++ (expiration ++ attestations))))))
