-- ===== src/SolanaWatcher/Chain.antt =====
-- programs/sol-bridge-lock/src/events.rs: BridgeDeposit in Borsh, as `emit!` writes it after the
-- discriminator, and what the watcher's decoder reads from it.
use sol_gateway_dcc.Base.{
  ℕ, ◌+◌, ◌-◌, ◌^◌, ◌<◌, ◌≡◌, refl, ap, ◌∙◌, some, [], ◌++◌, arith, JsString, ltb, length, false,
}
use sol_gateway_dcc.Base.Int.{ℤ, pos, negsuc}
use sol_gateway_dcc.Js.Bytes.{
  Bytes, le_bytes, length-le_bytes, of_le-le_bytes, to_number_exact, hex_encode,
}
use sol_gateway_dcc.Events.{SolanaDepositEvent}
use sol_gateway_dcc.SolanaWatcher.Decode.{signed64, number_of, decode_bridge_deposit}
use sol_gateway_dcc.SolanaWatcher.Layout.{Layout, HasLayoutWidths, decode_layout}

pub record BridgeDeposit : Type 0 where
  pub transfer_id : Bytes
  pub sender : Bytes
  pub recipient_dcc : Bytes
  pub amount : ℕ
  pub nonce : ℕ
  pub slot : ℕ
  pub timestamp : ℤ
  pub chain_id : ℕ

-- The 64 bits of an `i64`.
unfoldable pub i64_bits : ℤ → ℕ
i64_bits (pos n) = n
i64_bits (negsuc n) = 2 ^ 64 - n - 1

unfoldable pub serialize_bridge_deposit : BridgeDeposit → Bytes
serialize_bridge_deposit d =
    d.transfer_id
    ++ (d.sender
        ++ (d.recipient_dcc
            ++ (le_bytes 8 d.amount
                ++ (le_bytes 8 d.nonce
                    ++ (le_bytes 8 d.slot
                        ++ (le_bytes 8 (i64_bits d.timestamp) ++ (le_bytes 4 d.chain_id ++ [])))))))

-- A double holds the integer.
abbrev pub IsSafe : ℤ → Type 0
IsSafe (pos n) = n < 2 ^ 53
IsSafe (negsuc n) = n + 1 < 2 ^ 53

-- The widths of the Rust types, with a slot and a timestamp that a JavaScript number holds.
pub record IsBridgeDeposit (d : BridgeDeposit) : Type 0 where
  pub transfer_id : length d.transfer_id ≡ 32
  pub sender : length d.sender ≡ 32
  pub recipient_dcc : length d.recipient_dcc ≡ 32
  pub amount : d.amount < 2 ^ 64
  pub nonce : d.nonce < 2 ^ 64
  pub slot : d.slot < 2 ^ 53
  pub timestamp : IsSafe d.timestamp
  pub chain_id : d.chain_id < 2 ^ 32

-- What the watcher makes of a deposit.
abbrev pub observed : (Bytes → JsString) → BridgeDeposit → JsString → SolanaDepositEvent
observed base58 d signature = record {
  transfer_id = hex_encode d.transfer_id;
  sender = base58 d.sender;
  recipient_dcc = hex_encode d.recipient_dcc;
  amount = d.amount;
  nonce = d.nonce;
  slot = d.slot;
  timestamp = d.timestamp;
  chain_id = d.chain_id;
  signature = signature;
  confirmations = pos 0;
}

i64_bits-lt : (z : ℤ) → IsSafe z → i64_bits z < 2 ^ 64
unfolding i64_bits
i64_bits-lt (pos n) h = omega arith
i64_bits-lt (negsuc n) h = omega arith

signed64-i64_bits : (z : ℤ) → IsSafe z → signed64 (i64_bits z) ≡ z
unfolding i64_bits signed64
signed64-i64_bits (pos n) h = ground arith
signed64-i64_bits (negsuc n) h =
    let low : ltb (2 ^ 64 - n - 1) (2 ^ 63) ≡ false = ground arith in
    let back : 2 ^ 64 - (2 ^ 64 - n - 1) - 1 ≡ n = omega arith in rw (low, back) refl

number_of-IsSafe : (z : ℤ) → IsSafe z → number_of z ≡ z
unfolding number_of
number_of-IsSafe (pos n) h = ap pos (to_number_exact n h)
number_of-IsSafe (negsuc n) h = ap negsuc (omega (arith, to_number_exact (n + 1) h))

-- Of every event that the program emits for a native deposit, with a slot and a timestamp below 2^53, the
-- decoder reads exactly the fields: the amount, the nonce and the chain id to the last bit, and the
-- transfer id, the recipient and the sender in their hexadecimal and base58 texts.
pub decode-serialize_bridge_deposit :
    (base58 : Bytes → JsString) (d : BridgeDeposit) (signature : JsString)
    → IsBridgeDeposit d
    → decode_bridge_deposit base58 (serialize_bridge_deposit d) signature
      ≡ some (observed base58 d signature)
unfolding serialize_bridge_deposit
decode-serialize_bridge_deposit base58 d signature v =
    decode_layout laid widths base58 signature
    ∙ rw
        (
          of_le-le_bytes 8 d.amount (omega (arith, v.amount)),
          of_le-le_bytes 8 d.nonce (omega (arith, v.nonce)),
          of_le-le_bytes 8 d.slot (omega (arith, v.slot)),
          of_le-le_bytes 8 (i64_bits d.timestamp)
              (omega (arith, i64_bits-lt d.timestamp v.timestamp)),
          of_le-le_bytes 4 d.chain_id (omega (arith, v.chain_id)),
          to_number_exact d.slot v.slot,
          signed64-i64_bits d.timestamp v.timestamp,
          number_of-IsSafe d.timestamp v.timestamp,
        )
        refl
  where
    laid : Layout
    laid = record {
      id = d.transfer_id;
      sender = d.sender;
      recipient = d.recipient_dcc;
      amount = le_bytes 8 d.amount;
      nonce = le_bytes 8 d.nonce;
      slot = le_bytes 8 d.slot;
      timestamp = le_bytes 8 (i64_bits d.timestamp);
      chain = le_bytes 4 d.chain_id;
      rest = [];
    }

    widths : HasLayoutWidths laid
    widths = record {
      id = v.transfer_id;
      sender = v.sender;
      recipient = v.recipient_dcc;
      amount = length-le_bytes 8 d.amount;
      nonce = length-le_bytes 8 d.nonce;
      slot = length-le_bytes 8 d.slot;
      timestamp = length-le_bytes 8 (i64_bits d.timestamp);
      chain = length-le_bytes 4 d.chain_id;
    }
