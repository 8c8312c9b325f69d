-- ===== src/SolanaWatcher/Decode.antt =====
-- validator/src/watchers/solana-watcher.ts: parseDepositEvents and decodeBridgeDeposit. `base58` is
-- PublicKey's toBase58 on 32 bytes. `none` stands for null, also where an exception is caught.
use sol_gateway_dcc.Base.{
  ◌>>=◌, ℕ, ◌+◌, ◌-◌, ◌^◌, Option, none, some, List, [], ◌∷◌, JsString, codes, leb, ltb,
  if◌then◌else◌, length, take, drop, get_elem?,
}
use sol_gateway_dcc.Base.Int.{ℤ, pos, negsuc}
use sol_gateway_dcc.Js.Bytes.{Bytes, of_le, to_number, hex_encode}
use sol_gateway_dcc.Js.Text.{includes_text, split, base64_decode}
use sol_gateway_dcc.Events.{SolanaDepositEvent}

-- `data.subarray(first, first + n)`, which stops at the end.
abbrev pub subarray : ℕ → ℕ → Bytes → Bytes
subarray first n bs = take n (drop first bs)

-- `readBigUInt64LE(offset)` and `readUInt32LE(offset)` at a word of `w` bytes: a RangeError past the end.
unfoldable pub read_word : ℕ → ℕ → Bytes → Option ℕ
read_word w offset bs =
    if leb (offset + w) (length bs) then some (of_le (subarray offset w bs)) else none

-- `readBigInt64LE`: two's complement.
unfoldable pub signed64 : ℕ → ℤ
signed64 n = if ltb n (2 ^ 63) then pos n else negsuc (2 ^ 64 - n - 1)

-- `Number` of a bigint.
unfoldable pub number_of : ℤ → ℤ
number_of (pos n) = pos (to_number n)
number_of (negsuc n) = negsuc (to_number (n + 1) - 1)

unfoldable pub decode_bridge_deposit :
    (Bytes → JsString) → Bytes → JsString → Option SolanaDepositEvent
unfolding read_word signed64 number_of
decode_bridge_deposit base58 bytes signature = if ltb (length bytes) 120 then none else do
  amount ← read_word 8 96 bytes
  nonce ← read_word 8 104 bytes
  slot ← read_word 8 112 bytes
  timestamp ← read_word 8 120 bytes
  chain ← read_word 4 128 bytes
  some (record {
    transfer_id = hex_encode (subarray 0 32 bytes);
    sender = base58 (subarray 32 32 bytes);
    recipient_dcc = hex_encode (subarray 64 32 bytes);
    amount = amount;
    nonce = nonce;
    slot = to_number slot;
    timestamp = number_of (signed64 timestamp);
    chain_id = chain;
    signature = signature;
    confirmations = pos 0;
  })

-- The text after the marker, past its eight discriminator bytes; an empty text is passed over.
unfoldable pub parse_data : (Bytes → JsString) → JsString → JsString → Option SolanaDepositEvent
parse_data base58 signature [] = none
parse_data base58 signature (c ∷ s) =
    decode_bridge_deposit base58 (drop 8 (base64_decode (c ∷ s))) signature

-- One line of the log.
unfoldable pub parse_log : (Bytes → JsString) → JsString → JsString → Option SolanaDepositEvent
unfolding parse_data
parse_log base58 signature log =
    if includes_text (codes "Program data:") log
    then get_elem? (split (codes "Program data: ") log) 1 >>= parse_data base58 signature
    else none

unfoldable pub parse_logs : (Bytes → JsString) → JsString → List JsString → List SolanaDepositEvent
unfolding parse_log
parse_logs base58 signature [] = []
parse_logs base58 signature (log ∷ logs) = elim (parse_log base58 signature log) [
  | none ↦ parse_logs base58 signature logs
  | some e ↦ e ∷ parse_logs base58 signature logs
]

-- `logs.logs` may be missing.
unfoldable pub parse_deposit_events :
    (Bytes → JsString) → JsString → Option (List JsString) → List SolanaDepositEvent
unfolding parse_logs
parse_deposit_events base58 signature none = []
parse_deposit_events base58 signature (some logs) = parse_logs base58 signature logs
