-- ===== src/SolanaWatcher/Layout.antt =====
-- What the watcher reads from the events of programs/sol-bridge-lock/src/events.rs. An event's data is its
-- fields in order, in Borsh's fixed-width layout, behind a discriminator that the watcher skips.
use sol_gateway_dcc.Base.{
  ℕ, zero, suc, ◌+◌, ◌≡◌, ap, ◌∙◌, some, [], ◌∷◌, ◌++◌, arith, JsString, false, ltb, length, take,
  drop, length-append, take-append_length,
}
use sol_gateway_dcc.Base.Int.{pos}
use sol_gateway_dcc.Js.Bytes.{Bytes, of_le, to_number, hex_encode}
use sol_gateway_dcc.Events.{SolanaDepositEvent}
use sol_gateway_dcc.SolanaWatcher.Decode.{
  subarray, read_word, signed64, number_of, decode_bridge_deposit,
}

pub drop_past : (xs ys : Bytes) (m n : ℕ) → m ≡ length xs + n → drop m (xs ++ ys) ≡ drop n ys
drop_past [] ys m n e = let same : m ≡ n = omega arith in ap (λ k. drop k ys) same
drop_past (x ∷ xs) ys zero n e = absurd (omega arith)
drop_past (x ∷ xs) ys (suc m) n e = drop_past xs ys m n (omega arith)

-- Reading past a part, and reading the part at hand.
pub read_word_past :
    (w m n : ℕ) (xs ys : Bytes) → m ≡ length xs + n → read_word w m (xs ++ ys) ≡ read_word w n ys
unfolding read_word
read_word_past w m n xs ys e = ground (arith, drop_past xs ys m n e, length-append xs ys)

pub read_word_here :
    (w : ℕ) (xs ys : Bytes) → length xs ≡ w → read_word w 0 (xs ++ ys) ≡ some (of_le xs)
unfolding read_word
read_word_here w xs ys e = ground (arith, take-append_length w xs ys e, length-append xs ys)

subarray_past :
    (w m n : ℕ) (xs ys : Bytes) → m ≡ length xs + n → subarray m w (xs ++ ys) ≡ subarray n w ys
subarray_past w m n xs ys e = ap (take w) (drop_past xs ys m n e)

-- Three fields of 32 bytes, four words of 8, one of 4, and whatever follows.
pub record Layout : Type 0 where
  pub id : Bytes
  pub sender : Bytes
  pub recipient : Bytes
  pub amount : Bytes
  pub nonce : Bytes
  pub slot : Bytes
  pub timestamp : Bytes
  pub chain : Bytes
  pub rest : Bytes

pub record HasLayoutWidths (l : Layout) : Type 0 where
  pub id : length l.id ≡ 32
  pub sender : length l.sender ≡ 32
  pub recipient : length l.recipient ≡ 32
  pub amount : length l.amount ≡ 8
  pub nonce : length l.nonce ≡ 8
  pub slot : length l.slot ≡ 8
  pub timestamp : length l.timestamp ≡ 8
  pub chain : length l.chain ≡ 4

abbrev pub tail_of : Layout → Bytes
tail_of l = l.amount ++ (l.nonce ++ (l.slot ++ (l.timestamp ++ (l.chain ++ l.rest))))

abbrev pub bytes_of : Layout → Bytes
bytes_of l = l.id ++ (l.sender ++ (l.recipient ++ tail_of l))

abbrev pub event_of : (Bytes → JsString) → Layout → JsString → SolanaDepositEvent
event_of base58 l signature = record {
  transfer_id = hex_encode l.id;
  sender = base58 l.sender;
  recipient_dcc = hex_encode l.recipient;
  amount = of_le l.amount;
  nonce = of_le l.nonce;
  slot = to_number (of_le l.slot);
  timestamp = number_of (signed64 (of_le l.timestamp));
  chain_id = of_le l.chain;
  signature = signature;
  confirmations = pos 0;
}

module _ (l : Layout) (v : HasLayoutWidths l) where
  word_at : (w n : ℕ) → read_word w (96 + n) (bytes_of l) ≡ read_word w n (tail_of l)
  word_at w n =
      read_word_past w (96 + n) (64 + n) l.id _ (omega (arith, v.id))
      ∙ read_word_past w (64 + n) (32 + n) l.sender _ (omega (arith, v.sender))
      ∙ read_word_past w (32 + n) n l.recipient _ (omega (arith, v.recipient))

  amount_at : read_word 8 96 (bytes_of l) ≡ some (of_le l.amount)
  amount_at = word_at 8 0 ∙ read_word_here 8 l.amount _ v.amount

  nonce_at : read_word 8 104 (bytes_of l) ≡ some (of_le l.nonce)
  nonce_at =
      word_at 8 8
      ∙ read_word_past 8 8 0 l.amount _ (omega (arith, v.amount))
      ∙ read_word_here 8 l.nonce _ v.nonce

  slot_at : read_word 8 112 (bytes_of l) ≡ some (of_le l.slot)
  slot_at =
      word_at 8 16
      ∙ read_word_past 8 16 8 l.amount _ (omega (arith, v.amount))
      ∙ read_word_past 8 8 0 l.nonce _ (omega (arith, v.nonce))
      ∙ read_word_here 8 l.slot _ v.slot

  timestamp_at : read_word 8 120 (bytes_of l) ≡ some (of_le l.timestamp)
  timestamp_at =
      word_at 8 24
      ∙ read_word_past 8 24 16 l.amount _ (omega (arith, v.amount))
      ∙ read_word_past 8 16 8 l.nonce _ (omega (arith, v.nonce))
      ∙ read_word_past 8 8 0 l.slot _ (omega (arith, v.slot))
      ∙ read_word_here 8 l.timestamp _ v.timestamp

  chain_at : read_word 4 128 (bytes_of l) ≡ some (of_le l.chain)
  chain_at =
      word_at 4 32
      ∙ read_word_past 4 32 24 l.amount _ (omega (arith, v.amount))
      ∙ read_word_past 4 24 16 l.nonce _ (omega (arith, v.nonce))
      ∙ read_word_past 4 16 8 l.slot _ (omega (arith, v.slot))
      ∙ read_word_past 4 8 0 l.timestamp _ (omega (arith, v.timestamp))
      ∙ read_word_here 4 l.chain _ v.chain

  sender_at : subarray 32 32 (bytes_of l) ≡ l.sender
  sender_at =
      subarray_past 32 32 0 l.id _ (omega (arith, v.id)) ∙ take-append_length 32 l.sender _ v.sender

  recipient_at : subarray 64 32 (bytes_of l) ≡ l.recipient
  recipient_at =
      subarray_past 32 64 32 l.id _ (omega (arith, v.id))
      ∙ subarray_past 32 32 0 l.sender _ (omega (arith, v.sender))
      ∙ take-append_length 32 l.recipient _ v.recipient

  id_at : subarray 0 32 (bytes_of l) ≡ l.id
  id_at = take-append_length 32 l.id _ v.id

  long_enough : ltb (length (bytes_of l)) 120 ≡ false
  long_enough = ground (
    arith,
    length-append l.id (l.sender ++ (l.recipient ++ tail_of l)),
    length-append l.sender (l.recipient ++ tail_of l),
    length-append l.recipient (tail_of l),
    length-append l.amount (l.nonce ++ (l.slot ++ (l.timestamp ++ (l.chain ++ l.rest)))),
    length-append l.nonce (l.slot ++ (l.timestamp ++ (l.chain ++ l.rest))),
    length-append l.slot (l.timestamp ++ (l.chain ++ l.rest)),
    v.id,
    v.sender,
    v.recipient,
    v.amount,
    v.nonce,
    v.slot,
    v.timestamp,
    v.chain,
    length-append l.timestamp (l.chain ++ l.rest),
    length-append l.chain l.rest,
  )

  pub decode_layout :
      (base58 : Bytes → JsString) (signature : JsString)
      → decode_bridge_deposit base58 (bytes_of l) signature ≡ some (event_of base58 l signature)
  unfolding decode_bridge_deposit
  decode_layout base58 signature = rw (
    long_enough, amount_at, nonce_at, slot_at, timestamp_at, chain_at, id_at, sender_at,
    recipient_at,
  )
