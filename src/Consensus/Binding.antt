-- ===== src/Consensus/Binding.antt =====
-- What the canonical message binds.
use sol_gateway_dcc.Base.{
  ℕ, ◌+◌, ◌^◌, ◌<◌, ◌≡◌, sym, ap, ◌∙◌, inl, inr, some, ◌++◌, arith, length, length-append,
  append_split, append_cancel_left, Option-cases,
}
use sol_gateway_dcc.Base.Int.{pos}
use sol_gateway_dcc.Js.Bytes.{
  Bytes, le_bytes, length-le_bytes, le_bytes-injective, write_u64, write_u32, hex_decode, utf8,
}
use sol_gateway_dcc.Events.{SolanaDepositEvent}
use sol_gateway_dcc.Consensus.Message.{
  AttestationRequest, deposit_request, mint, construct_canonical_message, event_fields, mint_fields,
  domain_separator, kind_prefix, uint64_to_buffer,
}

write_u64_pos :
    (n : ℕ) {bs : Bytes} → write_u64 (pos n) ≡ some bs → (n < 2 ^ 64) × (bs ≡ le_bytes 8 n)
unfolding write_u64
write_u64_pos n h = (ground arith, ground arith)

-- The parts of a message.
pub record Parts (r : AttestationRequest) (m : Bytes) : Type 0 where
  pub fields : Bytes
  pub made : event_fields r.kind r.event ≡ some fields
  pub fits : r.timestamp < 2 ^ 64
  pub joined :
      m
      ≡ utf8 domain_separator
        ++ (utf8 (kind_prefix r.kind)
            ++ (hex_decode r.transfer_id ++ (fields ++ le_bytes 8 r.timestamp)))

pub construct-Parts :
    (r : AttestationRequest) (m : Bytes) → construct_canonical_message r ≡ some m → Parts r m
unfolding construct_canonical_message uint64_to_buffer
construct-Parts r m h = elim (Option-cases (event_fields r.kind r.event)) [
  | inl failed ↦ absurd (ground arith)
  | inr (fields, made) ↦ elim (Option-cases (write_u64 (pos r.timestamp))) [
    | inl failed ↦ absurd (ground arith)
    | inr (expiry, written) ↦
        let (fits, same) = write_u64_pos r.timestamp written in
        record { fields = fields; made = made; fits = fits; joined = ground arith }
  ]
]

-- Two nodes that see one event but stamp their requests at different times build different messages:
-- requests equal but for the timestamp have equal canonical messages only if the timestamps agree.
pub canonical_message-timestamp :
    (r : AttestationRequest) (t : ℕ) (m : Bytes)
    → construct_canonical_message r ≡ some m
    → construct_canonical_message (record r { timestamp = t }) ≡ some m
    → r.timestamp ≡ t
canonical_message-timestamp r t m h k =
    let p = construct-Parts r m h in
    let q = construct-Parts (record r { timestamp = t }) m k in
    let one_event : q.fields ≡ p.fields = ground (arith, p.made, q.made) in
    let same : utf8 domain_separator
          ++ (utf8 (kind_prefix r.kind)
              ++ (hex_decode r.transfer_id ++ (p.fields ++ le_bytes 8 r.timestamp)))
        ≡ utf8 domain_separator
          ++ (utf8 (kind_prefix r.kind)
              ++ (hex_decode r.transfer_id ++ (p.fields ++ le_bytes 8 t))) =
      sym p.joined ∙ (rw one_event at q.joined) in
    le_bytes-injective 8 r.timestamp t p.fits q.fits (
      append_cancel_left p.fields _ _ (
        append_cancel_left (hex_decode r.transfer_id) _ _ (
          append_cancel_left (utf8 (kind_prefix r.kind)) _ _
            (append_cancel_left (utf8 domain_separator) _ _ same))))

-- The fields of a mint's message.
record MintFields (e : SolanaDepositEvent) (bs : Bytes) : Type 0 where
  amount_fits : e.amount < 2 ^ 64
  nonce_fits : e.nonce < 2 ^ 64
  slot_fits : e.slot < 2 ^ 64
  chain_fits : e.chain_id < 2 ^ 32
  joined :
      bs
      ≡ utf8 e.sender
        ++ (hex_decode e.recipient_dcc
            ++ (le_bytes 8 e.amount
                ++ (le_bytes 8 e.nonce ++ (le_bytes 8 e.slot ++ le_bytes 4 e.chain_id))))

fields-MintFields :
    (e : SolanaDepositEvent) (bs : Bytes) → mint_fields e ≡ some bs → MintFields e bs
unfolding mint_fields write_u64 write_u32
fields-MintFields e bs h = record {
  amount_fits = ground arith;
  nonce_fits = ground arith;
  slot_fits = ground arith;
  chain_fits = ground arith;
  joined = ground arith;
}

-- What a decoded deposit has: 32 bytes of transfer id and of recipient.
pub record HasWidths (e : SolanaDepositEvent) : Type 0 where
  pub id_width : length (hex_decode e.transfer_id) ≡ 32
  pub recipient_width : length (hex_decode e.recipient_dcc) ≡ 32

-- The same content, as far as the message shows it.
pub record SameDeposit (d e : SolanaDepositEvent) : Type 0 where
  pub id : hex_decode d.transfer_id ≡ hex_decode e.transfer_id
  pub sender : utf8 d.sender ≡ utf8 e.sender
  pub recipient : hex_decode d.recipient_dcc ≡ hex_decode e.recipient_dcc
  pub amount : d.amount ≡ e.amount
  pub nonce : d.nonce ≡ e.nonce
  pub slot : d.slot ≡ e.slot
  pub chain : d.chain_id ≡ e.chain_id

length-MintFields :
    (e : SolanaDepositEvent) (bs : Bytes)
    → HasWidths e
    → MintFields e bs
    → length bs ≡ length (utf8 e.sender) + 60
length-MintFields e bs w v = omega (
  arith,
  w.recipient_width,
  ap length v.joined,
  length-append {0},
  length-le_bytes 8 e.amount,
  length-le_bytes 8 e.nonce,
  length-le_bytes 8 e.slot,
  length-le_bytes 4 e.chain_id,
)

MintFields-SameDeposit :
    (d e : SolanaDepositEvent) (bs : Bytes)
    → HasWidths d
    → HasWidths e
    → hex_decode d.transfer_id ≡ hex_decode e.transfer_id
    → MintFields d bs
    → MintFields e bs
    → SameDeposit d e
MintFields-SameDeposit d e bs wd we id v w =
    let (sender, s1) =
      append_split (utf8 d.sender) (utf8 e.sender) _ _
        (omega (arith, length-MintFields d bs wd v, length-MintFields e bs we w))
        (sym v.joined ∙ w.joined) in
    let (recipient, s2) =
      append_split (hex_decode d.recipient_dcc) (hex_decode e.recipient_dcc) _ _
        (omega (arith, wd.recipient_width, we.recipient_width)) s1 in
    let (amount, s3) =
      append_split (le_bytes 8 d.amount) (le_bytes 8 e.amount) _ _
        (omega (arith, length-le_bytes 8 d.amount, length-le_bytes 8 e.amount)) s2 in
    let (nonce, s4) =
      append_split (le_bytes 8 d.nonce) (le_bytes 8 e.nonce) _ _
        (omega (arith, length-le_bytes 8 d.nonce, length-le_bytes 8 e.nonce)) s3 in
    let (slot, chain) =
      append_split (le_bytes 8 d.slot) (le_bytes 8 e.slot) _ _
        (omega (arith, length-le_bytes 8 d.slot, length-le_bytes 8 e.slot)) s4 in
    record {
      id = id;
      sender = sender;
      recipient = recipient;
      amount = le_bytes-injective 8 _ _ v.amount_fits w.amount_fits amount;
      nonce = le_bytes-injective 8 _ _ v.nonce_fits w.nonce_fits nonce;
      slot = le_bytes-injective 8 _ _ v.slot_fits w.slot_fits slot;
      chain = le_bytes-injective 4 _ _ v.chain_fits w.chain_fits chain;
    }

-- The message of a deposit with a transfer id and a recipient of 32 bytes determines all that it is
-- built from: transfer id, sender, recipient, amount, nonce, slot, chain and timestamp.
pub canonical_message-deposit :
    (d e : SolanaDepositEvent) (t u : ℕ) (m : Bytes)
    → HasWidths d
    → HasWidths e
    → construct_canonical_message (deposit_request d t) ≡ some m
    → construct_canonical_message (deposit_request e u) ≡ some m
    → SameDeposit d e × (t ≡ u)
unfolding deposit_request event_fields
canonical_message-deposit d e t u m wd we h k =
    let v = construct-Parts (deposit_request d t) m h in
    let w = construct-Parts (deposit_request e u) m k in
    let vf = fields-MintFields d v.fields v.made in
    let wf = fields-MintFields e w.fields w.made in
    let (id, rest) =
      append_split (hex_decode d.transfer_id) (hex_decode e.transfer_id) _ _
        (omega (arith, wd.id_width, we.id_width))
        (append_cancel_left (utf8 (kind_prefix mint)) _ _
          (append_cancel_left (utf8 domain_separator) _ _ (sym v.joined ∙ w.joined))) in
    let widths : length v.fields ≡ length w.fields = omega (
      arith,
      ap length rest,
      length-append v.fields (le_bytes 8 t),
      length-append w.fields (le_bytes 8 u),
      length-le_bytes 8 t,
      length-le_bytes 8 u,
    ) in
    let (fields, expiry) = append_split v.fields w.fields _ _ widths rest in
    (
      MintFields-SameDeposit d e w.fields wd we id (rw fields at vf) wf,
      le_bytes-injective 8 t u v.fits w.fits expiry,
    )
