-- ===== src/Submission/Signing.antt =====
-- Which message the validators have signed, and which one the chains verify: the canonical message of
-- validator/src/consensus/engine.ts, the unlock message of validator/src/main.ts and of
-- programs/sol-bridge-lock/src/instructions/unlock.rs, and the mint message of
-- dcc-contracts/bridge-controller/bridge_controller.ride.
use sol_gateway_dcc.Base.{
  ℕ, ◌%◌, ◌^◌, ◌<◌, ◌≡◌, ◌≢◌, refl, sym, ap, ◌∙◌, Option, some, get_elem?, ◌++◌, ◌↔◌, ◌⊎◌, inl, inr,
  true, false, nat_eqb, nat_eqb_iff, Bool-cases, if_cases, replicate, append_split,
  append_cancel_left, arith, JsString, codes, length, All, All-mono,
}
use sol_gateway_dcc.Base.Int.{pos}
use sol_gateway_dcc.Js.Bytes.{Bytes, le_bytes, utf8, copy_into, copy_into_exact, length-copy_into}
use sol_gateway_dcc.Consensus.Message.{
  AttestationRequest, TransferKind, mint, unlock, construct_canonical_message,
}
use sol_gateway_dcc.Consensus.Engine.{ConsensusResult}
use sol_gateway_dcc.Consensus.Quorum.{HasQuorum}
use sol_gateway_dcc.Consensus.Binding.{construct-Parts}
use sol_gateway_dcc.Submission.Unlock.{UnlockParamsInput, unlock_message, int64_bits, field32}

-- construct_unlock_message of the Solana program, over its fixed-width arguments.
pub construct_unlock_message : Bytes → Bytes → ℕ → Bytes → ℕ → ℕ → Bytes
construct_unlock_message transfer_id recipient amount burn_tx_hash chain expiration =
    utf8 (codes "SOL_DCC_BRIDGE_UNLOCK_V1")
    ++ (transfer_id
        ++ (recipient
            ++ (le_bytes 8 amount
                ++ (burn_tx_hash ++ (le_bytes 4 chain ++ le_bytes 8 expiration)))))

-- The validator's message in the fields that it takes, for numbers that fit the program's types.
unlock_message-fields :
    (p : UnlockParamsInput) (amount : ℕ)
    → p.amount ≡ pos amount
    → amount < 2 ^ 64
    → p.dcc_chain_id < 2 ^ 32
    → p.expiration < 2 ^ 63
    → unlock_message p
      ≡ construct_unlock_message
          (field32 p.transfer_id)
          p.recipient
          amount
          (field32 p.burn_tx_hash)
          p.dcc_chain_id
          p.expiration
unfolding unlock_message construct_unlock_message
unlock_message-fields p amount same a c x =
    let bits : int64_bits p.amount ≡ amount = rw same (unfold int64_bits in (omega arith)) in
    let expiry : int64_bits (pos p.expiration) ≡ p.expiration =
      unfold int64_bits in (omega arith) in
    let chain : p.dcc_chain_id % 2 ^ 32 ≡ p.dcc_chain_id = omega arith in
    rw (bits, expiry, chain) refl

length-field32 : (b : Bytes) → length (field32 b) ≡ 32
unfolding field32
length-field32 b =
    if_cases (λ (bs : Bytes). length bs ≡ 32) (nat_eqb (length b) 32) _ _
      (λ q. (nat_eqb_iff (length b) 32).0 q) (λ q. refl)

-- The message determines its two fields of 32 bytes.
construct-eq-parts :
    (i i' r h h' : Bytes) (amount chain expiration : ℕ)
    → length i ≡ length i'
    → length h ≡ length h'
    → construct_unlock_message i r amount h chain expiration
      ≡ construct_unlock_message i' r amount h' chain expiration
    → (i ≡ i') × (h ≡ h')
unfolding construct_unlock_message
construct-eq-parts i i' r h h' amount chain expiration li lh e =
    let (same, rest) =
      append_split i i' _ _ li
        (append_cancel_left (utf8 (codes "SOL_DCC_BRIDGE_UNLOCK_V1")) _ _ e) in
    let later = append_cancel_left (le_bytes 8 amount) _ _ (append_cancel_left r _ _ rest) in
    (same, (append_split h h' _ _ lh later).0)

-- An id of 32 bytes, or one that is cut and filled to 32 zeros.
abbrev pub IsKeptId : Bytes → Type 0
IsKeptId b = (length b ≡ 32) ⊎ (copy_into 32 b ≡ replicate 32 0)

field32_exact : (b : Bytes) → length b ≡ 32 → field32 b ≡ copy_into 32 b
unfolding field32
field32_exact b h =
    let test : nat_eqb (length b) 32 ≡ true = ground (arith, h) in
    rw (test, copy_into_exact 32 b h) refl

field32_other : (b : Bytes) → nat_eqb (length b) 32 ≡ false → field32 b ≡ replicate 32 0
unfolding field32
field32_other b h = rw h refl

field32-copy_into : (b : Bytes) → (field32 b ≡ copy_into 32 b) ↔ IsKeptId b
field32-copy_into b = elim (Bool-cases (nat_eqb (length b) 32)) [
  | inl exact ↦
      let h = (nat_eqb_iff (length b) 32).0 exact in ((λ e. inl h), λ k. field32_exact b h)
  | inr other ↦ (
    (λ e. inr (sym e ∙ field32_other b other)),
    λ k. elim k [ inl h ↦ field32_exact b h | inr zeros ↦ field32_other b other ∙ sym zeros ],
  )
]

-- The program has the first 32 bytes of each id, filled with zeros, from the data of the instruction (see Borsh). Where
-- the numbers fit its types, the message that the Ed25519 instructions are to verify is the one that the program
-- rebuilds exactly when each of the two ids has 32 bytes, or is cut and filled to 32 zeros.
pub unlock_message-construct_iff :
    (p : UnlockParamsInput) (amount : ℕ)
    → p.amount ≡ pos amount
    → amount < 2 ^ 64
    → p.dcc_chain_id < 2 ^ 32
    → p.expiration < 2 ^ 63
    → (unlock_message p
        ≡ construct_unlock_message
            (copy_into 32 p.transfer_id)
            p.recipient
            amount
            (copy_into 32 p.burn_tx_hash)
            p.dcc_chain_id
            p.expiration)
      ↔ (IsKeptId p.transfer_id × IsKeptId p.burn_tx_hash)
unlock_message-construct_iff p amount same a c x =
    let fields = unlock_message-fields p amount same a c x in
    let id = field32-copy_into p.transfer_id in
    let hash = field32-copy_into p.burn_tx_hash in
    (
      (λ e.
          let (ids, hashes) =
            construct-eq-parts _ _ p.recipient _ _ amount p.dcc_chain_id p.expiration
              (length-field32 p.transfer_id ∙ sym (length-copy_into 32 p.transfer_id))
              (length-field32 p.burn_tx_hash ∙ sym (length-copy_into 32 p.burn_tx_hash))
              (sym fields ∙ e) in
          (id.0 ids, hash.0 hashes)),
      λ (kept, kept').
          fields
          ∙ ap
              (λ i.
                construct_unlock_message i p.recipient amount (field32 p.burn_tx_hash)
                  p.dcc_chain_id p.expiration)
              (id.1 kept)
          ∙ ap
              (λ h.
                construct_unlock_message (copy_into 32 p.transfer_id) p.recipient amount h
                  p.dcc_chain_id p.expiration)
              (hash.1 kept'),
    )

-- "V" and "U", the sixteenth bytes.
letters_apart : ◌≢◌ {A = Option ℕ} (some 86) (some 85)
letters_apart e = ground arith

-- No request has the unlock message for its canonical message.
canonical-ne-unlock_message :
    (r : AttestationRequest) (p : UnlockParamsInput) (m : Bytes)
    → construct_canonical_message r ≡ some m
    → m ≢ unlock_message p
unfolding unlock_message utf8
canonical-ne-unlock_message r p m h e =
    let v = construct-Parts r m h in
    letters_apart (ap (λ (bs : Bytes). get_elem? bs 15) (sym v.joined ∙ e))

-- The text of constructLegacyMintMessage from its transfer id on.
abbrev pub legacy_mint_message : JsString → JsString
legacy_mint_message rest = codes "SOL_DCC_BRIDGE_V1|MINT|" ++ rest

canonical-ne-mint_message :
    (k : TransferKind) (r : AttestationRequest) (rest : JsString) (m : Bytes)
    → r.kind ≡ k
    → construct_canonical_message r ≡ some m
    → m ≢ utf8 (legacy_mint_message rest)
unfolding utf8
canonical-ne-mint_message mint r rest m kind h e =
    let v = construct-Parts r m h in let clash = sym v.joined ∙ e in ground (arith, kind, clash)
canonical-ne-mint_message unlock r rest m kind h e =
    let v = construct-Parts r m h in let clash = sym v.joined ∙ e in ground (arith, kind, clash)

-- In a quorum that consensus reached, every attestation is of another message than the one that the Ed25519
-- instructions of its unlock verify, and of another than any that the DCC contract's `mint` verifies.
pub quorum-ne-verified_messages :
    (required : ℕ) (r : ConsensusResult) (p : UnlockParamsInput) (rest : JsString)
    → HasQuorum required r
    → All
        (λ a.
          (a.message_hash ≢ unlock_message p) × (a.message_hash ≢ utf8 (legacy_mint_message rest)))
        r.attestations
quorum-ne-verified_messages required r p rest q =
    All-mono _ _
      (λ a (_, same). (
        (λ e. canonical-ne-unlock_message q.request p q.message q.canonical (sym same ∙ e)),
        (λ e.
            canonical-ne-mint_message q.request.kind q.request rest q.message refl q.canonical
              (sym same ∙ e)),
      ))
      r.attestations q.signed
