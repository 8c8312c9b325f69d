-- ===== src/Submission/Borsh.antt =====
-- The layout that the Solana program reads: programs/sol-bridge-lock/src/instructions/unlock.rs,
-- UnlockParams and ValidatorAttestation.
use sol_gateway_dcc.Base.{
  ◌>>=◌, ℕ, zero, suc, ◌^◌, ◌<◌, ◌≡◌, refl, Option, none, some, List, [], ◌∷◌, ◌++◌, map, arith,
  leb, if◌then◌else◌, length, take, drop, length-append, take-append_length, drop-append_length,
}
use mathlib.Core.List.{append_assoc}
use sol_gateway_dcc.Base.Int.{ℤ, pos, negsuc}
use sol_gateway_dcc.Js.Bytes.{
  Bytes, le_bytes, of_le, length-le_bytes, of_le-le_bytes, copy_into, length-copy_into, write_u64,
  write_u32, write_i64,
}
use sol_gateway_dcc.Consensus.Engine.{Attestation}
use sol_gateway_dcc.Submission.Unlock.{UnlockParamsInput, serialize_all, serialize_unlock_params}

pub record ValidatorAttestation : Type 0 where
  pub validator : Bytes
  pub signature : Bytes

pub record UnlockParams : Type 0 where
  pub transfer_id : Bytes
  pub recipient : Bytes
  pub amount : ℕ
  pub burn_tx_hash : Bytes
  pub dcc_chain_id : ℕ
  pub expiration : ℕ
  pub attestations : List ValidatorAttestation

-- The next `n` bytes, and the rest.
read : ℕ → Bytes → Option (Bytes × Bytes)
read n bs = if leb n (length bs) then some (take n bs, drop n bs) else none

read_attestations : ℕ → Bytes → Option (List ValidatorAttestation × Bytes)
unfolding read
read_attestations zero bs = some ([], bs)
read_attestations (suc n) bs = read 32 bs >>= λ (validator, bs). read 64 bs >>= λ (signature, bs).
    read_attestations n bs >>= λ (rest, bs).
    some (record { validator = validator; signature = signature } ∷ rest, bs)

unfoldable pub deserialize : Bytes → Option (UnlockParams × Bytes)
unfolding read read_attestations
deserialize bs = read 32 bs >>= λ (transfer_id, bs). read 32 bs >>= λ (recipient, bs).
    read 8 bs >>= λ (amount, bs). read 32 bs >>= λ (burn_tx_hash, bs). read 4 bs >>= λ (chain, bs).
    read 8 bs >>= λ (expiration, bs). read 4 bs >>= λ (count, bs).
    read_attestations (of_le count) bs >>= λ (attestations, bs). some (
      record {
        transfer_id = transfer_id;
        recipient = recipient;
        amount = of_le amount;
        burn_tx_hash = burn_tx_hash;
        dcc_chain_id = of_le chain;
        expiration = of_le expiration;
        attestations = attestations;
      },
      bs,
    )

read-append : (n : ℕ) (xs ys : Bytes) → length xs ≡ n → read n (xs ++ ys) ≡ some (xs, ys)
unfolding read
read-append n xs ys h =
    ground (arith, length-append xs ys, take-append_length n xs ys h, drop-append_length n xs ys h)

-- What is read back from an attestation.
abbrev pub validator_of : Attestation → ValidatorAttestation
validator_of a = record {
  validator = copy_into 32 a.public_key;
  signature = copy_into 64 a.signature;
}

read_attestations-serialize_all :
    (as' : List Attestation) (rest : Bytes)
    → read_attestations (length as') (serialize_all as' ++ rest) ≡ some (map validator_of as', rest)
unfolding read_attestations serialize_all
read_attestations-serialize_all [] rest = refl
read_attestations-serialize_all (a ∷ as') rest = simp append_assoc (
    rw (read-append 32 (copy_into 32 a.public_key) _ (length-copy_into 32 a.public_key)) (
      rw (read-append 64 (copy_into 64 a.signature) _ (length-copy_into 64 a.signature))
        (rw (read_attestations-serialize_all as' rest))))

-- What the program reads back.
abbrev pub params_of : UnlockParamsInput → ℕ → UnlockParams
params_of p amount = record {
  transfer_id = copy_into 32 p.transfer_id;
  recipient = p.recipient;
  amount = amount;
  burn_tx_hash = copy_into 32 p.burn_tx_hash;
  dcc_chain_id = p.dcc_chain_id;
  expiration = p.expiration;
  attestations = map validator_of p.attestations;
}

-- The parts of a serialization.
record Written (p : UnlockParamsInput) (bs : Bytes) : Type 0 where
  amount : ℕ
  same_amount : p.amount ≡ pos amount
  amount_fits : amount < 2 ^ 64
  chain_fits : p.dcc_chain_id < 2 ^ 32
  expiration_fits : p.expiration < 2 ^ 63
  count_fits : length p.attestations < 2 ^ 32
  joined :
      bs
      ≡ copy_into 32 p.transfer_id
        ++ (p.recipient
            ++ (le_bytes 8 amount
                ++ (copy_into 32 p.burn_tx_hash
                    ++ (le_bytes 4 p.dcc_chain_id
                        ++ (le_bytes 8 p.expiration
                            ++ (le_bytes 4 (length p.attestations)
                                ++ serialize_all p.attestations))))))

serialize-Written :
    (p : UnlockParamsInput) (z : ℤ) (bs : Bytes)
    → p.amount ≡ z
    → serialize_unlock_params p ≡ some bs
    → Written p bs
unfolding serialize_unlock_params write_u64 write_u32 write_i64
serialize-Written p (negsuc n) bs e h = absurd (ground arith)
serialize-Written p (pos n) bs e h = record {
  amount = n;
  same_amount = e;
  amount_fits = ground arith;
  chain_fits = ground arith;
  expiration_fits = ground arith;
  count_fits = ground arith;
  joined = ground arith;
}

deserialize_joined :
    (p : UnlockParamsInput) (amount : ℕ) (rest : Bytes)
    → length p.recipient ≡ 32
    → amount < 2 ^ 64
    → p.dcc_chain_id < 2 ^ 32
    → p.expiration < 2 ^ 63
    → length p.attestations < 2 ^ 32
    → deserialize (
        copy_into 32 p.transfer_id
        ++ (p.recipient
            ++ (le_bytes 8 amount
                ++ (copy_into 32 p.burn_tx_hash
                    ++ (le_bytes 4 p.dcc_chain_id
                        ++ (le_bytes 8 p.expiration
                            ++ (le_bytes 4 (length p.attestations)
                                ++ (serialize_all p.attestations ++ rest))))))))
      ≡ some (params_of p amount, rest)
unfolding deserialize
deserialize_joined p amount rest wide a c x n =
    rw (read-append 32 (copy_into 32 p.transfer_id) _ (length-copy_into 32 p.transfer_id)) (
      rw (read-append 32 p.recipient _ wide) (
        rw (read-append 8 (le_bytes 8 amount) _ (length-le_bytes 8 amount)) (
          rw (read-append 32 (copy_into 32 p.burn_tx_hash) _ (length-copy_into 32 p.burn_tx_hash)) (
            rw (read-append 4 (le_bytes 4 p.dcc_chain_id) _ (length-le_bytes 4 p.dcc_chain_id)) (
              rw (read-append 8 (le_bytes 8 p.expiration) _ (length-le_bytes 8 p.expiration)) (
                rw
                  (read-append 4 (le_bytes 4 (length p.attestations)) _
                    (length-le_bytes 4 (length p.attestations)))
                  (rw (
                    of_le-le_bytes 4 (length p.attestations) n,
                    read_attestations-serialize_all p.attestations rest,
                    of_le-le_bytes 8 amount a,
                    of_le-le_bytes 4 p.dcc_chain_id c,
                    of_le-le_bytes 8 p.expiration (omega arith),
                  ))))))))

-- The Solana program reads back what the validator wrote: where the recipient's key has 32 bytes and no
-- write is out of range, decoding the unlock parameters by the program's layout gives every field, the
-- transfer id and burn hash cut or zero-filled to 32 bytes, each validator key to 32 and each signature
-- to 64, and leaves what follows untouched.
pub deserialize-serialize :
    (p : UnlockParamsInput) (bs rest : Bytes)
    → length p.recipient ≡ 32
    → serialize_unlock_params p ≡ some bs
    → (amount : ℕ) × (p.amount ≡ pos amount)
      × (deserialize (bs ++ rest) ≡ some (params_of p amount, rest))
deserialize-serialize p bs rest wide h =
    let w = serialize-Written p p.amount bs refl h in
    (
      w.amount,
      w.same_amount,
      rw (w.joined) (
          simp append_assoc (
            deserialize_joined p w.amount rest wide w.amount_fits w.chain_fits w.expiration_fits
              w.count_fits)),
    )
