-- ===== src/Api/Accepted.antt =====
-- What the deposit route accepts, and what becomes of it.
use sol_gateway_dcc.Base.{
  ℕ, ◌*◌, ◌^◌, ◌≤◌, ◌≡◌, Bool, true, false, Option, none, some, arith, str_eq, Bool-cases, inl, inr,
}
use sol_gateway_dcc.Js.Bytes.{Bytes, utf8, hex_encode, copy_into}
use sol_gateway_dcc.Api.Addresses.{is_valid_dcc_address}
use sol_gateway_dcc.Api.Requests.{
  Amounts, Web3, Settings, ok, is_paused, encode_recipient, DepositRequest, DepositInstruction,
  is_deposit_request, build_deposit, deposit_from, deposit,
}

-- What is known of an accepted request and its instruction.
pub record IsAccepted (n : Amounts) (env : Settings) (paused : Option Bool)
    (r : DepositRequest n.Amount) (i : DepositInstruction) : Type 0 where
  pub address_ok : is_valid_dcc_address r.recipient_dcc ≡ true
  pub not_paused : is_paused env.bridge_contract paused ≡ false
  pub positive : n.is_positive r.amount ≡ true
  pub bounded : i.amount ≤ 1000 * 10 ^ 9
  pub same_amount : i.amount ≡ n.floor_times r.amount (10 ^ 9)
  pub field : i.recipient_dcc ≡ hex_encode (copy_into 32 (utf8 r.recipient_dcc))

module _ (n : Amounts) (web3 : Web3) (env : Settings) (paused : Option Bool) (slot : Option ℕ)
    (r : DepositRequest n.Amount) (i : DepositInstruction) where
  request_bounds :
      is_deposit_request n r ≡ true
      → (n.is_positive r.amount ≡ true) × (n.at_most r.amount 1000 ≡ true)
  unfolding is_deposit_request
  request_bounds h = (ground (arith, h), ground (arith, h))

  build-ok :
      (sender : Bytes) (program : Option Bytes) (at : Option ℕ)
      → build_deposit n web3 r sender program at ≡ ok i
      → (i.amount ≡ n.floor_times r.amount (10 ^ 9))
        × (i.recipient_dcc ≡ encode_recipient r.recipient_dcc)
  unfolding build_deposit
  build-ok sender none at h = cc
  build-ok sender (some p) none h = cc
  build-ok sender (some p) (some s) h = (ground (arith, h), ground (arith, h))

  from-ok :
      (sender : Option Bytes)
      → deposit_from n web3 env paused slot r sender ≡ ok i
      → (is_valid_dcc_address r.recipient_dcc ≡ true)
        × (is_paused env.bridge_contract paused ≡ false)
        × ((i.amount ≡ n.floor_times r.amount (10 ^ 9))
            × (i.recipient_dcc ≡ encode_recipient r.recipient_dcc))
  unfolding deposit_from
  from-ok none h = absurd (ground (arith, h))
  from-ok (some sender) h = elim (Bool-cases (is_valid_dcc_address r.recipient_dcc)) [
    | inl valid ↦ elim (Bool-cases (is_paused env.bridge_contract paused)) [
      | inl stopped ↦ let k = rw (valid, stopped) at h in absurd (ground (arith, k))
      | inr open_bridge ↦ (
        valid,
        open_bridge,
        build-ok sender (web3.public_key env.program_id) slot (rw (valid, open_bridge) at h),
      )
    ]
    | inr other ↦ let k = rw other at h in absurd (ground (arith, k))
  ]

  -- A deposit request that the API accepts has a valid DCC address for its recipient and a positive amount, and was
  -- not known to meet a paused bridge. Its instruction has Math.floor(amount * 10^9) lamports, at most those of
  -- 1000 SOL, and for its recipient the first 32 bytes of the address in hexadecimal.
  pub deposit-IsAccepted : deposit n web3 env paused slot r ≡ ok i → IsAccepted n env paused r i
  unfolding deposit encode_recipient
  deposit-IsAccepted h = elim (Bool-cases (is_deposit_request n r)) [
    | inl good ↦
        let (valid, open_bridge, parts) = from-ok (web3.public_key r.sender) (rw good at h) in
        let bounds = request_bounds good in
        record {
          address_ok = valid;
          not_paused = open_bridge;
          positive = bounds.0;
          bounded = rw parts.0 (n.floor_bound r.amount 1000 (10 ^ 9) (omega arith) bounds.1);
          same_amount = parts.0;
          field = parts.1;
        }
    | inr other ↦ let k = rw other at h in absurd (ground (arith, k))
  ]
