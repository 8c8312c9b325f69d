-- ===== src/Api/Minted.antt =====
-- What a decoded deposit is minted to, measured by the API's and the validator's own check of addresses.
use sol_gateway_dcc.Base.{
  >>=-eq-some, ◌≤◌, ◌≡◌, sym, ap, false, Bool-cases, inl, inr, Option, none, some, [], arith,
  JsString, str_eq, ltb, length, take, drop, length-take, length-drop,
}
use sol_gateway_dcc.Js.Bytes.{Bytes, hex_encode, length-hex_encode}
use sol_gateway_dcc.Events.{SolanaDepositEvent}
use sol_gateway_dcc.Consensus.Engine.{ConsensusResult}
use sol_gateway_dcc.Submission.Mint.{MintCall, broadcast, submit_mint_to_dcc}
use sol_gateway_dcc.SolanaWatcher.Decode.{decode_bridge_deposit, read_word}
use sol_gateway_dcc.Api.Addresses.{is_valid_dcc_address}

-- A text of 64 characters is no DCC address.
long-invalid : (s : JsString) → length s ≡ 64 → is_valid_dcc_address s ≡ false
unfolding is_valid_dcc_address
long-invalid s h = ground (arith, h)

submitted_recipient :
    (result : ConsensusResult) (e : SolanaDepositEvent) (c : MintCall)
    → submit_mint_to_dcc result (some e) ≡ broadcast c
    → c.recipient ≡ e.recipient_dcc
unfolding submit_mint_to_dcc
submitted_recipient result e c h = ground (arith, h)

abbrev recipient_of : Option SolanaDepositEvent → JsString
recipient_of none = []
recipient_of (some e) = e.recipient_dcc

decoded_recipient :
    (base58 : Bytes → JsString) (bytes : Bytes) (signature : JsString) (e : SolanaDepositEvent)
    → decode_bridge_deposit base58 bytes signature ≡ some e
    → length e.recipient_dcc ≡ 64
unfolding decode_bridge_deposit
decoded_recipient base58 bytes signature e h = elim (Bool-cases (ltb (length bytes) 120)) [
  | inl short ↦ let k = rw short at h in absurd (ground (arith, k))
  | inr long ↦
      let (amount, _, h1) = >>=-eq-some (read_word 8 96 bytes) _ (rw long at h) in
      let (nonce, _, h2) = >>=-eq-some (read_word 8 104 bytes) _ h1 in
      let (slot, _, h3) = >>=-eq-some (read_word 8 112 bytes) _ h2 in
      let (timestamp, _, h4) = >>=-eq-some (read_word 8 120 bytes) _ h3 in
      let (chain, _, h5) = >>=-eq-some (read_word 4 128 bytes) _ h4 in
      let field : e.recipient_dcc ≡ hex_encode (take 32 (drop 64 bytes)) =
        sym (ap recipient_of h5) in
      let enough : 120 ≤ length bytes = ground (arith, long) in
      rw field (
        omega (
          arith,
          length-hex_encode (take 32 (drop 64 bytes)),
          length-take 32 (drop 64 bytes),
          length-drop 64 bytes,
        ))
]

-- No deposit that the Solana watcher decodes, from whatever bytes, is ever minted to a DCC address: the recipient
-- with which main.ts calls the contract fails isValidDccAddress, whichever result it submits.
pub decoded-unmintable :
    (base58 : Bytes → JsString) (bytes : Bytes) (signature : JsString) (e : SolanaDepositEvent)
    (result : ConsensusResult) (c : MintCall)
    → decode_bridge_deposit base58 bytes signature ≡ some e
    → submit_mint_to_dcc result (some e) ≡ broadcast c
    → is_valid_dcc_address c.recipient ≡ false
decoded-unmintable base58 bytes signature e result c h minted =
    rw (submitted_recipient result e c minted)
      (long-invalid e.recipient_dcc (decoded_recipient base58 bytes signature e h))
