-- ===== src/Submission/Mint.antt =====
-- submitMintToDcc of validator/src/main.ts, up to the call of signAndBroadcastMint, whose arguments it
-- prepares. `toString('base64')` is injective, and an argument stands here by its bytes.
use sol_gateway_dcc.Base.{
  ℕ, Option, none, some, List, [], map, JsString, ◌==◌, nat_eqb, str_eq, if◌then◌else◌, ◌||◌,
}
use sol_gateway_dcc.Js.Bytes.{Bytes, to_number}
use sol_gateway_dcc.Events.{SolanaDepositEvent}
use sol_gateway_dcc.Consensus.Engine.{ConsensusResult}

pub record MintCall : Type 0 where
  pub transfer_id : JsString
  pub recipient : JsString
  pub amount : ℕ
  pub sol_slot : ℕ
  pub signatures : List Bytes
  pub pubkeys : List Bytes

pub data MintSubmission : Type 0 where
  no_deposit_event invalid_event : MintSubmission
  broadcast : MintCall → MintSubmission

unfoldable pub mint_call : ConsensusResult → SolanaDepositEvent → MintSubmission
mint_call result e =
    let amount = to_number e.amount in
    if e.recipient_dcc == [] || nat_eqb amount 0
    then invalid_event
    else broadcast (record {
      transfer_id = result.transfer_id;
      recipient = e.recipient_dcc;
      amount = amount;
      sol_slot = e.slot;
      signatures = map (λ a. a.signature) result.attestations;
      pubkeys = map (λ a. a.public_key) result.attestations;
    })

-- A result of a mint has a deposit for its event, or none.
unfoldable pub submit_mint_to_dcc : ConsensusResult → Option SolanaDepositEvent → MintSubmission
unfolding mint_call
submit_mint_to_dcc result none = no_deposit_event
submit_mint_to_dcc result (some e) = mint_call result e
