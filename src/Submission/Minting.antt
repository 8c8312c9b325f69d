-- ===== src/Submission/Minting.antt =====
-- What a mint that submitMintToDcc of validator/src/main.ts broadcasts stands on, from the consensus of
-- validator/src/consensus/engine.ts on.
use sol_gateway_dcc.Base.{
  ℕ, ◌≤◌, ◌≡◌, subst, ◌∙◌, ◌≢◌, some, List, [], map, arith, str_eq, length, get_elem?,
}
use sol_gateway_dcc.Js.Bytes.{Bytes, to_number}
use sol_gateway_dcc.Events.{SolanaDepositEvent, deposit}
use sol_gateway_dcc.Consensus.Message.{AttestationRequest, construct_canonical_message}
use sol_gateway_dcc.Consensus.Engine.{
  ConsensusConfig, Attestation, ConsensusResult, consensus_reached,
}
use sol_gateway_dcc.Consensus.Schedule.{Event, start, run}
use sol_gateway_dcc.Consensus.Rules.{All-get_elem?}
use sol_gateway_dcc.Consensus.Quorum.{DistinctNodes, Signed, OutputHasQuorum}
use sol_gateway_dcc.Consensus.Quorum.Schedules.{WasProposed, reached-HasQuorum}
use sol_gateway_dcc.Submission.Mint.{MintCall, mint_call, submit_mint_to_dcc, broadcast}

-- The mint is of a proposed deposit, to its recipient and of its amount, and its signatures and keys are those of
-- attestations of `required` different nodes to the proposal's canonical message.
pub record IsFounded (evs : List Event) (required : ℕ) (e : SolanaDepositEvent) (c : MintCall)
    : Type 0 where
  pub request : AttestationRequest
  pub message : Bytes
  pub attestations : List Attestation
  pub proposed : WasProposed evs request
  pub event : request.event ≡ deposit e
  pub transfer : request.transfer_id ≡ c.transfer_id
  pub recipient : (c.recipient ≡ e.recipient_dcc) × (c.recipient ≢ [])
  pub amount : (c.amount ≡ to_number e.amount) × (c.amount ≢ 0)
  pub slot : c.sol_slot ≡ e.slot
  pub canonical : construct_canonical_message request ≡ some message
  pub signed : Signed c.transfer_id message attestations
  pub distinct : DistinctNodes attestations
  pub signatures : c.signatures ≡ map (λ a. a.signature) attestations
  pub pubkeys : c.pubkeys ≡ map (λ a. a.public_key) attestations
  pub enough : required ≤ length attestations

-- What is broadcast of a result and its deposit.
record IsCallOf (r : ConsensusResult) (e : SolanaDepositEvent) (c : MintCall) : Type 0 where
  transfer : r.transfer_id ≡ c.transfer_id
  recipient : (c.recipient ≡ e.recipient_dcc) × (c.recipient ≢ [])
  amount : (c.amount ≡ to_number e.amount) × (c.amount ≢ 0)
  slot : c.sol_slot ≡ e.slot
  signatures : c.signatures ≡ map (λ a. a.signature) r.attestations
  pubkeys : c.pubkeys ≡ map (λ a. a.public_key) r.attestations

submit_mint-IsCallOf :
    (r : ConsensusResult) (e : SolanaDepositEvent) (c : MintCall)
    → submit_mint_to_dcc r (some e) ≡ broadcast c
    → IsCallOf r e c
unfolding submit_mint_to_dcc mint_call
submit_mint-IsCallOf r e c h = record {
  transfer = ground (arith, h);
  recipient = (ground (arith, h), ground (arith, h, str_eq.eqb_iff e.recipient_dcc []));
  amount = (ground (arith, h), ground (arith, h));
  slot = ground (arith, h);
  signatures = ground (arith, h);
  pubkeys = ground (arith, h);
}

some-injective : {A : Type 0} (a b : A) → some a ≡ some b → a ≡ b
some-injective a b h = ground arith

-- In every schedule from a new engine, let a result be announced with a deposit for its event, and let submitMintToDcc
-- broadcast a mint of it. Then that deposit was proposed, and the mint has the proposal's transfer id, the deposit's
-- slot, its recipient, which is not empty, and Number of its amount, which is not 0. Its signatures and keys are, in
-- order, those of at least `minValidators` attestations of pairwise different node ids, all of which carry the
-- proposal's canonical message.
pub broadcast-IsFounded :
    (config : ConsensusConfig) (evs : List Event) (i : ℕ) (r : ConsensusResult)
    (e : SolanaDepositEvent) (c : MintCall)
    → get_elem? (run (start config) evs).1 i ≡ some (consensus_reached r)
    → r.event ≡ some (deposit e)
    → submit_mint_to_dcc r (some e) ≡ broadcast c
    → IsFounded evs config.min_validators e c
broadcast-IsFounded config evs i r e c announced about h =
    let (q, proposed) =
      All-get_elem? (OutputHasQuorum (WasProposed evs) config.min_validators) i
        (run (start config) evs).1 (reached-HasQuorum config evs) announced in
    let call = submit_mint-IsCallOf r e c h in
    record {
      request = q.request;
      message = q.message;
      attestations = r.attestations;
      proposed = proposed;
      event = some-injective q.request.event (deposit e) (q.same_event ∙ about);
      transfer = q.same_transfer ∙ call.transfer;
      recipient = call.recipient;
      amount = call.amount;
      slot = call.slot;
      canonical = q.canonical;
      signed = subst (λ id. Signed id q.message r.attestations) call.transfer q.signed;
      distinct = q.distinct;
      signatures = call.signatures;
      pubkeys = call.pubkeys;
      enough = q.enough;
    }
