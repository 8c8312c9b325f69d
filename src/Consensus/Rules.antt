-- ===== src/Consensus/Rules.antt =====
-- Rules for reasoning on schedules: an invariant with a promise on what is emitted, and the cases of the
-- engine's operations.
use sol_gateway_dcc.Base.{
  ℕ, zero, suc, ◌≡◌, subst, false, some, List, [], ◌∷◌, arith, get_elem?, All, str_eq, ◌==◌, any,
  if_cases,
}
use sol_gateway_dcc.Js.Map.{has, includes}
use sol_gateway_dcc.Js.Bytes.{Bytes}
use sol_gateway_dcc.Consensus.Message.{AttestationRequest, construct_canonical_message}
use sol_gateway_dcc.Consensus.Engine.{
  ConsensusEngine, Attestation, PendingConsensus, Output, byzantine_detected, signing,
  propose_begin, check_consensus, with_attestation, receive_pending,
}
use sol_gateway_dcc.Consensus.Schedule.{remove_at}

module _ {ℓ κ} {A : Type ℓ} (P : A → Type κ) where
  pub All-remove_at : (i : ℕ) (xs : List A) → All P xs → All P (remove_at i xs)
  unfolding remove_at
  All-remove_at zero [] h = h
  All-remove_at (suc i) [] h = h
  All-remove_at zero (x ∷ xs) h = h.1
  All-remove_at (suc i) (x ∷ xs) h = (h.0, All-remove_at i xs h.1)

  pub All-get_elem? : (i : ℕ) (xs : List A) {a : A} → All P xs → get_elem? xs i ≡ some a → P a
  All-get_elem? i [] h e = absurd (ground arith)
  All-get_elem? zero (x ∷ xs) {a} h e = let same : x ≡ a = ground arith in subst P same h.0
  All-get_elem? (suc i) (x ∷ xs) h e = All-get_elem? i xs h.1 e

-- An arriving attestation of a pending transfer is ignored, or reported, or added.
pub receive_pending_cases {ℓ} :
    (P : ConsensusEngine × List Output → Type ℓ) (e : ConsensusEngine) (a : Attestation)
    (p : PendingConsensus)
    → P (e, [])
    → P (e, byzantine_detected a.node_id a.transfer_id a ∷ [])
    → P (check_consensus (with_attestation e a p) a.transfer_id)
    → P (receive_pending e a p)
unfolding receive_pending
receive_pending_cases P e a p ignored reported added =
    if_cases P p.resolved _ _ (λ _. ignored)
      λ _.
        if_cases P (any (λ b. b.node_id == a.node_id) p.attestations) _ _ (λ _. ignored)
          λ _. if_cases P (p.message == a.message_hash) _ _ (λ _. added) (λ _. reported)

-- A proposal goes ahead only for a transfer that is neither processed nor pending.
pub propose_begin-eq-signing :
    (e : ConsensusEngine) (request : AttestationRequest) {message : Bytes}
    → propose_begin e request ≡ signing message
    → (includes request.transfer_id e.processed_transfers ≡ false)
      × (has request.transfer_id e.pending_consensus ≡ false)
      × (construct_canonical_message request ≡ some message)
unfolding propose_begin
propose_begin-eq-signing e request h = ground arith
