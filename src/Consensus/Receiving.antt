-- ===== src/Consensus/Receiving.antt =====
-- What an arriving attestation does.
use sol_gateway_dcc.Base.{
  ℕ, ◌+◌, ◌≤◌, ◌≡◌, ◌≢◌, ◌↔◌, ◌∙◌, inl, inr, false, some, [], ◌∷◌, ◌++◌, arith, ◌==◌, str_eq,
  ==_refl, ne→==, length, length-append, any, Option-cases,
}
use sol_gateway_dcc.Js.Map.{get, get-set}
use sol_gateway_dcc.Consensus.Message.{construct_canonical_message}
use sol_gateway_dcc.Consensus.Binding.{canonical_message-timestamp}
use sol_gateway_dcc.Consensus.Engine.{
  ConsensusEngine, Attestation, PendingConsensus, byzantine_detected, check_pending,
  check_consensus, receive_pending, receive_attestation, with_attestation,
}
use sol_gateway_dcc.Consensus.Counting.{reached_count}

-- The attestation completes a quorum: its round is open, its node is new there, it carries the round's
-- message, and with it there are enough.
pub record Completes (e : ConsensusEngine) (a : Attestation) (p : PendingConsensus) : Type 0 where
  pub found : get a.transfer_id e.pending_consensus ≡ some p
  pub open_round : p.resolved ≡ false
  pub new_node : any (λ b. b.node_id == a.node_id) p.attestations ≡ false
  pub same_message : p.message ≡ a.message_hash
  pub enough : e.config.min_validators ≤ length p.attestations + 1

receive_pending-found :
    (e : ConsensusEngine) (a : Attestation) (p : PendingConsensus)
    → get a.transfer_id e.pending_consensus ≡ some p
    → receive_attestation e a ≡ receive_pending e a p
unfolding receive_attestation
receive_pending-found e a p found = rw (found, receive_attestation)

-- The check that follows a `push` reads the entry that was pushed to.
check_consensus-with_attestation :
    (e : ConsensusEngine) (a : Attestation) (p : PendingConsensus)
    → check_consensus (with_attestation e a p) a.transfer_id
      ≡ check_pending
          (with_attestation e a p)
          a.transfer_id
          (record p { attestations = p.attestations ++ a ∷ [] })
unfolding check_consensus
check_consensus-with_attestation e a p = rw (
  get-set a.transfer_id a.transfer_id (record p { attestations = p.attestations ++ a ∷ [] })
      e.pending_consensus,
  ==_refl a.transfer_id,
  check_consensus,
)

receive_pending-reached :
    (e : ConsensusEngine) (a : Attestation) (p : PendingConsensus)
    → get a.transfer_id e.pending_consensus ≡ some p
    → (reached_count a.transfer_id (receive_pending e a p).1 ≡ 1) ↔ Completes e a p
unfolding receive_pending check_pending reached_count
receive_pending-reached e a p found = (
  (λ h. record {
    found = found;
    open_round = ground (arith, check_consensus-with_attestation e a p);
    new_node = ground (arith, check_consensus-with_attestation e a p);
    same_message =
        ground
          (arith, check_consensus-with_attestation e a p, str_eq.eqb_iff p.message a.message_hash);
    enough =
        ground
          (arith, check_consensus-with_attestation e a p, length-append p.attestations (a ∷ []));
  }),
  λ c. ground (
    arith,
    check_consensus-with_attestation e a p,
    length-append p.attestations (a ∷ []),
    str_eq.eqb_iff p.message a.message_hash,
    c.open_round,
    c.new_node,
    c.same_message,
    c.enough,
    str_eq.eqb_iff a.transfer_id a.transfer_id,
  ),
)

-- An arriving attestation makes the engine announce consensus on its transfer exactly when the
-- transfer's round is open, the round has no attestation of the node id, the message hash is the
-- round's message, and with this one there are at least `minValidators` attestations.
pub receive-reached_iff :
    (e : ConsensusEngine) (a : Attestation)
    → (reached_count a.transfer_id (receive_attestation e a).1 ≡ 1)
      ↔ ((p : PendingConsensus) × Completes e a p)
unfolding receive_attestation reached_count
receive-reached_iff e a = (
  (λ h. elim (Option-cases (get a.transfer_id e.pending_consensus)) [
    | inl missing ↦ absurd (ground (arith, missing))
    | inr (p, found) ↦
        (p, (receive_pending-reached e a p found).0 (rw (found, receive_attestation) at h))
  ]),
  λ (p, c). rw (c.found, receive_attestation) ((receive_pending-reached e a p c.found).1 c),
)

-- Two honest nodes that propose one event stamp their requests with their own clocks. Where the stamps
-- differ, the peer's attestation is not counted: it is reported as Byzantine, and the round is unchanged.
pub honest_peer-byzantine :
    (e : ConsensusEngine) (a : Attestation) (p : PendingConsensus) (t : ℕ)
    → get a.transfer_id e.pending_consensus ≡ some p
    → p.resolved ≡ false
    → any (λ b. b.node_id == a.node_id) p.attestations ≡ false
    → construct_canonical_message p.request ≡ some p.message
    → construct_canonical_message (record p.request { timestamp = t }) ≡ some a.message_hash
    → p.request.timestamp ≢ t
    → receive_attestation e a ≡ (e, byzantine_detected a.node_id a.transfer_id a ∷ [])
unfolding receive_pending
honest_peer-byzantine e a p t found open_round new_node own peers apart =
    receive_pending-found e a p found
    ∙ (let other : (p.message == a.message_hash) ≡ false = ne→== p.message a.message_hash (λ same.
          apart (canonical_message-timestamp p.request t p.message own (rw (← same) at peers))) in
        ground (arith, open_round, new_node, other))
