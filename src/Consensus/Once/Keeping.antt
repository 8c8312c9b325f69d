-- ===== src/Consensus/Once/Keeping.antt =====
-- An arriving attestation and a timer spend no transfer that is not pending.
use sol_gateway_dcc.Base.{
  ◌≡◌, ap, ◌∙◌, inl, inr, true, false, none, some, [], ◌∷◌, ◌++◌, arith, JsString, str_eq,
  Option-cases,
}
use sol_gateway_dcc.Js.Map.{get, has, has-get, has-set, has-delete, includes-add}
use sol_gateway_dcc.Consensus.Engine.{
  ConsensusEngine, Attestation, PendingConsensus, Timer, check_timeout, cleanup, check_pending,
  check_consensus, receive_attestation, with_attestation, expire_pending, check_consensus_timeout,
  fire,
}
use sol_gateway_dcc.Consensus.Rules.{receive_pending_cases}
use sol_gateway_dcc.Consensus.Once.{Keeps}

module _ (e : ConsensusEngine) (k : JsString) (p : PendingConsensus)
    (found : get k e.pending_consensus ≡ some p) where
  pending : has k e.pending_consensus ≡ true
  pending = has-get k e.pending_consensus ∙ ap (λ o. elim o [ none ↦ false | some v ↦ true ]) found

  check_pending-Keeps : Keeps e (check_pending e k p)
  unfolding check_pending
  check_pending-Keeps j h =
      let pend : has k e.pending_consensus ≡ true = pending in
      ground (
        arith,
        str_eq.eqb_iff k j,
        has-set k j (record p { resolved = true }) e.pending_consensus,
        includes-add k j e.processed_transfers,
      )

  expire_pending-Keeps : Keeps e (expire_pending e k p)
  unfolding expire_pending
  expire_pending-Keeps j h =
      let pend : has k e.pending_consensus ≡ true = pending in
      ground
        (arith, str_eq.eqb_iff k j, has-set k j (record p { resolved = true }) e.pending_consensus)

check_consensus-Keeps : (e : ConsensusEngine) (k : JsString) → Keeps e (check_consensus e k)
unfolding check_consensus
check_consensus-Keeps e k = elim (Option-cases (get k e.pending_consensus)) [
  | inl missing ↦ rw (missing, check_consensus) (λ j h. h)
  | inr (p, found) ↦ rw (found, check_consensus) (check_pending-Keeps e k p found)
]

with_attestation-keep :
    (e : ConsensusEngine) (a : Attestation) (p : PendingConsensus)
    → get a.transfer_id e.pending_consensus ≡ some p
    → Keeps e (with_attestation e a p, [])
with_attestation-keep e a p found j h =
    let pend : has a.transfer_id e.pending_consensus ≡ true = pending e a.transfer_id p found in
    ground (
      arith,
      str_eq.eqb_iff a.transfer_id j,
      has-set a.transfer_id j (record p { attestations = p.attestations ++ a ∷ [] })
          e.pending_consensus,
    )

pub receive_attestation-Keeps :
    (e : ConsensusEngine) (a : Attestation) → Keeps e (receive_attestation e a)
unfolding receive_attestation
receive_attestation-Keeps e a = elim (Option-cases (get a.transfer_id e.pending_consensus)) [
  | inl missing ↦ rw (missing, receive_attestation) (λ j h. h)
  | inr (p, found) ↦
      rw (found, receive_attestation)
        (receive_pending_cases (Keeps e) e a p (λ j h. h) (λ j h. h)
          (λ j h.
            check_consensus-Keeps (with_attestation e a p) a.transfer_id j
              (with_attestation-keep e a p found j h)))
]

pub fire-Keeps : (e : ConsensusEngine) (t : Timer) → Keeps e (fire e t)
unfolding fire check_consensus_timeout
fire-Keeps e (check_timeout k) = elim (Option-cases (get k e.pending_consensus)) [
  | inl missing ↦ rw (missing, check_consensus_timeout) (λ j h. h)
  | inr (p, found) ↦ rw (found, check_consensus_timeout) (expire_pending-Keeps e k p found)
]
fire-Keeps e (cleanup k) = λ j h. ground (arith, has-delete k j e.pending_consensus)
