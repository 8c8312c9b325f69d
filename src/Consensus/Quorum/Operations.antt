-- ===== src/Consensus/Quorum/Operations.antt =====
-- The engine's operations keep their entries valid.
use sol_gateway_dcc.Base.{
  ℕ, ◌≤◌, ◌≡◌, refl, sym, subst, inl, inr, false, List, JsString, ◌==◌, str_eq, leb, leb→le, length,
  any, All, Bool-cases, Option-cases, ==→eq,
}
use sol_gateway_dcc.Js.Map.{get, AllEntries, AllEntries-get, AllEntries-set, AllEntries-delete}
use sol_gateway_dcc.Js.Bytes.{Bytes}
use sol_gateway_dcc.Consensus.Message.{AttestationRequest}
use sol_gateway_dcc.Consensus.Engine.{
  ConsensusConfig, ConsensusEngine, Attestation, PendingConsensus, Output, Timer, check_timeout,
  cleanup, propose_finish, check_pending, check_consensus, receive_pending, receive_attestation,
  expire_pending, check_consensus_timeout, fire, reached_result,
}
use sol_gateway_dcc.Consensus.Schedule.{InFlight}
use sol_gateway_dcc.Consensus.Quorum.{
  HasQuorum, OutputHasQuorum, EntryIsValid, FlightIsValid, EntryIsValid-resolve, EntryIsValid-add,
}

-- The result of an engine's operation.
pub record IsValidOutcome (P : AttestationRequest → Type 0) (config : ConsensusConfig)
    (r : ConsensusEngine × List Output) : Type 0 where
  pub configured : r.0.config ≡ config
  pub entries : AllEntries (EntryIsValid P) r.0.pending_consensus
  pub outputs : All (OutputHasQuorum P config.min_validators) r.1

module _ (P : AttestationRequest → Type 0) (config : ConsensusConfig) (e : ConsensusEngine)
    (c : e.config ≡ config) (h : AllEntries (EntryIsValid P) e.pending_consensus) where
  check_pending-IsValidOutcome :
      (id : JsString) (p : PendingConsensus)
      → EntryIsValid P id p
      → IsValidOutcome P config (check_pending e id p)
  unfolding check_pending reached_result
  check_pending-IsValidOutcome id p v = elim (Bool-cases p.resolved) [
    | inl done ↦ rw done (record { configured = c; entries = h; outputs = tt })
    | inr open' ↦ elim (Bool-cases (leb e.config.min_validators (length p.attestations))) [
      | inr few ↦ rw (open', few) (record { configured = c; entries = h; outputs = tt })
      | inl many ↦
          rw (open', many)
            (record {
              configured = c;
              entries =
                  AllEntries-set (EntryIsValid P) id _ e.pending_consensus
                    (EntryIsValid-resolve P v) h;
              outputs = ((quorum (leb→le _ _ many), v.proposed), (tt, tt));
            })
    ]
  ]
    where
      quorum :
          e.config.min_validators ≤ length p.attestations
          → HasQuorum config.min_validators (reached_result e id p)
      quorum enough = record {
        request = p.request;
        message = p.message;
        achieved = refl;
        same_transfer = v.key;
        same_kind = refl;
        same_event = refl;
        canonical = v.canonical;
        signed = v.signed;
        distinct = v.distinct;
        counted = refl;
        enough = subst (λ (k : ConsensusConfig). k.min_validators ≤ length p.attestations) c enough;
      }

  check_consensus-IsValidOutcome : (id : JsString) → IsValidOutcome P config (check_consensus e id)
  unfolding check_consensus
  check_consensus-IsValidOutcome id = elim (Option-cases (get id e.pending_consensus)) [
    | inl missing ↦
        rw (missing, check_consensus) (record { configured = c; entries = h; outputs = tt })
    | inr (p, found) ↦
        rw (found, check_consensus)
          (check_pending-IsValidOutcome id p
            (AllEntries-get (EntryIsValid P) id e.pending_consensus h found))
  ]

  expire_pending-IsValidOutcome :
      (id : JsString) (p : PendingConsensus)
      → EntryIsValid P id p
      → IsValidOutcome P config (expire_pending e id p)
  unfolding expire_pending
  expire_pending-IsValidOutcome id p v = elim (Bool-cases p.resolved) [
    | inl done ↦ rw done (record { configured = c; entries = h; outputs = tt })
    | inr open' ↦ rw open' (record {
      configured = c;
      entries =
          AllEntries-set (EntryIsValid P) id _ e.pending_consensus (EntryIsValid-resolve P v) h;
      outputs = (tt, tt);
    })
  ]

module _ (P : AttestationRequest → Type 0) (config : ConsensusConfig) (e : ConsensusEngine)
    (c : e.config ≡ config) (h : AllEntries (EntryIsValid P) e.pending_consensus) where
  receive_pending-IsValidOutcome :
      (a : Attestation) (p : PendingConsensus)
      → EntryIsValid P a.transfer_id p
      → IsValidOutcome P config (receive_pending e a p)
  unfolding receive_pending
  receive_pending-IsValidOutcome a p v = elim (Bool-cases p.resolved) [
    | inl done ↦ rw done (record { configured = c; entries = h; outputs = tt })
    | inr open' ↦ elim (Bool-cases (any (λ b. b.node_id == a.node_id) p.attestations)) [
      | inl known ↦ rw (open', known) (record { configured = c; entries = h; outputs = tt })
      | inr new ↦ elim (Bool-cases (p.message == a.message_hash)) [
        | inr other ↦
            rw (open', new, other) (record { configured = c; entries = h; outputs = (tt, tt) })
        | inl same ↦
            rw (open', new, same)
              (check_consensus-IsValidOutcome P config _ c
                (AllEntries-set (EntryIsValid P) a.transfer_id _ e.pending_consensus
                  (EntryIsValid-add P a false v new (sym (==→eq p.message a.message_hash same))) h)
                a.transfer_id)
      ]
    ]
  ]

  pub receive_attestation-IsValidOutcome :
      (a : Attestation) → IsValidOutcome P config (receive_attestation e a)
  unfolding receive_attestation
  receive_attestation-IsValidOutcome a =
      elim (Option-cases (get a.transfer_id e.pending_consensus)) [
        | inl missing ↦
            rw (missing, receive_attestation) (record { configured = c; entries = h; outputs = tt })
        | inr (p, found) ↦
            rw (found, receive_attestation)
              (receive_pending-IsValidOutcome a p
                (AllEntries-get (EntryIsValid P) a.transfer_id e.pending_consensus h found))
      ]

  pub fire-IsValidOutcome : (t : Timer) → IsValidOutcome P config (fire e t)
  unfolding fire check_consensus_timeout
  fire-IsValidOutcome (check_timeout id) = elim (Option-cases (get id e.pending_consensus)) [
    | inl missing ↦
        rw (missing, check_consensus_timeout) (record { configured = c; entries = h; outputs = tt })
    | inr (p, found) ↦
        rw (found, check_consensus_timeout)
          (expire_pending-IsValidOutcome P config e c h id p
            (AllEntries-get (EntryIsValid P) id e.pending_consensus h found))
  ]
  fire-IsValidOutcome (cleanup id) = record {
    configured = c;
    entries = AllEntries-delete (EntryIsValid P) id e.pending_consensus h;
    outputs = tt;
  }

  pub propose_finish-IsValidOutcome :
      (f : InFlight) (signature key : Bytes) (now begun : ℕ)
      → FlightIsValid P f
      → IsValidOutcome P config (propose_finish e f.request f.message signature key now begun)
  unfolding propose_finish
  propose_finish-IsValidOutcome f signature key now begun (proposed, v) = record {
    configured = c;
    entries =
        AllEntries-set (EntryIsValid P) f.request.transfer_id _ e.pending_consensus
          (record {
            proposed = proposed;
            key = refl;
            canonical = v;
            signed = ((refl, refl), tt);
            distinct = (tt, tt);
          })
          h;
    outputs = (tt, (tt, tt));
  }
