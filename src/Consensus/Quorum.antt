-- ===== src/Consensus/Quorum.antt =====
-- What a ConsensusResult that the engine emits as reached stands on, in every schedule.
pub mod Operations
pub mod Schedules
use sol_gateway_dcc.Base.{
  ℕ, ◌≤◌, ◌≡◌, refl, sym, ◌≢◌, subst, inl, inr, Bool, true, false, Option, none, some, List, [],
  ◌∷◌, ◌++◌, arith, JsString, ◌==◌, str_eq, leb, leb→le, length, any, get_elem?, All, All-append,
  Bool-cases, Option-cases, ==→eq,
}
use sol_gateway_dcc.Js.Map.{get, AllEntries, AllEntries-get, AllEntries-set, AllEntries-delete}
use sol_gateway_dcc.Js.Bytes.{Bytes}
use sol_gateway_dcc.Consensus.Message.{AttestationRequest, construct_canonical_message}
use sol_gateway_dcc.Consensus.Engine.{
  ConsensusConfig, ConsensusEngine, Attestation, ConsensusResult, PendingConsensus, Output,
  consensus_reached, Timer, check_timeout, cleanup, Proposal, skipped, thrown, signing, new_engine,
  propose_begin, propose_finish, check_pending, check_consensus, receive_pending,
  receive_attestation, expire_pending, check_consensus_timeout, fire, reached_result,
}
use sol_gateway_dcc.Consensus.Rules.{All-remove_at, All-get_elem?, propose_begin-eq-signing}
use sol_gateway_dcc.Consensus.Schedule.{
  System, InFlight, Event, begins, finishes, receives, fires, start, step, run, after, begin_step,
  finish_step, remove_at,
}

-- No two attestations are of one node.
abbrev pub DistinctNodes : List Attestation → Type 0
DistinctNodes [] = Unit
DistinctNodes (a ∷ as') = All (λ b. a.node_id ≢ b.node_id) as' × DistinctNodes as'

DistinctNodes-append :
    (as' : List Attestation) (a : Attestation)
    → DistinctNodes as'
    → any (λ b. b.node_id == a.node_id) as' ≡ false
    → DistinctNodes (as' ++ a ∷ [])
DistinctNodes-append [] a d h = (tt, tt)
DistinctNodes-append (b ∷ as') a (away, d) h = (
  All-append (λ c. b.node_id ≢ c.node_id) as' (a ∷ []) away (other, tt),
  DistinctNodes-append as' a d (ground arith),
)
  where
    other : b.node_id ≢ a.node_id
    other e = ground (arith, (str_eq.eqb_iff b.node_id a.node_id).1 e)

-- Every attestation is of the transfer and carries the message.
abbrev pub Signed : JsString → Bytes → List Attestation → Type 0
Signed id message = All (λ a. (a.transfer_id ≡ id) × (a.message_hash ≡ message))

-- A result rests on a proposed request, whose canonical message `required` different nodes attest to.
pub record HasQuorum (required : ℕ) (r : ConsensusResult) : Type 0 where
  pub request : AttestationRequest
  pub message : Bytes
  pub achieved : r.achieved ≡ true
  pub same_transfer : request.transfer_id ≡ r.transfer_id
  pub same_kind : request.kind ≡ r.kind
  pub same_event : some request.event ≡ r.event
  pub canonical : construct_canonical_message request ≡ some message
  pub signed : Signed r.transfer_id message r.attestations
  pub distinct : DistinctNodes r.attestations
  pub counted : r.received_signatures ≡ length r.attestations
  pub enough : required ≤ length r.attestations

-- A reached result rests on a quorum for a request that satisfies `P`.
abbrev pub OutputHasQuorum : (AttestationRequest → Type 0) → ℕ → Output → Type 0
OutputHasQuorum P required (consensus_reached r) = (q : HasQuorum required r) × P q.request
OutputHasQuorum P required _ = Unit

pub record EntryIsValid (P : AttestationRequest → Type 0) (id : JsString) (p : PendingConsensus)
    : Type 0 where
  pub proposed : P p.request
  pub key : p.request.transfer_id ≡ id
  pub canonical : construct_canonical_message p.request ≡ some p.message
  pub signed : Signed id p.message p.attestations
  pub distinct : DistinctNodes p.attestations

abbrev pub FlightIsValid : (AttestationRequest → Type 0) → InFlight → Type 0
FlightIsValid P f = P f.request × (construct_canonical_message f.request ≡ some f.message)

pub record SystemIsValid (P : AttestationRequest → Type 0) (config : ConsensusConfig) (s : System)
    : Type 0 where
  pub configured : s.engine.config ≡ config
  pub entries : AllEntries (EntryIsValid P) s.engine.pending_consensus
  pub flights : All (FlightIsValid P) s.in_flight

pub EntryIsValid-resolve :
    (P : AttestationRequest → Type 0) {id : JsString} {p : PendingConsensus}
    → EntryIsValid P id p
    → EntryIsValid P id (record p { resolved = true })
EntryIsValid-resolve P v = record {
  proposed = v.proposed;
  key = v.key;
  canonical = v.canonical;
  signed = v.signed;
  distinct = v.distinct;
}

pub EntryIsValid-add :
    (P : AttestationRequest → Type 0) (a : Attestation) {p : PendingConsensus} (flag : Bool)
    → EntryIsValid P a.transfer_id p
    → any (λ b. b.node_id == a.node_id) p.attestations ≡ false
    → a.message_hash ≡ p.message
    → EntryIsValid P a.transfer_id
        (record p { attestations = p.attestations ++ a ∷ []; resolved = flag })
EntryIsValid-add P a {p} flag v new same = record {
  proposed = v.proposed;
  key = v.key;
  canonical = v.canonical;
  signed =
      All-append
        (λ (b : Attestation). (b.transfer_id ≡ a.transfer_id) × (b.message_hash ≡ p.message))
        p.attestations (a ∷ []) v.signed ((refl, same), tt);
  distinct = DistinctNodes-append p.attestations a v.distinct new;
}
