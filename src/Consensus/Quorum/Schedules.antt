-- ===== src/Consensus/Quorum/Schedules.antt =====
-- So does every schedule, and what it announces rests on a quorum.
use sol_gateway_dcc.Base.{
  ℕ, ◌≡◌, refl, inl, inr, Option, none, some, List, [], ◌∷◌, str_eq, get_elem?, All, All-append,
  All-mono, ◌⊎◌, Option-cases,
}
use sol_gateway_dcc.Js.Bytes.{Bytes}
use sol_gateway_dcc.Consensus.Message.{AttestationRequest}
use sol_gateway_dcc.Consensus.Engine.{
  ConsensusConfig, ConsensusEngine, Output, Proposal, skipped, thrown, signing, new_engine,
  propose_begin,
}
use sol_gateway_dcc.Consensus.Rules.{All-remove_at, All-get_elem?, propose_begin-eq-signing}
use sol_gateway_dcc.Consensus.Schedule.{
  System, InFlight, Event, begins, finishes, receives, fires, start, step, run, after, begin_step,
  finish_step, remove_at,
}
use sol_gateway_dcc.Consensus.Quorum.{OutputHasQuorum, FlightIsValid, SystemIsValid}
use sol_gateway_dcc.Consensus.Quorum.Operations.{
  IsValidOutcome, receive_attestation-IsValidOutcome, fire-IsValidOutcome,
  propose_finish-IsValidOutcome,
}

abbrev StepIsValid : (AttestationRequest → Type 0) → ConsensusConfig → System × List Output → Type 0
StepIsValid P config r =
    SystemIsValid P config r.0 × All (OutputHasQuorum P config.min_validators) r.1

after-StepIsValid :
    (P : AttestationRequest → Type 0) {config : ConsensusConfig} (s : System)
    (r : ConsensusEngine × List Output)
    → All (FlightIsValid P) s.in_flight
    → IsValidOutcome P config r
    → StepIsValid P config (after s r)
unfolding after
after-StepIsValid P s r h v =
    (record { configured = v.configured; entries = v.entries; flights = h }, v.outputs)

finish_step-StepIsValid :
    (P : AttestationRequest → Type 0) {config : ConsensusConfig} (s : System) (f : InFlight)
    (signature key : Option Bytes) (now begun : ℕ)
    → SystemIsValid P config s
    → FlightIsValid P f
    → StepIsValid P config (finish_step s f signature key now begun)
unfolding finish_step
finish_step-StepIsValid P {config} s f (some signature) (some key) now begun v valid =
    after-StepIsValid P s _ v.flights (
      propose_finish-IsValidOutcome P config s.engine v.configured v.entries f signature key now
        begun valid)
finish_step-StepIsValid P s f (some signature) none now begun v valid = (v, tt)
finish_step-StepIsValid P s f none key now begun v valid = (v, tt)

begin_step-StepIsValid :
    (P : AttestationRequest → Type 0) {config : ConsensusConfig} (s : System)
    (request : AttestationRequest) (p : Proposal)
    → propose_begin s.engine request ≡ p
    → P request
    → SystemIsValid P config s
    → StepIsValid P config (begin_step s request p)
unfolding begin_step
begin_step-StepIsValid P s request skipped e asked v = (v, tt)
begin_step-StepIsValid P s request thrown e asked v = (v, tt)
begin_step-StepIsValid P s request (signing message) e asked v = (
  record {
    configured = v.configured;
    entries = v.entries;
    flights =
        All-append (FlightIsValid P) s.in_flight
          (record { request = request; message = message } ∷ []) v.flights
          ((asked, (propose_begin-eq-signing s.engine request e).2), tt);
  },
  tt,
)

-- What a schedule proposes satisfies `P`.
abbrev EventProposes : (AttestationRequest → Type 0) → Event → Type 0
EventProposes P (begins request) = P request
EventProposes P (finishes i signature key now begun) = Unit
EventProposes P (receives a) = Unit
EventProposes P (fires i) = Unit

-- A step keeps the system valid, and what it emits is well founded.
step-StepIsValid :
    (P : AttestationRequest → Type 0) {config : ConsensusConfig} (s : System) (ev : Event)
    → EventProposes P ev
    → SystemIsValid P config s
    → StepIsValid P config (step s ev)
unfolding step
step-StepIsValid P s (begins request) asked v = begin_step-StepIsValid P s request _ refl asked v
step-StepIsValid P {config} s (finishes i signature key now begun) _ v =
    elim (Option-cases (get_elem? s.in_flight i)) [
      | inl missing ↦ rw (missing, step) (v, tt)
      | inr (f, found) ↦
          rw (found, step)
            (finish_step-StepIsValid P _ f signature key now begun
              (record {
                configured = v.configured;
                entries = v.entries;
                flights = All-remove_at (FlightIsValid P) i s.in_flight v.flights;
              })
              (All-get_elem? (FlightIsValid P) i s.in_flight v.flights found))
    ]
step-StepIsValid P {config} s (receives a) _ v =
    after-StepIsValid P s _ v.flights
      (receive_attestation-IsValidOutcome P config s.engine v.configured v.entries a)
step-StepIsValid P {config} s (fires i) _ v = elim (Option-cases (get_elem? s.timers i)) [
  | inl missing ↦ rw (missing, step) (v, tt)
  | inr (t, found) ↦
      rw (found, step)
        (after-StepIsValid P (record s { timers = remove_at i s.timers }) _ v.flights
          (fire-IsValidOutcome P config s.engine v.configured v.entries t))
]

run-StepIsValid :
    (P : AttestationRequest → Type 0) {config : ConsensusConfig} (s : System) (evs : List Event)
    → All (EventProposes P) evs
    → SystemIsValid P config s
    → StepIsValid P config (run s evs)
unfolding run
run-StepIsValid P s [] asked v = (v, tt)
run-StepIsValid P {config} s (ev ∷ evs) (now, asked) v =
    let first = step-StepIsValid P s ev now v in
    let later = run-StepIsValid P (step s ev).0 evs asked first.0 in
    (later.0, All-append (OutputHasQuorum P config.min_validators) (step s ev).1 _ first.1 later.1)

-- A proposal of the request is among the events.
abbrev pub WasProposed : List Event → AttestationRequest → Type 0
WasProposed [] request = ⊥
WasProposed (begins r ∷ evs) request = (r ≡ request) ⊎ WasProposed evs request
WasProposed (finishes i signature key now begun ∷ evs) request = WasProposed evs request
WasProposed (receives a ∷ evs) request = WasProposed evs request
WasProposed (fires i ∷ evs) request = WasProposed evs request

EventProposes-mono :
    {P Q : AttestationRequest → Type 0} (mono : (r : AttestationRequest) → P r → Q r) (ev : Event)
    → EventProposes P ev
    → EventProposes Q ev
EventProposes-mono mono (begins request) h = mono request h
EventProposes-mono mono (finishes i signature key now begun) h = tt
EventProposes-mono mono (receives a) h = tt
EventProposes-mono mono (fires i) h = tt

own_proposals : (evs : List Event) → All (EventProposes (WasProposed evs)) evs
own_proposals [] = tt
own_proposals (begins r ∷ evs) =
    (inl refl, All-mono _ _ (EventProposes-mono (λ q h. inr h)) evs (own_proposals evs))
own_proposals (finishes i signature key now begun ∷ evs) = (tt, own_proposals evs)
own_proposals (receives a ∷ evs) = (tt, own_proposals evs)
own_proposals (fires i ∷ evs) = (tt, own_proposals evs)

-- In every schedule from a new engine, each consensus_reached names a request that the schedule proposes (and so one
-- that was proposed before it, since this holds of every beginning of a schedule), with its transfer, kind and event,
-- and rests on at least `minValidators` attestations of that transfer, of pairwise different node ids, all of which
-- carry the request's canonical message.
pub reached-HasQuorum :
    (config : ConsensusConfig) (evs : List Event)
    → All (OutputHasQuorum (WasProposed evs) config.min_validators) (run (start config) evs).1
unfolding start new_engine
reached-HasQuorum config evs =
    (run-StepIsValid (WasProposed evs) (start config) evs (own_proposals evs)
      (record { configured = refl; entries = tt; flights = tt })).1
