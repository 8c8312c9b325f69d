-- ===== src/Relay/Statuses.antt =====
-- The statuses that a relay writes, as runs of the transfer's state machine.
use sol_gateway_dcc.Base.{
  ℕ, ◌≤◌, ◌≡◌, ◌↔◌, inl, inr, refl, Bool, true, false, ◌&&◌, ◌||◌, not, Option, none, some, List,
  [], ◌∷◌, ◌++◌, arith, JsString, codes, if◌then◌else◌, if_cases, any,
}
use sol_gateway_dcc.Relay.Retry.{
  Attempt, succeeded, raised, with_retry, FirstSuccess, with_retry-succeeded_iff, Attempt-cases,
}
use sol_gateway_dcc.Relay.Transfers.{
  Status, sol_confirmed, complete, pending_confirmation, dcc_confirmed, pending_unlock, failed,
  dcc_minted, RelayOutput, update, notify_failed, notify_complete, notify_submitted, notify_pending,
  RelayConfig, notify_if, finish_mint, settle_mint, relay_sol_to_dcc, settle_unlock,
  relay_dcc_to_sol,
}

unfoldable pub statuses : List RelayOutput → List Status
statuses [] = []
statuses (update s ∷ os) = s ∷ statuses os
statuses (notify_failed e ∷ os) = statuses os
statuses (notify_complete ∷ os) = statuses os
statuses (notify_submitted ∷ os) = statuses os
statuses (notify_pending ∷ os) = statuses os

-- A step of the state machine of a transfer to DCC, and of one to Solana, by their ids.
pub data Next (id : JsString) : Status → Status → Type 0 where
  fails : (e : JsString) → Next id sol_confirmed (failed e)
  mints : (minted : Option JsString) → Next id sol_confirmed (dcc_minted minted id)
  completes : (minted : JsString) → Next id (dcc_minted (some minted) id) complete
  waits : (minted : Option JsString) → Next id (dcc_minted minted id) pending_confirmation
  unlock_fails : (e : JsString) → Next id (dcc_confirmed id) (failed e)
  unlocks : Next id (dcc_confirmed id) (pending_unlock id)

-- A run from a status, to one that no step leaves.
abbrev pub IsLast : Status → Type 0
IsLast sol_confirmed = ⊥
IsLast (dcc_confirmed burn) = ⊥
IsLast (dcc_minted minted id) = ⊥
IsLast _ = Unit

abbrev pub IsRun : JsString → Status → List Status → Type 0
IsRun id s [] = IsLast s
IsRun id s (u ∷ us) = Next id s u × IsRun id u us

-- A run that begins with a status.
abbrev pub IsRunFrom : JsString → Status → List Status → Type 0
IsRunFrom id first [] = ⊥
IsRunFrom id first (s ∷ ss) = (s ≡ first) × IsRun id first ss

finish_mint-IsRun :
    (listening : Bool) (transfer_id : JsString) (wait : JsString → Attempt (Unit {0}))
    (id : Option JsString)
    → IsRun transfer_id (dcc_minted id transfer_id) (statuses (finish_mint listening id wait))
unfolding finish_mint statuses
finish_mint-IsRun true transfer_id wait none = (waits none, tt)
finish_mint-IsRun false transfer_id wait none = (waits none, tt)
finish_mint-IsRun listening transfer_id wait (some id) = elim (Attempt-cases (wait id)) [
  | inl (_, done) ↦ rw (done, finish_mint) (completes_run listening)
  | inr (e, timeout) ↦ rw (timeout, finish_mint) (waits_run listening)
]
  where
    completes_run :
        (b : Bool)
        → IsRun transfer_id
            (dcc_minted (some id) transfer_id)
            (statuses (update complete ∷ notify_if b notify_complete))
    completes_run true = (completes id, tt)
    completes_run false = (completes id, tt)

    waits_run :
        (b : Bool)
        → IsRun transfer_id
            (dcc_minted (some id) transfer_id)
            (statuses (update pending_confirmation ∷ notify_if b notify_complete))
    waits_run true = (waits (some id), tt)
    waits_run false = (waits (some id), tt)

settle_mint-IsRun :
    (listening : Bool) (transfer_id : JsString) (wait : JsString → Attempt (Unit {0}))
    (r : Attempt (Option JsString))
    → IsRun transfer_id sol_confirmed (statuses (settle_mint listening transfer_id wait r).0)
unfolding settle_mint statuses
settle_mint-IsRun true transfer_id wait (raised e) = (fails e, tt)
settle_mint-IsRun false transfer_id wait (raised e) = (fails e, tt)
settle_mint-IsRun listening transfer_id wait (succeeded id) =
    (mints id, finish_mint-IsRun listening transfer_id wait id)

settle_unlock-IsRun :
    (listening : Bool) (burn : JsString) (r : Attempt (Unit {0}))
    → IsRun burn (dcc_confirmed burn) (statuses (settle_unlock listening burn r).0)
unfolding settle_unlock statuses
settle_unlock-IsRun true burn (raised e) = (unlock_fails e, tt)
settle_unlock-IsRun false burn (raised e) = (unlock_fails e, tt)
settle_unlock-IsRun true burn (succeeded _) = (unlocks, tt)
settle_unlock-IsRun false burn (succeeded _) = (unlocks, tt)

fallback-IsRun :
    (listening : Bool) (burn : JsString)
    → IsRun burn
        (dcc_confirmed burn)
        (statuses (notify_if listening notify_pending ++ update (pending_unlock burn) ∷ []))
unfolding statuses
fallback-IsRun true burn = (unlocks, tt)
fallback-IsRun false burn = (unlocks, tt)

-- Whether the relay may mint: with the consensus mode, or with the validator's key.
abbrev pub is_configured : RelayConfig → Bool
is_configured config = config.use_consensus || config.has_validator_key

-- What a relay to DCC writes: nothing where it is not configured, and else a run from sol_confirmed.
abbrev pub IsWholeRun : Bool → JsString → List Status → Type 0
IsWholeRun false id ss = ss ≡ []
IsWholeRun true id ss = IsRunFrom id sol_confirmed ss

configured-IsWholeRun :
    (a b : Bool) (id : JsString) (r : List RelayOutput × Attempt (Option JsString))
    → IsRunFrom id sol_confirmed (statuses r.0)
    → IsWholeRun (a || b) id (
        statuses
          (if not a && not b
            then (
              [],
              raised (codes "DCC_VALIDATOR_SEED not configured and consensus mode not enabled"),
            )
            else r).0)
unfolding statuses
configured-IsWholeRun true b id r h = h
configured-IsWholeRun false true id r h = h
configured-IsWholeRun false false id r h = refl

-- As long as notifications return, whatever the other calls do: a relay to DCC that is not configured writes no
-- status; one that is configured writes sol_confirmed first, and then either failed, or dcc_minted of its own
-- transfer, and then complete, only with the id of a mint, or pending_confirmation; a relay to Solana writes
-- dcc_confirmed of its own burn first, and then failed, or pending_unlock of that burn. Nothing follows these.
pub relay-IsWholeRun :
    (config : RelayConfig) (listening : Bool) (id : JsString) (mint : ℕ → Attempt (Option JsString))
    (wait : JsString → Attempt (Unit {0})) (unlock : ℕ → Attempt (Unit {0}))
    → IsWholeRun
        (is_configured config)
        id
        (statuses (relay_sol_to_dcc config listening id mint wait).0)
      × IsRunFrom id (dcc_confirmed id) (statuses (relay_dcc_to_sol config listening id unlock).0)
unfolding relay_sol_to_dcc relay_dcc_to_sol statuses
relay-IsWholeRun config listening id mint wait unlock = (
  configured-IsWholeRun config.use_consensus config.has_validator_key id _
      (refl, settle_mint-IsRun listening id wait (with_retry mint).0),
  (
    refl,
    if_cases
        (λ (r : List RelayOutput × Attempt (Unit {0})). IsRun id (dcc_confirmed id) (statuses r.0))
        config.use_consensus _ _ (λ _. settle_unlock-IsRun listening id (with_retry unlock).0)
        (λ _. fallback-IsRun listening id),
  ),
)

is_complete : Status → Bool
is_complete complete = true
is_complete _ = false

-- The store was told that the transfer is complete.
unfoldable pub completed : List RelayOutput → Bool
unfolding is_complete statuses
completed os = any is_complete (statuses os)

-- What a complete transfer stands on: a first success among the five attempts at the mint, with the id of
-- a transaction, that the wait found.
pub record IsMinted (mint : ℕ → Attempt (Option JsString)) (wait : JsString → Attempt (Unit {0}))
    : Type 0 where
  pub id : JsString
  pub attempts : ℕ
  pub few : attempts ≤ 4
  pub first : FirstSuccess mint 1 attempts (some id)
  pub found : wait id ≡ succeeded tt

settle_mint-completed :
    (listening : Bool) (transfer_id : JsString) (wait : JsString → Attempt (Unit {0}))
    (r : Attempt (Option JsString))
    → (completed (settle_mint listening transfer_id wait r).0 ≡ true)
      ↔ ((id : JsString) × (r ≡ succeeded (some id)) × (wait id ≡ succeeded tt))
unfolding settle_mint finish_mint completed statuses is_complete
settle_mint-completed true transfer_id wait (raised e) =
    ((λ h. absurd (ground (arith, h))), λ (id, same, _). absurd (ground (arith, same)))
settle_mint-completed true transfer_id wait (succeeded none) =
    ((λ h. absurd (ground (arith, h))), λ (id, same, _). absurd (ground (arith, same)))
settle_mint-completed true transfer_id wait (succeeded (some id)) = elim (Attempt-cases (wait id)) [
  | inl (_, done) ↦ ((λ h. (id, refl, done)), λ found. rw (done, finish_mint) refl)
  | inr (e, timeout) ↦ (
    (λ h. let silent = rw (timeout, finish_mint) at h in absurd (ground (arith, silent))),
    λ (other, same, found).
        let one : id ≡ other = ground (arith, same) in
        let clash = rw one at timeout in absurd (ground (arith, clash, found)),
  )
]
settle_mint-completed false transfer_id wait (raised e) =
    ((λ h. absurd (ground (arith, h))), λ (id, same, _). absurd (ground (arith, same)))
settle_mint-completed false transfer_id wait (succeeded none) =
    ((λ h. absurd (ground (arith, h))), λ (id, same, _). absurd (ground (arith, same)))
settle_mint-completed false transfer_id wait (succeeded (some id)) =
    elim (Attempt-cases (wait id)) [
      | inl (_, done) ↦ ((λ h. (id, refl, done)), λ found. rw (done, finish_mint) refl)
      | inr (e, timeout) ↦ (
        (λ h. let silent = rw (timeout, finish_mint) at h in absurd (ground (arith, silent))),
        λ (other, same, found).
            let one : id ≡ other = ground (arith, same) in
            let clash = rw one at timeout in absurd (ground (arith, clash, found)),
      )
    ]

-- The relay to DCC writes that a transfer is complete exactly when it is configured to mint, with the consensus mode or
-- with the validator's key, one of the five attempts is the first that succeeds, its answer holds a transaction's id,
-- and the wait finds that transaction.
pub relay-completed_iff :
    (config : RelayConfig) (listening : Bool) (transfer_id : JsString)
    (mint : ℕ → Attempt (Option JsString)) (wait : JsString → Attempt (Unit {0}))
    → (completed (relay_sol_to_dcc config listening transfer_id mint wait).0 ≡ true)
      ↔ ((is_configured config ≡ true) × IsMinted mint wait)
unfolding relay_sol_to_dcc completed statuses is_complete
relay-completed_iff config listening transfer_id mint wait =
    if_cases
      (λ (r : List RelayOutput × Attempt (Option JsString)).
        (completed r.0 ≡ true) ↔ ((is_configured config ≡ true) × IsMinted mint wait))
      (not config.use_consensus && not config.has_validator_key) _ _
      (λ unready.
        ((λ h. absurd (ground (arith, h))), λ (ready, _). absurd (ground (arith, ready, unready))))
      (λ able. (
        (λ h.
            let (id, same, found) = settled.0 h in
            let (k, few, first) = (with_retry-succeeded_iff mint (some id)).0.0 same in
            (
              ground (arith, able),
              record { id = id; attempts = k; few = few; first = first; found = found },
            )),
        λ (_, m). settled.1 (
          m.id,
          (with_retry-succeeded_iff mint (some m.id)).0.1 (m.attempts, m.few, m.first),
          m.found,
        ),
      ))
  where
    settled :
        (completed (settle_mint listening transfer_id wait (with_retry mint).0).0 ≡ true)
        ↔ ((id : JsString) × ((with_retry mint).0 ≡ succeeded (some id)) × (wait id ≡ succeeded tt))
    settled = settle_mint-completed listening transfer_id wait (with_retry mint).0
