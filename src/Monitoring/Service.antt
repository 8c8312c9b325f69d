-- ===== src/Monitoring/Service.antt =====
-- The checks of monitoring/src/main.ts: what each reads of the chains and the validators, and the check of
-- the detector that it makes. What the node, the connection and the validators answer are arguments, `none`
-- where a call throws; the arithmetic of fractions too. Logging is left out.
use sol_gateway_dcc.Base.{
  ℕ, ◌+◌, ◌*◌, ◌≡◌, refl, ap, ◌∙◌, Bool, false, not, ◌&&◌, Option, none, some, List, [], ◌∷◌, arith,
  JsString, codes, str_eq, ◌==◌, leb, ltb, if◌then◌else◌, length, filterb,
}
use sol_gateway_dcc.Js.Bytes.{Bytes}
use sol_gateway_dcc.Js.Text.{split}
use sol_gateway_dcc.Monitoring.Detector.{
  Doubles, MonitorConfig, AnomalyDetector, DetectorOutput, check_supply_invariant, check_chain_sync,
  check_validator_health,
}
use sol_gateway_dcc.Monitoring.Runs.{health, perform, paused}
use sol_gateway_dcc.Monitoring.Pauses.{pauses, is_danger, perform-pauses}

-- Fractions that the service computes: a number of milliseconds in seconds, the distance of a Solana slot
-- and a DCC height in DCC blocks, and a part of a whole.
pub record ServiceDoubles (n : Doubles) : Type 0 where
  pub seconds : ℕ → n.Double
  pub block_difference : ℕ → ℕ → n.Double
  pub fault_rate : ℕ → ℕ → n.Double

-- `let wsolSupply = BigInt(0)`, kept where the node does not answer with a value.
unfoldable pub wsol_supply : Option ℕ → ℕ
wsol_supply none = 0
wsol_supply (some minted) = minted

unfoldable pub supply_of_account :
    (n : Doubles)
    → MonitorConfig n
    → AnomalyDetector
    → ℕ
    → Option ℕ
    → Option Bytes
    → ℕ
    → AnomalyDetector × List DetectorOutput
unfolding wsol_supply
supply_of_account n config d vault minted none now = (d, [])
supply_of_account n config d vault minted (some bytes) now =
    if leb 97 (length bytes)
    then check_supply_invariant n config d vault (wsol_supply minted) now
    else (d, [])

-- checkSupplyInvariant, with the vault's balance, the contract's total_minted and the config account's data.
unfoldable pub poll_supply :
    (n : Doubles)
    → MonitorConfig n
    → AnomalyDetector
    → Option ℕ
    → Option ℕ
    → Option Bytes
    → ℕ
    → AnomalyDetector × List DetectorOutput
unfolding supply_of_account
poll_supply n config d none minted bytes now = (d, [])
poll_supply n config d (some vault) minted bytes now =
    supply_of_account n config d vault minted bytes now

-- `dccResponse.data?.height || 0`, and 0 where the request fails.
unfoldable pub height_or_zero : Option ℕ → ℕ
height_or_zero none = 0
height_or_zero (some h) = h

-- checkChainHealth, with the slot, the height and the two latencies in milliseconds.
unfoldable pub poll_chains :
    (n : Doubles)
    → ServiceDoubles n
    → MonitorConfig n
    → AnomalyDetector
    → Option ℕ
    → Option ℕ
    → ℕ
    → ℕ
    → ℕ
    → AnomalyDetector × List DetectorOutput
unfolding height_or_zero
poll_chains n sd config d none height solana_latency dcc_latency now = (d, [])
poll_chains n sd config d (some slot) height solana_latency dcc_latency now =
    check_chain_sync n config d (sd.seconds solana_latency) (sd.seconds dcc_latency)
      (sd.block_difference slot (height_or_zero height)) now

-- What GET /health of a validator answers: its status, or no status or no answer at all.
abbrev pub is_active : Option JsString → Bool
is_active none = false
is_active (some status) = status == codes "ok"

-- activeCount and faultCount over the endpoints.
unfoldable pub count_active : (JsString → Option JsString) → List JsString → ℕ × ℕ
count_active answer [] = (0, 0)
count_active answer (e ∷ es) =
    let (active, faults) = count_active answer es in
    if is_active (answer e) then (active + 1, faults) else (active, faults + 1)

-- `(process.env.VALIDATOR_HEALTH_ENDPOINTS || '').split(',').filter(Boolean)`
unfoldable pub health_endpoints : JsString → List JsString
unfolding split
health_endpoints text = filterb (λ e. not (e == [])) (split (codes ",") text)

-- checkValidatorHealth, with the validators' answers.
unfoldable pub poll_validators :
    (n : Doubles)
    → ServiceDoubles n
    → MonitorConfig n
    → AnomalyDetector
    → (JsString → Option JsString)
    → List JsString
    → ℕ
    → AnomalyDetector × List DetectorOutput
unfolding count_active
poll_validators n sd config d answer [] now = (d, [])
poll_validators n sd config d answer (e ∷ es) now =
    let (active, faults) = count_active answer (e ∷ es) in
    check_validator_health n config d active (sd.fault_rate faults (length (e ∷ es))) now

count_active-filterb :
    (answer : JsString → Option JsString) (es : List JsString)
    → (count_active answer es).0 ≡ length (filterb (λ e. is_active (answer e)) es)
unfolding count_active
count_active-filterb answer [] = refl
count_active-filterb answer (e ∷ es) = ground (arith, count_active-filterb answer es)

health-pauses :
    (n : Doubles) (config : MonitorConfig n) (d : AnomalyDetector) (active : ℕ) (faults : n.Double)
    (now : ℕ)
    → pauses (check_validator_health n config d active faults now)
      ≡ ltb active config.min_active_validators
unfolding perform is_danger
health-pauses n config d active faults now = perform-pauses n config d (health active faults now)

-- A poll of the validators asks for a pause exactly where some endpoint is configured and fewer of the
-- endpoints than the minimum of active validators answer that they are ok; an endpoint that does not
-- answer, or answers with another status, is not counted.
pub poll_validators-pauses :
    (n : Doubles) (sd : ServiceDoubles n) (config : MonitorConfig n) (d : AnomalyDetector)
    (answer : JsString → Option JsString) (es : List JsString) (now : ℕ)
    → pauses (poll_validators n sd config d answer es now) ≡ (
        ltb 0 (length es)
        && ltb (length (filterb (λ e. is_active (answer e)) es)) config.min_active_validators)
unfolding poll_validators paused
poll_validators-pauses n sd config d answer [] now = refl
poll_validators-pauses n sd config d answer (e ∷ es) now =
    health-pauses n config d (count_active answer (e ∷ es)).0
      (sd.fault_rate (count_active answer (e ∷ es)).1 (length (e ∷ es))) now
    ∙ ap (λ k. ltb k config.min_active_validators) (count_active-filterb answer (e ∷ es))
    ∙ ground arith

-- What units of wSOL stand for: the contract mints one unit of its 8 decimals for 10 lamports.
unfoldable pub lamports_of : ℕ → ℕ
lamports_of units = units * 10
