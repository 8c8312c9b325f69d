-- ===== src/Monitoring/Runs.antt =====
-- Runs of the detector: the checks that monitoring/src/main.ts and its callers make, in any order.
use sol_gateway_dcc.Base.{ℕ, ◌≡◌, refl, ap, List, [], ◌∷◌, ◌++◌, JsString}
use sol_gateway_dcc.Monitoring.Detector.{
  Doubles, MonitorConfig, AnomalyAlert, AnomalyDetector, DetectorOutput, alert, auto_pause,
  and_then, check_supply_invariant, check_volume_anomaly, check_large_transaction,
  check_transaction_rate, check_validator_health, check_chain_sync,
}

-- The checks that the monitor calls.
pub data Check (n : Doubles) : Type 0 where
  supply : ℕ → ℕ → ℕ → Check n
  volume : ℕ → ℕ → Check n
  large : ℕ → JsString → ℕ → Check n
  rate : ℕ → Check n
  health : ℕ → n.Double → ℕ → Check n
  sync : n.Double → n.Double → n.Double → ℕ → Check n

unfoldable pub perform :
    (n : Doubles)
    → MonitorConfig n
    → AnomalyDetector
    → Check n
    → AnomalyDetector × List DetectorOutput
unfolding check_supply_invariant check_volume_anomaly check_large_transaction check_transaction_rate
    check_validator_health check_chain_sync
perform n config d (supply locked minted now) = check_supply_invariant n config d locked minted now
perform n config d (volume amount now) = check_volume_anomaly n config d amount now
perform n config d (large amount id now) = check_large_transaction n config d amount id now
perform n config d (rate now) = check_transaction_rate n config d now
perform n config d (health active faults now) = check_validator_health n config d active faults now
perform n config d (sync solana dcc blocks now) = check_chain_sync n config d solana dcc blocks now

unfoldable pub perform_all :
    (n : Doubles)
    → MonitorConfig n
    → AnomalyDetector
    → List (Check n)
    → AnomalyDetector × List DetectorOutput
unfolding perform
perform_all n config d [] = (d, [])
perform_all n config d (c ∷ cs) = and_then (perform n config d c) (λ d'. perform_all n config d' cs)

-- The alerts that were emitted, in order.
unfoldable pub emitted : List DetectorOutput → List AnomalyAlert
emitted [] = []
emitted (alert a ∷ os) = a ∷ emitted os
emitted (auto_pause a ∷ os) = emitted os

pub emitted-append : (os ps : List DetectorOutput) → emitted (os ++ ps) ≡ emitted os ++ emitted ps
unfolding emitted
emitted-append [] ps = refl
emitted-append (alert a ∷ os) ps = ap (◌∷◌ a) (emitted-append os ps)
emitted-append (auto_pause a ∷ os) ps = emitted-append os ps

-- The alerts that asked for a pause, in order.
unfoldable pub paused : List DetectorOutput → List AnomalyAlert
paused [] = []
paused (alert a ∷ os) = paused os
paused (auto_pause a ∷ os) = a ∷ paused os
