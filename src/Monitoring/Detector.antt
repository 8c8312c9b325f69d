-- ===== src/Monitoring/Detector.antt =====
-- monitoring/src/detectors/anomaly-detector.ts. An alert's message and data, which are only shown, are
-- left out, and so is logging. The clock stands still during a method.
use sol_gateway_dcc.Base.{
  ℕ, zero, suc, ◌+◌, ◌-◌, Bool, true, false, Option, none, some, List, [], ◌∷◌, ◌++◌, JsString,
  codes, str_eq, leb, ltb, if◌then◌else◌, length, drop, filterb,
}
use sol_gateway_dcc.Js.Map.{JsMap, get, set}

-- Fractional numbers: their order, and `Number(locked - supply) / Number(locked)`.
pub record Doubles : Type 1 where
  pub Double : Type 0
  pub gt : Double → Double → Bool
  pub drift : ℕ → ℕ → Double

pub record MonitorConfig (n : Doubles) : Type 0 where
  pub max_supply_drift_percent : n.Double
  pub max_hourly_volume : ℕ
  pub large_transaction_threshold : ℕ
  pub max_transactions_per_minute : ℕ
  pub max_validator_fault_rate : n.Double
  pub min_active_validators : ℕ
  pub max_block_latency : n.Double
  pub max_chain_desync_blocks : n.Double

pub data Severity : Type 0 where
  info warning critical emergency : Severity

-- An alert's id is a prefix and the time, or the transfer of a large transaction.
pub data AlertId : Type 0 where
  at_time : JsString → ℕ → AlertId
  of_transfer : JsString → JsString → AlertId

pub record AnomalyAlert : Type 0 where
  pub id : AlertId
  pub severity : Severity
  pub category : JsString
  pub timestamp : ℕ
  pub auto_pause : Bool

pub record AnomalyDetector : Type 0 where
  pub hourly_volume : ℕ
  pub hourly_volume_reset : ℕ
  pub recent_transactions : List ℕ
  pub alerts : List AnomalyAlert

pub data DetectorOutput : Type 0 where
  alert auto_pause : AnomalyAlert → DetectorOutput

unfoldable pub new_detector : ℕ → AnomalyDetector
new_detector now = record {
  hourly_volume = 0;
  hourly_volume_reset = now;
  recent_transactions = [];
  alerts = [];
}

-- `slice(-n)`; `slice(-0)` is the whole array.
unfoldable pub slice_last {ℓ} : {A : Type ℓ} → ℕ → List A → List A
slice_last zero xs = xs
slice_last (suc n) xs = drop (length xs - suc n) xs

unfoldable pub keep_last : List AnomalyAlert → List AnomalyAlert
unfolding slice_last
keep_last as' = if ltb 1000 (length as') then slice_last 1000 as' else as'

unfoldable pub raise_alert : AnomalyDetector → AnomalyAlert → AnomalyDetector × List DetectorOutput
unfolding keep_last
raise_alert d a = (
  record d { alerts = keep_last (d.alerts ++ a ∷ []) },
  alert a ∷ (if a.auto_pause then auto_pause a ∷ [] else []),
)

-- Raises an alert where its test holds.
abbrev pub raise_if : Bool → AnomalyDetector → AnomalyAlert → AnomalyDetector × List DetectorOutput
raise_if test d a = if test then raise_alert d a else (d, [])

-- Two checks, one after the other.
abbrev pub and_then :
    AnomalyDetector × List DetectorOutput
    → (AnomalyDetector → AnomalyDetector × List DetectorOutput)
    → AnomalyDetector × List DetectorOutput
and_then (d, os) next = let (d', later) = next d in (d', os ++ later)

abbrev pub timed_alert : JsString → Severity → JsString → ℕ → Bool → AnomalyAlert
timed_alert prefix severity category now pauses = record {
  id = at_time prefix now;
  severity = severity;
  category = category;
  timestamp = now;
  auto_pause = pauses;
}

unfoldable pub check_supply_invariant :
    (n : Doubles)
    → MonitorConfig n
    → AnomalyDetector
    → ℕ
    → ℕ
    → ℕ
    → AnomalyDetector × List DetectorOutput
unfolding raise_alert
check_supply_invariant n config d locked supply now =
    if ltb locked supply
    then raise_alert d
        (timed_alert (codes "supply_mismatch_") emergency (codes "supply_invariant") now true)
    else if ltb 0 locked
    then raise_if (n.gt (n.drift locked supply) config.max_supply_drift_percent) d
        (timed_alert (codes "supply_drift_") warning (codes "supply_drift") now false)
    else (d, [])

-- An hour after the last reset the count starts again.
unfoldable pub reset_volume : AnomalyDetector → ℕ → AnomalyDetector
reset_volume d now =
    if ltb (d.hourly_volume_reset + 3600000) now
    then record d { hourly_volume = 0; hourly_volume_reset = now }
    else d

unfoldable pub add_volume : AnomalyDetector → ℕ → AnomalyDetector
add_volume d amount = record d { hourly_volume = d.hourly_volume + amount }

unfoldable pub check_volume_anomaly :
    (n : Doubles)
    → MonitorConfig n
    → AnomalyDetector
    → ℕ
    → ℕ
    → AnomalyDetector × List DetectorOutput
unfolding reset_volume add_volume raise_alert
check_volume_anomaly n config d amount now =
    let counted = add_volume (reset_volume d now) amount in
    raise_if (ltb config.max_hourly_volume counted.hourly_volume) counted
      (timed_alert (codes "volume_spike_") critical (codes "abnormal_volume") now true)

unfoldable pub check_large_transaction :
    (n : Doubles)
    → MonitorConfig n
    → AnomalyDetector
    → ℕ
    → JsString
    → ℕ
    → AnomalyDetector × List DetectorOutput
unfolding raise_alert
check_large_transaction n config d amount transfer_id now =
    raise_if (leb config.large_transaction_threshold amount) d (record {
      id = of_transfer (codes "large_tx_") transfer_id;
      severity = warning;
      category = codes "large_transaction";
      timestamp = now;
      auto_pause = false;
    })

-- Within the minute before `now`.
abbrev pub within_minute : ℕ → ℕ → Bool
within_minute now t = ltb now (t + 60000)

unfoldable pub note_transaction : AnomalyDetector → ℕ → AnomalyDetector
note_transaction d now = record d {
  recent_transactions = filterb (within_minute now) (d.recent_transactions ++ now ∷ []);
}

unfoldable pub check_transaction_rate :
    (n : Doubles) → MonitorConfig n → AnomalyDetector → ℕ → AnomalyDetector × List DetectorOutput
unfolding note_transaction raise_alert
check_transaction_rate n config d now =
    let noted = note_transaction d now in
    raise_if (ltb config.max_transactions_per_minute (length noted.recent_transactions)) noted
      (timed_alert (codes "rate_spike_") critical (codes "rapid_transactions") now true)

unfoldable pub check_validator_health :
    (n : Doubles)
    → MonitorConfig n
    → AnomalyDetector
    → ℕ
    → n.Double
    → ℕ
    → AnomalyDetector × List DetectorOutput
unfolding raise_alert
check_validator_health n config d active fault_rate now =
    and_then
      (raise_if (ltb active config.min_active_validators) d
        (timed_alert (codes "low_validators_") critical (codes "validator_health") now true))
      (λ d'.
        raise_if (n.gt fault_rate config.max_validator_fault_rate) d'
          (timed_alert (codes "validator_faults_") warning (codes "validator_faults") now false))

unfoldable pub check_chain_sync :
    (n : Doubles)
    → MonitorConfig n
    → AnomalyDetector
    → n.Double
    → n.Double
    → n.Double
    → ℕ
    → AnomalyDetector × List DetectorOutput
unfolding raise_alert
check_chain_sync n config d solana_latency dcc_latency block_difference now =
    and_then
      (and_then
        (raise_if (n.gt solana_latency config.max_block_latency) d
          (timed_alert (codes "solana_latency_") warning (codes "chain_sync") now false))
        (λ d'.
          raise_if (n.gt dcc_latency config.max_block_latency) d'
            (timed_alert (codes "dcc_latency_") warning (codes "chain_sync") now false)))
      (λ d'.
        raise_if (n.gt block_difference config.max_chain_desync_blocks) d'
          (timed_alert (codes "chain_desync_") critical (codes "chain_desync") now true))

unfoldable pub get_recent_alerts : AnomalyDetector → ℕ → List AnomalyAlert
unfolding slice_last
get_recent_alerts d limit = slice_last limit d.alerts

count_or_zero : Option ℕ → ℕ
count_or_zero none = 0
count_or_zero (some n) = n

count_alerts : List AnomalyAlert → JsMap JsString ℕ → JsMap JsString ℕ
unfolding count_or_zero
count_alerts [] counts = counts
count_alerts (a ∷ as') counts =
    count_alerts as' (set a.category (count_or_zero (get a.category counts) + 1) counts)

unfoldable pub get_alert_counts : AnomalyDetector → JsMap JsString ℕ
unfolding count_alerts
get_alert_counts d = count_alerts d.alerts []
