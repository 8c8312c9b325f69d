-- ===== src/Monitoring/Pauses.antt =====
-- Which checks of the detector ask for the bridge to be paused.
use sol_gateway_dcc.Base.{
  ℕ, ◌+◌, ◌≡◌, refl, ap, ◌∙◌, Bool, true, false, ◌&&◌, ◌||◌, List, [], ◌∷◌, ◌++◌, arith, ltb,
  if◌then◌else◌, length, filterb,
}
use sol_gateway_dcc.Monitoring.Detector.{
  Doubles, MonitorConfig, AnomalyAlert, AnomalyDetector, DetectorOutput, alert, auto_pause,
  raise_alert, raise_if, and_then, check_supply_invariant, reset_volume, add_volume,
  check_volume_anomaly, check_large_transaction, within_minute, note_transaction,
  check_transaction_rate, check_validator_health, check_chain_sync,
}
use sol_gateway_dcc.Monitoring.Runs.{
  Check, supply, volume, large, rate, health, sync, perform, paused,
}

abbrev pub is_filled : List AnomalyAlert → Bool
is_filled [] = false
is_filled (a ∷ as') = true

-- Some alert asks for a pause.
abbrev pub pauses : AnomalyDetector × List DetectorOutput → Bool
pauses r = is_filled (paused r.1)

-- What is dangerous: a supply above what is locked, an hour's volume or a minute's transactions above
-- their limits, too few validators, or chains too far apart.
unfoldable pub is_danger : (n : Doubles) → MonitorConfig n → AnomalyDetector → Check n → Bool
is_danger n config d (supply locked minted now) = ltb locked minted
is_danger n config d (volume amount now) =
    ltb config.max_hourly_volume
      (amount + (if ltb (d.hourly_volume_reset + 3600000) now then 0 else d.hourly_volume))
is_danger n config d (large amount id now) = false
is_danger n config d (rate now) =
    ltb config.max_transactions_per_minute
      (length (filterb (within_minute now) d.recent_transactions) + 1)
is_danger n config d (health active faults now) = ltb active config.min_active_validators
is_danger n config d (sync solana dcc blocks now) = n.gt blocks config.max_chain_desync_blocks

paused-append : (os ps : List DetectorOutput) → paused (os ++ ps) ≡ paused os ++ paused ps
unfolding paused
paused-append [] ps = refl
paused-append (alert a ∷ os) ps = paused-append os ps
paused-append (auto_pause a ∷ os) ps = ap (◌∷◌ a) (paused-append os ps)

is_filled-append :
    (xs ys : List AnomalyAlert) → is_filled (xs ++ ys) ≡ (is_filled xs || is_filled ys)
is_filled-append [] ys = ground arith
is_filled-append (x ∷ xs) ys = ground arith

raise_alert-pauses :
    (d : AnomalyDetector) (a : AnomalyAlert) → pauses (raise_alert d a) ≡ a.auto_pause
unfolding raise_alert paused
raise_alert-pauses d a = ground arith

raise_if-pauses :
    (test : Bool) (d : AnomalyDetector) (a : AnomalyAlert)
    → pauses (raise_if test d a) ≡ (test && a.auto_pause)
unfolding paused
raise_if-pauses true d a = ground (arith, raise_alert-pauses d a)
raise_if-pauses false d a = refl

and_then-pauses :
    (r : AnomalyDetector × List DetectorOutput)
    (next : AnomalyDetector → AnomalyDetector × List DetectorOutput)
    → pauses (and_then r next) ≡ (pauses r || pauses (next r.0))
and_then-pauses r next =
    ap is_filled (paused-append r.1 (next r.0).1)
    ∙ is_filled-append (paused r.1) (paused (next r.0).1)

length-filterb-append :
    (p : ℕ → Bool) (xs ys : List ℕ)
    → length (filterb p (xs ++ ys)) ≡ length (filterb p xs) + length (filterb p ys)
length-filterb-append p [] ys = omega arith
length-filterb-append p (x ∷ xs) ys = ground (arith, length-filterb-append p xs ys)

-- A check asks for a pause exactly when it finds danger: the supply is above what is locked; the volume of
-- the hour, counted anew after an hour, goes above its limit with this amount; the transactions of the
-- last minute, this one included, are more than their limit; the active validators are fewer than their
-- minimum; or the chains are further apart than their limit. A large transaction alone never does.
pub perform-pauses :
    (n : Doubles) (config : MonitorConfig n) (d : AnomalyDetector) (c : Check n)
    → pauses (perform n config d c) ≡ is_danger n config d c
unfolding perform is_danger check_supply_invariant check_volume_anomaly check_large_transaction
    check_transaction_rate check_validator_health check_chain_sync reset_volume add_volume
    note_transaction raise_alert paused
perform-pauses n config d (supply locked minted now) = ground arith
perform-pauses n config d (volume amount now) = ground arith
perform-pauses n config d (large amount id now) = ground arith
perform-pauses n config d (rate now) =
    ground (arith, length-filterb-append (within_minute now) d.recent_transactions (now ∷ []))
perform-pauses n config d (health active faults now) = ground arith
perform-pauses n config d (sync solana dcc blocks now) = ground arith
