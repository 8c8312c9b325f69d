-- ===== src/Monitoring/Window.antt =====
-- The sliding window of checkTransactionRate, against the times of all transactions.
use sol_gateway_dcc.Base.{ℕ, ◌≤◌, ◌≡◌, refl, sym, ap, ◌∙◌, List, [], ◌∷◌, ◌++◌, arith, filterb}
use mathlib.Core.List.{append_assoc}
use sol_gateway_dcc.Base.Windows.{filterb-append, filterb_later}
use sol_gateway_dcc.Monitoring.Detector.{
  Doubles, MonitorConfig, AnomalyDetector, new_detector, raise_alert, check_supply_invariant,
  reset_volume, add_volume, check_volume_anomaly, check_large_transaction, within_minute,
  note_transaction, check_transaction_rate, check_validator_health, check_chain_sync,
}
use sol_gateway_dcc.Monitoring.Runs.{
  Check, supply, volume, large, rate, health, sync, perform, perform_all,
}

-- The times of the rate checks, in order.
unfoldable pub rate_times : {n : Doubles} → List (Check n) → List ℕ
rate_times [] = []
rate_times (rate now ∷ cs) = now ∷ rate_times cs
rate_times (_ ∷ cs) = rate_times cs

-- A clock that does not go back, from a time on.
abbrev pub NotBefore : ℕ → List ℕ → Type 0
NotBefore t [] = Unit
NotBefore t (u ∷ us) = (t ≤ u) × NotBefore u us

-- What a check does to the window.
window_after : {n : Doubles} → AnomalyDetector → Check n → List ℕ
window_after d (rate now) = filterb (within_minute now) (d.recent_transactions ++ now ∷ [])
window_after d _ = d.recent_transactions

module _ (n : Doubles) (config : MonitorConfig n) where
  perform-window :
      (d : AnomalyDetector) (c : Check n)
      → (perform n config d c).0.recent_transactions ≡ window_after d c
  unfolding perform window_after check_supply_invariant check_volume_anomaly check_large_transaction
      check_transaction_rate check_validator_health check_chain_sync reset_volume add_volume
      note_transaction raise_alert
  perform-window d (supply locked minted now) = ground arith
  perform-window d (volume amount now) = ground arith
  perform-window d (large amount id now) = ground arith
  perform-window d (rate now) = ground arith
  perform-window d (health active faults now) = ground arith
  perform-window d (sync solana dcc blocks now) = ground arith

-- The window and the history look the same from every time that is not before the last one.
abbrev Shows : ℕ → List ℕ → AnomalyDetector → Type 0
Shows t times d =
    (now : ℕ)
    → t ≤ now
    → filterb (within_minute now) d.recent_transactions ≡ filterb (within_minute now) times

module _ (n : Doubles) (config : MonitorConfig n) where
  rate-Shows :
      (t u : ℕ) (times : List ℕ) (d : AnomalyDetector)
      → t ≤ u
      → Shows t times d
      → Shows u (times ++ u ∷ []) (perform n config d (rate u)).0
  unfolding window_after
  rate-Shows t u times d h shows now later =
      ap (filterb (within_minute now)) (perform-window n config d (rate u))
      ∙ filterb_later 60000 u now (d.recent_transactions ++ u ∷ []) later
      ∙ filterb-append (within_minute now) d.recent_transactions (u ∷ [])
      ∙ ap (λ xs. xs ++ filterb (within_minute now) (u ∷ [])) (shows now (omega arith))
      ∙ sym (filterb-append (within_minute now) times (u ∷ []))

  kept :
      (d : AnomalyDetector) (c : Check n) (t : ℕ) (times : List ℕ)
      → window_after d c ≡ d.recent_transactions
      → Shows t times d
      → Shows t times (perform n config d c).0
  kept d c t times same shows now later =
      ap (filterb (within_minute now)) (perform-window n config d c ∙ same) ∙ shows now later

  -- Performing the rest of the checks, and then one of the rate.
  rest-window :
      (cs : List (Check n)) (t now : ℕ) (times : List ℕ) (d : AnomalyDetector)
      → NotBefore t (rate_times cs ++ now ∷ [])
      → Shows t times d
      → (perform n config (perform_all n config d cs).0 (rate now)).0.recent_transactions
        ≡ filterb (within_minute now) (times ++ (rate_times cs ++ now ∷ []))
  unfolding perform_all rate_times window_after
  rest-window [] t now times d (h, _) shows =
      perform-window n config d (rate now)
      ∙ filterb-append (within_minute now) d.recent_transactions (now ∷ [])
      ∙ ap (λ xs. xs ++ filterb (within_minute now) (now ∷ [])) (shows now h)
      ∙ sym (filterb-append (within_minute now) times (now ∷ []))
  rest-window (rate u ∷ cs) t now times d (h, hs) shows =
      rest-window cs u now (times ++ u ∷ []) (perform n config d (rate u)).0 hs
        (rate-Shows t u times d h shows)
      ∙ ap (filterb (within_minute now)) (append_assoc times (u ∷ []) (rate_times cs ++ now ∷ []))
  rest-window (supply locked minted u ∷ cs) t now times d h shows =
      rest-window cs t now times (perform n config d (supply locked minted u)).0 h
        (kept d (supply locked minted u) t times refl shows)
  rest-window (volume amount u ∷ cs) t now times d h shows =
      rest-window cs t now times (perform n config d (volume amount u)).0 h
        (kept d (volume amount u) t times refl shows)
  rest-window (large amount id u ∷ cs) t now times d h shows =
      rest-window cs t now times (perform n config d (large amount id u)).0 h
        (kept d (large amount id u) t times refl shows)
  rest-window (health active faults u ∷ cs) t now times d h shows =
      rest-window cs t now times (perform n config d (health active faults u)).0 h
        (kept d (health active faults u) t times refl shows)
  rest-window (sync solana dcc blocks u ∷ cs) t now times d h shows =
      rest-window cs t now times (perform n config d (sync solana dcc blocks u)).0 h
        (kept d (sync solana dcc blocks u) t times refl shows)

-- However the checks of a new detector are mixed, as long as the clock of its rate checks does not go back,
-- the window after a rate check is exactly what the last minute holds of the times of all rate checks so
-- far, this one included.
pub recent_transactions-perform_all :
    (n : Doubles) (config : MonitorConfig n) (start now : ℕ) (cs : List (Check n))
    → NotBefore 0 (rate_times cs ++ now ∷ [])
    → (perform n config
        (perform_all n config (new_detector start) cs).0
        (rate now)).0.recent_transactions
      ≡ filterb (within_minute now) (rate_times cs ++ now ∷ [])
unfolding new_detector
recent_transactions-perform_all n config start now cs h =
    rest-window n config cs 0 now [] (new_detector start) h (λ later _. refl)
