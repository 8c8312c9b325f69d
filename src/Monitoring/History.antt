-- ===== src/Monitoring/History.antt =====
-- The alerts that the detector keeps, against all that it has raised.
use sol_gateway_dcc.Base.{
  append_nil, min, ℕ, zero, suc, ◌+◌, ◌-◌, ◌≤◌, ◌≡◌, refl, sym, ap, ◌∙◌, Bool, true, false, List,
  [], ◌∷◌, ◌++◌, arith, ltb, if_cases, length, length-append, length-drop, drop,
}
use mathlib.Core.List.{append_assoc}
use sol_gateway_dcc.Monitoring.Detector.{
  Doubles, MonitorConfig, AnomalyAlert, AnomalyDetector, DetectorOutput, auto_pause, new_detector,
  slice_last, keep_last, raise_alert, raise_if, and_then, check_supply_invariant, reset_volume,
  add_volume, check_volume_anomaly, check_large_transaction, note_transaction,
  check_transaction_rate, check_validator_health, check_chain_sync,
}
use sol_gateway_dcc.Monitoring.Runs.{
  Check, supply, volume, large, rate, health, sync, perform, perform_all, emitted, emitted-append,
}

drop_nil : (n : ℕ) → drop {A = AnomalyAlert} n [] ≡ []
drop_nil zero = refl
drop_nil (suc n) = refl

drop_twice : (i j m : ℕ) (xs : List AnomalyAlert) → m ≡ i + j → drop i (drop j xs) ≡ drop m xs
drop_twice i zero m xs e = ap (λ k. drop k xs) (omega arith)
drop_twice i (suc j) zero xs e = absurd (omega arith)
drop_twice i (suc j) (suc m) [] e = drop_nil i
drop_twice i (suc j) (suc m) (x ∷ xs) e = drop_twice i j m xs (omega arith)

drop-append :
    (n : ℕ) (xs ys : List AnomalyAlert) → n ≤ length xs → drop n xs ++ ys ≡ drop n (xs ++ ys)
drop-append zero xs ys h = refl
drop-append (suc n) [] ys h = absurd (omega arith)
drop-append (suc n) (x ∷ xs) ys h = drop-append n xs ys (omega arith)

keep_last-drop : (xs : List AnomalyAlert) → keep_last xs ≡ drop (length xs - 1000) xs
unfolding keep_last slice_last
keep_last-drop xs =
    if_cases (λ ys. ys ≡ drop (length xs - 1000) xs) (ltb 1000 (length xs)) _ _ (λ _. refl)
      (λ short. let none_left : length xs - 1000 ≡ 0 = ground (arith, short) in rw none_left refl)

pub length-keep_last : (xs : List AnomalyAlert) → length (keep_last xs) ≤ 1000
length-keep_last xs = rw (keep_last-drop xs) (omega (arith, length-drop (length xs - 1000) xs))

keep_last_short : (xs : List AnomalyAlert) → length xs ≤ 1000 → keep_last xs ≡ xs
keep_last_short xs h =
    keep_last-drop xs
    ∙ ap (λ k. drop k xs) (let none_left : length xs - 1000 ≡ 0 = omega arith in none_left)

-- What is kept of a list that was cut before, with more behind it, is what is kept of all of it.
keep_last_again :
    (xs ys : List AnomalyAlert) → keep_last (keep_last xs ++ ys) ≡ keep_last (xs ++ ys)
keep_last_again xs ys =
    ap (λ zs. keep_last (zs ++ ys)) (keep_last-drop xs)
    ∙ ap keep_last (drop-append cut xs ys (omega arith))
    ∙ keep_last-drop (drop cut (xs ++ ys))
    ∙ drop_twice (length (drop cut (xs ++ ys)) - 1000) cut (length (xs ++ ys) - 1000) (xs ++ ys)
        (omega (arith, length-drop cut (xs ++ ys), length-append xs ys))
    ∙ sym (keep_last-drop (xs ++ ys))
  where
    cut : ℕ
    cut = length xs - 1000

-- A step keeps the last of what was there and what it emits.
abbrev Logged : AnomalyDetector → AnomalyDetector × List DetectorOutput → Type 0
Logged d r = r.0.alerts ≡ keep_last (d.alerts ++ emitted r.1)

abbrev IsCut : AnomalyDetector → Type 0
IsCut d = length d.alerts ≤ 1000

nothing-Logged : (d : AnomalyDetector) → IsCut d → Logged d (d, [])
unfolding emitted
nothing-Logged d h = sym (ap keep_last (append_nil d.alerts) ∙ keep_last_short d.alerts h)

raise_alert-Logged : (d : AnomalyDetector) (a : AnomalyAlert) → Logged d (raise_alert d a)
unfolding raise_alert emitted
raise_alert-Logged d a =
    if_cases (λ os. keep_last (d.alerts ++ a ∷ []) ≡ keep_last (d.alerts ++ a ∷ emitted os))
      a.auto_pause (auto_pause a ∷ []) [] (λ _. refl) (λ _. refl)

raise_if-Logged :
    (test : Bool) (d : AnomalyDetector) (a : AnomalyAlert) → IsCut d → Logged d (raise_if test d a)
raise_if-Logged true d a h = raise_alert-Logged d a
raise_if-Logged false d a h = nothing-Logged d h

Logged-IsCut :
    (d : AnomalyDetector) (r : AnomalyDetector × List DetectorOutput) → Logged d r → IsCut r.0
Logged-IsCut d r l = rw l (length-keep_last (d.alerts ++ emitted r.1))

and_then-Logged :
    (d : AnomalyDetector) (r : AnomalyDetector × List DetectorOutput)
    (next : AnomalyDetector → AnomalyDetector × List DetectorOutput)
    → Logged d r
    → Logged r.0 (next r.0)
    → Logged d (and_then r next)
and_then-Logged d r next l m =
    m
    ∙ ap (λ as'. keep_last (as' ++ emitted (next r.0).1)) l
    ∙ keep_last_again (d.alerts ++ emitted r.1) (emitted (next r.0).1)
    ∙ ap keep_last (
        append_assoc d.alerts (emitted r.1) (emitted (next r.0).1)
        ∙ ap (d.alerts ++◌) (sym (emitted-append r.1 (next r.0).1)))

then_raise-Logged :
    (d : AnomalyDetector) (r : AnomalyDetector × List DetectorOutput) (test : Bool)
    (a : AnomalyAlert)
    → Logged d r
    → Logged d (and_then r (λ d'. raise_if test d' a))
then_raise-Logged d r test a l =
    and_then-Logged d r (λ d'. raise_if test d' a) l
      (raise_if-Logged test r.0 a (Logged-IsCut d r l))

reset_volume-alerts : (d : AnomalyDetector) (now : ℕ) → (reset_volume d now).alerts ≡ d.alerts
unfolding reset_volume
reset_volume-alerts d now =
    if_cases (λ (d' : AnomalyDetector). d'.alerts ≡ d.alerts)
      (ltb (d.hourly_volume_reset + 3600000) now) _ _ (λ _. refl) (λ _. refl)

module _ (n : Doubles) (config : MonitorConfig n) where
  perform-Logged : (d : AnomalyDetector) (c : Check n) → IsCut d → Logged d (perform n config d c)
  unfolding perform check_supply_invariant check_volume_anomaly check_large_transaction
      check_transaction_rate check_validator_health check_chain_sync add_volume
  perform-Logged d (supply locked minted now) h =
      if_cases (Logged d) (ltb locked minted) _ _ (λ _. raise_alert-Logged d _)
        (λ _.
          if_cases (Logged d) (ltb 0 locked) _ _ (λ _. raise_if-Logged _ d _ h)
            (λ _. nothing-Logged d h))
  perform-Logged d (volume amount now) h =
      let counted = add_volume (reset_volume d now) amount in
      let same = reset_volume-alerts d now in
      raise_if-Logged _ counted _ (rw same h)
      ∙ ap (λ as'. keep_last (as' ++ emitted (check_volume_anomaly n config d amount now).1)) same
  perform-Logged d (large amount id now) h = raise_if-Logged _ d _ h
  perform-Logged d (rate now) h = raise_if-Logged _ (note_transaction d now) _ h
  perform-Logged d (health active faults now) h =
      then_raise-Logged d _ _ _ (raise_if-Logged _ d _ h)
  perform-Logged d (sync solana dcc blocks now) h =
      then_raise-Logged d _ _ _ (then_raise-Logged d _ _ _ (raise_if-Logged _ d _ h))

  perform_all-Logged :
      (cs : List (Check n)) (d : AnomalyDetector) → IsCut d → Logged d (perform_all n config d cs)
  unfolding perform_all
  perform_all-Logged [] d h = nothing-Logged d h
  perform_all-Logged (c ∷ cs) d h =
      let first = perform-Logged d c h in
      and_then-Logged d (perform n config d c) (λ d'. perform_all n config d' cs) first
        (perform_all-Logged cs (perform n config d c).0
          (Logged-IsCut d (perform n config d c) first))

  -- Whatever checks a new detector makes, the alerts that it keeps are those that it has emitted, in their order,
  -- without the first ones where there are more than 1000: as many of these are dropped as are above 1000, and no
  -- other, so that the last min(1000, n) of n alerts are kept.
  pub alerts-perform_all :
      (start : ℕ) (cs : List (Check n))
      → let d = (perform_all n config (new_detector start) cs).0 in
        let all_alerts = emitted (perform_all n config (new_detector start) cs).1 in
        (d.alerts ≡ drop (length all_alerts - 1000) all_alerts)
        × (length d.alerts ≡ min 1000 (length all_alerts))
  unfolding new_detector
  alerts-perform_all start cs =
      let all_alerts = emitted (perform_all n config (new_detector start) cs).1 in
      let last =
        perform_all-Logged cs (new_detector start) (omega arith) ∙ keep_last-drop all_alerts in
      (last, ap length last ∙ length-drop (length all_alerts - 1000) all_alerts ∙ omega arith)
