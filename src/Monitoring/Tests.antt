-- ===== src/Monitoring/Tests.antt =====
-- The monitor's theorems at a concrete detector.
use sol_gateway_dcc.Base.{
  min, drop, ◌-◌, ℕ, ◌≡◌, some, none, Option, JsString, codes, str_eq, ◌==◌, if◌then◌else◌,
  replicate, false, refl, true, List, [], ◌∷◌, arith, ltb, length,
}
use sol_gateway_dcc.Monitoring.Detector.{Doubles, MonitorConfig, new_detector, raise_alert}
use sol_gateway_dcc.Monitoring.Runs.{
  large, Check, supply, volume, rate, perform, perform_all, emitted,
}
use sol_gateway_dcc.Monitoring.History.{alerts-perform_all}
use sol_gateway_dcc.Monitoring.Pauses.{pauses, is_danger, perform-pauses}
use sol_gateway_dcc.ConfigAccount.{BridgeConfig}
use sol_gateway_dcc.Monitoring.Service.{ServiceDoubles}
use sol_gateway_dcc.Monitoring.Window.{rate_times, recent_transactions-perform_all}
use sol_gateway_dcc.Monitoring.Dispatcher.{AlertConfig}

-- Thousandths.
abbrev thousandths : Doubles
thousandths = record { Double = ℕ; gt = λ a b. ltb b a; drift = λ locked supply. 0 }

abbrev limits : MonitorConfig thousandths
limits = record {
  max_supply_drift_percent = 10;
  max_hourly_volume = 1000;
  large_transaction_threshold = 500;
  max_transactions_per_minute = 2;
  max_validator_fault_rate = 100;
  min_active_validators = 3;
  max_block_latency = 60000;
  max_chain_desync_blocks = 100000;
}

abbrev checks : List (Check thousandths)
checks = rate 10 ∷ volume 600 20 ∷ rate 50_000 ∷ volume 600 60_000 ∷ []

-- More alerts than are kept.
abbrev flood : List (Check thousandths)
flood = replicate 1002 (large 600 (codes "ab12") 7)

alerts-perform_all_example :
    let d = (perform_all thousandths limits (new_detector 0) flood).0 in
    let all_alerts = emitted (perform_all thousandths limits (new_detector 0) flood).1 in
    (d.alerts ≡ drop (length all_alerts - 1000) all_alerts)
    × (length d.alerts ≡ min 1000 (length all_alerts))
alerts-perform_all_example = alerts-perform_all thousandths limits 0 flood

perform-pauses_example :
    pauses (perform thousandths limits (new_detector 0) (supply 100 101 5))
    ≡ is_danger thousandths limits (new_detector 0) (supply 100 101 5)
perform-pauses_example = perform-pauses thousandths limits (new_detector 0) (supply 100 101 5)

spike_test : length (emitted (perform_all thousandths limits (new_detector 0) checks).1) ≡ 1
unfolding perform_all emitted new_detector raise_alert
spike_test = refl

recent_transactions-perform_all_example :
    (perform thousandths limits
      (perform_all thousandths limits (new_detector 0) checks).0
      (rate 70_000)).0.recent_transactions
    ≡ 50_000 ∷ 70_000 ∷ []
unfolding rate_times
recent_transactions-perform_all_example =
    recent_transactions-perform_all thousandths limits 0 70_000 checks
      (omega arith, (omega arith, (omega arith, tt)))

abbrev all_channels : AlertConfig
all_channels = record {
  webhook_url = true;
  slack_webhook_url = true;
  pager_duty_service_key = true;
  telegram_bot_token = false;
}

abbrev fractions : ServiceDoubles thousandths
fractions = record {
  seconds = λ ms. ms;
  block_difference = λ slot height. 0;
  fault_rate = λ faults total. faults;
}

-- One validator answers that it is ok.
abbrev answers : JsString → Option JsString
answers e = if e == codes "v1" then some (codes "ok") else none

abbrev config : BridgeConfig
config = record {
  authority = replicate 32 1;
  guardian = replicate 32 2;
  paused = false;
  global_nonce = 5;
  total_locked = 900;
  total_unlocked = 100;
  validator_count = 3;
  min_validators = 2;
  max_validators = 9;
  min_deposit = 1000000;
  max_deposit = 100000000000;
  max_daily_outflow = 0;
  current_daily_outflow = 0;
  last_daily_reset = 0;
  max_unlock_amount = 0;
  required_confirmations = 32;
  large_withdrawal_delay = 0;
  large_withdrawal_threshold = 0;
  dcc_chain_id = 2;
  solana_chain_id = 1;
  rest = [];
}
