-- ===== src/Relay/Tests.antt =====
-- The relay's theorems at concrete calls.
use sol_gateway_dcc.Base.{
  ℕ, ◌≤◌, ◌≡◌, ◌↔◌, refl, true, false, Option, some, [], ◌∷◌, JsString, codes, leb, if◌then◌else◌,
}
use sol_gateway_dcc.Relay.Retry.{
  Attempt, succeeded, raised, with_retry, FirstSuccess, with_retry-succeeded_iff,
}
use sol_gateway_dcc.Relay.Transfers.{
  RelayConfig, relay_sol_to_dcc, relay_dcc_to_sol, sol_confirmed, dcc_minted, complete,
  dcc_confirmed,
}
use sol_gateway_dcc.Relay.Statuses.{
  statuses, IsWholeRun, IsRunFrom, is_configured, relay-IsWholeRun, completed, IsMinted,
  relay-completed_iff,
}

-- The mint succeeds at the third attempt.
abbrev third : ℕ → Attempt (Option JsString)
third n = if leb n 2 then raised (codes "timeout") else succeeded (some (codes "tx"))

abbrev found : JsString → Attempt (Unit {0})
found id = succeeded tt

abbrev never : ℕ → Attempt (Unit {0})
never n = raised (codes "down")

abbrev consensus : RelayConfig
consensus = record { use_consensus = true; has_validator_key = false }

third_test : with_retry third ≡ (succeeded (some (codes "tx")), 3)
unfolding with_retry
third_test = refl

statuses_test :
    statuses (relay_sol_to_dcc consensus true (codes "ab12") third found).0
    ≡ sol_confirmed ∷ dcc_minted (some (codes "tx")) (codes "ab12") ∷ complete ∷ []
unfolding statuses relay_sol_to_dcc
statuses_test = refl

with_retry-succeeded_iff_example :
    (((with_retry third).0 ≡ succeeded (some (codes "tx")))
      ↔ ((k : ℕ) × (k ≤ 4) × FirstSuccess third 1 k (some (codes "tx"))))
    × ((with_retry third).1 ≤ 5)
with_retry-succeeded_iff_example = with_retry-succeeded_iff third (some (codes "tx"))

relay-IsWholeRun_example :
    IsWholeRun true
      (codes "ab12")
      (statuses (relay_sol_to_dcc consensus true (codes "ab12") third found).0)
    × IsRunFrom
        (codes "ab12")
        (dcc_confirmed (codes "ab12"))
        (statuses (relay_dcc_to_sol consensus true (codes "ab12") never).0)
relay-IsWholeRun_example = relay-IsWholeRun consensus true (codes "ab12") third found never

relay-completed_iff_example :
    (completed (relay_sol_to_dcc consensus true (codes "ab12") third found).0 ≡ true)
    ↔ ((is_configured consensus ≡ true) × IsMinted third found)
relay-completed_iff_example = relay-completed_iff consensus true (codes "ab12") third found
