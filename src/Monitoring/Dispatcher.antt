-- ===== src/Monitoring/Dispatcher.antt =====
-- monitoring/src/alerts/dispatcher.ts: the channels that `dispatch` sends an alert to. A setting counts
-- where its text is not empty.
use sol_gateway_dcc.Base.{
  ℕ, Bool, true, false, ◌&&◌, ◌||◌, not, List, [], ◌∷◌, ◌++◌, any, if◌then◌else◌,
}
use sol_gateway_dcc.Monitoring.Detector.{Severity, info, warning, critical, emergency}

-- Which settings are there.
pub record AlertConfig : Type 0 where
  pub webhook_url : Bool
  pub slack_webhook_url : Bool
  pub pager_duty_service_key : Bool
  pub telegram_bot_token : Bool

pub data Channel : Type 0 where
  slack telegram pager_duty webhook : Channel

unfoldable pub is_info : Severity → Bool
is_info info = true
is_info _ = false

unfoldable pub is_critical : Severity → Bool
is_critical critical = true
is_critical _ = false

unfoldable pub is_emergency : Severity → Bool
is_emergency emergency = true
is_emergency _ = false

abbrev send_if : Bool → Channel → List Channel
send_if test c = if test then c ∷ [] else []

unfoldable pub dispatch : AlertConfig → Severity → List Channel
unfolding is_info is_critical is_emergency
dispatch config s =
    send_if (config.slack_webhook_url && not (is_info s)) slack
    ++ (send_if (config.telegram_bot_token && (is_critical s || is_emergency s)) telegram
        ++ (send_if (config.pager_duty_service_key && is_emergency s) pager_duty
            ++ send_if config.webhook_url webhook))

-- The order of severities, and the least one that a channel takes.
abbrev pub rank : Severity → ℕ
rank info = 0
rank warning = 1
rank critical = 2
rank emergency = 3

abbrev pub least_rank : Channel → ℕ
least_rank slack = 1
least_rank telegram = 2
least_rank pager_duty = 3
least_rank webhook = 0

abbrev pub is_configured : AlertConfig → Channel → Bool
is_configured config slack = config.slack_webhook_url
is_configured config telegram = config.telegram_bot_token
is_configured config pager_duty = config.pager_duty_service_key
is_configured config webhook = config.webhook_url

abbrev channel_eqb : Channel → Channel → Bool
channel_eqb slack slack = true
channel_eqb telegram telegram = true
channel_eqb pager_duty pager_duty = true
channel_eqb webhook webhook = true
channel_eqb _ _ = false

abbrev pub sends_to : Channel → List Channel → Bool
sends_to c cs = any (λ d. channel_eqb d c) cs
