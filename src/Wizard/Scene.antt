-- ===== src/Wizard/Scene.antt =====
-- The scene of telegram-bot/src/scenes/bridge-wizard.cjs: its actions and steps, in any order. Telegraf calls the
-- action of a direction or of `cancel` at every step, and otherwise the step of the wizard's cursor; `next` adds
-- one to the cursor, a cursor behind the last step leaves, and entering runs the first step on new data.
use sol_gateway_dcc.Base.{ℕ, zero, suc, Option, none, some, List, [], ◌∷◌, ◌++◌, JsString}
use sol_gateway_dcc.Wizard.Steps.{
  WizardNumbers, Token, WizardData, no_data, TransferRequest, stay, next_step, leave, create,
  Outcome, direction_of, step_direction, step_token, Input, wizard_token, wizard_amount,
  wizard_destination, wizard_confirm,
}

pub record Session (n : WizardNumbers) : Type 0 where
  pub cursor : ℕ
  pub data_of : WizardData n

-- The command or the button that enters the scene; a direction, with the tokens that are loaded; `cancel`;
-- and any other input.
pub data WizardEvent : Type 0 where
  enters cancels : WizardEvent
  chooses : JsString → Option (List Token) → WizardEvent
  sends : Input → WizardEvent

unfoldable pub run_step : (n : WizardNumbers) → ℕ → Input → WizardData n → Outcome n
unfolding step_direction wizard_token wizard_amount wizard_destination wizard_confirm
run_step n zero i d = step_direction n d
run_step n (suc zero) i d = wizard_token n i d
run_step n (suc (suc zero)) i d = wizard_amount n i d
run_step n (suc (suc (suc zero))) i d = wizard_destination n i d
run_step n (suc (suc (suc (suc zero)))) i d = wizard_confirm n i d
run_step n (suc (suc (suc (suc (suc c))))) i d = (d, leave)

-- A transfer is created, and then the scene is left.
unfoldable pub apply_effect :
    (n : WizardNumbers) → ℕ → Outcome n → Option (Session n) × List TransferRequest
apply_effect n c (d, stay) = (some (record { cursor = c; data_of = d }), [])
apply_effect n c (d, next_step) = (some (record { cursor = suc c; data_of = d }), [])
apply_effect n c (d, leave) = (none, [])
apply_effect n c (d, create r) = (none, r ∷ [])

unfoldable pub in_scene :
    (n : WizardNumbers) → WizardEvent → Session n → Option (Session n) × List TransferRequest
unfolding apply_effect run_step step_direction step_token direction_of
in_scene n enters s = apply_effect n 0 (step_direction n (no_data n))
in_scene n cancels s = (none, [])
in_scene n (chooses direction tokens) s =
    apply_effect n s.cursor (step_token n (direction_of direction) tokens s.data_of)
in_scene n (sends i) s = apply_effect n s.cursor (run_step n s.cursor i s.data_of)

-- Outside of the scene only entering it does something.
unfoldable pub wizard_event :
    (n : WizardNumbers)
    → WizardEvent
    → Option (Session n)
    → Option (Session n) × List TransferRequest
unfolding in_scene apply_effect step_direction
wizard_event n enters none = apply_effect n 0 (step_direction n (no_data n))
wizard_event n cancels none = (none, [])
wizard_event n (chooses direction tokens) none = (none, [])
wizard_event n (sends i) none = (none, [])
wizard_event n e (some s) = in_scene n e s

unfoldable pub run_wizard :
    (n : WizardNumbers)
    → List WizardEvent
    → Option (Session n)
    → Option (Session n) × List TransferRequest
run_wizard n [] s = (s, [])
run_wizard n (e ∷ es) s =
    let (s', created) = wizard_event n e s in
    let (s'', later) = run_wizard n es s' in (s'', created ++ later)
