-- ===== src/Wizard/Tests.antt =====
-- The wizard at a concrete conversation.
use sol_gateway_dcc.Base.{
  ℕ, ◌*◌, ◌^◌, ◌≡◌, refl, true, false, none, some, List, [], ◌∷◌, JsString, codes, str_eq, ◌==◌,
  if◌then◌else◌, ltb, All,
}
use sol_gateway_dcc.Js.Map.{includes}
use sol_gateway_dcc.Js.Text.{starts_with}
use sol_gateway_dcc.Js.Numerals.{trim_start, trim_end}
use sol_gateway_dcc.Api.Addresses.{validate_destination, sol_to_dcc, is_base58}
use sol_gateway_dcc.Wizard.Steps.{
  WizardNumbers, Token, button, text, direction_of, step_direction, show_tokens, step_token,
  find_token, tokens_or_none, symbol_of, step_amount, take_amount, step_destination, step_confirm,
  decimals_of, units_of, step_execute, wizard_token, on_cancel, wizard_amount, held_direction,
  accept_destination, wizard_destination, wizard_confirm, has_text, trim,
}
use sol_gateway_dcc.Wizard.Scene.{
  WizardEvent, enters, chooses, sends, run_step, apply_effect, in_scene, wizard_event, run_wizard,
}
use sol_gateway_dcc.Wizard.Kept.{IsValidRequest}
use sol_gateway_dcc.Wizard.Valid.{run_wizard-IsValidRequest}

-- Whole amounts between 1 and 1000.
abbrev whole : WizardNumbers
whole = record {
  Amount = ℕ;
  parse_float = λ s. if s == codes "5" then some 5 else none;
  is_positive = λ a. ltb 0 a;
  is_below_min = λ a. ltb a 1;
  is_above_max = λ a. ltb 1000 a;
  units = λ a decimals. a * 10 ^ decimals;
}

abbrev usdc : Token
usdc = record { spl_mint = codes "EPj"; symbol = codes "USDC"; sol_decimals = 6; enabled = true }

abbrev old : Token
old = record { spl_mint = codes "Old"; symbol = codes "OLD"; sol_decimals = 9; enabled = false }

abbrev recipient : JsString
recipient = codes "3DPgzRmXjwVh1bFtTJ8s4dYQ6uGqKxWcZ9N"

-- An amount that is no number is asked for again.
abbrev conversation : List WizardEvent
conversation =
    enters
    ∷ chooses (codes "sol_to_dcc") (some (old ∷ usdc ∷ []))
    ∷ sends (button (codes "token:EPj"))
    ∷ sends (text (codes "five"))
    ∷ sends (text (codes " 5 "))
    ∷ sends (text recipient)
    ∷ sends (button (codes "confirm:yes"))
    ∷ []

conversation_created :
    (run_wizard whole conversation none).1
    ≡ record {
      direction = some sol_to_dcc;
      token = some (codes "USDC");
      spl_mint = some (codes "EPj");
      amount_units = some 5000000;
      decimals = 6;
      destination = some recipient;
    }
      ∷ []
unfolding run_wizard wizard_event in_scene apply_effect run_step step_direction step_token
    show_tokens direction_of wizard_token step_amount find_token tokens_or_none symbol_of
    wizard_amount step_destination take_amount on_cancel has_text trim trim_start trim_end
    wizard_destination accept_destination step_confirm held_direction wizard_confirm step_execute
    decimals_of units_of starts_with validate_destination is_base58 includes
conversation_created = refl

run_wizard-IsValidRequest_example :
    All (IsValidRequest whole) (run_wizard whole conversation none).1
unfolding run_wizard wizard_event in_scene apply_effect run_step step_direction step_token
    show_tokens direction_of wizard_token step_amount find_token tokens_or_none symbol_of
    wizard_amount step_destination take_amount on_cancel has_text trim trim_start trim_end
    wizard_destination accept_destination step_confirm held_direction wizard_confirm step_execute
    decimals_of units_of starts_with validate_destination is_base58 includes
run_wizard-IsValidRequest_example =
    run_wizard-IsValidRequest whole conversation (tt, (refl, (tt, (tt, (tt, (tt, (tt, tt)))))))
