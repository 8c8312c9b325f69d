-- ===== src/Wizard/Steps.antt =====
-- The steps of telegram-bot/src/scenes/bridge-wizard.cjs, as what each does to the wizard's data and what it does
-- else: go to the next step, leave, or create a transfer. Replies and the balance that is shown are left
-- out. Numbers are an argument, since an amount is a fraction.
use sol_gateway_dcc.Base.{
  ℕ, Bool, not, ◌||◌, Option, none, some, List, [], ◌∷◌, JsString, codes, str_eq, ◌==◌,
  if◌then◌else◌, filterb, drop,
}
use sol_gateway_dcc.Js.Numerals.{trim_start, trim_end}
use sol_gateway_dcc.Js.Text.{starts_with}
use sol_gateway_dcc.Api.Addresses.{
  Direction, sol_to_dcc, dcc_to_sol, other_direction, AddressError, validate_destination,
}

-- parseFloat, `none` for NaN; the comparisons of stepDestination with 0, minAmountUsdc and maxAmountUsdc; and
-- Math.floor(amount * 10 ** decimals).
pub record WizardNumbers : Type 1 where
  pub Amount : Type 0
  pub parse_float : JsString → Option Amount
  pub is_positive : Amount → Bool
  pub is_below_min : Amount → Bool
  pub is_above_max : Amount → Bool
  pub units : Amount → ℕ → ℕ

pub record Token : Type 0 where
  pub spl_mint : JsString
  pub symbol : JsString
  pub sol_decimals : ℕ
  pub enabled : Bool

-- ctx.wizard.state.data, whose fields are absent until a step sets them.
pub record WizardData (n : WizardNumbers) : Type 0 where
  pub direction : Option Direction
  pub tokens : Option (List Token)
  pub spl_mint : Option JsString
  pub token_info : Option Token
  pub token_symbol : Option JsString
  pub amount : Option n.Amount
  pub destination : Option JsString

abbrev pub no_data : (n : WizardNumbers) → WizardData n
no_data n = record {
  direction = none;
  tokens = none;
  spl_mint = none;
  token_info = none;
  token_symbol = none;
  amount = none;
  destination = none;
}

-- The arguments of store.createTransfer; the amount is NaN, `none`, where there is none.
pub record TransferRequest : Type 0 where
  pub direction : Option Direction
  pub token : Option JsString
  pub spl_mint : Option JsString
  pub amount_units : Option ℕ
  pub decimals : ℕ
  pub destination : Option JsString

pub data Effect : Type 0 where
  stay next_step leave : Effect
  create : TransferRequest → Effect

abbrev pub Outcome : WizardNumbers → Type 0
Outcome n = WizardData n × Effect

-- `dir:(.+)`
unfoldable pub direction_of : JsString → Direction
direction_of text =
    if text == codes "sol_to_dcc"
    then sol_to_dcc
    else if text == codes "dcc_to_sol"
    then dcc_to_sol
    else other_direction

unfoldable pub step_direction : (n : WizardNumbers) → WizardData n → Outcome n
step_direction n d = (no_data n, stay)

unfoldable pub show_tokens : (n : WizardNumbers) → WizardData n → List Token → Outcome n
show_tokens n d [] = (d, stay)
show_tokens n d (t ∷ enabled) = (record d { tokens = some (t ∷ enabled) }, next_step)

-- The list of tokens, `none` where getTokens throws.
unfoldable pub step_token :
    (n : WizardNumbers) → Direction → Option (List Token) → WizardData n → Outcome n
unfolding show_tokens
step_token n direction none d = (record d { direction = some direction }, stay)
step_token n direction (some tokens) d =
    show_tokens n (record d { direction = some direction }) (filterb (λ t. t.enabled) tokens)

unfoldable pub find_token : JsString → List Token → Option Token
find_token mint [] = none
find_token mint (t ∷ ts) = if t.spl_mint == mint then some t else find_token mint ts

unfoldable pub tokens_or_none : Option (List Token) → List Token
tokens_or_none none = []
tokens_or_none (some ts) = ts

unfoldable pub symbol_of : Option Token → JsString
symbol_of none = codes "TOKEN"
symbol_of (some t) = if t.symbol == [] then codes "TOKEN" else t.symbol

unfoldable pub step_amount : (n : WizardNumbers) → JsString → WizardData n → Outcome n
unfolding find_token tokens_or_none symbol_of
step_amount n mint d =
    let found = find_token mint (tokens_or_none d.tokens) in
    (
      record d { spl_mint = some mint; token_info = found; token_symbol = some (symbol_of found) },
      next_step,
    )

-- `isNaN(amount)` first, then the three comparisons.
unfoldable pub take_amount : (n : WizardNumbers) → Option n.Amount → WizardData n → Outcome n
take_amount n none d = (d, stay)
take_amount n (some a) d =
    if not (n.is_positive a) || (n.is_below_min a || n.is_above_max a)
    then (d, stay)
    else (record d { amount = some a }, next_step)

unfoldable pub step_destination : (n : WizardNumbers) → JsString → WizardData n → Outcome n
unfolding take_amount
step_destination n text d = take_amount n (n.parse_float text) d

unfoldable pub step_confirm : (n : WizardNumbers) → JsString → WizardData n → Outcome n
step_confirm n destination d = (record d { destination = some destination }, next_step)

-- `d.tokenInfo?.solDecimals ?? 6`
unfoldable pub decimals_of : Option Token → ℕ
decimals_of none = 6
decimals_of (some t) = t.sol_decimals

unfoldable pub units_of : (n : WizardNumbers) → Option n.Amount → ℕ → Option ℕ
units_of n none decimals = none
units_of n (some a) decimals = some (n.units a decimals)

unfoldable pub step_execute : (n : WizardNumbers) → WizardData n → Outcome n
unfolding decimals_of units_of
step_execute n d = (
  d,
  create (record {
    direction = d.direction;
    token = d.token_symbol;
    spl_mint = d.spl_mint;
    amount_units = units_of n d.amount (decimals_of d.token_info);
    decimals = decimals_of d.token_info;
    destination = d.destination;
  }),
)

-- What a user sends: the data of a button, a text, or something else.
pub data Input : Type 0 where
  button text : JsString → Input
  other_input : Input

-- `data.replace('token:', '')`
unfoldable pub wizard_token : (n : WizardNumbers) → Input → WizardData n → Outcome n
unfolding step_amount starts_with
wizard_token n (button b) d =
    if starts_with (codes "token:") b then step_amount n (drop 6 b) d else (d, stay)
wizard_token n (text s) d = (d, stay)
wizard_token n other_input d = (d, stay)

-- `ctx.message?.text`, which is false where it is empty.
unfoldable pub has_text : JsString → Bool
has_text s = not (s == [])

unfoldable pub trim : JsString → JsString
unfolding trim_start trim_end
trim s = trim_end (trim_start s)

unfoldable pub on_cancel : (n : WizardNumbers) → JsString → WizardData n → Outcome n
on_cancel n b d = if b == codes "cancel" then (d, leave) else (d, stay)

unfoldable pub wizard_amount : (n : WizardNumbers) → Input → WizardData n → Outcome n
unfolding step_destination on_cancel has_text trim
wizard_amount n (text s) d = if has_text s then step_destination n (trim s) d else (d, stay)
wizard_amount n (button b) d = on_cancel n b d
wizard_amount n other_input d = (d, stay)

-- The direction that the data holds; without one no pattern is tested.
unfoldable pub held_direction : Option Direction → Direction
held_direction none = other_direction
held_direction (some direction) = direction

unfoldable pub accept_destination :
    (n : WizardNumbers) → JsString → Option AddressError → WizardData n → Outcome n
unfolding step_confirm
accept_destination n address (some error) d = (d, stay)
accept_destination n address none d = step_confirm n address d

unfoldable pub wizard_destination : (n : WizardNumbers) → Input → WizardData n → Outcome n
unfolding accept_destination on_cancel has_text held_direction trim
wizard_destination n (text s) d =
    if has_text s
    then accept_destination n (trim s) (validate_destination (held_direction d.direction) (trim s))
        d
    else (d, stay)
wizard_destination n (button b) d = on_cancel n b d
wizard_destination n other_input d = (d, stay)

unfoldable pub wizard_confirm : (n : WizardNumbers) → Input → WizardData n → Outcome n
unfolding step_execute on_cancel
wizard_confirm n (button b) d =
    if b == codes "confirm:yes" then step_execute n d else on_cancel n b d
wizard_confirm n (text s) d = (d, stay)
wizard_confirm n other_input d = (d, stay)
