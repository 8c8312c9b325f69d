-- ===== src/Wizard/Kept.antt =====
-- What the wizard's data holds before each step, and that the steps keep it.
use sol_gateway_dcc.Base.{
  ℕ, zero, suc, ◌≡◌, refl, ap, true, false, not, ◌||◌, Option, none, some, List, [], ◌∷◌, arith,
  JsString, codes, str_eq, ◌==◌, drop, if_cases,
}
use sol_gateway_dcc.Js.Text.{starts_with}
use sol_gateway_dcc.Api.Addresses.{Direction, AddressError, validate_destination}
use sol_gateway_dcc.Wizard.Steps.{
  WizardNumbers, Token, WizardData, TransferRequest, stay, next_step, leave, create, Outcome,
  step_direction, show_tokens, step_token, step_amount, take_amount, step_destination, step_confirm,
  decimals_of, units_of, step_execute, Input, button, text, other_input, wizard_token, on_cancel,
  wizard_amount, held_direction, accept_destination, wizard_destination, wizard_confirm, has_text,
  trim,
}
use sol_gateway_dcc.Wizard.Scene.{run_step}

-- A positive amount between the limits.
pub record IsAllowed (n : WizardNumbers) (a : n.Amount) : Type 0 where
  pub positive : n.is_positive a ≡ true
  pub enough : n.is_below_min a ≡ false
  pub within : n.is_above_max a ≡ false

abbrev pub HasToken : (n : WizardNumbers) → WizardData n → Type 0
HasToken n d = (mint : JsString) × (d.spl_mint ≡ some mint)

abbrev pub HasAmount : (n : WizardNumbers) → WizardData n → Type 0
HasAmount n d = (a : n.Amount) × (d.amount ≡ some a) × IsAllowed n a

abbrev pub HasDestination : (n : WizardNumbers) → WizardData n → Type 0
HasDestination n d =
    (s : JsString) × (d.destination ≡ some s)
    × (validate_destination (held_direction d.direction) s ≡ none)

-- What the data holds at a cursor.
abbrev pub Knows : (n : WizardNumbers) → ℕ → WizardData n → Type 0
Knows n zero d = Unit
Knows n (suc zero) d = Unit
Knows n (suc (suc zero)) d = HasToken n d
Knows n (suc (suc (suc zero))) d = HasToken n d × HasAmount n d
Knows n (suc (suc (suc (suc c)))) d = HasToken n d × (HasAmount n d × HasDestination n d)

-- A transfer with a token, an allowed amount in the token's units, and a destination that is valid for its
-- direction.
pub record IsValidRequest (n : WizardNumbers) (r : TransferRequest) : Type 0 where
  pub token : (mint : JsString) × (r.spl_mint ≡ some mint)
  pub amount : (a : n.Amount) × (r.amount_units ≡ some (n.units a r.decimals)) × IsAllowed n a
  pub destination :
      (s : JsString) × (r.destination ≡ some s)
      × (validate_destination (held_direction r.direction) s ≡ none)

abbrev pub Keeps : (n : WizardNumbers) → ℕ → Outcome n → Type 0
Keeps n c (d, stay) = Knows n c d
Keeps n c (d, next_step) = Knows n (suc c) d
Keeps n c (d, leave) = Unit
Keeps n c (d, create r) = IsValidRequest n r

take_amount-Keeps :
    (n : WizardNumbers) (o : Option n.Amount) (d : WizardData n)
    → HasToken n d
    → Keeps n 2 (take_amount n o d)
unfolding take_amount
take_amount-Keeps n none d h = h
take_amount-Keeps n (some a) d h =
    if_cases (Keeps n 2) (not (n.is_positive a) || (n.is_below_min a || n.is_above_max a)) _ _
      (λ q. h)
      (λ q. (
        h,
        (
          a,
          refl,
          record {
            positive = ground (arith, q);
            enough = ground (arith, q);
            within = ground (arith, q);
          },
        ),
      ))

cancel-Keeps :
    (n : WizardNumbers) (c : ℕ) (b : JsString) (d : WizardData n)
    → Knows n c d
    → Keeps n c (on_cancel n b d)
unfolding on_cancel
cancel-Keeps n c b d h = if_cases (Keeps n c) (b == codes "cancel") _ _ (λ q. tt) (λ q. h)

execute-Keeps : (n : WizardNumbers) (d : WizardData n) → Knows n 4 d → Keeps n 4 (step_execute n d)
unfolding step_execute units_of
execute-Keeps n d (t, ((a, ae, ok), dest)) = record {
  token = t;
  amount = (a, ap (λ o. units_of n o (decimals_of d.token_info)) ae, ok);
  destination = dest;
}

accept-Keeps :
    (n : WizardNumbers) (s : JsString) (d : WizardData n)
    → HasToken n d
    → HasAmount n d
    → (o : Option AddressError) → validate_destination (held_direction d.direction) s ≡ o
    → Keeps n 3 (accept_destination n s o d)
unfolding accept_destination step_confirm
accept-Keeps n s d t a none q = (t, (a, (s, refl, q)))
accept-Keeps n s d t a (some error) q = (t, a)

amount-Keeps :
    (n : WizardNumbers) (i : Input) (d : WizardData n)
    → HasToken n d
    → Keeps n 2 (wizard_amount n i d)
unfolding wizard_amount step_destination
amount-Keeps n (button b) d t = cancel-Keeps n 2 b d t
amount-Keeps n (text s) d t =
    if_cases (Keeps n 2) (has_text s) _ _ (λ q. take_amount-Keeps n (n.parse_float (trim s)) d t)
      (λ q. t)
amount-Keeps n other_input d t = t

destination-Keeps :
    (n : WizardNumbers) (i : Input) (d : WizardData n)
    → HasToken n d
    → HasAmount n d
    → Keeps n 3 (wizard_destination n i d)
unfolding wizard_destination
destination-Keeps n (button b) d t a = cancel-Keeps n 3 b d (t, a)
destination-Keeps n (text s) d t a =
    if_cases (Keeps n 3) (has_text s) _ _ (λ q. accept-Keeps n (trim s) d t a _ refl) (λ q. (t, a))
destination-Keeps n other_input d t a = (t, a)

confirm-Keeps :
    (n : WizardNumbers) (i : Input) (d : WizardData n)
    → Knows n 4 d
    → Keeps n 4 (wizard_confirm n i d)
unfolding wizard_confirm
confirm-Keeps n (button b) d h =
    if_cases (Keeps n 4) (b == codes "confirm:yes") _ _ (λ q. execute-Keeps n d h)
      (λ q. cancel-Keeps n 4 b d h)
confirm-Keeps n (text s) d h = h
confirm-Keeps n other_input d h = h

token-Keeps : (n : WizardNumbers) (i : Input) (d : WizardData n) → Keeps n 1 (wizard_token n i d)
unfolding wizard_token step_amount
token-Keeps n (button b) d =
    if_cases (Keeps n 1) (starts_with (codes "token:") b) _ _ (λ q. (drop 6 b, refl)) (λ q. tt)
token-Keeps n (text s) d = tt
token-Keeps n other_input d = tt

pub run_step-Keeps :
    (n : WizardNumbers) (c : ℕ) (i : Input) (d : WizardData n)
    → Knows n c d
    → Keeps n c (run_step n c i d)
unfolding run_step step_direction
run_step-Keeps n zero i d h = tt
run_step-Keeps n (suc zero) i d h = token-Keeps n i d
run_step-Keeps n (suc (suc zero)) i d h = amount-Keeps n i d h
run_step-Keeps n (suc (suc (suc zero))) i d (t, a) = destination-Keeps n i d t a
run_step-Keeps n (suc (suc (suc (suc zero)))) i d h = confirm-Keeps n i d h
run_step-Keeps n (suc (suc (suc (suc (suc c))))) i d h = tt

show_tokens-Keeps :
    (n : WizardNumbers) (ts : List Token) (d : WizardData n) → Keeps n 0 (show_tokens n d ts)
unfolding show_tokens
show_tokens-Keeps n [] d = tt
show_tokens-Keeps n (t ∷ ts) d = tt

pub step_token-Keeps :
    (n : WizardNumbers) (direction : Direction) (ts : Option (List Token)) (d : WizardData n)
    → Keeps n 0 (step_token n direction ts d)
unfolding step_token
step_token-Keeps n direction none d = tt
step_token-Keeps n direction (some ts) d = show_tokens-Keeps n _ _
