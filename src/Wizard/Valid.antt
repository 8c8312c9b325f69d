-- ===== src/Wizard/Valid.antt =====
-- Which transfers the wizard creates.
use sol_gateway_dcc.Base.{
  ℕ, ◌≡◌, sym, Option, none, some, List, [], ◌∷◌, str_eq, All, All-append, subst,
}
use sol_gateway_dcc.Wizard.Steps.{
  WizardNumbers, no_data, TransferRequest, stay, next_step, leave, create, Outcome, direction_of,
  step_direction, step_token,
}
use sol_gateway_dcc.Wizard.Scene.{
  Session, WizardEvent, enters, cancels, chooses, sends, apply_effect, in_scene, wizard_event,
  run_wizard,
}
use sol_gateway_dcc.Wizard.Kept.{Knows, Keeps, IsValidRequest, run_step-Keeps, step_token-Keeps}

-- What a session's data holds.
abbrev HoldsData : (n : WizardNumbers) → Option (Session n) → Type 0
HoldsData n none = Unit
HoldsData n (some s) = Knows n s.cursor s.data_of

abbrev Sound : (n : WizardNumbers) → Option (Session n) × List TransferRequest → Type 0
Sound n (s, created) = HoldsData n s × All (IsValidRequest n) created

apply_effect-Sound :
    (n : WizardNumbers) (c : ℕ) (o : Outcome n) → Keeps n c o → Sound n (apply_effect n c o)
unfolding apply_effect
apply_effect-Sound n c (d, stay) h = (h, tt)
apply_effect-Sound n c (d, next_step) h = (h, tt)
apply_effect-Sound n c (d, leave) h = (tt, tt)
apply_effect-Sound n c (d, create r) h = (tt, (h, tt))

-- A direction is chosen without a session, or at the first step.
abbrev pub MayChoose : (n : WizardNumbers) → Option (Session n) → WizardEvent → Type 0
MayChoose n (some s) (chooses direction ts) = s.cursor ≡ 0
MayChoose n (some s) enters = Unit
MayChoose n (some s) cancels = Unit
MayChoose n (some s) (sends i) = Unit
MayChoose n none e = Unit

in_scene-Sound :
    (n : WizardNumbers) (e : WizardEvent) (s : Session n)
    → MayChoose n (some s) e
    → HoldsData n (some s)
    → Sound n (in_scene n e s)
unfolding in_scene step_direction
in_scene-Sound n enters s m h = apply_effect-Sound n 0 (step_direction n (no_data n)) tt
in_scene-Sound n cancels s m h = (tt, tt)
in_scene-Sound n (chooses direction ts) s m h =
    subst (λ c. Sound n (apply_effect n c (step_token n (direction_of direction) ts s.data_of)))
      (sym m) (apply_effect-Sound n 0 _ (step_token-Keeps n (direction_of direction) ts s.data_of))
in_scene-Sound n (sends i) s m h =
    apply_effect-Sound n s.cursor _ (run_step-Keeps n s.cursor i s.data_of h)

wizard_event-Sound :
    (n : WizardNumbers) (e : WizardEvent) (s : Option (Session n))
    → MayChoose n s e
    → HoldsData n s
    → Sound n (wizard_event n e s)
unfolding wizard_event step_direction
wizard_event-Sound n enters none m h = apply_effect-Sound n 0 (step_direction n (no_data n)) tt
wizard_event-Sound n cancels none m h = (tt, tt)
wizard_event-Sound n (chooses direction ts) none m h = (tt, tt)
wizard_event-Sound n (sends i) none m h = (tt, tt)
wizard_event-Sound n enters (some s) m h = in_scene-Sound n enters s m h
wizard_event-Sound n cancels (some s) m h = in_scene-Sound n cancels s m h
wizard_event-Sound n (chooses direction ts) (some s) m h =
    in_scene-Sound n (chooses direction ts) s m h
wizard_event-Sound n (sends i) (some s) m h = in_scene-Sound n (sends i) s m h

-- Directions are chosen at the first step of a session only.
abbrev pub ChoosesFirst : (n : WizardNumbers) → List WizardEvent → Option (Session n) → Type 0
ChoosesFirst n [] s = Unit
ChoosesFirst n (e ∷ es) s = MayChoose n s e × ChoosesFirst n es (wizard_event n e s).0

run-Sound :
    (n : WizardNumbers) (es : List WizardEvent) (s : Option (Session n))
    → ChoosesFirst n es s
    → HoldsData n s
    → All (IsValidRequest n) (run_wizard n es s).1
unfolding run_wizard
run-Sound n [] s c h = tt
run-Sound n (e ∷ es) s (m, c) h =
    let k = wizard_event-Sound n e s m h in
    All-append _ _ _ k.1 (run-Sound n es (wizard_event n e s).0 c k.0)

-- Along every sequence of events in which a user presses a direction only at the first step of a session, every
-- transfer that the wizard creates has a token, an amount that is positive and between the limits, in the units
-- of the transfer's decimals, and a destination that is valid for the transfer's direction.
pub run_wizard-IsValidRequest :
    (n : WizardNumbers) (es : List WizardEvent)
    → ChoosesFirst n es none
    → All (IsValidRequest n) (run_wizard n es none).1
run_wizard-IsValidRequest n es c = run-Sound n es none c tt
