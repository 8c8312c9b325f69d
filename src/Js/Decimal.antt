-- ===== src/Js/Decimal.antt =====
-- The decimal text of a number, as `toString` writes it, and its reading by `BigInt` and `parseInt`.
use sol_gateway_dcc.Base.{
  ℕ, zero, suc, ◌+◌, ◌-◌, ◌*◌, ◌/◌, ◌%◌, ◌<◌, ◌≤◌, ◌≡◌, refl, ap, sym, ◌∙◌, false, none, some, [],
  ◌∷◌, arith, JsString, ltb, if◌then◌else◌, if_cases, All, ◌≢◌, Option-cases, inl, inr,
}
use native.Mathlib.Decide.{dec_lt}
use sol_gateway_dcc.Base.Int.{pos}
use sol_gateway_dcc.Js.Bytes.{to_number}
use sol_gateway_dcc.Js.Numerals.{
  int, is_space, trim_start, trim_end, end_at, digit_value, digits_from, digits, with_sign,
  zero_literal, bigint_literal, to_bigint, digit_run, number_from, parse_magnitude, parse_signed,
  parse_int,
}

-- The digits of `n`, before a text; one step of fuel makes `n` ten times smaller.
decimal_from : ℕ → ℕ → JsString → JsString
decimal_from zero n s = (48 + n % 10) ∷ s
decimal_from (suc fuel) n s =
    let rest = decimal_from fuel (n / 10) ((48 + n % 10) ∷ s) in
    if ltb n 10 then (48 + n) ∷ s else rest

unfoldable pub decimal : ℕ → JsString
unfolding decimal_from
decimal n = decimal_from n n []

abbrev pub IsDigit : ℕ → Type 0
IsDigit c = (48 ≤ c) × (c ≤ 57)

abbrev IsDigits : JsString → Type 0
IsDigits = All IsDigit

-- A text of digits with one at least.
pub record IsNumeral (s : JsString) (n : ℕ) : Type 0 where
  pub first : ℕ
  pub rest : JsString
  pub split : s ≡ first ∷ rest
  pub first_digit : IsDigit first
  pub rest_digits : IsDigits rest
  pub value : digits_from 10 0 (first ∷ rest) ≡ some n

digit_value_digit : (d : ℕ) → d < 10 → digit_value 10 (48 + d) ≡ some d
unfolding digit_value
digit_value_digit d h = ground arith

digit_value_of : (c : ℕ) → IsDigit c → digit_value 10 c ≡ some (c - 48)
unfolding digit_value
digit_value_of c h = ground (arith, h.0, h.1)

digits_from_digit :
    (v d : ℕ) (s : JsString)
    → d < 10
    → digits_from 10 v ((48 + d) ∷ s) ≡ digits_from 10 (v * 10 + d) s
unfolding digits_from
digits_from_digit v d s h = rw (digit_value_digit d h, digits_from) refl

digits_from_first :
    (d : ℕ) (s : JsString) → d < 10 → digits_from 10 0 ((48 + d) ∷ s) ≡ digits_from 10 d s
digits_from_first d s h = digits_from_digit 0 d s h ∙ ap (λ v. digits_from 10 v s) (omega arith)

digits_from-decimal_from :
    (fuel n : ℕ) (s : JsString)
    → n ≤ fuel
    → digits_from 10 0 (decimal_from fuel n s) ≡ digits_from 10 n s
unfolding decimal_from
digits_from-decimal_from zero n s h =
    let small : n % 10 ≡ n = omega arith in rw small (digits_from_first n s (omega arith))
digits_from-decimal_from (suc fuel) n s h =
    if_cases (λ t. digits_from 10 0 t ≡ digits_from 10 n s) (ltb n 10) _ _
      (λ small. digits_from_first n s (ground arith))
      (λ large.
        digits_from-decimal_from fuel (n / 10) ((48 + n % 10) ∷ s) (omega arith)
        ∙ digits_from_digit (n / 10) (n % 10) s (omega arith)
        ∙ ap (λ v. digits_from 10 v s) (omega arith))

decimal_from-IsDigits : (fuel n : ℕ) (s : JsString) → IsDigits s → IsDigits (decimal_from fuel n s)
unfolding decimal_from
decimal_from-IsDigits zero n s h = ((omega arith, omega arith), h)
decimal_from-IsDigits (suc fuel) n s h =
    if_cases IsDigits (ltb n 10) _ _ (λ small. ((omega arith, ground arith), h))
      (λ large.
        decimal_from-IsDigits fuel (n / 10) ((48 + n % 10) ∷ s) ((omega arith, omega arith), h))

-- A text of digits is read as its value.
numeral : (s : JsString) (n : ℕ) → IsDigits s → digits_from 10 0 s ≡ some n → s ≢ [] → IsNumeral s n
numeral [] n h e filled = absurd (filled refl)
numeral (c ∷ s) n h e filled = record {
  first = c;
  rest = s;
  split = refl;
  first_digit = h.0;
  rest_digits = h.1;
  value = e;
}

decimal_from-filled : (fuel n : ℕ) (s : JsString) → decimal_from fuel n s ≢ []
unfolding decimal_from
decimal_from-filled zero n s e = ground arith
decimal_from-filled (suc fuel) n s e =
    if_cases (λ t. t ≢ []) (ltb n 10) _ _ (λ _ same. ground arith)
      (λ _. decimal_from-filled fuel (n / 10) ((48 + n % 10) ∷ s)) e

pub decimal-IsNumeral : (n : ℕ) → IsNumeral (decimal n) n
unfolding decimal digits_from
decimal-IsNumeral n =
    numeral (decimal n) n (decimal_from-IsDigits n n [] tt)
      (digits_from-decimal_from n n [] (omega arith)) (decimal_from-filled n n [])

-- No digit is blank.
digit_not_space : (c : ℕ) → IsDigit c → is_space c ≡ false
unfolding is_space
digit_not_space c h = ground (arith, h.0, h.1)

trim_start-digit : (c : ℕ) (s : JsString) → IsDigit c → trim_start (c ∷ s) ≡ c ∷ s
unfolding trim_start
trim_start-digit c s h = rw (digit_not_space c h, trim_start) refl

trim_end-digits : (s : JsString) → IsDigits s → trim_end s ≡ s
unfolding trim_end end_at
trim_end-digits [] h = refl
trim_end-digits (c ∷ []) (h, hs) = rw (digit_not_space c h) refl
trim_end-digits (c ∷ d ∷ s) (h, hs) = rw (trim_end-digits (d ∷ s) hs, trim_end) refl

zero_literal-digits :
    (s : JsString) (n : ℕ)
    → IsDigits s
    → digits_from 10 0 (48 ∷ s) ≡ some n
    → zero_literal s ≡ some (pos n)
unfolding zero_literal digits with_sign
zero_literal-digits [] n h e = ground (arith, sym (digits_from_first 0 [] (omega arith)) ∙ e)
zero_literal-digits (d ∷ s) n (h, hs) e =
    let value = sym (digits_from_first 0 (d ∷ s) (omega arith)) ∙ e in
    ground (arith, h.0, h.1, value)

bigint_literal-digits :
    (c : ℕ) (s : JsString) (n : ℕ)
    → IsDigit c
    → IsDigits s
    → digits_from 10 0 (c ∷ s) ≡ some n
    → bigint_literal (c ∷ s) ≡ some (pos n)
unfolding bigint_literal digits with_sign
bigint_literal-digits c s n h hs e = elim (dec_lt 48 c) [
  | yes above ↦ ground (arith, h.0, h.1, e)
  | no at ↦
      let zero_first : c ≡ 48 = omega (arith, h.0) in
      rw zero_first (zero_literal-digits s n hs (rw zero_first at e))
]

-- A run of digits that goes to the end is the whole text.
digit_run-digits_from :
    (v : ℕ) (s : JsString) {n : ℕ} → digits_from 10 v s ≡ some n → digit_run 10 (some v) s ≡ some n
unfolding digits_from digit_run
digit_run-digits_from v [] e = e
digit_run-digits_from v (c ∷ s) e = elim (Option-cases (digit_value 10 c)) [
  | inl none_left ↦ absurd (ground (arith, none_left, e))
  | inr (d, found) ↦
      rw (found, digit_run) (digit_run-digits_from (v * 10 + d) s (rw (found, digits_from) at e))
]

digit_run_first :
    (c : ℕ) (s : JsString) (n : ℕ)
    → IsDigit c
    → digits_from 10 0 (c ∷ s) ≡ some n
    → digit_run 10 none (c ∷ s) ≡ some n
unfolding digit_run
digit_run_first c s n h e =
    let place : c ≡ 48 + (c - 48) = omega (arith, h.0) in
    let value = sym (digits_from_first (c - 48) s (omega (arith, h.1))) ∙ (rw place at e) in
    rw (digit_value_of c h, digit_run) (digit_run-digits_from (c - 48) s value)

parse_signed-digits :
    (c : ℕ) (s : JsString) (n : ℕ)
    → IsDigit c
    → IsDigits s
    → digits_from 10 0 (c ∷ s) ≡ some n
    → parse_signed (c ∷ s) ≡ int (pos (to_number n))
unfolding parse_signed parse_magnitude number_from
parse_signed-digits c [] n h hs e = ground (arith, h.0, h.1, digit_run_first c [] n h e)
parse_signed-digits c (b ∷ s) n h (hb, hs) e =
    ground (arith, h.0, h.1, hb.0, hb.1, digit_run_first c (b ∷ s) n h e)

pub to_bigint-IsNumeral : (s : JsString) (n : ℕ) → IsNumeral s n → to_bigint s ≡ some (pos n)
unfolding to_bigint
to_bigint-IsNumeral s n v =
    rw
      (
        v.split,
        trim_start-digit v.first v.rest v.first_digit,
        trim_end-digits (v.first ∷ v.rest) (v.first_digit, v.rest_digits),
      )
      (bigint_literal-digits v.first v.rest n v.first_digit v.rest_digits v.value)

pub parse_int-IsNumeral :
    (s : JsString) (n : ℕ) → IsNumeral s n → parse_int s ≡ int (pos (to_number n))
unfolding parse_int
parse_int-IsNumeral s n v =
    rw (v.split, trim_start-digit v.first v.rest v.first_digit)
      (parse_signed-digits v.first v.rest n v.first_digit v.rest_digits v.value)
