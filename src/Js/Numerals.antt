-- ===== src/Js/Numerals.antt =====
-- Numbers in JavaScript's texts: `parseInt(s)`, `BigInt(s)`, and the decimal text of a number.
use sol_gateway_dcc.Base.{
  ℕ, ◌+◌, ◌-◌, ◌*◌, ◌≡◌, refl, Bool, true, false, ◌&&◌, ◌||◌, Option, none, some, [], ◌∷◌, JsString,
  codes, nat_eqb, leb, ltb, if◌then◌else◌,
}
use sol_gateway_dcc.Base.Int.{ℤ, pos, neg_ℤ}
use sol_gateway_dcc.Js.Bytes.{to_number}

-- A JavaScript number that is NaN or an integer, as `parseInt` gives it. An integer past 2^53 is rounded
-- by `to_number`.
pub data JsNumber : Type 0 where
  nan : JsNumber
  int : ℤ → JsNumber

-- WhiteSpace and LineTerminator of the language.
unfoldable pub is_space : ℕ → Bool
is_space c =
    (leb 9 c && leb c 13)
    || (nat_eqb c 32
        || (nat_eqb c 160
            || (nat_eqb c 5760
                || ((leb 8192 c && leb c 8202)
                    || (nat_eqb c 8232
                        || (nat_eqb c 8233
                            || (nat_eqb c 8239
                                || (nat_eqb c 8287 || (nat_eqb c 12288 || nat_eqb c 65279)))))))))

unfoldable pub trim_start : JsString → JsString
unfolding is_space
trim_start [] = []
trim_start (c ∷ s) = elim (is_space c) [ true ↦ trim_start s | false ↦ c ∷ s ]

unfoldable pub end_at : ℕ → JsString → JsString
unfolding is_space
end_at c [] = if is_space c then [] else c ∷ []
end_at c (d ∷ s) = c ∷ d ∷ s

unfoldable pub trim_end : JsString → JsString
unfolding end_at
trim_end [] = []
trim_end (c ∷ s) = end_at c (trim_end s)

-- The value of a digit in a radix up to 16.
unfoldable pub digit_value : ℕ → ℕ → Option ℕ
digit_value radix c =
    let v =
      if leb 48 c && leb c 57
      then c - 48
      else if leb 97 c && leb c 102
      then c - 87
      else if leb 65 c && leb c 70
      then c - 55
      else 16 in
    if ltb v radix then some v else none

-- The number that a text of digits only stands for.
unfoldable pub digits_from : ℕ → ℕ → JsString → Option ℕ
unfolding digit_value
digits_from radix v [] = some v
digits_from radix v (c ∷ s) = elim (digit_value radix c) [
  | none ↦ none
  | some d ↦ digits_from radix (v * radix + d) s
]

unfoldable pub digits : ℕ → JsString → Option ℕ
unfolding digits_from
digits radix [] = none
digits radix (c ∷ s) = digits_from radix 0 (c ∷ s)

unfoldable pub with_sign : (ℕ → ℤ) → Option ℕ → Option ℤ
with_sign sign none = none
with_sign sign (some n) = some (sign n)

-- What may follow a leading zero.
unfoldable pub zero_literal : JsString → Option ℤ
unfolding digits with_sign
zero_literal [] = some (pos 0)
zero_literal (c ∷ s) =
    if nat_eqb c 120 || nat_eqb c 88
    then with_sign pos (digits 16 s)
    else if nat_eqb c 111 || nat_eqb c 79
    then with_sign pos (digits 8 s)
    else if nat_eqb c 98 || nat_eqb c 66
    then with_sign pos (digits 2 s)
    else with_sign pos (digits 10 (c ∷ s))

unfoldable pub bigint_literal : JsString → Option ℤ
unfolding zero_literal
bigint_literal [] = some (pos 0)
bigint_literal (c ∷ s) =
    if nat_eqb c 45
    then with_sign (λ n. neg_ℤ (pos n)) (digits 10 s)
    else if nat_eqb c 43
    then with_sign pos (digits 10 s)
    else if nat_eqb c 48
    then zero_literal s
    else with_sign pos (digits 10 (c ∷ s))

-- `BigInt(s)`: a SyntaxError, `none`, where the text is not an integer's.
unfoldable pub to_bigint : JsString → Option ℤ
unfolding trim_start trim_end bigint_literal
to_bigint s = bigint_literal (trim_end (trim_start s))

-- The longest run of digits at the start; `none` before the first digit.
unfoldable pub digit_run : ℕ → Option ℕ → JsString → Option ℕ
unfolding digit_value
digit_run radix v [] = v
digit_run radix none (c ∷ s) = elim (digit_value radix c) [
  | none ↦ none
  | some d ↦ digit_run radix (some d) s
]
digit_run radix (some v) (c ∷ s) = elim (digit_value radix c) [
  | none ↦ some v
  | some d ↦ digit_run radix (some (v * radix + d)) s
]

unfoldable pub number_from : Option ℕ → JsNumber
number_from none = nan
number_from (some n) = int (pos (to_number n))

unfoldable pub parse_magnitude : JsString → JsNumber
unfolding digit_run number_from
parse_magnitude [] = nan
parse_magnitude (a ∷ []) = number_from (digit_run 10 none (a ∷ []))
parse_magnitude (a ∷ b ∷ s) =
    if nat_eqb a 48 && (nat_eqb b 120 || nat_eqb b 88)
    then number_from (digit_run 16 none s)
    else number_from (digit_run 10 none (a ∷ b ∷ s))

unfoldable pub negate : JsNumber → JsNumber
negate nan = nan
negate (int z) = int (neg_ℤ z)

unfoldable pub parse_signed : JsString → JsNumber
unfolding parse_magnitude negate
parse_signed [] = nan
parse_signed (c ∷ s) =
    if nat_eqb c 45
    then negate (parse_magnitude s)
    else if nat_eqb c 43
    then parse_magnitude s
    else parse_magnitude (c ∷ s)

-- `parseInt(s)`
unfoldable pub parse_int : JsString → JsNumber
unfolding trim_start parse_signed
parse_int s = parse_signed (trim_start s)

bigint_test : to_bigint (codes " -12 ") ≡ some (neg_ℤ (pos 12))
unfolding to_bigint
bigint_test = refl

bigint_hex_test : to_bigint (codes "0xff") ≡ some (pos 255)
unfolding to_bigint
bigint_hex_test = refl

bigint_invalid_test : to_bigint (codes "12a") ≡ none
unfolding to_bigint
bigint_invalid_test = refl

parse_int_test : parse_int (codes " 12a") ≡ int (pos 12)
unfolding parse_int to_number
parse_int_test = refl

parse_int_nan_test : parse_int (codes "a12") ≡ nan
unfolding parse_int
parse_int_nan_test = refl
