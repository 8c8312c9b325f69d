-- ===== src/Api/Addresses.antt =====
-- The address checks: isValidDccAddress of api/src/utils/dcc-helpers.ts, which
-- validator/src/utils/dcc-helpers.ts has too, and the patterns and validateDestination of
-- telegram-bot/src/scenes/bridge-wizard.cjs. A pattern over one class of characters is the test of each
-- character and of the length.
use sol_gateway_dcc.Base.{
  ℕ, suc, ◌≤◌, ◌≡◌, ◌↔◌, refl, Bool, true, false, not, ◌&&◌, ◌||◌, Option, none, some, [], ◌∷◌,
  arith, JsString, codes, str_eq, nat_eq, ◌==◌, nat_eqb, leb, ltb, if◌then◌else◌, length, all,
  Bool-cases, inl, inr,
}
use sol_gateway_dcc.Js.Map.{includes}
use sol_gateway_dcc.Js.Text.{starts_with}

abbrev pub base58_alphabet : JsString
base58_alphabet = codes "123456789ABCDEFGHJKLMNPQRSTUVWXYZabcdefghijkmnopqrstuvwxyz"

unfoldable pub is_base58 : ℕ → Bool
is_base58 c = includes c base58_alphabet

-- `/^[...]+$/` over the alphabet.
unfoldable pub is_base58_text : JsString → Bool
is_base58_text [] = false
is_base58_text (c ∷ s) = all is_base58 (c ∷ s)

unfoldable pub is_valid_dcc_address : JsString → Bool
unfolding is_base58_text starts_with
is_valid_dcc_address s =
    if (s == []) || (ltb (length s) 26 || ltb 36 (length s))
    then false
    else if not (starts_with (codes "3D") s)
    then false
    else is_base58_text s

-- DCC_ADDR_RE: "3D", then 24 to 34 characters of the alphabet.
unfoldable pub matches_dcc : JsString → Bool
matches_dcc [] = false
matches_dcc (c ∷ []) = false
matches_dcc (c ∷ d ∷ s) =
    (nat_eqb c 51 && nat_eqb d 68) && (all is_base58 s && (leb 24 (length s) && leb (length s) 34))

-- The class `[1-9A-HJ-NP-Za-km-z]`.
unfoldable pub is_sol_character : ℕ → Bool
is_sol_character c =
    (leb 49 c && leb c 57)
    || ((leb 65 c && leb c 72)
        || ((leb 74 c && leb c 78)
            || ((leb 80 c && leb c 90) || ((leb 97 c && leb c 107) || (leb 109 c && leb c 122)))))

-- SOL_ADDR_RE: 32 to 44 of them.
unfoldable pub matches_sol : JsString → Bool
unfolding is_sol_character
matches_sol s = all is_sol_character s && (leb 32 (length s) && leb (length s) 44)

-- 'sol_to_dcc', 'dcc_to_sol', or another text.
pub data Direction : Type 0 where
  sol_to_dcc dcc_to_sol other_direction : Direction

pub data AddressError : Type 0 where
  too_short not_dcc not_solana : AddressError

-- The tests of the pattern of the direction's destination.
unfoldable pub check_pattern : Direction → JsString → Option AddressError
unfolding matches_dcc matches_sol
check_pattern sol_to_dcc s = if not (matches_dcc s) then some not_dcc else none
check_pattern dcc_to_sol s = if not (matches_sol s) then some not_solana else none
check_pattern other_direction s = none

unfoldable pub validate_destination : Direction → JsString → Option AddressError
unfolding check_pattern
validate_destination direction s =
    if (s == []) || ltb (length s) 10 then some too_short else check_pattern direction s

-- The two characters of "3D" are of the alphabet.
three_is_base58 : is_base58 51 ≡ true
unfolding is_base58 includes
three_is_base58 = refl

d_is_base58 : is_base58 68 ≡ true
unfolding is_base58 includes
d_is_base58 = refl

-- A length from 26 to 36 is one from 24 to 34 after the first two characters.
lengths_agree :
    (b : Bool) (n : ℕ)
    → (if ltb (suc (suc n)) 26 || ltb 36 (suc (suc n)) then false else b)
      ≡ (b && (leb 24 n && leb n 34))
lengths_agree b n = ground arith

matches_dcc_lem : (s : JsString) → is_valid_dcc_address s ≡ matches_dcc s
unfolding is_valid_dcc_address matches_dcc starts_with is_base58_text
matches_dcc_lem [] = refl
matches_dcc_lem (c ∷ []) = ground arith
matches_dcc_lem (c ∷ d ∷ s) = elim (Bool-cases (nat_eqb c 51 && nat_eqb d 68)) [
  | inl same ↦
      let three : c ≡ 51 = ground (arith, same) in
      let letter : d ≡ 68 = ground (arith, same) in
      rw (three, letter, three_is_base58, d_is_base58) (lengths_agree (all is_base58 s) (length s))
  | inr other ↦ ground (arith, other)
]

empty-invalid : is_valid_dcc_address [] ≡ false
unfolding is_valid_dcc_address
empty-invalid = refl

valid_length : (s : JsString) → is_valid_dcc_address s ≡ true → 26 ≤ length s
unfolding is_valid_dcc_address
valid_length s h = ground (arith, h)

-- For a transfer to DCC, the bot's wizard takes a text as its destination exactly where isValidDccAddress of the API
-- and of the validator takes it.
pub validate_destination-is_valid_dcc_address :
    (s : JsString) → (validate_destination sol_to_dcc s ≡ none) ↔ (is_valid_dcc_address s ≡ true)
unfolding validate_destination
validate_destination-is_valid_dcc_address [] =
    ((λ h. absurd (ground (arith, h))), λ h. absurd (ground (arith, h, empty-invalid)))
validate_destination-is_valid_dcc_address (c ∷ s) = (
  (λ h. ground (arith, h, matches_dcc_lem (c ∷ s))),
  λ h. ground (arith, h, matches_dcc_lem (c ∷ s), valid_length (c ∷ s) h),
)
