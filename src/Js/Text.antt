-- ===== src/Js/Text.antt =====
-- JavaScript's string operations, on lists of code units: startsWith, includes, split, and Buffer's base64.
use sol_gateway_dcc.Base.{
  ℕ, zero, suc, ◌+◌, ◌-◌, ◌*◌, ◌/◌, ◌%◌, ◌≡◌, refl, Bool, true, false, ◌&&◌, ◌||◌, Option, none,
  some, List, [], ◌∷◌, ◌++◌, JsString, codes, nat_eqb, leb, if◌then◌else◌, length,
}

unfoldable pub starts_with : JsString → JsString → Bool
starts_with [] s = true
starts_with (p ∷ ps) [] = false
starts_with (p ∷ ps) (c ∷ s) = nat_eqb p c && starts_with ps s

-- `s.includes(part)`
unfoldable pub includes_text : JsString → JsString → Bool
unfolding starts_with
includes_text part [] = starts_with part []
includes_text part (c ∷ s) = starts_with part (c ∷ s) || includes_text part s

-- `s.split(sep)` for a separator that is not empty. `skip` counts the rest of a separator just met.
unfoldable pub split_from : JsString → ℕ → JsString → JsString → List JsString
split_from sep skip cur [] = cur ∷ []
split_from sep (suc skip) cur (c ∷ s) = split_from sep skip cur s
split_from sep zero cur (c ∷ s) = elim (starts_with sep (c ∷ s)) [
  | true ↦ cur ∷ split_from sep (length sep - 1) [] s
  | false ↦ split_from sep zero (cur ++ c ∷ []) s
]

unfoldable pub split : JsString → JsString → List JsString
unfolding split_from starts_with
split sep s = split_from sep 0 [] s

-- `Buffer.from(s, 'base64')`: other characters are passed over, and `=` ends the text.
base64_value : ℕ → Option ℕ
base64_value c =
    if leb 65 c && leb c 90
    then some (c - 65)
    else if leb 97 c && leb c 122
    then some (c - 71)
    else if leb 48 c && leb c 57
    then some (c + 4)
    else if nat_eqb c 43 || nat_eqb c 45
    then some 62
    else if nat_eqb c 47 || nat_eqb c 95
    then some 63
    else none

sextets : JsString → List ℕ
sextets [] = []
sextets (c ∷ s) = elim (nat_eqb c 61) [
  | true ↦ []
  | false ↦ elim (base64_value c) [ none ↦ sextets s | some v ↦ v ∷ sextets s ]
]

bytes_of_sextets : List ℕ → List ℕ
bytes_of_sextets (a ∷ b ∷ c ∷ d ∷ s) =
    (a * 4 + b / 16) ∷ (b % 16 * 16 + c / 4) ∷ (c % 4 * 64 + d) ∷ bytes_of_sextets s
bytes_of_sextets (a ∷ b ∷ c ∷ []) = (a * 4 + b / 16) ∷ (b % 16 * 16 + c / 4) ∷ []
bytes_of_sextets (a ∷ b ∷ []) = (a * 4 + b / 16) ∷ []
bytes_of_sextets (a ∷ []) = []
bytes_of_sextets [] = []

unfoldable pub base64_decode : JsString → List ℕ
unfolding sextets bytes_of_sextets base64_value
base64_decode s = bytes_of_sextets (sextets s)

base64_test : base64_decode (codes "SGVsbG8gUw==") ≡ codes "Hello S"
unfolding base64_decode
base64_test = refl

split_test : split (codes "ab") (codes "xababy") ≡ codes "x" ∷ [] ∷ codes "y" ∷ []
unfolding split
split_test = refl
