-- ===== src/Js/Bytes/Texts.antt =====
-- `Buffer.from(s)`, `Buffer.from(s, 'hex')` and `toString('hex')`.
use sol_gateway_dcc.Base.{
  ℕ, ◌+◌, ◌-◌, ◌*◌, ◌/◌, ◌%◌, ◌<◌, ◌≡◌, refl, Option, none, some, [], ◌∷◌, ◌++◌, arith, ltb, leb,
  Bool, ◌&&◌, if◌then◌else◌, length, All, JsString, codes,
}
use sol_gateway_dcc.Js.Bytes.Words.{Bytes, IsBytes}

hex_digit : ℕ → ℕ
hex_digit d = if ltb d 10 then 48 + d else 87 + d

-- The value of a hexadecimal digit, of either case.
hex_value : ℕ → Option ℕ
hex_value c =
    if leb 48 c && leb c 57
    then some (c - 48)
    else if leb 97 c && leb c 102
    then some (c - 87)
    else if leb 65 c && leb c 70
    then some (c - 55)
    else none

unfoldable pub hex_encode : Bytes → JsString
unfolding hex_digit
hex_encode [] = []
hex_encode (b ∷ bs) = hex_digit (b / 16) ∷ hex_digit (b % 16) ∷ hex_encode bs

hex_pair : Option ℕ → Option ℕ → Bytes → Bytes
hex_pair (some a) (some b) rest = (a * 16 + b) ∷ rest
hex_pair (some a) none rest = []
hex_pair none b rest = []

-- Decoding stops at the first pair that is not two digits.
unfoldable pub hex_decode : JsString → Bytes
unfolding hex_value hex_pair
hex_decode [] = []
hex_decode (a ∷ []) = []
hex_decode (a ∷ b ∷ s) = hex_pair (hex_value a) (hex_value b) (hex_decode s)

hex_value-hex_digit : (d : ℕ) → d < 16 → hex_value (hex_digit d) ≡ some d
unfolding hex_value hex_digit
hex_value-hex_digit d h = ground arith

pub hex_decode-hex_encode : (bs : Bytes) → IsBytes bs → hex_decode (hex_encode bs) ≡ bs
unfolding hex_decode hex_encode
hex_decode-hex_encode [] h = refl
hex_decode-hex_encode (b ∷ bs) (h, hs) = ground (
  arith,
  hex_value-hex_digit (b / 16) (omega arith),
  hex_value-hex_digit (b % 16) (omega arith),
  hex_decode-hex_encode bs hs,
)

pub length-hex_encode : (bs : Bytes) → length (hex_encode bs) ≡ 2 * length bs
unfolding hex_encode
length-hex_encode [] = omega arith
length-hex_encode (b ∷ bs) = omega (arith, length-hex_encode bs)

-- UTF-8 of a string of code units. A surrogate that stands alone becomes U+FFFD.
utf8_unit : ℕ → Bytes
utf8_unit c =
    if ltb c 0x80
    then c ∷ []
    else if ltb c 0x800
    then (0xc0 + c / 64) ∷ (0x80 + c % 64) ∷ []
    else if leb 0xd800 c && leb c 0xdfff
    then 0xef ∷ 0xbf ∷ 0xbd ∷ []
    else (0xe0 + c / 4096) ∷ (0x80 + c / 64 % 64) ∷ (0x80 + c % 64) ∷ []

utf8_pair : ℕ → ℕ → Bytes
utf8_pair high low =
    let c = 0x10000 + (high - 0xd800) * 1024 + (low - 0xdc00) in
    (0xf0 + c / 262144) ∷ (0x80 + c / 4096 % 64) ∷ (0x80 + c / 64 % 64) ∷ (0x80 + c % 64) ∷ []

is_high : ℕ → Bool
is_high c = leb 0xd800 c && leb c 0xdbff

is_low : ℕ → Bool
is_low c = leb 0xdc00 c && leb c 0xdfff

unfoldable pub utf8 : JsString → Bytes
unfolding utf8_unit utf8_pair is_high is_low
utf8 [] = []
utf8 (c ∷ []) = utf8_unit c
utf8 (c ∷ d ∷ s) =
    let paired = utf8_pair c d ++ utf8 s in
    let single = utf8_unit c ++ utf8 (d ∷ s) in if is_high c && is_low d then paired else single

-- ASCII text is its own encoding.
abbrev pub IsAscii : JsString → Type 0
IsAscii = All (λ c. c < 0x80)

utf8_unit-ascii : (c : ℕ) → c < 0x80 → utf8_unit c ≡ c ∷ []
unfolding utf8_unit
utf8_unit-ascii c h = ground arith

pub utf8_of_IsAscii : (s : JsString) → IsAscii s → utf8 s ≡ s
unfolding utf8
utf8_of_IsAscii [] h = refl
utf8_of_IsAscii (c ∷ []) h = ground arith
utf8_of_IsAscii (c ∷ d ∷ s) (h, hs) = ground (arith, utf8_of_IsAscii (d ∷ s) hs)

utf8_test :
    utf8 (0xe9 ∷ 0x20ac ∷ 0xd83d ∷ 0xde00 ∷ 0xd800 ∷ [])
    ≡ 0xc3 ∷ 0xa9 ∷ 0xe2 ∷ 0x82 ∷ 0xac ∷ 0xf0 ∷ 0x9f ∷ 0x98 ∷ 0x80 ∷ 0xef ∷ 0xbf ∷ 0xbd ∷ []
unfolding utf8
utf8_test = refl

hex_test : hex_decode (codes "0aFfg1") ≡ 10 ∷ 255 ∷ []
unfolding hex_decode
hex_test = refl
