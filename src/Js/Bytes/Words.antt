-- ===== src/Js/Bytes/Words.antt =====
-- Little-endian words (`writeBigUInt64LE`, `readBigUInt64LE`, …), `alloc` with `copy`, `Number`.
use sol_gateway_dcc.Base.{
  ℕ, zero, suc, ◌+◌, ◌-◌, ◌*◌, ◌/◌, ◌%◌, ◌^◌, ◌<◌, ◌≡◌, refl, ap, Option, none, some, List, [], ◌∷◌,
  ◌++◌, arith, ltb, if◌then◌else◌, length, take, replicate, length-append, length-take,
  length-replicate, All, min,
}
use sol_gateway_dcc.Base.Int.{ℤ, pos, negsuc}

abbrev pub Bytes : Type 0
Bytes = List ℕ

abbrev pub IsBytes : Bytes → Type 0
IsBytes = All (λ b. b < 256)

unfoldable pub le_bytes : ℕ → ℕ → Bytes
le_bytes zero n = []
le_bytes (suc w) n = n % 256 ∷ le_bytes w (n / 256)

unfoldable pub of_le : Bytes → ℕ
of_le [] = 0
of_le (b ∷ bs) = b + 256 * of_le bs

pub length-le_bytes : (w n : ℕ) → length (le_bytes w n) ≡ w
unfolding le_bytes
length-le_bytes zero n = refl
length-le_bytes (suc w) n = ap suc (length-le_bytes w (n / 256))

-- Below 256 ^ w, by digits.
abbrev pub byte_bound : ℕ → ℕ
byte_bound zero = 1
byte_bound (suc w) = 256 * byte_bound w

pub of_le-le_bytes : (w n : ℕ) → n < byte_bound w → of_le (le_bytes w n) ≡ n
unfolding le_bytes of_le
of_le-le_bytes zero n h = omega arith
of_le-le_bytes (suc w) n h = omega (arith, of_le-le_bytes w (n / 256) (omega arith))

pub of_le-lt : (w : ℕ) (bs : Bytes) → IsBytes bs → length bs ≡ w → of_le bs < byte_bound w
unfolding of_le
of_le-lt zero [] h e = omega arith
of_le-lt zero (b ∷ bs) h e = absurd (omega arith)
of_le-lt (suc w) [] h e = absurd (omega arith)
of_le-lt (suc w) (b ∷ bs) h e = omega (arith, of_le-lt w bs h.1 (omega arith))

pub le_bytes-of_le : (w : ℕ) (bs : Bytes) → IsBytes bs → length bs ≡ w → le_bytes w (of_le bs) ≡ bs
unfolding le_bytes of_le
le_bytes-of_le zero [] h e = refl
le_bytes-of_le zero (b ∷ bs) h e = absurd (omega arith)
le_bytes-of_le (suc w) [] h e = absurd (omega arith)
le_bytes-of_le (suc w) (b ∷ bs) (h, hs) e =
    let low : (b + 256 * of_le bs) % 256 ≡ b = omega arith in
    let high : (b + 256 * of_le bs) / 256 ≡ of_le bs = omega arith in
    rw (low, high) (ap (◌∷◌ b) (le_bytes-of_le w bs hs (omega arith)))

pub le_bytes-IsBytes : (w n : ℕ) → IsBytes (le_bytes w n)
unfolding le_bytes
le_bytes-IsBytes zero n = tt
le_bytes-IsBytes (suc w) n = (omega arith, le_bytes-IsBytes w (n / 256))

pub le_bytes-injective :
    (w m n : ℕ) → m < byte_bound w → n < byte_bound w → le_bytes w m ≡ le_bytes w n → m ≡ n
le_bytes-injective w m n hm hn e =
    omega (arith, ap of_le e, of_le-le_bytes w m hm, of_le-le_bytes w n hn)

-- `writeBigUInt64LE(value)`: a RangeError, `none`, outside of [0, 2^64).
unfoldable pub write_u64 : ℤ → Option Bytes
write_u64 (pos n) = if ltb n (2 ^ 64) then some (le_bytes 8 n) else none
write_u64 (negsuc n) = none

-- `writeUInt32LE(value)`
unfoldable pub write_u32 : ℕ → Option Bytes
write_u32 n = if ltb n (2 ^ 32) then some (le_bytes 4 n) else none

-- `writeBigInt64LE(value)` for a value that is not negative.
unfoldable pub write_i64 : ℕ → Option Bytes
write_i64 n = if ltb n (2 ^ 63) then some (le_bytes 8 n) else none

pub write_u64-eq-some :
    (z : ℤ) {bs : Bytes}
    → write_u64 z ≡ some bs
    → (n : ℕ) × (z ≡ pos n) × (n < 2 ^ 64) × (bs ≡ le_bytes 8 n)
unfolding write_u64
write_u64-eq-some (pos n) h = (n, refl, ground arith, ground arith)
write_u64-eq-some (negsuc n) h = absurd (ground arith)

pub write_u32-eq-some :
    (n : ℕ) {bs : Bytes} → write_u32 n ≡ some bs → (n < 2 ^ 32) × (bs ≡ le_bytes 4 n)
unfolding write_u32
write_u32-eq-some n h = (ground arith, ground arith)

-- `Buffer.alloc(n)`, then `src.copy(buf, 0, 0, min(n, src.length))`.
unfoldable pub copy_into : ℕ → Bytes → Bytes
copy_into n src = take n src ++ replicate (n - min n (length src)) 0

pub length-copy_into : (n : ℕ) (src : Bytes) → length (copy_into n src) ≡ n
unfolding copy_into
length-copy_into n src = omega (
  arith,
  length-append (take n src) (replicate (n - min n (length src)) 0),
  length-take n src,
  length-replicate {A = ℕ} (n - min n (length src)) 0,
)

take_all : (n : ℕ) (xs : Bytes) → length xs ≡ n → take n xs ≡ xs
take_all zero [] h = refl
take_all zero (x ∷ xs) h = absurd (omega arith)
take_all (suc n) [] h = refl
take_all (suc n) (x ∷ xs) h = ap (◌∷◌ x) (take_all n xs (omega arith))

append_nil : (xs : Bytes) → xs ++ [] ≡ xs
append_nil [] = refl
append_nil (x ∷ xs) = ap (◌∷◌ x) (append_nil xs)

pub copy_into_exact : (n : ℕ) (src : Bytes) → length src ≡ n → copy_into n src ≡ src
unfolding copy_into
copy_into_exact n src h =
    let none_left : n - min n (length src) ≡ 0 = omega arith in
    rw (none_left, take_all n src h) (append_nil src)

-- `Number(n)`: the nearest double, ties to even. Doubles have 53 bits, so an integer up to 2^53 is
-- exact; twelve doublings of the unit take every 64-bit integer.
round_to : ℕ → ℕ → ℕ
round_to unit n =
    let q = n / unit in
    let r = n % unit in
    let up = if ltb (2 * r) unit then 0 else if ltb unit (2 * r) then 1 else q % 2 in
    (q + up) * unit

to_number_from : ℕ → ℕ → ℕ → ℕ
to_number_from zero unit n = round_to unit n
to_number_from (suc fuel) unit n =
    let coarser = to_number_from fuel (2 * unit) n in
    if ltb n (unit * 2 ^ 53) then round_to unit n else coarser

unfoldable pub to_number : ℕ → ℕ
unfolding to_number_from round_to
to_number n = if ltb n (2 ^ 53) then n else to_number_from 12 2 n

pub to_number_exact : (n : ℕ) → n < 2 ^ 53 → to_number n ≡ n
unfolding to_number
to_number_exact n h = ground arith
