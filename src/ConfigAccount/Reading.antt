-- ===== src/ConfigAccount/Reading.antt =====
-- What stands where in the account's bytes.
use sol_gateway_dcc.Base.{
  ℕ, zero, suc, ◌+◌, ◌≤◌, ◌≡◌, refl, ap, ◌∙◌, Bool, true, false, [], ◌∷◌, ◌++◌, arith, length, take,
  drop, length-append, length-drop,
}
use sol_gateway_dcc.Js.Bytes.{Bytes, le_bytes}
use sol_gateway_dcc.SolanaWatcher.Decode.{read_word}
use sol_gateway_dcc.SolanaWatcher.Layout.{read_word_past}
use sol_gateway_dcc.ConfigAccount.{
  BridgeConfig, bool_byte, config_counts, config_limits, serialize_config, HasConfigWidths,
}

drop_within : (n : ℕ) (xs ys : Bytes) → n ≤ length xs → drop n (xs ++ ys) ≡ drop n xs ++ ys
drop_within zero xs ys h = refl
drop_within (suc n) [] ys h = absurd (omega arith)
drop_within (suc n) (x ∷ xs) ys h = drop_within n xs ys (omega arith)

take_within : (n : ℕ) (xs ys : Bytes) → n ≤ length xs → take n (xs ++ ys) ≡ take n xs
take_within zero xs ys h = refl
take_within (suc n) [] ys h = absurd (omega arith)
take_within (suc n) (x ∷ xs) ys h = ap (◌∷◌ x) (take_within n xs ys (omega arith))

-- A word that lies in a part is read from this part.
read_word_within :
    (w n : ℕ) (xs ys : Bytes) → n + w ≤ length xs → read_word w n (xs ++ ys) ≡ read_word w n xs
unfolding read_word
read_word_within w n xs ys h =
    let same : take w (drop n (xs ++ ys)) ≡ take w (drop n xs) =
      ap (take w) (drop_within n xs ys (omega arith))
      ∙ take_within w (drop n xs) ys (omega (arith, length-drop n xs)) in
    rw same (ground (arith, length-append xs ys))

length-config_counts : (c : BridgeConfig) → length (config_counts c) ≡ 27
unfolding config_counts le_bytes
length-config_counts c = refl

length-bool_byte : (b : Bool) → length (bool_byte b) ≡ 1
length-bool_byte true = refl
length-bool_byte false = refl

module _ {discriminator : Bytes} {c : BridgeConfig} (widths : HasConfigWidths discriminator c) where
  head_width : length (discriminator ++ (c.authority ++ c.guardian)) ≡ 72
  head_width = omega (
    arith,
    length-append discriminator (c.authority ++ c.guardian),
    length-append c.authority c.guardian,
    widths.discriminator_width,
    widths.authority_width,
    widths.guardian_width,
  )

  -- From the 73rd byte on, 27 bytes are the counts.
  pub read_counts :
      (w m n : ℕ)
      → m ≡ 73 + n
      → n + w ≤ 27
      → read_word w m (serialize_config discriminator c) ≡ read_word w n (config_counts c)
  unfolding serialize_config
  read_counts w m n e h =
      read_word_past w m (n + 1) _ _ (omega (arith, head_width))
      ∙ read_word_past w (n + 1) n _ _ (omega (arith, length-bool_byte c.paused))
      ∙ read_word_within w n _ _ (omega (arith, length-config_counts c))

  pub length-serialize_config : 97 + 3 ≤ length (serialize_config discriminator c)
  unfolding serialize_config
  length-serialize_config = omega (
    arith,
    head_width,
    length-bool_byte c.paused,
    length-config_counts c,
    length-append (discriminator ++ (c.authority ++ c.guardian))
        (bool_byte c.paused ++ (config_counts c ++ config_limits c)),
    length-append (bool_byte c.paused) (config_counts c ++ config_limits c),
    length-append (config_counts c) (config_limits c),
  )
