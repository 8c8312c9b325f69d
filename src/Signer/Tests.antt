-- ===== src/Signer/Tests.antt =====
-- The signer with a toy cipher.
use sol_gateway_dcc.Base.{
  ℕ, ◌+◌, ◌≡◌, ◌⊎◌, inl, inr, refl, Option, none, some, List, [], ◌∷◌, ◌++◌, arith, codes, str_eq,
  nat_eqb, length, replicate, if◌then◌else◌, ◌>>=◌, ◌<◌, zero, suc,
}
use sol_gateway_dcc.Js.Bytes.{Bytes, IsBytes}
use sol_gateway_dcc.Js.Map.{get, set}
use sol_gateway_dcc.Signer.Keys.{
  SignerCrypto, IsSignerCrypto, SignerConfig, Write, refused, whole, cut, KeyDraws,
  save_encrypted_key, save_sealed, write_key, write_file, write_key_after, encryption_key_of,
}
use sol_gateway_dcc.Signer.Signing.{
  new_signer, Clock, info_of, initialize, initialize_from, finish_new, SignerEvent, signs, rotates,
  run_signer, signer_event, rotate_key, finish_rotation,
}
use sol_gateway_dcc.Signer.Written.{HasCleanDraws}
use sol_gateway_dcc.Signer.Restart.{saved_key, drawn_key, restart-saved_key}

-- A key pair is a number; the cipher takes keys of 32 bytes and changes nothing.
abbrev one_byte : Bytes → Option ℕ
one_byte [] = none
one_byte (k ∷ ks) = some k

abbrev sealed_with : Bytes → Bytes → Option (Bytes × Bytes)
sealed_with key m = if nat_eqb (length key) 32 then some (m, replicate 16 7) else none

abbrev toy : SignerCrypto
toy = record {
  KeyPair = ℕ;
  public_key = λ k. (k + 1) ∷ [];
  secret_key = λ k. k ∷ [];
  from_secret_key = one_byte;
  detached = λ m secret. m ++ secret;
  encrypt = λ key iv m. sealed_with key m;
  decrypt = λ key iv tag text. some text;
}

sealed_parts :
    (key m text tag : Bytes)
    → sealed_with key m ≡ some (text, tag)
    → (m ≡ text) × (replicate 16 7 ≡ tag)
sealed_parts key m text tag h = ground (arith, h)

toy-IsSignerCrypto : IsSignerCrypto toy
toy-IsSignerCrypto = record {
  restored = λ k. refl;
  decrypted =
      λ key iv m text tag h. let same = (sealed_parts key m text tag h).0 in ground (arith, same);
  tagged =
      λ key iv m text tag h. let same = (sealed_parts key m text tag h).1 in ground (arith, same);
}

abbrev config : SignerConfig
config = record { private_key_path = codes "keys/v.key"; key_rotation_interval_hours = 720 }

abbrev draw : ℕ → Write → KeyDraws toy
draw k write = record {
  key_pair = k;
  encryption_key = replicate 32 k;
  iv = replicate 16 1;
  file_write = write;
  key_write = whole;
}

abbrev at : ℕ → Clock
at now = record { made_at = now; due_from = now }

-- The key file may not be written at the last rotation.
abbrev two_rotations : List (SignerEvent toy)
two_rotations =
    signs (5 ∷ []) ∷ rotates (draw 20 whole) (at 200) ∷ rotates (draw 30 refused) (at 300) ∷ []

replicate-IsBytes : (n k : ℕ) → k < 256 → IsBytes (replicate n k)
replicate-IsBytes zero k h = tt
replicate-IsBytes (suc n) k h = (h, replicate-IsBytes n k h)

draw-HasCleanDraws :
    (k : ℕ) (write : Write)
    → k < 256
    → (write ≡ refused) ⊎ (write ≡ whole)
    → HasCleanDraws toy (draw k write)
draw-HasCleanDraws k write h clean = record {
  iv = refl;
  encryption_key = replicate-IsBytes 32 k h;
  file_write = clean;
  key_write = refl;
}

started :
    (initialize toy config none (draw 10 whole) (at 100) (new_signer toy) []).1
    ≡ some (info_of toy config (at 100) 10)
unfolding initialize initialize_from finish_new save_encrypted_key save_sealed write_key
    write_key_after write_file encryption_key_of get
started = refl

restart-saved_key_example :
    let first = (initialize toy config none (draw 10 whole) (at 100) (new_signer toy) []).0 in
    let later = run_signer toy config none two_rotations first in
    ((initialize toy config none (draw 40 whole) (at 400) (new_signer toy) later.1).1 ≡ (
      saved_key toy none first.0.key_pair two_rotations >>= λ k.
      some (info_of toy config (at 400) k)))
    × (later.0.key_pair ≡ drawn_key toy first.0.key_pair two_rotations)
restart-saved_key_example =
    restart-saved_key toy toy-IsSignerCrypto config none (draw 10 whole) (draw 40 whole) (at 100)
      (at 400) [] (info_of toy config (at 100) 10) two_rotations
      (draw-HasCleanDraws 10 whole (omega arith) (inr refl))
      (
        tt,
        (
          draw-HasCleanDraws 20 whole (omega arith) (inr refl),
          (draw-HasCleanDraws 30 refused (omega arith) (inl refl), tt),
        ),
      )
      started

keys_differ :
    let first = (initialize toy config none (draw 10 whole) (at 100) (new_signer toy) []).0 in
    (saved_key toy none first.0.key_pair two_rotations ≡ some 20)
    × (drawn_key toy first.0.key_pair two_rotations ≡ some 30)
unfolding initialize initialize_from finish_new save_encrypted_key save_sealed write_key
    write_key_after write_file encryption_key_of get
keys_differ = (refl, refl)

-- The disk is full at the first rotation: neither the old key nor the new one is left.
torn :
    let first = (initialize toy config none (draw 10 whole) (at 100) (new_signer toy) []).0 in
    let later = run_signer toy config none (rotates (draw 20 (cut 0)) (at 200) ∷ []) first in
    get config.private_key_path later.1 ≡ some []
unfolding initialize initialize_from finish_new save_encrypted_key save_sealed write_key
    write_key_after write_file encryption_key_of get set run_signer signer_event rotate_key
    finish_rotation
torn = refl
