-- ===== src/Signer/Signing.antt =====
-- validator/src/signer/threshold-signer.ts: the signer's key and its counter. A call gives the new signer and
-- files, and its value, `none` where it throws. Where the code reads the clock twice, there are two readings.
use sol_gateway_dcc.Base.{
  ℕ, suc, ◌+◌, ◌*◌, Bool, true, false, Option, none, some, List, [], ◌∷◌, JsString, str_eq, ltb,
  ◌>>=◌,
}
use sol_gateway_dcc.Base.Int.{ℤ, pos, sub_ℕ}
use sol_gateway_dcc.Js.Bytes.{Bytes}
use sol_gateway_dcc.Js.Map.{get}
use sol_gateway_dcc.Signer.Keys.{
  SignerCrypto, SignerConfig, Files, KeyDraws, save_encrypted_key, decrypt_key_pair,
}

pub record KeyInfo : Type 0 where
  pub public_key : Bytes
  pub created_at : ℕ
  pub rotation_due : ℕ

pub record Signer (c : SignerCrypto) : Type 0 where
  pub key_pair : Option c.KeyPair
  pub key_info : Option KeyInfo
  pub signature_count : ℕ

abbrev pub new_signer : (c : SignerCrypto) → Signer c
new_signer c = record { key_pair = none; key_info = none; signature_count = 0 }

pub record Clock : Type 0 where
  pub made_at : ℕ
  pub due_from : ℕ

abbrev pub SignerCall : SignerCrypto → Type 0 → Type 0
SignerCall c A = (Signer c × Files) × Option A

abbrev pub info_of : (c : SignerCrypto) → SignerConfig → Clock → c.KeyPair → KeyInfo
info_of c config t k = record {
  public_key = c.public_key k;
  created_at = t.made_at;
  rotation_due = t.due_from + config.key_rotation_interval_hours * 60 * 60 * 1000;
}

abbrev pub with_key : (c : SignerCrypto) → SignerConfig → Clock → c.KeyPair → Signer c → Signer c
with_key c config t k s = record s { key_pair = some k; key_info = some (info_of c config t k) }

-- A key that is generated is in use before its file is written.
unfoldable pub finish_new :
    (c : SignerCrypto)
    → SignerConfig
    → KeyDraws c
    → Clock
    → Signer c
    → Files × Bool
    → SignerCall c KeyInfo
finish_new c config d t s (files, false) = ((record s { key_pair = some d.key_pair }, files), none)
finish_new c config d t s (files, true) =
    ((with_key c config t d.key_pair s, files), some (info_of c config t d.key_pair))

unfoldable pub finish_loaded :
    (c : SignerCrypto)
    → SignerConfig
    → Clock
    → Signer c
    → Files
    → Option c.KeyPair
    → SignerCall c KeyInfo
finish_loaded c config t s files none = ((s, files), none)
finish_loaded c config t s files (some k) =
    ((with_key c config t k s, files), some (info_of c config t k))

-- `fs.existsSync(keyPath)`
unfoldable pub initialize_from :
    (c : SignerCrypto)
    → SignerConfig
    → Option JsString
    → KeyDraws c
    → Clock
    → Signer c
    → Files
    → Option Bytes
    → SignerCall c KeyInfo
unfolding finish_new finish_loaded save_encrypted_key decrypt_key_pair
initialize_from c config env d t s files none =
    finish_new c config d t s (save_encrypted_key c config env d files)
initialize_from c config env d t s files (some encrypted) =
    finish_loaded c config t s files (decrypt_key_pair c config env files encrypted)

-- Both modes run initializeSoftwareKey.
unfoldable pub initialize :
    (c : SignerCrypto)
    → SignerConfig
    → Option JsString
    → KeyDraws c
    → Clock
    → Signer c
    → Files
    → SignerCall c KeyInfo
unfolding initialize_from
initialize c config env d t s files =
    initialize_from c config env d t s files (get config.private_key_path files)

unfoldable pub get_public_key : (c : SignerCrypto) → Signer c → Option Bytes
get_public_key c s = s.key_pair >>= λ k. some (c.public_key k)

unfoldable pub sign_with :
    (c : SignerCrypto) → Bytes → Signer c → Option c.KeyPair → Signer c × Option Bytes
sign_with c message s none = (s, none)
sign_with c message s (some k) = (
  record s { signature_count = suc s.signature_count },
  some (c.detached message (c.secret_key k)),
)

-- A rotation that is overdue is only logged.
unfoldable pub sign : (c : SignerCrypto) → Bytes → Signer c → Signer c × Option Bytes
unfolding sign_with
sign c message s = sign_with c message s s.key_pair

unfoldable pub finish_rotation :
    (c : SignerCrypto)
    → SignerConfig
    → KeyDraws c
    → Clock
    → Signer c
    → Files × Bool
    → SignerCall c KeyInfo
finish_rotation c config d t s (files, false) = ((with_key c config t d.key_pair s, files), none)
finish_rotation c config d t s (files, true) =
    ((with_key c config t d.key_pair s, files), some (info_of c config t d.key_pair))

unfoldable pub rotate_key :
    (c : SignerCrypto)
    → SignerConfig
    → Option JsString
    → KeyDraws c
    → Clock
    → Signer c
    → Files
    → SignerCall c KeyInfo
unfolding finish_rotation save_encrypted_key
rotate_key c config env d t s files =
    finish_rotation c config d t s (save_encrypted_key c config env d files)

pub record SignerStats : Type 0 where
  pub signature_count : ℕ
  pub key_age : ℤ
  pub rotation_due : Bool

unfoldable pub stats_of : ℕ → ℕ → Option KeyInfo → SignerStats
stats_of now count none = record { signature_count = count; key_age = pos 0; rotation_due = false }
stats_of now count (some i) = record {
  signature_count = count;
  key_age = sub_ℕ now i.created_at;
  rotation_due = ltb i.rotation_due now;
}

unfoldable pub get_stats : (c : SignerCrypto) → ℕ → Signer c → SignerStats
unfolding stats_of
get_stats c now s = stats_of now s.signature_count s.key_info

pub data SignerEvent (c : SignerCrypto) : Type 0 where
  signs : Bytes → SignerEvent c
  rotates : KeyDraws c → Clock → SignerEvent c

unfoldable pub signer_event :
    (c : SignerCrypto)
    → SignerConfig
    → Option JsString
    → SignerEvent c
    → Signer c × Files
    → Signer c × Files
unfolding sign rotate_key
signer_event c config env (signs message) (s, files) = ((sign c message s).0, files)
signer_event c config env (rotates d t) (s, files) = (rotate_key c config env d t s files).0

unfoldable pub run_signer :
    (c : SignerCrypto)
    → SignerConfig
    → Option JsString
    → List (SignerEvent c)
    → Signer c × Files
    → Signer c × Files
run_signer c config env [] s = s
run_signer c config env (e ∷ es) s = run_signer c config env es (signer_event c config env e s)
