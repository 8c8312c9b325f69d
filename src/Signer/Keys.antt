-- ===== src/Signer/Keys.antt =====
-- The key files of validator/src/signer/threshold-signer.ts: saveEncryptedKey and decryptKeyPair. The files are a
-- map from paths to bytes, and directories are left out. The text of a file is its bytes, as reading it stops at
-- the first that is no hexadecimal digit.
use sol_gateway_dcc.Base.{
  ℕ, ◌≡◌, Bool, true, false, Option, none, some, [], ◌∷◌, ◌++◌, JsString, codes, str_eq, take, drop,
  length, ◌>>=◌,
}
use sol_gateway_dcc.Js.Bytes.{Bytes, hex_encode, hex_decode}
use sol_gateway_dcc.Js.Map.{JsMap, get, set}

-- tweetnacl's key pairs and signatures, and aes-256-gcm of Node's crypto: a cipher text and its tag, and the plain
-- text of both, `none` where the call throws.
pub record SignerCrypto : Type 1 where
  pub KeyPair : Type 0
  pub public_key : KeyPair → Bytes
  pub secret_key : KeyPair → Bytes
  pub from_secret_key : Bytes → Option KeyPair
  pub detached : Bytes → Bytes → Bytes
  pub encrypt : Bytes → Bytes → Bytes → Option (Bytes × Bytes)
  pub decrypt : Bytes → Bytes → Bytes → Bytes → Option Bytes

-- What is documented of them: a key pair is that of its secret key, a cipher text is decrypted to its plain text, and a
-- tag has 16 bytes.
pub record IsSignerCrypto (c : SignerCrypto) : Type 0 where
  pub restored : (k : c.KeyPair) → c.from_secret_key (c.secret_key k) ≡ some k
  pub decrypted :
      (key iv m text tag : Bytes)
      → c.encrypt key iv m ≡ some (text, tag)
      → c.decrypt key iv tag text ≡ some m
  pub tagged : (key iv m text tag : Bytes) → c.encrypt key iv m ≡ some (text, tag) → length tag ≡ 16

abbrev pub Files : Type 0
Files = JsMap JsString Bytes

-- SignerConfig, without the fields of the HSM, which falls back to the software key.
pub record SignerConfig : Type 0 where
  pub private_key_path : JsString
  pub key_rotation_interval_hours : ℕ

-- What fs.writeFileSync comes to, which opens the file, empties it and then writes: it throws before it has changed
-- the file, or once the file has only the first bytes of its content, or returns.
pub data Write : Type 0 where
  refused whole : Write
  cut : ℕ → Write

-- What is drawn for a key and its file, and what the write of the file and that of its encryption key come to.
pub record KeyDraws (c : SignerCrypto) : Type 0 where
  pub key_pair : c.KeyPair
  pub encryption_key : Bytes
  pub iv : Bytes
  pub file_write : Write
  pub key_write : Write

abbrev pub key_file : SignerConfig → JsString
key_file config = config.private_key_path ++ codes ".key"

-- SIGNER_ENCRYPTION_KEY, or else the drawn key.
unfoldable pub encryption_key_of : Option JsString → Bytes → Bytes
encryption_key_of none drawn = drawn
encryption_key_of (some []) drawn = drawn
encryption_key_of (some (a ∷ s)) drawn = hex_decode (a ∷ s)

-- The files, and whether the write returned.
unfoldable pub write_file : Write → JsString → Bytes → Files → Files × Bool
write_file refused path content files = (files, false)
write_file (cut n) path content files = (set path (take n content) files, false)
write_file whole path content files = (set path content files, true)

-- The key is written to its own file only where there is none in the environment.
unfoldable pub write_key : SignerConfig → Option JsString → Bytes → Write → Files → Files × Bool
unfolding write_file
write_key config none key write files = write_file write (key_file config) (hex_encode key) files
write_key config (some []) key write files =
    write_file write (key_file config) (hex_encode key) files
write_key config (some (a ∷ s)) key write files = (files, true)

-- After the write of the key file.
unfoldable pub write_key_after :
    SignerConfig → Option JsString → Bytes → Write → Files × Bool → Files × Bool
unfolding write_key
write_key_after config env key write (files, false) = (files, false)
write_key_after config env key write (files, true) = write_key config env key write files

unfoldable pub save_sealed :
    (c : SignerCrypto)
    → SignerConfig
    → Option JsString
    → KeyDraws c
    → Files
    → Option (Bytes × Bytes)
    → Files × Bool
unfolding encryption_key_of write_file write_key_after
save_sealed c config env draws files none = (files, false)
save_sealed c config env draws files (some (text, tag)) =
    write_key_after config env (encryption_key_of env draws.encryption_key) draws.key_write
      (write_file draws.file_write config.private_key_path (draws.iv ++ (tag ++ text)) files)

-- The new files, and whether the call returned.
unfoldable pub save_encrypted_key :
    (c : SignerCrypto) → SignerConfig → Option JsString → KeyDraws c → Files → Files × Bool
unfolding save_sealed encryption_key_of
save_encrypted_key c config env draws files =
    save_sealed c config env draws files (
      c.encrypt (encryption_key_of env draws.encryption_key) draws.iv (c.secret_key draws.key_pair))

unfoldable pub read_key : SignerConfig → Option JsString → Files → Option Bytes
read_key config none files = get (key_file config) files >>= λ text. some (hex_decode text)
read_key config (some []) files = get (key_file config) files >>= λ text. some (hex_decode text)
read_key config (some (a ∷ s)) files = some (hex_decode (a ∷ s))

unfoldable pub decrypt_key_pair :
    (c : SignerCrypto) → SignerConfig → Option JsString → Files → Bytes → Option c.KeyPair
unfolding read_key
decrypt_key_pair c config env files encrypted = do
  key ← read_key config env files
  secret ← c.decrypt key (take 16 encrypted) (take 16 (drop 16 encrypted)) (drop 32 encrypted)
  c.from_secret_key secret
