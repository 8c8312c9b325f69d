-- ===== src/Signer/Written.antt =====
-- What saveEncryptedKey of validator/src/signer/threshold-signer.ts leaves for decryptKeyPair.
use sol_gateway_dcc.Base.{
  ◌≡◌, ◌≢◌, refl, sym, ap, subst, ◌∙◌, Bool, true, false, ◌&&◌, ◌⊎◌, inl, inr, Option, none, some,
  [], ◌∷◌, ◌++◌, arith, JsString, codes, str_eq, drop, length, length-append, take-append_length,
  drop-append_length, ◌>>=◌, ne→==, ==_refl,
}
use mathlib.Core.List.{append_assoc}
use sol_gateway_dcc.Js.Bytes.{Bytes, IsBytes, hex_encode, hex_decode, hex_decode-hex_encode}
use sol_gateway_dcc.Js.Map.{get, set, get-set}
use sol_gateway_dcc.Signer.Keys.{
  SignerCrypto, IsSignerCrypto, Files, SignerConfig, Write, refused, whole, cut, KeyDraws, key_file,
  encryption_key_of, write_file, write_key, write_key_after, save_sealed, save_encrypted_key,
  read_key, decrypt_key_pair,
}

-- What crypto.randomBytes draws, where no write is cut: that of the key file is refused or whole, and that of the
-- encryption key is whole.
pub record HasCleanDraws (c : SignerCrypto) (d : KeyDraws c) : Type 0 where
  pub iv : length d.iv ≡ 16
  pub encryption_key : IsBytes d.encryption_key
  pub file_write : (d.file_write ≡ refused) ⊎ (d.file_write ≡ whole)
  pub key_write : d.key_write ≡ whole

abbrev pub is_whole : Write → Bool
is_whole refused = false
is_whole (cut n) = false
is_whole whole = true

abbrev pub is_sealed : Option (Bytes × Bytes) → Bool
is_sealed none = false
is_sealed (some sealed) = true

-- The key file is written: the cipher takes the key, and the file system the file.
abbrev pub is_saved : (c : SignerCrypto) → Option JsString → KeyDraws c → Bool
is_saved c env d =
    is_sealed (c.encrypt (encryption_key_of env d.encryption_key) d.iv (c.secret_key d.key_pair))
    && is_whole d.file_write

-- The key that the files hold.
abbrev pub Loads :
    (c : SignerCrypto) → SignerConfig → Option JsString → Option c.KeyPair → Files → Type 0
Loads c config env k files =
    (encrypted : Bytes) × (get config.private_key_path files ≡ some encrypted)
    × (decrypt_key_pair c config env files encrypted ≡ k)

key_file-ne-path : (path : JsString) → path ++ codes ".key" ≢ path
key_file-ne-path path e = let h = ap length e in omega (arith, h, length-append path (codes ".key"))

hex_written :
    (config : SignerConfig) (drawn : Bytes) (files : Files)
    → IsBytes drawn
    → (get (key_file config) (set (key_file config) (hex_encode drawn) files) >>= λ text.
        some (hex_decode text))
      ≡ some drawn
hex_written config drawn files h =
    rw
      (
        get-set (key_file config) (key_file config) (hex_encode drawn) files,
        ==_refl (key_file config),
        hex_decode-hex_encode drawn h,
      )
      refl

read_key-write_key :
    (config : SignerConfig) (env : Option JsString) (drawn : Bytes) (files : Files)
    → IsBytes drawn
    → read_key config env (write_key config env (encryption_key_of env drawn) whole files).0
      ≡ some (encryption_key_of env drawn)
unfolding read_key write_key write_file encryption_key_of
read_key-write_key config none drawn files h = hex_written config drawn files h
read_key-write_key config (some []) drawn files h = hex_written config drawn files h
read_key-write_key config (some (a ∷ s)) drawn files h = refl

get-key_file :
    (config : SignerConfig) (text : Bytes) (files : Files)
    → get config.private_key_path (set (key_file config) text files)
      ≡ get config.private_key_path files
get-key_file config text files =
    rw
      (
        get-set (key_file config) config.private_key_path text files,
        ne→== (key_file config) config.private_key_path (key_file-ne-path config.private_key_path),
      )
      refl

get-write_key :
    (config : SignerConfig) (env : Option JsString) (key : Bytes) (files : Files)
    → get config.private_key_path (write_key config env key whole files).0
      ≡ get config.private_key_path files
unfolding write_key write_file
get-write_key config none key files = get-key_file config (hex_encode key) files
get-write_key config (some []) key files = get-key_file config (hex_encode key) files
get-write_key config (some (a ∷ s)) key files = refl

get-set_same :
    (path : JsString) (content : Bytes) (files : Files)
    → get path (set path content files) ≡ some content
get-set_same path content files = rw (get-set path path content files, ==_refl path) refl

drop_both :
    (iv tag text : Bytes) → length iv ≡ 16 → length tag ≡ 16 → drop 32 (iv ++ (tag ++ text)) ≡ text
drop_both iv tag text hi ht =
    ap (drop 32) (sym (append_assoc iv tag text))
    ∙ drop-append_length 32 (iv ++ tag) text (omega (arith, length-append iv tag, hi, ht))

written-Loads :
    (c : SignerCrypto) (laws : IsSignerCrypto c) (config : SignerConfig) (env : Option JsString)
    (d : KeyDraws c) (files : Files) (text tag : Bytes)
    → HasCleanDraws c d
    → c.encrypt (encryption_key_of env d.encryption_key) d.iv (c.secret_key d.key_pair)
      ≡ some (text, tag)
    → Loads c config env
        (some d.key_pair)
        (write_key config env
          (encryption_key_of env d.encryption_key)
          whole
          (set config.private_key_path (d.iv ++ (tag ++ text)) files)).0
unfolding decrypt_key_pair
written-Loads c laws config env d files text tag v sealed =
    let key = encryption_key_of env d.encryption_key in
    let tl = laws.tagged key d.iv (c.secret_key d.key_pair) text tag sealed in
    (
      d.iv ++ (tag ++ text),
      get-write_key config env key (set config.private_key_path (d.iv ++ (tag ++ text)) files)
          ∙ get-set_same config.private_key_path (d.iv ++ (tag ++ text)) files,
      rw
          (
            read_key-write_key config env d.encryption_key
                (set config.private_key_path (d.iv ++ (tag ++ text)) files) v.encryption_key,
            take-append_length 16 d.iv (tag ++ text) v.iv,
            drop-append_length 16 d.iv (tag ++ text) v.iv,
            take-append_length 16 tag text tl,
            drop_both d.iv tag text v.iv tl,
            laws.decrypted key d.iv (c.secret_key d.key_pair) text tag sealed,
            laws.restored d.key_pair,
          )
          refl,
    )

write_key-returns :
    (config : SignerConfig) (env : Option JsString) (key : Bytes) (files : Files)
    → (write_key config env key whole files).1 ≡ true
unfolding write_key write_file
write_key-returns config none key files = refl
write_key-returns config (some []) key files = refl
write_key-returns config (some (a ∷ s)) key files = refl

-- Where the key is saved, the files hold it, and else they are as they were.
abbrev pub SavedTo :
    (c : SignerCrypto) → SignerConfig → Option JsString → KeyDraws c → Files → Files × Bool → Type 0
SavedTo c config env d files (files', false) = (is_saved c env d ≡ false) × (files' ≡ files)
SavedTo c config env d files (files', true) =
    (is_saved c env d ≡ true) × Loads c config env (some d.key_pair) files'

returned-SavedTo :
    (c : SignerCrypto) (config : SignerConfig) (env : Option JsString) (d : KeyDraws c)
    (files : Files) (r : Files × Bool)
    → r.1 ≡ true
    → is_saved c env d ≡ true
    → Loads c config env (some d.key_pair) r.0
    → SavedTo c config env d files r
returned-SavedTo c config env d files (files', false) q saved h = cc
returned-SavedTo c config env d files (files', true) q saved h = (saved, h)

save_sealed-SavedTo :
    (c : SignerCrypto) (laws : IsSignerCrypto c) (config : SignerConfig) (env : Option JsString)
    (d : KeyDraws c) (files : Files) (o : Option (Bytes × Bytes))
    → HasCleanDraws c d
    → c.encrypt (encryption_key_of env d.encryption_key) d.iv (c.secret_key d.key_pair) ≡ o
    → SavedTo c config env d files (save_sealed c config env d files o)
unfolding save_sealed write_key_after write_file
save_sealed-SavedTo c laws config env d files none v sealed =
    (ap (λ o. is_sealed o && is_whole d.file_write) sealed, refl)
save_sealed-SavedTo c laws config env d files (some (text, tag)) v sealed =
    let saved = ap (λ o. is_sealed o && is_whole d.file_write) sealed in
    let key = encryption_key_of env d.encryption_key in
    let files' = set config.private_key_path (d.iv ++ (tag ++ text)) files in
    elim v.file_write [
      | inl kept ↦
          subst
            (λ f. SavedTo c config env d files (
              write_key_after config env key d.key_write
                (write_file f config.private_key_path (d.iv ++ (tag ++ text)) files)))
            (sym kept) (saved ∙ ap is_whole kept, refl)
      | inr takes ↦
          subst
            (λ f. SavedTo c config env d files (
              write_key_after config env key d.key_write
                (write_file f config.private_key_path (d.iv ++ (tag ++ text)) files)))
            (sym takes)
            (subst (λ f. SavedTo c config env d files (write_key config env key f files'))
              (sym v.key_write)
              (returned-SavedTo c config env d files _ (write_key-returns config env key files')
                (saved ∙ ap is_whole takes)
                (written-Loads c laws config env d files text tag v sealed)))
    ]

pub save-SavedTo :
    (c : SignerCrypto) (laws : IsSignerCrypto c) (config : SignerConfig) (env : Option JsString)
    (d : KeyDraws c) (files : Files)
    → HasCleanDraws c d
    → SavedTo c config env d files (save_encrypted_key c config env d files)
unfolding save_encrypted_key
save-SavedTo c laws config env d files v = save_sealed-SavedTo c laws config env d files _ v refl
