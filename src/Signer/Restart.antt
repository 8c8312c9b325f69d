-- ===== src/Signer/Restart.antt =====
-- The key of a validator that restarts on the files that validator/src/signer/threshold-signer.ts has left.
use sol_gateway_dcc.Base.{
  ◌≡◌, refl, sym, subst, ◌∙◌, Bool, true, false, Option, none, some, List, [], ◌∷◌, JsString,
  str_eq, All, ◌>>=◌, if◌then◌else◌,
}
use sol_gateway_dcc.Js.Bytes.{Bytes}
use sol_gateway_dcc.Js.Map.{get}
use sol_gateway_dcc.Signer.Keys.{SignerCrypto, IsSignerCrypto, Files, SignerConfig, KeyDraws}
use sol_gateway_dcc.Signer.Written.{HasCleanDraws, is_saved, Loads, SavedTo, save-SavedTo}
use sol_gateway_dcc.Signer.Signing.{
  KeyInfo, Signer, new_signer, Clock, SignerCall, info_of, finish_new, finish_loaded,
  initialize_from, initialize, sign_with, sign, finish_rotation, rotate_key, SignerEvent, signs,
  rotates, signer_event, run_signer,
}

-- The key of the last rotation whose file was written, and that of the last rotation.
abbrev pub saved_key :
    (c : SignerCrypto)
    → Option JsString
    → Option c.KeyPair
    → List (SignerEvent c)
    → Option c.KeyPair
saved_key c env k [] = k
saved_key c env k (signs message ∷ es) = saved_key c env k es
saved_key c env k (rotates d t ∷ es) =
    saved_key c env (if is_saved c env d then some d.key_pair else k) es

abbrev pub drawn_key :
    (c : SignerCrypto) → Option c.KeyPair → List (SignerEvent c) → Option c.KeyPair
drawn_key c k [] = k
drawn_key c k (signs message ∷ es) = drawn_key c k es
drawn_key c k (rotates d t ∷ es) = drawn_key c (some d.key_pair) es

abbrev pub EventIsClean : (c : SignerCrypto) → SignerEvent c → Type 0
EventIsClean c (signs message) = Unit
EventIsClean c (rotates d t) = HasCleanDraws c d

-- The signer holds one key, and the files another.
abbrev Holds :
    (c : SignerCrypto)
    → SignerConfig
    → Option JsString
    → Option c.KeyPair
    → Option c.KeyPair
    → Signer c × Files
    → Type 0
Holds c config env drawn saved (s, files) = (s.key_pair ≡ drawn) × Loads c config env saved files

rotation-Holds :
    (c : SignerCrypto) (config : SignerConfig) (env : Option JsString) (d : KeyDraws c) (t : Clock)
    (k : Option c.KeyPair) (s : Signer c) (files : Files) (r : Files × Bool)
    → SavedTo c config env d files r
    → Loads c config env k files
    → Holds c config env
        (some d.key_pair)
        (if is_saved c env d then some d.key_pair else k)
        (finish_rotation c config d t s r).0
unfolding finish_rotation
rotation-Holds c config env d t k s files (files', false) (q, same) h =
    rw q (refl, subst (Loads c config env k) (sym same) h)
rotation-Holds c config env d t k s files (files', true) (q, h') h = rw q (refl, h')

sign-key_pair :
    (c : SignerCrypto) (message : Bytes) (s : Signer c) (o : Option c.KeyPair)
    → (sign_with c message s o).0.key_pair ≡ s.key_pair
unfolding sign_with
sign-key_pair c message s none = refl
sign-key_pair c message s (some k) = refl

run_signer-Holds :
    (c : SignerCrypto) (laws : IsSignerCrypto c) (config : SignerConfig) (env : Option JsString)
    (drawn saved : Option c.KeyPair) (es : List (SignerEvent c)) (s : Signer c × Files)
    → All (EventIsClean c) es
    → Holds c config env drawn saved s
    → Holds c config env
        (drawn_key c drawn es)
        (saved_key c env saved es)
        (run_signer c config env es s)
unfolding run_signer signer_event sign rotate_key
run_signer-Holds c laws config env drawn saved [] s v h = h
run_signer-Holds c laws config env drawn saved (signs message ∷ es) (s, files) (_, v) (same, h) =
    run_signer-Holds c laws config env drawn saved es _ v
      (sign-key_pair c message s s.key_pair ∙ same, h)
run_signer-Holds c laws config env drawn saved (rotates d t ∷ es) (s, files) (w, v) (same, h) =
    run_signer-Holds c laws config env (some d.key_pair) _ es _ v
      (rotation-Holds c config env d t saved s files _ (save-SavedTo c laws config env d files w) h)

-- The signer holds the key that the files hold.
abbrev Agrees : (c : SignerCrypto) → SignerConfig → Option JsString → SignerCall c KeyInfo → Type 0
Agrees c config env r = Holds c config env r.0.0.key_pair r.0.0.key_pair r.0

finish_new-Agrees :
    (c : SignerCrypto) (config : SignerConfig) (env : Option JsString) (d : KeyDraws c) (t : Clock)
    (s : Signer c) (files : Files) (r : Files × Bool) {i : KeyInfo}
    → SavedTo c config env d files r
    → (finish_new c config d t s r).1 ≡ some i
    → Agrees c config env (finish_new c config d t s r)
unfolding finish_new
finish_new-Agrees c config env d t s files (files', false) h q = cc
finish_new-Agrees c config env d t s files (files', true) (_, h) q = (refl, h)

finish_loaded-Agrees :
    (c : SignerCrypto) (config : SignerConfig) (env : Option JsString) (t : Clock) (s : Signer c)
    (files : Files) (o : Option c.KeyPair) {i : KeyInfo}
    → Loads c config env o files
    → (finish_loaded c config t s files o).1 ≡ some i
    → Agrees c config env (finish_loaded c config t s files o)
unfolding finish_loaded
finish_loaded-Agrees c config env t s files none h q = cc
finish_loaded-Agrees c config env t s files (some k) h q = (refl, h)

initialize_from-Agrees :
    (c : SignerCrypto) (laws : IsSignerCrypto c) (config : SignerConfig) (env : Option JsString)
    (d : KeyDraws c) (t : Clock) (s : Signer c) (files : Files) (o : Option Bytes) {i : KeyInfo}
    → HasCleanDraws c d
    → get config.private_key_path files ≡ o
    → (initialize_from c config env d t s files o).1 ≡ some i
    → Agrees c config env (initialize_from c config env d t s files o)
unfolding initialize_from
initialize_from-Agrees c laws config env d t s files none v found q =
    finish_new-Agrees c config env d t s files _ (save-SavedTo c laws config env d files v) q
initialize_from-Agrees c laws config env d t s files (some encrypted) v found q =
    finish_loaded-Agrees c config env t s files _ (encrypted, found, refl) q

finish_loaded-info :
    (c : SignerCrypto) (config : SignerConfig) (t : Clock) (s : Signer c) (files : Files)
    (k : Option c.KeyPair)
    → (finish_loaded c config t s files k).1 ≡ (k >>= λ key. some (info_of c config t key))
unfolding finish_loaded
finish_loaded-info c config t s files none = refl
finish_loaded-info c config t s files (some k) = refl

-- What initialize gives on files that hold a key.
initialize-loaded :
    (c : SignerCrypto) (config : SignerConfig) (env : Option JsString) (d : KeyDraws c) (t : Clock)
    (s : Signer c) (files : Files) (k : Option c.KeyPair)
    → Loads c config env k files
    → (initialize c config env d t s files).1 ≡ (k >>= λ key. some (info_of c config t key))
unfolding initialize initialize_from
initialize-loaded c config env d t s files k (encrypted, found, loaded) =
    rw (found, loaded) (finish_loaded-info c config t s files k)

-- Let initialize return on any files, and let the signer then sign and rotate its key, in any order. Let no write of a
-- file be cut in this: a write of the key file is refused, which leaves the old file, or whole, and every write of the
-- encryption key's file is whole. Then a new signer that starts on the files that are left, with the same key in the
-- environment or none, initializes with the key of the last rotation whose file was written, or else with the first key,
-- and its age counts from this start; the running signer holds the key of the last rotation, whether or not its file was
-- written.
pub restart-saved_key :
    (c : SignerCrypto) (laws : IsSignerCrypto c) (config : SignerConfig) (env : Option JsString)
    (d d' : KeyDraws c) (t t' : Clock) (files : Files) (i : KeyInfo) (es : List (SignerEvent c))
    → HasCleanDraws c d
    → All (EventIsClean c) es
    → (initialize c config env d t (new_signer c) files).1 ≡ some i
    → let first = (initialize c config env d t (new_signer c) files).0 in
      let later = run_signer c config env es first in
      ((initialize c config env d' t' (new_signer c) later.1).1
        ≡ (saved_key c env first.0.key_pair es >>= λ k. some (info_of c config t' k)))
      × (later.0.key_pair ≡ drawn_key c first.0.key_pair es)
unfolding initialize
restart-saved_key c laws config env d d' t t' files i es v vs q =
    let start = initialize_from-Agrees c laws config env d t (new_signer c) files _ v refl q in
    let (drawn, saved) = run_signer-Holds c laws config env _ _ es _ vs start in
    (initialize-loaded c config env d' t' (new_signer c) _ _ saved, drawn)
