-- ===== src/Config/Returns.antt =====
-- When loadConfig of validator/src/config/index.ts returns.
use sol_gateway_dcc.Base.{
  Bool, true, false, not, ◌||◌, Option, none, some, List, [], ◌∷◌, JsString, codes,
}
use sol_gateway_dcc.Js.Numerals.{to_bigint}
use sol_gateway_dcc.Config.{Env, if_given, given_or}

abbrev pub is_given {ℓ} : {A : Type ℓ} → Option A → Bool
is_given none = false
is_given (some a) = true

abbrev pub required : List JsString
required =
    codes "VALIDATOR_NODE_ID"
    ∷ codes "VALIDATOR_PRIVATE_KEY_PATH"
    ∷ codes "SOLANA_RPC_URL"
    ∷ codes "SOLANA_PROGRAM_ID"
    ∷ codes "SOLANA_VAULT_PDA"
    ∷ codes "DCC_NODE_URL"
    ∷ codes "DCC_BRIDGE_CONTRACT"
    ∷ codes "DCC_VALIDATOR_SEED"
    ∷ []

-- The variable is set to a text that is not empty.
abbrev pub has_env : Env → JsString → Bool
has_env env key = is_given (if_given (env key))

-- The variable is not set, or its text is one that BigInt takes.
abbrev pub is_amount : Env → JsString → Bool
is_amount env key = not (has_env env key) || is_given (to_bigint (given_or [] (env key)))
