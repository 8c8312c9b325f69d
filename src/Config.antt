-- ===== src/Config.antt =====
-- validator/src/config/index.ts: loadConfig over process.env. `none` is a variable that is not set, and the result
-- where the call throws.
pub mod Returns
mod Tests
use sol_gateway_dcc.Base.{
  ℕ, ◌≡◌, ◌∙◌, ap, refl, Bool, true, false, not, ◌&&◌, ◌||◌, Option, none, some, List, [], ◌∷◌,
  arith, JsString, codes, str_eq, ◌==◌, filterb, ◌>>=◌, all,
}
use sol_gateway_dcc.Base.Int.{ℤ}
use sol_gateway_dcc.Js.Text.{split}
use sol_gateway_dcc.Js.Numerals.{JsNumber, parse_int, to_bigint}

abbrev pub Env : Type 0
Env = JsString → Option JsString

pub record ValidatorConfig : Type 0 where
  pub node_id : JsString
  pub private_key_path : JsString
  pub solana_rpc_url : JsString
  pub solana_ws_url : JsString
  pub solana_program_id : JsString
  pub solana_vault_pda : JsString
  pub dcc_node_url : JsString
  pub dcc_bridge_contract : JsString
  pub dcc_chain_id : JsNumber
  pub dcc_chain_id_char : JsString
  pub dcc_seed : JsString
  pub wsol_asset_id : JsString
  pub min_validators : JsNumber
  pub consensus_timeout_ms : JsNumber
  pub max_retries : JsNumber
  pub solana_required_confirmations : JsNumber
  pub dcc_required_confirmations : JsNumber
  pub reorg_protection_slots : JsNumber
  pub max_daily_outflow_lamports : ℤ
  pub max_single_tx_lamports : ℤ
  pub min_deposit_lamports : ℤ
  pub metrics_port : JsNumber
  pub health_check_port : JsNumber
  pub bootstrap_peers : List JsString
  pub p2p_port : JsNumber
  pub db_path : JsString
  pub redis_url : JsString
  pub hsm_enabled : Bool
  pub hsm_slot : JsNumber
  pub hsm_pin : JsString
  pub key_rotation_interval_hours : JsNumber

-- A text that is not empty.
unfoldable pub if_given : Option JsString → Option JsString
if_given none = none
if_given (some []) = none
if_given (some (c ∷ s)) = some (c ∷ s)

unfoldable pub require_env : Env → JsString → Option JsString
unfolding if_given
require_env env key = if_given (env key)

-- `process.env.KEY || fallback`
unfoldable pub given_or : JsString → Option JsString → JsString
given_or fallback none = fallback
given_or fallback (some s) = s

abbrev pub env_or : Env → JsString → JsString → JsString
env_or env key fallback = given_or fallback (if_given (env key))

abbrev pub int_or : Env → JsString → JsString → JsNumber
int_or env key fallback = parse_int (env_or env key fallback)

-- `env.SOL_ASSET_ID || env.WSOL_ASSET_ID || requireEnv('SOL_ASSET_ID')`
unfoldable pub first_given : Option JsString → Option JsString → Option JsString
first_given none other = other
first_given (some s) other = some s

abbrev pub asset_id_of : Env → Option JsString
asset_id_of env =
    first_given (if_given (env (codes "SOL_ASSET_ID"))) (
      first_given (if_given (env (codes "WSOL_ASSET_ID"))) (require_env env (codes "SOL_ASSET_ID")))

unfoldable pub load_config : Env → Option ValidatorConfig
unfolding require_env if_given given_or first_given
load_config env = do
  node_id ← require_env env (codes "VALIDATOR_NODE_ID")
  private_key_path ← require_env env (codes "VALIDATOR_PRIVATE_KEY_PATH")
  solana_rpc_url ← require_env env (codes "SOLANA_RPC_URL")
  solana_program_id ← require_env env (codes "SOLANA_PROGRAM_ID")
  solana_vault_pda ← require_env env (codes "SOLANA_VAULT_PDA")
  dcc_node_url ← require_env env (codes "DCC_NODE_URL")
  dcc_bridge_contract ← require_env env (codes "DCC_BRIDGE_CONTRACT")
  dcc_seed ← require_env env (codes "DCC_VALIDATOR_SEED")
  wsol_asset_id ← asset_id_of env
  max_daily_outflow ← to_bigint (env_or env (codes "MAX_DAILY_OUTFLOW") (codes "1000000000000"))
  max_single_tx ← to_bigint (env_or env (codes "MAX_SINGLE_TX") (codes "100000000000"))
  min_deposit ← to_bigint (env_or env (codes "MIN_DEPOSIT") (codes "1000000"))
  some (record {
    node_id = node_id;
    private_key_path = private_key_path;
    solana_rpc_url = solana_rpc_url;
    solana_ws_url = env_or env (codes "SOLANA_WS_URL") [];
    solana_program_id = solana_program_id;
    solana_vault_pda = solana_vault_pda;
    dcc_node_url = dcc_node_url;
    dcc_bridge_contract = dcc_bridge_contract;
    dcc_chain_id = int_or env (codes "DCC_CHAIN_ID") (codes "63");
    dcc_chain_id_char = env_or env (codes "DCC_CHAIN_ID_CHAR") (codes "?");
    dcc_seed = dcc_seed;
    wsol_asset_id = wsol_asset_id;
    min_validators = int_or env (codes "MIN_VALIDATORS") (codes "3");
    consensus_timeout_ms = int_or env (codes "CONSENSUS_TIMEOUT_MS") (codes "30000");
    max_retries = int_or env (codes "MAX_RETRIES") (codes "3");
    solana_required_confirmations = int_or env (codes "SOLANA_CONFIRMATIONS") (codes "32");
    dcc_required_confirmations = int_or env (codes "DCC_CONFIRMATIONS") (codes "10");
    reorg_protection_slots = int_or env (codes "REORG_PROTECTION_SLOTS") (codes "50");
    max_daily_outflow_lamports = max_daily_outflow;
    max_single_tx_lamports = max_single_tx;
    min_deposit_lamports = min_deposit;
    metrics_port = int_or env (codes "METRICS_PORT") (codes "9090");
    health_check_port = int_or env (codes "HEALTH_CHECK_PORT") (codes "8080");
    bootstrap_peers =
        filterb (λ s. not (s == [])) (split (codes ",") (env_or env (codes "BOOTSTRAP_PEERS") []));
    p2p_port = int_or env (codes "P2P_PORT") (codes "9000");
    db_path = env_or env (codes "DB_PATH") (codes "./data/validator.db");
    redis_url = env_or env (codes "REDIS_URL") (codes "redis://localhost:6379");
    hsm_enabled = given_or [] (env (codes "HSM_ENABLED")) == codes "true";
    hsm_slot = int_or env (codes "HSM_SLOT") (codes "0");
    hsm_pin = env_or env (codes "HSM_PIN") [];
    key_rotation_interval_hours = int_or env (codes "KEY_ROTATION_HOURS") (codes "168");
  })
