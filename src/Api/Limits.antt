-- ===== src/Api/Limits.antt =====
-- GET /deposit/limits of api/src/routes/deposit.ts, over the account that getAccountInfo answers with.
-- `show` is the text of Number(lamports) / 1e9. The constants of the answer are left out.
use sol_gateway_dcc.Base.{
  ℕ, ◌+◌, ◌≡◌, refl, true, Option, none, some, arith, JsString, codes, nat_eqb, leb, if◌then◌else◌,
  length,
}
use sol_gateway_dcc.Js.Bytes.{Bytes}
use sol_gateway_dcc.SolanaWatcher.Decode.{read_word}
use sol_gateway_dcc.ConfigAccount.{BridgeConfig, config_counts, serialize_config, HasConfigWidths}
use sol_gateway_dcc.ConfigAccount.Reading.{read_counts, length-serialize_config}

-- No program id, a failing call, no account, or its data.
pub data ConfigLookup : Type 0 where
  unconfigured failed no_account : ConfigLookup
  account : Bytes → ConfigLookup

pub record DepositLimits : Type 0 where
  pub min_deposit : JsString
  pub max_deposit : JsString
  pub bridge_status : JsString

abbrev pub default_limits : DepositLimits
default_limits = record {
  min_deposit = codes "0.001";
  max_deposit = codes "100";
  bridge_status = codes "active";
}

abbrev pub offset_paused : ℕ
offset_paused = 8 + 32 + 32 + 1 + 1

abbrev pub offset_min : ℕ
offset_min = offset_paused + 1 + 8

abbrev pub offset_max : ℕ
offset_max = offset_min + 8

-- The reads lie within the data, which the guard before them shows.
unfoldable pub limits_from : (ℕ → JsString) → Option ℕ → Option ℕ → Option ℕ → DepositLimits
limits_from show none min max = default_limits
limits_from show (some paused) none max = default_limits
limits_from show (some paused) (some min) none = default_limits
limits_from show (some paused) (some min) (some max) = record {
  min_deposit = show min;
  max_deposit = show max;
  bridge_status = if nat_eqb paused 0 then codes "active" else codes "paused";
}

unfoldable pub deposit_limits : (ℕ → JsString) → ConfigLookup → DepositLimits
unfolding limits_from
deposit_limits show unconfigured = default_limits
deposit_limits show failed = default_limits
deposit_limits show no_account = default_limits
deposit_limits show (account bytes) =
    if leb (offset_max + 8) (length bytes)
    then limits_from show (read_word 1 offset_paused bytes) (read_word 8 offset_min bytes)
        (read_word 8 offset_max bytes)
    else default_limits

-- The limits that the route reports are read from other fields than the limits: two accounts of the bridge
-- program with the same counts, from the nonce to the numbers of validators, get the same answer,
-- whatever their paused flags, minimum and maximum deposits are.
pub deposit_limits-serialize_config :
    (show : ℕ → JsString) (discriminator : Bytes) (c d : BridgeConfig)
    → HasConfigWidths discriminator c
    → HasConfigWidths discriminator d
    → config_counts c ≡ config_counts d
    → deposit_limits show (account (serialize_config discriminator c))
      ≡ deposit_limits show (account (serialize_config discriminator d))
unfolding deposit_limits
deposit_limits-serialize_config show discriminator c d u v same =
    let long : leb (offset_max + 8) (length (serialize_config discriminator c)) ≡ true =
      ground (arith, length-serialize_config u) in
    let long' : leb (offset_max + 8) (length (serialize_config discriminator d)) ≡ true =
      ground (arith, length-serialize_config v) in
    rw
      (
        long,
        long',
        read_counts u 1 74 1 refl (omega arith),
        read_counts u 8 83 10 refl (omega arith),
        read_counts u 8 91 18 refl (omega arith),
        read_counts v 1 74 1 refl (omega arith),
        read_counts v 8 83 10 refl (omega arith),
        read_counts v 8 91 18 refl (omega arith),
        same,
      )
      refl
