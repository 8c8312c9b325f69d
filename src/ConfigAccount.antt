-- ===== src/ConfigAccount.antt =====
-- The account BridgeConfig of programs/sol-bridge-lock/src/state.rs, as Anchor stores it: an 8-byte
-- discriminator, then the fields in order in Borsh's fixed-width layout, then the rest of the account.
pub mod Reading
use sol_gateway_dcc.Base.{ℕ, Bool, true, false, ◌≡◌, ◌++◌, ◌∷◌, [], length, if◌then◌else◌}
use sol_gateway_dcc.Js.Bytes.{Bytes, le_bytes}

-- A signed number is given by its 64 bits. What follows the two chain ids is `rest`.
pub record BridgeConfig : Type 0 where
  pub authority : Bytes
  pub guardian : Bytes
  pub paused : Bool
  pub global_nonce : ℕ
  pub total_locked : ℕ
  pub total_unlocked : ℕ
  pub validator_count : ℕ
  pub min_validators : ℕ
  pub max_validators : ℕ
  pub min_deposit : ℕ
  pub max_deposit : ℕ
  pub max_daily_outflow : ℕ
  pub current_daily_outflow : ℕ
  pub last_daily_reset : ℕ
  pub max_unlock_amount : ℕ
  pub required_confirmations : ℕ
  pub large_withdrawal_delay : ℕ
  pub large_withdrawal_threshold : ℕ
  pub dcc_chain_id : ℕ
  pub solana_chain_id : ℕ
  pub rest : Bytes

abbrev pub bool_byte : Bool → Bytes
bool_byte true = 1 ∷ []
bool_byte false = 0 ∷ []

-- From the nonce to the number of validators.
unfoldable pub config_counts : BridgeConfig → Bytes
config_counts c =
    le_bytes 8 c.global_nonce
    ++ (le_bytes 8 c.total_locked
        ++ (le_bytes 8 c.total_unlocked
            ++ (le_bytes 1 c.validator_count
                ++ (le_bytes 1 c.min_validators ++ le_bytes 1 c.max_validators))))

-- The limits and what follows.
unfoldable pub config_limits : BridgeConfig → Bytes
config_limits c =
    le_bytes 8 c.min_deposit
    ++ (le_bytes 8 c.max_deposit
        ++ (le_bytes 8 c.max_daily_outflow
            ++ (le_bytes 8 c.current_daily_outflow
                ++ (le_bytes 8 c.last_daily_reset
                    ++ (le_bytes 8 c.max_unlock_amount
                        ++ (le_bytes 2 c.required_confirmations
                            ++ (le_bytes 8 c.large_withdrawal_delay
                                ++ (le_bytes 8 c.large_withdrawal_threshold
                                    ++ (le_bytes 4 c.dcc_chain_id
                                        ++ (le_bytes 4 c.solana_chain_id ++ c.rest))))))))))

unfoldable pub serialize_config : Bytes → BridgeConfig → Bytes
unfolding config_counts config_limits
serialize_config discriminator c =
    (discriminator ++ (c.authority ++ c.guardian))
    ++ (bool_byte c.paused ++ (config_counts c ++ config_limits c))

-- The widths of the account's fixed parts.
pub record HasConfigWidths (discriminator : Bytes) (c : BridgeConfig) : Type 0 where
  pub discriminator_width : length discriminator ≡ 8
  pub authority_width : length c.authority ≡ 32
  pub guardian_width : length c.guardian ≡ 32
