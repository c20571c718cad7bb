-- ===== src/Core/Config.antt =====
-- core/src/config.rs: what the parties read of their configuration. A wallet address stands as its
-- script, and as `none` where it is one of another network.
use clementine.Prelude.{ℕ, List, Option}
use clementine.Prelude.Bytes.{Bytes}

pub record BridgeConfig (Network : Type 0) : Type 0 where
  pub network : Network
  pub verifiers_public_keys : List Bytes
  pub operators_xonly_pks : List Bytes
  pub operator_wallet_addresses : List (Option Bytes)
  pub num_operators : ℕ
  pub operator_withdrawal_fee_sats : Option ℕ
  pub user_takes_after : ℕ
  pub operator_takes_after : ℕ
  pub bridge_amount_sats : ℕ
  pub operator_num_kickoff_utxos_per_tx : ℕ
  pub confirmation_threshold : ℕ
