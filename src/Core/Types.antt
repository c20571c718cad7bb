-- ===== src/Core/Types.antt =====
-- The data that the crate core exchanges: core/src/lib.rs, core/src/builder/transaction.rs, and the
-- structures of the crate `bitcoin` that they hold. An address stands as its script.
use clementine.Prelude.{ℕ, Bool, ◌&&◌, ◌==◌, List}
use clementine.Prelude.Bytes.{Bytes, bytes_eq}

pub record OutPoint : Type 0 where
  pub txid : Bytes
  pub vout : ℕ

pub record TxOut : Type 0 where
  pub value : ℕ
  pub script_pubkey : Bytes

pub record TxIn : Type 0 where
  pub previous_output : OutPoint
  pub sequence : ℕ
  pub script_sig : Bytes
  pub witness : List Bytes

pub record Transaction : Type 0 where
  pub version : ℕ
  pub lock_time : ℕ
  pub input : List TxIn
  pub output : List TxOut

pub record Utxo : Type 0 where
  pub outpoint : OutPoint
  pub txout : TxOut

-- The bytes of a key pair of the crate `secp256k1`.
pub record Keypair : Type 0 where
  pub public_key : Bytes
  pub secret_key : Bytes

-- The spending information of a taproot output, as what the crate `bitcoin` finalized it from.
pub record SpendInfo : Type 0 where
  pub leaves : List (ℕ × Bytes)
  pub internal_key : Bytes

pub record TxHandler : Type 0 where
  pub tx : Transaction
  pub prevouts : List TxOut
  pub scripts : List (List Bytes)
  pub taproot_spend_infos : List SpendInfo

abbrev pub outpoint_eq : OutPoint → OutPoint → Bool
outpoint_eq a b = bytes_eq a.txid b.txid && a.vout == b.vout
