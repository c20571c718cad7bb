-- ===== src/Core/Verifier.antt =====
-- The verifier of core/src/verifier.rs. A call takes the tables and hands on those that it leaves, also
-- where it fails: what was committed before stays. The connection to the database is taken for granted.
pub mod Deposit
pub mod Presigns
pub mod Takes
pub mod Calls
pub mod Kickoffs
use clementine.Prelude.{
  ℕ, zero, suc, ◌+◌, ◌*◌, List, [], ◌∷◌, map, Option, none, some, Bool, true, false, not, ◌||◌,
  ◌==◌, ltb, if◌then◌else◌, length, get_elem?, take, drop,
}
use clementine.Prelude.Bytes.{Bytes, bytes_eq}
use clementine.Circuits.Sha256.{sha256_hash}
use clementine.Core.Types.{OutPoint, TxOut, Transaction, Utxo, TxHandler}
use clementine.Core.Result.{
  Result, ok, err, panicked, ◌>>=◌, or_panicked, ok_or, unwrap, public_key_not_found,
  nonces_not_found, invalid_kickoff_utxo, secp256k1_error, kickoff_outpoints_not_found,
  deposit_info_not_found,
}
use clementine.Core.Config.{BridgeConfig}
use clementine.Core.Builder.Script.{to_be_bytes}
use clementine.Core.Builder.Address.{create_kickoff_address}
use clementine.Core.Builder.Transaction.{kickoff_utxo_amount_sats, assert, create_move_tx_handler}
use clementine.Core.Actor.{
  Actor, convert_tx_to_sighash_script_spend, convert_tx_to_sighash_pubkey_spend,
}
use clementine.Core.Musig2.{from_musig2_pks, nonce_pair, partial_sign}
use clementine.Core.ExtendedRpc.{Node, check_deposit_utxo}
use clementine.Core.Libraries.{Libraries, slash_or_take_tx, operator_takes_tx}
use clementine.Core.Nonces.{
  Nonces, get_pub_nonces, save_nonces, save_agg_nonces, update_sighashes,
  save_sighashes_and_get_nonces,
}
use clementine.Core.Deposits.{
  DepositInfos, KickoffUtxos, get_deposit_info, save_deposit_info, get_kickoff_utxos,
  save_kickoff_utxos, save_slash_or_take_sigs, save_operator_take_sigs,
}

pub record Verifier (Network : Type 0) : Type 0 where
  pub rpc : Node
  pub signer : Actor
  pub config : BridgeConfig Network
  pub nofn_xonly_pk : Bytes
  pub operator_xonly_pks : List Bytes

-- The verifier's tables.
pub record Tables : Type 0 where
  pub deposit_infos : DepositInfos
  pub nonces : Nonces
  pub deposit_kickoff_utxos : KickoffUtxos

abbrev pub contains : List Bytes → Bytes → Bool
contains [] pk = false
contains (key ∷ keys) pk = bytes_eq key pk || contains keys pk

-- The answer of a transaction, and the tables: those from before where it was not committed.
unfoldable pub transaction : {A : Type 0} → Tables → Result (A × Tables) → Result A × Tables
transaction db (ok (a, db')) = (ok a, db')
transaction db (err e) = (err e, db)
transaction db panicked = (panicked, db)

abbrev pub with_nonces : Tables → Nonces → Tables
with_nonces db nonces = record {
  deposit_infos = db.deposit_infos;
  nonces = nonces;
  deposit_kickoff_utxos = db.deposit_kickoff_utxos;
}

abbrev pub with_kickoff_utxos : Tables → KickoffUtxos → Tables
with_kickoff_utxos db kickoffs = record {
  deposit_infos = db.deposit_infos;
  nonces = db.nonces;
  deposit_kickoff_utxos = kickoffs;
}

module _ {Network KeyAggContext : Type 0} (L : Libraries Network KeyAggContext) where
  -- `Verifier::new`, with its signer and its node.
  unfoldable pub new : Node → Actor → BridgeConfig Network → Result (Verifier Network)
  new rpc signer config =
      if contains config.verifiers_public_keys signer.keypair.public_key
      then from_musig2_pks L.musig2 config.verifiers_public_keys none false >>= (λ nofn_xonly_pk.
        ok (record {
          rpc = rpc;
          signer = signer;
          config = config;
          nofn_xonly_pk = nofn_xonly_pk;
          operator_xonly_pks = config.operators_xonly_pks;
        }))
      else err public_key_not_found

  module _ (V : Verifier Network) where
    -- New nonces, from random bytes that are arguments.
    unfoldable pub fresh_nonces : (ℕ → Bytes) → ℕ → ℕ → List (Bytes × Bytes)
    fresh_nonces rng from zero = []
    fresh_nonces rng from (suc n) =
        nonce_pair L.musig2 V.signer.keypair (rng from) ∷ fresh_nonces rng (suc from) n

    unfoldable pub num_required_nonces : ℕ
    num_required_nonces = 2 * length V.operator_xonly_pks + 1

    -- Nonces for a deposit that has none.
    unfoldable pub create_nonces :
        (ℕ → Bytes) → OutPoint → Bytes → Bytes → Tables → Result (List Bytes × Tables)
    create_nonces rng deposit_outpoint recovery_taproot_address evm_address db =
        let nonces = fresh_nonces rng 0 num_required_nonces in
        save_deposit_info deposit_outpoint recovery_taproot_address evm_address db.deposit_infos
        >>= (λ infos. save_nonces deposit_outpoint nonces db.nonces >>= (λ table. ok (
          map (λ nonce. nonce.1) nonces,
          record {
            deposit_infos = infos;
            nonces = table;
            deposit_kickoff_utxos = db.deposit_kickoff_utxos;
          },
        )))

    -- Nonces that are there are the answer.
    unfoldable pub answer_nonces :
        (ℕ → Bytes)
        → OutPoint
        → Bytes
        → Bytes
        → Option (List Bytes)
        → Tables
        → Result (List Bytes × Tables)
    answer_nonces rng deposit_outpoint recovery_taproot_address evm_address (some (p ∷ ps)) db =
        if not (length (p ∷ ps) == num_required_nonces)
        then err nonces_not_found
        else ok (p ∷ ps, db)
    answer_nonces rng deposit_outpoint recovery_taproot_address evm_address (some []) db =
        create_nonces rng deposit_outpoint recovery_taproot_address evm_address db
    answer_nonces rng deposit_outpoint recovery_taproot_address evm_address none db =
        create_nonces rng deposit_outpoint recovery_taproot_address evm_address db

    unfoldable pub new_deposit :
        (ℕ → Bytes) → OutPoint → Bytes → Bytes → Tables → Result (List Bytes) × Tables
    new_deposit rng deposit_outpoint recovery_taproot_address evm_address db = transaction db (
        check_deposit_utxo V.rpc L.scripts L.taproot V.nofn_xonly_pk deposit_outpoint
          recovery_taproot_address evm_address V.config.bridge_amount_sats
          V.config.confirmation_threshold V.config.network V.config.user_takes_after
        >>= (λ checked.
            answer_nonces rng deposit_outpoint recovery_taproot_address evm_address
              (get_pub_nonces deposit_outpoint db.nonces) db))
