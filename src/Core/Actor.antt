-- ===== src/Core/Actor.antt =====
-- The signer of core/src/actor.rs.
use clementine.Prelude.{ℕ, List, Option, none, some, get_elem?}
use clementine.Prelude.Bytes.{Bytes}
use clementine.Core.Types.{TxOut, Transaction, TxHandler, Keypair}
use clementine.Core.Result.{
  Result, ok, ◌>>=◌, or_panicked, ok_or, secp256k1_error, bitcoin_sighash_taproot_error,
}

-- `TapSighashType`, of which the crate core names two.
pub data SighashType : Type 0 where
  default : SighashType
  single_plus_anyone_can_pay : SighashType

-- `Prevouts` of the crate `bitcoin`.
pub data Prevouts : Type 0 where
  prevouts_all : List TxOut → Prevouts
  prevouts_one : ℕ → TxOut → Prevouts

-- The digests of `SighashCache` of the crate `bitcoin`, for a spend by the key of an output and by a
-- script of it, which stands for the hash of its leaf.
pub record SighashCache : Type 0 where
  pub key_spend : Transaction → ℕ → Prevouts → SighashType → Option Bytes
  pub script_spend : Transaction → ℕ → Prevouts → Bytes → SighashType → Option Bytes

-- The key pair of the signer, with what the crates `secp256k1` and `bitcoin` compute with it: the
-- signatures of a digest, with the key and with the key tweaked by a merkle root.
pub record Actor : Type 0 where
  pub keypair : Keypair
  pub xonly_public_key : Bytes
  pub address : Bytes
  pub sign_schnorr : Bytes → Bytes
  pub sign_schnorr_tweaked : Option Bytes → Bytes → Option Bytes

-- The previous outputs that a signature commits to.
unfoldable pub prevouts_for : Option SighashType → List TxOut → ℕ → Result Prevouts
prevouts_for (some single_plus_anyone_can_pay) prevouts input_index =
    or_panicked (get_elem? prevouts input_index)
    >>= (λ prevout. ok (prevouts_one input_index prevout))
prevouts_for (some default) prevouts input_index = ok (prevouts_all prevouts)
prevouts_for none prevouts input_index = ok (prevouts_all prevouts)

-- `sighash_type.unwrap_or(TapSighashType::Default)`
abbrev pub or_default : Option SighashType → SighashType
or_default none = default
or_default (some t) = t

module _ (H : SighashCache) where
  -- The digest of a spend by the script at `scripts[txin_index][script_index]`.
  unfoldable pub convert_tx_to_sighash_script_spend : TxHandler → ℕ → ℕ → Result Bytes
  convert_tx_to_sighash_script_spend tx_handler txin_index script_index =
      or_panicked (get_elem? tx_handler.scripts txin_index) >>= (λ scripts.
        or_panicked (get_elem? scripts script_index) >>= (λ script.
          ok_or bitcoin_sighash_taproot_error (
            H.script_spend tx_handler.tx txin_index (prevouts_all tx_handler.prevouts) script
              default)))

  unfoldable pub convert_tx_to_sighash_pubkey_spend : TxHandler → ℕ → Result Bytes
  convert_tx_to_sighash_pubkey_spend tx_handler txin_index =
      ok_or bitcoin_sighash_taproot_error
        (H.key_spend tx_handler.tx txin_index (prevouts_all tx_handler.prevouts) default)

module _ (A : Actor) where
  unfoldable pub sign : Bytes → Bytes
  sign sighash = A.sign_schnorr sighash

  unfoldable pub sign_with_tweak : Bytes → Option Bytes → Result Bytes
  sign_with_tweak sighash merkle_root =
      ok_or secp256k1_error (A.sign_schnorr_tweaked merkle_root sighash)

  module _ (H : SighashCache) where
    unfoldable pub sign_taproot_script_spend_tx : TxHandler → ℕ → ℕ → Result Bytes
    sign_taproot_script_spend_tx tx txin_index script_index =
        convert_tx_to_sighash_script_spend H tx txin_index script_index
        >>= (λ sig_hash. ok (sign sig_hash))

    unfoldable pub sign_taproot_script_spend_tx_new_tweaked : TxHandler → ℕ → ℕ → Result Bytes
    sign_taproot_script_spend_tx_new_tweaked tx_handler txin_index script_index =
        convert_tx_to_sighash_script_spend H tx_handler txin_index script_index
        >>= (λ sig_hash. sign_with_tweak sig_hash none)

    unfoldable pub sign_taproot_pubkey_spend_tx_with_sighash :
        Transaction → List TxOut → ℕ → Option SighashType → Result Bytes
    sign_taproot_pubkey_spend_tx_with_sighash tx prevouts input_index sighash_type =
        prevouts_for sighash_type prevouts input_index >>= (λ spent.
          ok_or bitcoin_sighash_taproot_error
            (H.key_spend tx input_index spent (or_default sighash_type))
          >>= (λ sig_hash. sign_with_tweak sig_hash none))

    unfoldable pub sign_taproot_pubkey_spend_tx : Transaction → List TxOut → ℕ → Result Bytes
    sign_taproot_pubkey_spend_tx tx prevouts input_index =
        ok_or bitcoin_sighash_taproot_error
          (H.key_spend tx input_index (prevouts_all prevouts) default)
        >>= (λ sig_hash. sign_with_tweak sig_hash none)

    unfoldable pub sign_taproot_pubkey_spend : TxHandler → ℕ → Option SighashType → Result Bytes
    sign_taproot_pubkey_spend tx_handler input_index sighash_type =
        prevouts_for sighash_type tx_handler.prevouts input_index >>= (λ spent.
          ok_or bitcoin_sighash_taproot_error
            (H.key_spend tx_handler.tx input_index spent (or_default sighash_type))
          >>= (λ sig_hash. sign_with_tweak sig_hash none))
