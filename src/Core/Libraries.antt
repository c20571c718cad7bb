-- ===== src/Core/Libraries.antt =====
-- The libraries that the verifiers and the aggregator work with, and the presigned transactions of a
-- deposit as both build them.
use clementine.Prelude.{
  ℕ, Option, none, some, Bool, true, false, List, length, take, drop, ltb, ◌≡◌, get_elem?,
}
use clementine.Prelude.Bytes.{Bytes}
use clementine.Circuits.Sha256.{Sha256}
use clementine.Core.Types.{OutPoint, Transaction, Utxo, TxHandler, SpendInfo}
use clementine.Core.Result.{Result, ok, ◌>>=◌, or_panicked}
use clementine.Core.Config.{BridgeConfig}
use clementine.Core.Builder.Script.{Scripts}
use clementine.Core.Builder.Address.{Taproot}
use clementine.Core.Builder.Transaction.{create_slash_or_take_tx, create_operator_takes_tx}
use clementine.Core.Actor.{SighashCache}
use clementine.Core.Musig2.{Musig2}

-- `verify_schnorr` takes the signature, the digest and the key; `signature_from_slice` the bytes.
pub record Libraries (Network KeyAggContext : Type 0) : Type 0 where
  pub hasher : Sha256
  pub scripts : Scripts
  pub taproot : Taproot Network
  pub sighashes : SighashCache
  pub musig2 : Musig2 KeyAggContext
  pub compute_txid : Transaction → Bytes
  pub raw_hex : Transaction → Bytes
  pub control_block : SpendInfo → Bytes → Option Bytes
  pub verify_schnorr : Bytes → Bytes → Bytes → Bool
  pub signature_from_slice : Bytes → Option Bytes

module _ {Network KeyAggContext : Type 0} (L : Libraries Network KeyAggContext)
    (config : BridgeConfig Network) (nofn_xonly_pk : Bytes) where
  abbrev pub slash_or_take_tx : OutPoint → Utxo → Bytes → ℕ → Result TxHandler
  slash_or_take_tx deposit_outpoint kickoff_utxo operator_xonly_pk operator_idx =
      create_slash_or_take_tx L.scripts L.taproot L.compute_txid deposit_outpoint kickoff_utxo
        operator_xonly_pk operator_idx nofn_xonly_pk config.network config.operator_takes_after
        config.bridge_amount_sats

  -- The first output of a transaction.
  abbrev pub first_utxo : Transaction → Result Utxo
  first_utxo tx = or_panicked (get_elem? tx.output 0) >>= (λ txout.
      ok (record { outpoint = record { txid = L.compute_txid tx; vout = 0 }; txout = txout }))

  -- The transaction that takes the bridge's fund with the first output of the one above.
  abbrev pub operator_takes_tx : OutPoint → TxHandler → Bytes → ℕ → Result TxHandler
  operator_takes_tx bridge_fund_outpoint slash_or_take operator_xonly_pk operator_idx =
      first_utxo slash_or_take.tx >>= (λ slash_or_take_utxo.
        or_panicked (get_elem? config.operator_wallet_addresses operator_idx) >>= (λ wallet.
          create_operator_takes_tx L.scripts L.taproot bridge_fund_outpoint slash_or_take_utxo
            operator_xonly_pk nofn_xonly_pk config.network config.operator_takes_after
            config.bridge_amount_sats wallet))

-- What the parties rely on of the crates: an aggregated signature that `musig2` returns verifies under
-- the key of its context, a new context has no tweak, and the key tweaked by `musig2` without a tree is
-- that of the taproot address without a tree.
pub record Laws {Network KeyAggContext : Type 0} (L : Libraries Network KeyAggContext)
    : Type 0 where
  pub aggregate_verifies :
      (key_agg_ctx : KeyAggContext) (agg_nonce : Bytes) (partial_sigs : List Bytes)
      (message agg_sig sig : Bytes)
      → L.musig2.aggregate key_agg_ctx agg_nonce partial_sigs message ≡ some agg_sig
      → L.signature_from_slice agg_sig ≡ some sig
      → L.verify_schnorr sig message (L.musig2.aggregated_pubkey key_agg_ctx) ≡ true
  pub new_is_untweaked :
      (pks : List Bytes) (key_agg_ctx : KeyAggContext)
      → L.musig2.new_key_agg_context pks ≡ some key_agg_ctx
      → L.musig2.aggregated_pubkey key_agg_ctx ≡ L.musig2.aggregated_pubkey_untweaked key_agg_ctx
  pub p2tr_is_long :
      (key : Bytes) (network : Network) → ltb (length (L.taproot.p2tr key none network)) 34 ≡ false
  pub p2tr_is_tweaked :
      (pks : List Bytes) (network : Network) (raw key_agg_ctx : KeyAggContext)
      → L.musig2.new_key_agg_context pks ≡ some raw
      → L.musig2.with_unspendable_taproot_tweak raw ≡ some key_agg_ctx
      → L.taproot.xonly_from_slice (
          take 32 (drop 2 (L.taproot.p2tr (L.musig2.aggregated_pubkey_untweaked raw) none network)))
        ≡ some (L.musig2.aggregated_pubkey key_agg_ctx)
