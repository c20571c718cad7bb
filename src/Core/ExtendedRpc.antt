-- ===== src/Core/ExtendedRpc.antt =====
-- The checks of core/src/extended_rpc.rs on a deposit.
use clementine.Prelude.{
  List, ℕ, Option, none, some, Bool, true, false, ◌&&◌, not, ◌==◌, ltb, if◌then◌else◌, get_elem?,
}
use clementine.Prelude.Bytes.{Bytes, bytes_eq}
use clementine.Core.Types.{OutPoint, TxOut, Transaction}
use clementine.Core.Result.{
  Result, ok, err, ◌>>=◌, or_panicked, ok_or, bitcoin_rpc_error, no_confirmation_data,
  deposit_not_finalized, invalid_deposit_utxo, utxo_spent,
}
use clementine.Core.Builder.Script.{Scripts}
use clementine.Core.Builder.Address.{Taproot, generate_deposit_address}

-- The answers of the Bitcoin node. The outer `none` is a failed call.
pub record Node : Type 0 where
  pub get_raw_transaction_info : Bytes → Option (Option ℕ)
  pub get_raw_transaction : Bytes → Option Transaction
  pub get_tx_out : Bytes → ℕ → Option (Option TxOut)

-- The calls of the node's wallet. A transaction that is funded or signed comes as its bytes, and the
-- details of one as the indices of their outputs.
pub record Wallet : Type 0 where
  pub send_to_address : Bytes → ℕ → Option Bytes
  pub get_transaction : Bytes → Option (List ℕ)
  pub fund_raw_transaction : Transaction → Option Bytes
  pub sign_raw_transaction_with_wallet : Bytes → Option Bytes
  pub send_raw_transaction : Transaction → Option Bytes

abbrev pub txout_eq : TxOut → TxOut → Bool
txout_eq a b = (a.value == b.value) && bytes_eq a.script_pubkey b.script_pubkey

-- The index is that of the first detail of the transaction.
unfoldable pub send_to_address : Wallet → Bytes → ℕ → Result OutPoint
send_to_address W address amount_sats =
    ok_or bitcoin_rpc_error (W.send_to_address address amount_sats) >>= (λ txid.
      ok_or bitcoin_rpc_error (W.get_transaction txid) >>= (λ details.
        or_panicked (get_elem? details 0) >>= (λ vout. ok (record { txid = txid; vout = vout }))))

module _ (R : Node) where
  unfoldable pub confirmation_blocks : Bytes → Result ℕ
  confirmation_blocks txid =
      ok_or bitcoin_rpc_error (R.get_raw_transaction_info txid)
      >>= (λ confirmations. ok_or no_confirmation_data confirmations)

  unfoldable pub check_utxo_address_and_amount : OutPoint → Bytes → ℕ → Result Bool
  check_utxo_address_and_amount outpoint address amount_sats =
      ok_or bitcoin_rpc_error (R.get_raw_transaction outpoint.txid) >>= (λ tx.
        or_panicked (get_elem? tx.output outpoint.vout) >>= (λ current_output.
          ok (txout_eq (record { value = amount_sats; script_pubkey = address }) current_output)))

  unfoldable pub get_txout_from_outpoint : OutPoint → Result TxOut
  get_txout_from_outpoint outpoint =
      ok_or bitcoin_rpc_error (R.get_raw_transaction outpoint.txid)
      >>= (λ tx. or_panicked (get_elem? tx.output outpoint.vout))

  unfoldable pub is_utxo_spent : OutPoint → Result Bool
  is_utxo_spent outpoint =
      ok_or bitcoin_rpc_error (R.get_tx_out outpoint.txid outpoint.vout)
      >>= (λ res. ok (elim res [ none ↦ true | some txout ↦ false ]))

  module _ (C : Scripts) {Network : Type 0} (T : Taproot Network) where
    unfoldable pub check_deposit_utxo :
        Bytes → OutPoint → Bytes → Bytes → ℕ → ℕ → Network → ℕ → Result Unit
    check_deposit_utxo nofn_xonly_pk deposit_outpoint recovery_taproot_address evm_address
          amount_sats confirmation_block_count network user_takes_after =
        confirmation_blocks deposit_outpoint.txid >>= (λ blocks.
          (if ltb blocks confirmation_block_count then err deposit_not_finalized else ok tt)
          >>= (λ finalized.
              generate_deposit_address C T nofn_xonly_pk recovery_taproot_address evm_address
                amount_sats network user_takes_after
              >>= (λ deposit.
                  check_utxo_address_and_amount deposit_outpoint deposit.0 amount_sats >>= (λ valid.
                    (if not valid then err invalid_deposit_utxo else ok tt) >>= (λ checked.
                      is_utxo_spent deposit_outpoint
                      >>= (λ spent. if spent then err utxo_spent else ok tt))))))
