-- ===== src/Core/Operator/Withdrawal.antt =====
-- `new_withdrawal_sig` of core/src/operator.rs.
use clementine.Prelude.{
  ℕ, ◌+◌, List, [], ◌∷◌, ◌++◌, Option, none, some, not, ◌||◌, ◌==◌, ltb, if◌then◌else◌, length,
  take, drop,
}
use clementine.Prelude.Bytes.{Bytes, bytes_eq}
use clementine.Core.Types.{OutPoint, TxOut, TxIn, Transaction, Utxo}
use clementine.Core.Result.{
  Result, ok, err, ◌>>=◌, or_panicked, ok_or, json_rpc_error, invalid_input_utxo,
  not_enough_fee_for_operator, secp256k1_error, bitcoin_sighash_taproot_error, bitcoin_rpc_error,
  bitcoin_consensus_encode_error,
}
use clementine.Core.Utils.{usize_to_var_len_bytes}
use clementine.Core.Builder.Script.{to_be_bytes, op_return_txout}
use clementine.Core.Builder.Transaction.{create_btc_tx, create_tx_ins}
use clementine.Core.Actor.{single_plus_anyone_can_pay, prevouts_one}
use clementine.Core.Operator.{Operator, Citrea, is_profitable}

-- `&s[from..from + n]`
abbrev pub slice : ℕ → ℕ → Bytes → Result Bytes
slice from n s = if ltb (length s) (from + n) then or_panicked none else ok (take n (drop from s))

module _ {Network : Type 0} (op : Operator Network) where
  -- The input must be the output 0 of the transaction that Citrea names.
  unfoldable pub check_input : Option Citrea → ℕ → OutPoint → Result Unit
  check_input none withdrawal_idx outpoint = ok tt
  check_input (some citrea_client) withdrawal_idx outpoint =
      ok_or json_rpc_error (citrea_client.call_471ba1e3 (to_be_bytes 4 withdrawal_idx))
      >>= (λ response. slice 2 64 response >>= (λ txid_response.
          or_panicked (op.codec.hex_decode txid_response) >>= (λ txid.
            if not (bytes_eq txid outpoint.txid) || not (0 == outpoint.vout)
            then err (invalid_input_utxo txid outpoint.txid)
            else ok tt)))

  -- The witness of the first input.
  abbrev pub with_user_sig : Bytes → TxIn → TxIn
  with_user_sig user_sig_wrapped txin = record {
    previous_output = txin.previous_output;
    sequence = txin.sequence;
    script_sig = txin.script_sig;
    witness = txin.witness ++ (user_sig_wrapped ∷ []);
  }

  abbrev pub with_first : Bytes → List TxIn → List TxIn
  with_first user_sig_wrapped [] = []
  with_first user_sig_wrapped (txin ∷ txins) = with_user_sig user_sig_wrapped txin ∷ txins

  -- The transaction that the wallet is to fund: the user's input and output, with the user's signature,
  -- and the index of the operator.
  unfoldable pub withdrawal_tx : Bytes → Utxo → TxOut → Transaction
  withdrawal_tx user_sig input_utxo output_txout =
      let user_sig_wrapped = op.taproot_signature user_sig single_plus_anyone_can_pay in
      create_btc_tx (with_first user_sig_wrapped (create_tx_ins (input_utxo.outpoint ∷ [])))
        (output_txout ∷ op_return_txout op.scripts (usize_to_var_len_bytes op.idx) ∷ [])

  -- The user's signature is over the one input and its output.
  unfoldable pub check_user_sig : Bytes → Utxo → TxOut → Result Unit
  check_user_sig user_sig input_utxo output_txout =
      slice 2 32 input_utxo.txout.script_pubkey >>= (λ key.
        ok_or secp256k1_error (op.taproot.xonly_from_slice key) >>= (λ user_xonly_pk.
          ok_or bitcoin_sighash_taproot_error (
            op.sighashes.key_spend
              (create_btc_tx (create_tx_ins (input_utxo.outpoint ∷ [])) (output_txout ∷ [])) 0
              (prevouts_one 0 input_utxo.txout) single_plus_anyone_can_pay)
          >>= (λ sighash.
              if op.verify_schnorr user_sig sighash user_xonly_pk
              then ok tt
              else err secp256k1_error)))

  unfoldable pub new_withdrawal_sig : ℕ → Bytes → Utxo → TxOut → Result Bytes
  new_withdrawal_sig withdrawal_idx user_sig input_utxo output_txout =
      check_input op.citrea_client withdrawal_idx input_utxo.outpoint >>= (λ named.
        is_profitable op input_utxo.txout.value output_txout.value >>= (λ profitable.
          (if not profitable then err not_enough_fee_for_operator else ok tt) >>= (λ enough.
            check_user_sig user_sig input_utxo output_txout >>= (λ signed.
              ok_or bitcoin_rpc_error
                (op.wallet.fund_raw_transaction (withdrawal_tx user_sig input_utxo output_txout))
              >>= (λ funded_tx.
                  ok_or bitcoin_rpc_error (op.wallet.sign_raw_transaction_with_wallet funded_tx)
                  >>= (λ hex.
                      ok_or bitcoin_consensus_encode_error (op.codec.deserialize hex)
                      >>= (λ signed_tx.
                          ok_or bitcoin_rpc_error (op.wallet.send_raw_transaction signed_tx))))))))
