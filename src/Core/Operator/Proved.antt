-- ===== src/Core/Operator/Proved.antt =====
-- `withdrawal_proved_on_citrea` of core/src/operator.rs.
pub mod Search
use clementine.Prelude.{
  ℕ, zero, suc, ◌+◌, ◌-◌, ◌^◌, ◌%◌, List, [], ◌∷◌, ◌++◌, Option, none, some, Bool, true, false, not,
  ◌==◌, if◌then◌else◌, length, reverse, get_elem?,
}
use clementine.Prelude.Bytes.{Bytes, from_le_bytes}
use clementine.Core.Types.{OutPoint, Transaction, Utxo, TxHandler}
use clementine.Core.Result.{
  Result, ok, err, ◌>>=◌, or_panicked, ok_or, json_rpc_error, invalid_operator_index,
  invalid_deposit_outpoint_given, kickoff_outpoints_not_found, kickoff_generator_tx_not_found,
  kickoff_generator_txs_too_many_iterations, operator_slash_or_take_sig_not_found,
  operator_takes_sig_not_found,
}
use clementine.Core.Builder.Script.{to_be_bytes}
use clementine.Core.Builder.Transaction.{
  create_move_tx, create_slash_or_take_tx, create_operator_takes_tx,
}
use clementine.Core.Witness.{handle_taproot_witness_new}
use clementine.Core.Actor.{sign_taproot_script_spend_tx}
use clementine.Core.Database.{
  Database, GeneratorTx, get_kickoff_utxo, get_deposit_kickoff_generator_tx,
}
use clementine.Core.Deposits.{KickoffUtxos, get_slash_or_take_sig, get_operator_take_sig}
use clementine.Core.Operator.{Operator, Citrea}
use clementine.Core.Operator.Withdrawal.{slice}

-- `u32::from_be_bytes` of what eight hexadecimal digits stand for.
abbrev pub from_be_bytes : Bytes → Result ℕ
from_be_bytes bytes =
    if length bytes == 4 then ok (from_le_bytes (reverse bytes)) else or_panicked none

module _ {Network : Type 0} (op : Operator Network) where
  -- The last `u32` of a response.
  unfoldable pub index_of : Bytes → Result ℕ
  index_of response =
      slice 58 8 response
      >>= (λ digits. or_panicked (op.codec.hex_decode digits) >>= (λ bytes. from_be_bytes bytes))

  -- Citrea's answers: the operator has filled the withdrawal, and the deposit is that of the withdrawal.
  -- Subtractions wrap as in a release build.
  unfoldable pub check_citrea : Option Citrea → ℕ → OutPoint → Result Unit
  check_citrea none withdrawal_idx deposit_outpoint = ok tt
  check_citrea (some citrea_client) withdrawal_idx deposit_outpoint =
      ok_or json_rpc_error (citrea_client.call_c045577b (to_be_bytes 4 withdrawal_idx))
      >>= (λ filler. index_of filler >>= (λ operator_idx.
          (if not ((operator_idx + 2 ^ 32 - 1) % 2 ^ 32 == op.idx % 2 ^ 32)
            then err (invalid_operator_index operator_idx op.idx)
            else ok tt)
          >>= (λ filled.
              create_move_tx op.scripts op.taproot deposit_outpoint op.nofn_xonly_pk
                op.config.bridge_amount_sats op.config.network
              >>= (λ move_tx.
                  ok_or json_rpc_error (citrea_client.call_11e53a01 (op.compute_txid move_tx))
                  >>= (λ response. index_of response >>= (λ deposit_idx.
                      if not ((deposit_idx + 2 ^ 32 - 1) % 2 ^ 32 == withdrawal_idx)
                      then err (
                          invalid_deposit_outpoint_given ((deposit_idx + 2 ^ 64 - 1) % 2 ^ 64)
                            withdrawal_idx)
                      else ok tt))))))

  -- Whether the node knows a transaction.
  abbrev pub is_known : Bytes → Bool
  is_known txid = elim (op.rpc.get_raw_transaction txid) [ none ↦ false | some tx ↦ true ]

  -- The loop, for a number of rounds: the transactions that are to be sent, the last one first, and
  -- whether the chain of funding transactions has led to one that the node knows.
  unfoldable pub search_from : ℕ → Bytes → List GeneratorTx → Result (List Bytes × Bool)
  search_from zero txid table = ok ([], false)
  search_from (suc rounds) txid table = elim (is_known txid) [
    | true ↦ ok ([], true)
    | false ↦
        ok_or kickoff_generator_tx_not_found (get_deposit_kickoff_generator_tx txid table)
        >>= (λ generator.
            search_from rounds generator.funding_txid table
            >>= (λ found. ok (generator.raw_signed_tx ∷ found.0, found.1)))
  ]

  -- The generator transactions that are to be sent, the first one first.
  unfoldable pub pending_txs : Bytes → List GeneratorTx → Result (List Bytes)
  pending_txs txid table = search_from 25 txid table >>= (λ found.
      if not found.1 then err kickoff_generator_txs_too_many_iterations else ok (reverse found.0))

  -- The slash or take transaction, signed by the operator and by n of n.
  unfoldable pub signed_slash_or_take_tx :
      OutPoint → Utxo → KickoffUtxos → TxHandler → Result TxHandler
  signed_slash_or_take_tx deposit_outpoint kickoff_utxo table slash_or_take_tx_handler =
      get_slash_or_take_sig deposit_outpoint kickoff_utxo table >>= (λ found.
        ok_or operator_slash_or_take_sig_not_found found >>= (λ nofn_sig.
          sign_taproot_script_spend_tx op.signer op.sighashes slash_or_take_tx_handler 0 0
          >>= (λ our_sig.
              handle_taproot_witness_new op.control_block slash_or_take_tx_handler
                (our_sig ∷ nofn_sig ∷ []) 0 (some 0))))

  -- The operator's take transaction, signed by n of n and, for its second input, by the operator.
  unfoldable pub signed_operator_takes_tx :
      OutPoint → Utxo → KickoffUtxos → TxHandler → Result TxHandler
  signed_operator_takes_tx deposit_outpoint kickoff_utxo table operator_takes_tx =
      get_operator_take_sig deposit_outpoint kickoff_utxo table >>= (λ found.
        ok_or operator_takes_sig_not_found found >>= (λ operator_takes_nofn_sig.
          sign_taproot_script_spend_tx op.signer op.sighashes operator_takes_tx 1 0 >>= (λ our_sig.
            handle_taproot_witness_new op.control_block operator_takes_tx
              (operator_takes_nofn_sig ∷ []) 0 none
            >>= (λ once.
                handle_taproot_witness_new op.control_block once (our_sig ∷ []) 1 (some 0)))))

  -- What takes the bridge's fund, for a slash or take transaction that is not yet signed.
  unfoldable pub unsigned_operator_takes_tx : OutPoint → TxHandler → Result TxHandler
  unsigned_operator_takes_tx deposit_outpoint slash_or_take_tx_handler =
      or_panicked (get_elem? slash_or_take_tx_handler.tx.output 0) >>= (λ txout.
        create_move_tx op.scripts op.taproot deposit_outpoint op.nofn_xonly_pk
          op.config.bridge_amount_sats op.config.network
        >>= (λ move_tx.
            or_panicked (get_elem? op.config.operator_wallet_addresses op.idx) >>= (λ wallet.
              create_operator_takes_tx op.scripts op.taproot
                (record { txid = op.compute_txid move_tx; vout = 0 })
                (record {
                  outpoint = record {
                    txid = op.compute_txid slash_or_take_tx_handler.tx;
                    vout = 0;
                  };
                  txout = txout;
                })
                op.signer.xonly_public_key op.nofn_xonly_pk op.config.network
                op.config.operator_takes_after op.config.bridge_amount_sats wallet)))

  -- The transactions that the operator has to send, in their order. The signatures are in the table
  -- `deposit_kickoff_utxos` of the operator's database.
  unfoldable pub withdrawal_proved_on_citrea :
      ℕ → OutPoint → Database → KickoffUtxos → Result (List Bytes)
  withdrawal_proved_on_citrea withdrawal_idx deposit_outpoint db table =
      check_citrea op.citrea_client withdrawal_idx deposit_outpoint >>= (λ proved.
        ok_or kickoff_outpoints_not_found (get_kickoff_utxo deposit_outpoint db)
        >>= (λ kickoff_utxo.
            pending_txs kickoff_utxo.outpoint.txid db.deposit_kickoff_generator_txs
            >>= (λ txs_to_be_sent.
                create_slash_or_take_tx op.scripts op.taproot op.compute_txid deposit_outpoint
                  kickoff_utxo op.signer.xonly_public_key op.idx op.nofn_xonly_pk op.config.network
                  op.config.operator_takes_after op.config.bridge_amount_sats
                >>= (λ slash_or_take_tx_handler.
                    or_panicked (get_elem? slash_or_take_tx_handler.tx.output 0) >>= (λ there.
                      signed_slash_or_take_tx deposit_outpoint kickoff_utxo table
                        slash_or_take_tx_handler
                      >>= (λ slash_or_take.
                          unsigned_operator_takes_tx deposit_outpoint slash_or_take_tx_handler
                          >>= (λ operator_takes_tx.
                              signed_operator_takes_tx deposit_outpoint kickoff_utxo table
                                operator_takes_tx
                              >>= (λ operator_takes. ok (
                                  txs_to_be_sent
                                  ++ (op.codec.raw_hex slash_or_take.tx
                                      ∷ op.codec.raw_hex operator_takes.tx
                                      ∷ []))))))))))
