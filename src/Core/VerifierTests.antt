-- ===== src/Core/VerifierTests.antt =====
-- Runs of the verifier, with stand-ins for the libraries and the node.
use clementine.Prelude.{◌+◌, ◌*◌, ◌≡◌, refl, List, [], ◌∷◌, some, length}
use clementine.Prelude.Bytes.{Bytes, bytes_eq}
use clementine.Core.Result.{Result, ok}
use clementine.Core.Utils.{ilog2, usize_to_var_len_bytes}
use clementine.Core.Builder.Script.{
  anyone_can_spend_txout, op_return_txout, create_deposit_script,
  create_musig2_and_operator_multisig_script, generate_relative_timelock_script,
}
use clementine.Core.Builder.Address.{
  leaves_from, taproot_leaves, create_taproot_address, generate_deposit_address,
  create_musig2_address, create_kickoff_address,
}
use clementine.Core.Builder.Transaction.{
  create_btc_tx, create_tx_ins, create_tx_ins_with_sequence, create_move_tx, create_move_tx_handler,
  create_slash_or_take_tx, create_operator_takes_tx,
}
use clementine.Core.Actor.{convert_tx_to_sighash_script_spend, convert_tx_to_sighash_pubkey_spend}
use clementine.Core.Musig2.{tweaked, create_key_agg_ctx, nonce_pair, partial_sign}
use clementine.Core.ExtendedRpc.{
  confirmation_blocks, check_utxo_address_and_amount, is_utxo_spent, check_deposit_utxo,
}
use clementine.Core.Nonces.{
  Nonces, get_pub_nonces, save_nonces, save_agg_nonces, prevent_sighash_update, update_sighashes,
  save_sighashes_and_get_nonces,
}
use clementine.Core.Nonces.Once.{sighash_of}
use clementine.Core.Deposits.{
  get_deposit_info, save_deposit_info, get_kickoff_utxos, save_kickoff_utxos,
  save_slash_or_take_sigs, save_operator_take_sigs,
}
use clementine.Core.Verifier.{
  Tables, transaction, fresh_nonces, num_required_nonces, create_nonces, answer_nonces, new_deposit,
}
use clementine.Core.Verifier.Deposit.{new_deposit-again}
use clementine.Core.Verifier.Presigns.{
  kickoff_sig_hash, check_kickoff, check_kickoffs, partial_signs, operator_kickoffs_generated,
  create_deposit_details,
}
use clementine.Core.Verifier.Takes.{
  ◌>>>◌, operator_takes_sighash, operator_takes_sighashes, burn_txs_signed, check_operator_take,
  check_operator_takes, nofn_taproot_key, checked_takes, operator_take_txs_signed,
}
use clementine.Core.Verifier.Calls.{
  Call, new_deposit_call, operator_kickoffs_generated_call, burn_txs_signed_call,
  operator_take_txs_signed_call, run,
}
use clementine.Core.Verifier.Calls.Sighashes.{run-keeps_sighash}
use clementine.Core.Verifier.Kickoffs.{AllChecked, PartialSigs, operator_kickoffs_generated-Checked}
use clementine.Core.Standins.{
  libraries, verifier, no_rows, deposit, kickoff, recovery, answer, kickoff_sigs, deposited,
  kicked_off, burned, taken,
}

deposited_answer : ◌≡◌ {A = Result (List Bytes) × Tables} deposited (ok answer, deposited.1)
unfolding new_deposit transaction check_deposit_utxo confirmation_blocks
    check_utxo_address_and_amount is_utxo_spent generate_deposit_address create_deposit_script
    generate_relative_timelock_script create_taproot_address taproot_leaves leaves_from ilog2
    bytes_eq get_pub_nonces answer_nonces create_nonces fresh_nonces num_required_nonces nonce_pair
    save_nonces save_deposit_info
deposited_answer = refl

kicked_off_answer :
    ◌≡◌ {A = Result (List Bytes × List Bytes) × Tables} kicked_off
      (ok ((4 ∷ 2 ∷ 10 ∷ []) ∷ [], []), kicked_off.1)
unfolding new_deposit transaction check_deposit_utxo confirmation_blocks
    check_utxo_address_and_amount is_utxo_spent generate_deposit_address create_deposit_script
    generate_relative_timelock_script create_taproot_address taproot_leaves leaves_from ilog2
    bytes_eq get_pub_nonces answer_nonces create_nonces fresh_nonces num_required_nonces nonce_pair
    save_nonces save_deposit_info operator_kickoffs_generated check_kickoffs check_kickoff
    kickoff_sig_hash create_kickoff_address create_musig2_and_operator_multisig_script
    create_slash_or_take_tx create_move_tx create_musig2_address create_btc_tx create_tx_ins
    anyone_can_spend_txout op_return_txout usize_to_var_len_bytes convert_tx_to_sighash_script_spend
    save_agg_nonces save_kickoff_utxos save_sighashes_and_get_nonces update_sighashes
    prevent_sighash_update partial_signs partial_sign create_key_agg_ctx tweaked
kicked_off_answer = refl

burned_answer : burned.0 ≡ ok ((4 ∷ 1 ∷ 9 ∷ []) ∷ [])
unfolding new_deposit transaction check_deposit_utxo confirmation_blocks
    check_utxo_address_and_amount is_utxo_spent generate_deposit_address create_deposit_script
    generate_relative_timelock_script create_taproot_address taproot_leaves leaves_from ilog2
    bytes_eq get_pub_nonces answer_nonces create_nonces fresh_nonces num_required_nonces nonce_pair
    save_nonces save_deposit_info operator_kickoffs_generated check_kickoffs check_kickoff
    kickoff_sig_hash create_kickoff_address create_musig2_and_operator_multisig_script
    create_slash_or_take_tx create_move_tx create_musig2_address create_btc_tx create_tx_ins
    anyone_can_spend_txout op_return_txout usize_to_var_len_bytes convert_tx_to_sighash_script_spend
    save_agg_nonces save_kickoff_utxos save_sighashes_and_get_nonces update_sighashes
    prevent_sighash_update partial_signs partial_sign create_key_agg_ctx tweaked burn_txs_signed
    ◌>>>◌ create_deposit_details get_kickoff_utxos get_deposit_info create_move_tx_handler
    operator_takes_sighashes operator_takes_sighash create_operator_takes_tx
    create_tx_ins_with_sequence convert_tx_to_sighash_pubkey_spend save_slash_or_take_sigs
burned_answer = refl

taken_answer : taken.0 ≡ ok (4 ∷ 0 ∷ 10 ∷ [])
unfolding new_deposit transaction check_deposit_utxo confirmation_blocks
    check_utxo_address_and_amount is_utxo_spent generate_deposit_address create_deposit_script
    generate_relative_timelock_script create_taproot_address taproot_leaves leaves_from ilog2
    bytes_eq get_pub_nonces answer_nonces create_nonces fresh_nonces num_required_nonces nonce_pair
    save_nonces save_deposit_info operator_kickoffs_generated check_kickoffs check_kickoff
    kickoff_sig_hash create_kickoff_address create_musig2_and_operator_multisig_script
    create_slash_or_take_tx create_move_tx create_musig2_address create_btc_tx create_tx_ins
    anyone_can_spend_txout op_return_txout usize_to_var_len_bytes convert_tx_to_sighash_script_spend
    save_agg_nonces save_kickoff_utxos save_sighashes_and_get_nonces update_sighashes
    prevent_sighash_update partial_signs partial_sign create_key_agg_ctx tweaked burn_txs_signed
    ◌>>>◌ create_deposit_details get_kickoff_utxos get_deposit_info create_move_tx_handler
    operator_takes_sighashes operator_takes_sighash create_operator_takes_tx
    create_tx_ins_with_sequence convert_tx_to_sighash_pubkey_spend save_slash_or_take_sigs
    operator_take_txs_signed checked_takes nofn_taproot_key check_operator_takes check_operator_take
    save_operator_take_sigs
taken_answer = refl

-- The rest of the calls, after the kickoff's digest was recorded.
abbrev later_calls : List Call
later_calls =
    burn_txs_signed_call deposit [] ((0 ∷ 10 ∷ []) ∷ [])
    ∷ operator_take_txs_signed_call deposit ((1 ∷ 9 ∷ []) ∷ [])
    ∷ new_deposit_call (λ i. []) deposit recovery []
    ∷ operator_kickoffs_generated_call deposit (kickoff ∷ []) [] []
    ∷ []

recorded : sighash_of kicked_off.1.nonces deposit 2 ≡ some (10 ∷ [])
unfolding new_deposit transaction check_deposit_utxo confirmation_blocks
    check_utxo_address_and_amount is_utxo_spent generate_deposit_address create_deposit_script
    generate_relative_timelock_script create_taproot_address taproot_leaves leaves_from ilog2
    bytes_eq get_pub_nonces answer_nonces create_nonces fresh_nonces num_required_nonces nonce_pair
    save_nonces save_deposit_info operator_kickoffs_generated check_kickoffs check_kickoff
    kickoff_sig_hash create_kickoff_address create_musig2_and_operator_multisig_script
    create_slash_or_take_tx create_move_tx create_musig2_address create_btc_tx create_tx_ins
    anyone_can_spend_txout op_return_txout usize_to_var_len_bytes convert_tx_to_sighash_script_spend
    save_agg_nonces save_kickoff_utxos save_sighashes_and_get_nonces update_sighashes
    prevent_sighash_update partial_signs partial_sign create_key_agg_ctx tweaked
recorded = refl

run-keeps_sighash_example :
    sighash_of (run libraries verifier later_calls kicked_off.1).nonces deposit 2 ≡ some (10 ∷ [])
run-keeps_sighash_example =
    run-keeps_sighash libraries verifier later_calls kicked_off.1 deposit 2 (10 ∷ []) recorded

new_deposit-again_example :
    (length answer ≡ 2 * length verifier.operator_xonly_pks + 1)
    × (get_pub_nonces deposit deposited.1.nonces ≡ some answer)
    × (◌≡◌ {A = Result (List Bytes) × Tables}
        (new_deposit libraries verifier (λ i. 9 ∷ []) deposit recovery [] deposited.1)
        (ok answer, deposited.1))
new_deposit-again_example =
    new_deposit-again libraries verifier (λ i. i ∷ []) (λ i. 9 ∷ []) deposit recovery [] no_rows
      answer deposited.1 deposited_answer

operator_kickoffs_generated-Checked_example :
    (length kickoff_sigs ≡ length (kickoff ∷ []))
    × ◌≡◌ {A = List Bytes} [] []
    × (hs : List Bytes) × AllChecked libraries verifier deposit kickoff_sigs 0 (kickoff ∷ []) hs
    × (table : Nonces) × (save_agg_nonces deposit
          ((20 ∷ []) ∷ (21 ∷ []) ∷ (22 ∷ []) ∷ [])
          deposited.1.nonces
        ≡ ok table)
    × (signing : List (Bytes × Bytes)) × ◌≡◌ {A = Result (List (Bytes × Bytes) × Nonces)}
        (save_sighashes_and_get_nonces deposit (1 + 1) hs table)
        (ok (signing, kicked_off.1.nonces))
    × PartialSigs libraries verifier hs signing ((4 ∷ 2 ∷ 10 ∷ []) ∷ [])
operator_kickoffs_generated-Checked_example =
    operator_kickoffs_generated-Checked libraries verifier deposit (kickoff ∷ []) kickoff_sigs
      ((20 ∷ []) ∷ (21 ∷ []) ∷ (22 ∷ []) ∷ []) deposited.1 ((4 ∷ 2 ∷ 10 ∷ []) ∷ []) [] kicked_off.1
      kicked_off_answer
