-- ===== src/Core/DigestTests.antt =====
-- A nonce of a verifier through a history of calls, with stand-ins for the libraries and the node.
use clementine.Prelude.{◌≡◌, refl, List, [], ◌∷◌, true}
use clementine.Prelude.Bytes.{Bytes, bytes_eq}
use clementine.Core.Actor.{convert_tx_to_sighash_pubkey_spend, convert_tx_to_sighash_script_spend}
use clementine.Core.Builder.Address.{
  create_kickoff_address, create_musig2_address, create_taproot_address, generate_deposit_address,
  leaves_from, taproot_leaves,
}
use clementine.Core.Builder.Script.{
  anyone_can_spend_txout, create_deposit_script, create_musig2_and_operator_multisig_script,
  generate_relative_timelock_script, op_return_txout,
}
use clementine.Core.Builder.Transaction.{
  create_btc_tx, create_move_tx, create_move_tx_handler, create_operator_takes_tx,
  create_slash_or_take_tx, create_tx_ins, create_tx_ins_with_sequence,
}
use clementine.Core.Deposits.{
  get_deposit_info, get_kickoff_utxos, save_deposit_info, save_kickoff_utxos,
  save_operator_take_sigs, save_slash_or_take_sigs,
}
use clementine.Core.ExtendedRpc.{
  check_deposit_utxo, check_utxo_address_and_amount, confirmation_blocks, is_utxo_spent,
}
use clementine.Core.Musig2.{create_key_agg_ctx, nonce_pair, partial_sign, tweaked}
use clementine.Core.Nonces.{
  Nonces, get_pub_nonces, prevent_sighash_update, save_agg_nonces, save_nonces,
  save_sighashes_and_get_nonces, update_sighashes,
}
use clementine.Core.Result.{Result, err, ok, panicked}
use clementine.Core.Utils.{ilog2, usize_to_var_len_bytes}
use clementine.Core.Verifier.{
  answer_nonces, create_nonces, fresh_nonces, new_deposit, num_required_nonces, transaction,
}
use clementine.Core.Verifier.Calls.{
  Call, burn_txs_signed_call, handle, operator_take_txs_signed_call, run,
}
use clementine.Core.Verifier.Presigns.{
  check_kickoff, check_kickoffs, create_deposit_details, kickoff_sig_hash,
  operator_kickoffs_generated, partial_signs,
}
use clementine.Core.Verifier.Takes.{
  burn_txs_signed, check_operator_take, check_operator_takes, checked_takes, nofn_taproot_key,
  operator_take_txs_signed, operator_takes_sighash, operator_takes_sighashes, ◌>>>◌,
}
use clementine.Core.Nonces.{contains_key, Nonces}
use clementine.Core.Verifier.Calls.OneDigest.{run-one_digest}
use clementine.Core.Standins.{libraries, verifier, deposit, deposited, kicked_off}

abbrev nonces_of : Result Nonces → Nonces
nonces_of (ok table) = table
nonces_of (err e) = []
nonces_of panicked = []

abbrev aggregated : Nonces
aggregated =
    nonces_of (save_agg_nonces deposit ((20 ∷ []) ∷ (21 ∷ []) ∷ (22 ∷ []) ∷ []) deposited.1.nonces)

abbrev calls : List Call
calls =
    burn_txs_signed_call deposit [] ((0 ∷ 10 ∷ []) ∷ [])
    ∷ operator_take_txs_signed_call deposit ((1 ∷ 9 ∷ []) ∷ [])
    ∷ []

has_row : contains_key aggregated deposit 2 ≡ true
unfolding new_deposit transaction check_deposit_utxo confirmation_blocks
    check_utxo_address_and_amount is_utxo_spent generate_deposit_address create_deposit_script
    generate_relative_timelock_script create_taproot_address taproot_leaves leaves_from ilog2
    bytes_eq get_pub_nonces answer_nonces create_nonces fresh_nonces num_required_nonces nonce_pair
    save_nonces save_deposit_info save_agg_nonces
has_row = refl

answers_first :
    save_sighashes_and_get_nonces deposit 2 ((10 ∷ []) ∷ []) aggregated
    ≡ ok ((2 ∷ [], 22 ∷ []) ∷ [], kicked_off.1.nonces)
unfolding new_deposit transaction check_deposit_utxo confirmation_blocks
    check_utxo_address_and_amount is_utxo_spent generate_deposit_address create_deposit_script
    generate_relative_timelock_script create_taproot_address taproot_leaves leaves_from ilog2
    bytes_eq get_pub_nonces answer_nonces create_nonces fresh_nonces num_required_nonces nonce_pair
    save_nonces save_deposit_info operator_kickoffs_generated check_kickoffs check_kickoff
    kickoff_sig_hash create_kickoff_address create_musig2_and_operator_multisig_script
    create_slash_or_take_tx create_move_tx create_musig2_address create_btc_tx create_tx_ins
    anyone_can_spend_txout op_return_txout usize_to_var_len_bytes convert_tx_to_sighash_script_spend
    save_agg_nonces save_kickoff_utxos save_sighashes_and_get_nonces update_sighashes
    prevent_sighash_update partial_signs partial_sign create_key_agg_ctx tweaked
answers_first = refl

answers_again :
    save_sighashes_and_get_nonces deposit 2
      ((10 ∷ []) ∷ [])
      (run libraries verifier calls kicked_off.1).nonces
    ≡ ok ((2 ∷ [], 22 ∷ []) ∷ [], (run libraries verifier calls kicked_off.1).nonces)
unfolding run handle new_deposit transaction check_deposit_utxo confirmation_blocks
    check_utxo_address_and_amount is_utxo_spent generate_deposit_address create_deposit_script
    generate_relative_timelock_script create_taproot_address taproot_leaves leaves_from ilog2
    bytes_eq get_pub_nonces answer_nonces create_nonces fresh_nonces num_required_nonces nonce_pair
    save_nonces save_deposit_info operator_kickoffs_generated check_kickoffs check_kickoff
    kickoff_sig_hash create_kickoff_address create_musig2_and_operator_multisig_script
    create_slash_or_take_tx create_move_tx create_musig2_address create_btc_tx create_tx_ins
    anyone_can_spend_txout op_return_txout usize_to_var_len_bytes convert_tx_to_sighash_script_spend
    save_agg_nonces save_kickoff_utxos save_sighashes_and_get_nonces update_sighashes
    prevent_sighash_update partial_signs partial_sign create_key_agg_ctx tweaked burn_txs_signed
    ◌>>>◌ create_deposit_details get_kickoff_utxos get_deposit_info create_move_tx_handler
    operator_takes_sighashes operator_takes_sighash create_operator_takes_tx
    create_tx_ins_with_sequence convert_tx_to_sighash_pubkey_spend save_slash_or_take_sigs
    operator_take_txs_signed checked_takes nofn_taproot_key check_operator_takes check_operator_take
    save_operator_take_sigs
answers_again = refl

run-one_digest_example : ◌≡◌ {A = Bytes} (10 ∷ []) (10 ∷ [])
run-one_digest_example =
    run-one_digest libraries verifier calls aggregated
      (run libraries verifier calls kicked_off.1).nonces kicked_off.1 deposit 2 (10 ∷ []) (10 ∷ [])
      has_row
      (record {
        index = 2;
        sighashes = (10 ∷ []) ∷ [];
        pairs = (2 ∷ [], 22 ∷ []) ∷ [];
        answered = answers_first;
        offset = 0;
        at_key = refl;
        at_digest = refl;
      })
      (record {
        index = 2;
        sighashes = (10 ∷ []) ∷ [];
        pairs = (2 ∷ [], 22 ∷ []) ∷ [];
        answered = answers_again;
        offset = 0;
        at_key = refl;
        at_digest = refl;
      })
