-- ===== src/Core/AggregatorTests.antt =====
-- Signatures of the aggregator at the verifier, with stand-ins for the libraries and the node.
use clementine.Prelude.{some, ◌≡◌, refl, List, [], ◌∷◌, ◌≤◌, length, arith}
use clementine.Prelude.Bytes.{bytes_eq}
use clementine.Core.Types.{OutPoint, Utxo, TxHandler}
use clementine.Core.Result.{Result, ok, err, panicked}
use clementine.Core.Utils.{ilog2, usize_to_var_len_bytes}
use clementine.Core.Builder.Script.{
  anyone_can_spend_txout, op_return_txout, create_deposit_script,
  create_musig2_and_operator_multisig_script, generate_relative_timelock_script,
}
use clementine.Core.Builder.Address.{
  leaves_from, taproot_leaves, create_taproot_address, generate_deposit_address,
  create_musig2_address, create_kickoff_address,
}
use clementine.Core.Builder.Transaction.{
  create_btc_tx, create_tx_ins, create_tx_ins_with_sequence, create_move_tx, create_move_tx_handler,
  create_slash_or_take_tx, create_operator_takes_tx,
}
use clementine.Core.Actor.{convert_tx_to_sighash_script_spend, convert_tx_to_sighash_pubkey_spend}
use clementine.Core.Musig2.{
  tweaked, create_key_agg_ctx, from_musig2_pks, nonce_pair, partial_sign,
  aggregate_partial_signatures,
}
use clementine.Core.ExtendedRpc.{
  confirmation_blocks, check_utxo_address_and_amount, is_utxo_spent, check_deposit_utxo,
}
use clementine.Core.Nonces.{
  get_pub_nonces, save_nonces, save_agg_nonces, prevent_sighash_update, update_sighashes,
  save_sighashes_and_get_nonces,
}
use clementine.Core.Deposits.{
  get_deposit_info, save_deposit_info, get_kickoff_utxos, save_kickoff_utxos,
  save_slash_or_take_sigs,
}
use clementine.Core.Verifier.{
  Verifier, Tables, transaction, fresh_nonces, num_required_nonces, create_nonces, answer_nonces,
  new_deposit,
}
use clementine.Core.Verifier
use clementine.Core.Verifier.Presigns.{
  kickoff_sig_hash, check_kickoff, check_kickoffs, partial_signs, operator_kickoffs_generated,
  create_deposit_details,
}
use clementine.Core.Verifier.Takes.{
  ◌>>>◌, operator_takes_sighash, operator_takes_sighashes, burn_txs_signed, nofn_taproot_key,
  checked_takes,
}
use clementine.Core.Aggregator
use clementine.Core.Aggregator.{
  Aggregator, aggregate_operator_takes_partial_sigs, operator_take_sig,
  aggregate_operator_take_sigs,
}
use clementine.Core.Aggregator.SlashOrTake.{
  unchecked_takes_sighash, aggregate_slash_or_take_sigs-accepted,
}
use clementine.Core.Aggregator.{
  slash_or_take_sig, aggregate_slash_or_take_partial_sigs, aggregate_slash_or_take_sigs,
}
use clementine.Core.Standins.{kickoff}
use clementine.Core.Verifier.Presigns.{
  operator_kickoffs_generated, check_kickoffs, check_kickoff, kickoff_sig_hash,
}
use clementine.Prelude.Bytes.{Bytes}
use clementine.Core.Musig2.{aggregate_nonces}
use clementine.Core.Aggregator.{column, aggregate_pub_nonces}
use clementine.Core.Aggregator.Columns.{aggregate_pub_nonces-get}
use clementine.Prelude.{get_elem?}
use clementine.Core.Aggregator.Accepted.{aggregate_operator_take_sigs-accepted}
use clementine.Core.Standins.{
  libraries, laws, deposit_tx, node, config, verifier, aggregator, deposit, burned,
}

-- The details of the deposit.
abbrev details_of : Result ((List Utxo × TxHandler) × OutPoint) → (List Utxo × TxHandler) × OutPoint
details_of (ok details) = details
details_of (err e) = (
  ([], record { tx = deposit_tx; prevouts = []; scripts = []; taproot_spend_infos = [] }),
  deposit,
)
details_of panicked = (
  ([], record { tx = deposit_tx; prevouts = []; scripts = []; taproot_spend_infos = [] }),
  deposit,
)

abbrev details : (List Utxo × TxHandler) × OutPoint
details = details_of (create_deposit_details libraries verifier deposit burned.1)

details_are_stored : create_deposit_details libraries verifier deposit burned.1 ≡ ok details
unfolding new_deposit transaction check_deposit_utxo confirmation_blocks
    check_utxo_address_and_amount is_utxo_spent generate_deposit_address create_deposit_script
    generate_relative_timelock_script create_taproot_address taproot_leaves leaves_from ilog2
    bytes_eq get_pub_nonces answer_nonces create_nonces fresh_nonces num_required_nonces nonce_pair
    save_nonces save_deposit_info operator_kickoffs_generated check_kickoffs check_kickoff
    kickoff_sig_hash create_kickoff_address create_musig2_and_operator_multisig_script
    create_slash_or_take_tx create_move_tx create_musig2_address create_btc_tx create_tx_ins
    anyone_can_spend_txout op_return_txout usize_to_var_len_bytes convert_tx_to_sighash_script_spend
    save_agg_nonces save_kickoff_utxos save_sighashes_and_get_nonces update_sighashes
    prevent_sighash_update partial_signs partial_sign create_key_agg_ctx tweaked burn_txs_signed
    ◌>>>◌ create_deposit_details get_kickoff_utxos get_deposit_info create_move_tx_handler
    operator_takes_sighashes operator_takes_sighash create_operator_takes_tx
    create_tx_ins_with_sequence convert_tx_to_sighash_pubkey_spend save_slash_or_take_sigs
details_are_stored = refl

verifier_is_new : Verifier.new libraries node verifier.signer config ≡ ok verifier
unfolding Verifier.new from_musig2_pks create_key_agg_ctx tweaked bytes_eq
verifier_is_new = refl

aggregator_is_new : Aggregator.new libraries config ≡ ok aggregator
unfolding Aggregator.new from_musig2_pks create_key_agg_ctx tweaked
aggregator_is_new = refl

key_is_valid : nofn_taproot_key libraries verifier ≡ ok (1 ∷ [])
unfolding nofn_taproot_key
key_is_valid = refl

one_kickoff : length details.0.0 ≤ 1
unfolding new_deposit transaction check_deposit_utxo confirmation_blocks
    check_utxo_address_and_amount is_utxo_spent generate_deposit_address create_deposit_script
    generate_relative_timelock_script create_taproot_address taproot_leaves leaves_from ilog2
    bytes_eq get_pub_nonces answer_nonces create_nonces fresh_nonces num_required_nonces nonce_pair
    save_nonces save_deposit_info operator_kickoffs_generated check_kickoffs check_kickoff
    kickoff_sig_hash create_kickoff_address create_musig2_and_operator_multisig_script
    create_slash_or_take_tx create_move_tx create_musig2_address create_btc_tx create_tx_ins
    anyone_can_spend_txout op_return_txout usize_to_var_len_bytes convert_tx_to_sighash_script_spend
    save_agg_nonces save_kickoff_utxos save_sighashes_and_get_nonces update_sighashes
    prevent_sighash_update partial_signs partial_sign create_key_agg_ctx tweaked burn_txs_signed
    ◌>>>◌ create_deposit_details get_kickoff_utxos get_deposit_info create_move_tx_handler
    operator_takes_sighashes operator_takes_sighash create_operator_takes_tx
    create_tx_ins_with_sequence convert_tx_to_sighash_pubkey_spend save_slash_or_take_sigs
one_kickoff = omega arith

takes_are_aggregated :
    aggregate_operator_take_sigs libraries aggregator deposit details.0.0
      ((21 ∷ []) ∷ [])
      (((4 ∷ 1 ∷ 9 ∷ []) ∷ []) ∷ [])
    ≡ ok ((1 ∷ 9 ∷ []) ∷ [])
unfolding aggregate_operator_take_sigs operator_take_sig aggregate_operator_takes_partial_sigs
    aggregate_partial_signatures new_deposit transaction check_deposit_utxo confirmation_blocks
    check_utxo_address_and_amount is_utxo_spent generate_deposit_address create_deposit_script
    generate_relative_timelock_script create_taproot_address taproot_leaves leaves_from ilog2
    bytes_eq get_pub_nonces answer_nonces create_nonces fresh_nonces num_required_nonces nonce_pair
    save_nonces save_deposit_info operator_kickoffs_generated check_kickoffs check_kickoff
    kickoff_sig_hash create_kickoff_address create_musig2_and_operator_multisig_script
    create_slash_or_take_tx create_move_tx create_musig2_address create_btc_tx create_tx_ins
    anyone_can_spend_txout op_return_txout usize_to_var_len_bytes convert_tx_to_sighash_script_spend
    save_agg_nonces save_kickoff_utxos save_sighashes_and_get_nonces update_sighashes
    prevent_sighash_update partial_signs partial_sign create_key_agg_ctx tweaked burn_txs_signed
    ◌>>>◌ create_deposit_details get_kickoff_utxos get_deposit_info create_move_tx_handler
    operator_takes_sighashes operator_takes_sighash create_operator_takes_tx
    create_tx_ins_with_sequence convert_tx_to_sighash_pubkey_spend save_slash_or_take_sigs
takes_are_aggregated = refl

aggregate_operator_take_sigs-accepted_example :
    checked_takes libraries verifier deposit ((1 ∷ 9 ∷ []) ∷ []) burned.1 ≡ ok details.0
aggregate_operator_take_sigs-accepted_example =
    aggregate_operator_take_sigs-accepted libraries laws node verifier.signer config verifier
      aggregator deposit burned.1 details ((21 ∷ []) ∷ []) ((4 ∷ 1 ∷ 9 ∷ []) ∷ []) []
      ((1 ∷ 9 ∷ []) ∷ []) (1 ∷ []) verifier_is_new aggregator_is_new key_is_valid details_are_stored
      one_kickoff takes_are_aggregated

slash_or_takes_are_aggregated :
    aggregate_slash_or_take_sigs libraries aggregator deposit
      (kickoff ∷ [])
      ((22 ∷ []) ∷ [])
      (((4 ∷ 2 ∷ 10 ∷ []) ∷ []) ∷ [])
    ≡ ok ((0 ∷ 10 ∷ []) ∷ [])
unfolding aggregate_slash_or_take_sigs slash_or_take_sig aggregate_slash_or_take_partial_sigs
    aggregate_partial_signatures new_deposit transaction check_deposit_utxo confirmation_blocks
    check_utxo_address_and_amount is_utxo_spent generate_deposit_address create_deposit_script
    generate_relative_timelock_script create_taproot_address taproot_leaves leaves_from ilog2
    bytes_eq get_pub_nonces answer_nonces create_nonces fresh_nonces num_required_nonces nonce_pair
    save_nonces save_deposit_info operator_kickoffs_generated check_kickoffs check_kickoff
    kickoff_sig_hash create_kickoff_address create_musig2_and_operator_multisig_script
    create_slash_or_take_tx create_move_tx create_musig2_address create_btc_tx create_tx_ins
    anyone_can_spend_txout op_return_txout usize_to_var_len_bytes convert_tx_to_sighash_script_spend
    save_agg_nonces save_kickoff_utxos save_sighashes_and_get_nonces update_sighashes
    prevent_sighash_update partial_signs partial_sign create_key_agg_ctx tweaked
slash_or_takes_are_aggregated = refl

aggregate_slash_or_take_sigs-accepted_example :
    operator_takes_sighash libraries verifier deposit details.1 ((0 ∷ 10 ∷ []) ∷ []) 0 kickoff
    ≡ unchecked_takes_sighash libraries laws verifier deposit details.1 0 kickoff
aggregate_slash_or_take_sigs-accepted_example =
    aggregate_slash_or_take_sigs-accepted libraries laws node verifier.signer config verifier
      aggregator deposit details.1 (kickoff ∷ []) ((22 ∷ []) ∷ []) ((4 ∷ 2 ∷ 10 ∷ []) ∷ []) []
      ((0 ∷ 10 ∷ []) ∷ []) 0 kickoff verifier_is_new aggregator_is_new (omega arith)
      slash_or_takes_are_aggregated refl

abbrev firsts : List Bytes
firsts = (6 ∷ 0 ∷ []) ∷ (6 ∷ 1 ∷ []) ∷ []

abbrev seconds : List Bytes
seconds = (6 ∷ 7 ∷ []) ∷ (6 ∷ 8 ∷ []) ∷ []

abbrev aggs : List Bytes
aggs = (2 ∷ []) ∷ (2 ∷ []) ∷ []

nonces_are_aggregated : aggregate_pub_nonces libraries (firsts ∷ seconds ∷ []) ≡ ok aggs
unfolding aggregate_pub_nonces aggregate_nonces
nonces_are_aggregated = refl

aggregate_pub_nonces-get_example :
    (length aggs ≡ length firsts)
    × (nonces : List Bytes) × (column (firsts ∷ seconds ∷ []) 1 ≡ some nonces)
    × (agg : Bytes) × (aggregate_nonces libraries.musig2 nonces ≡ ok agg)
    × (get_elem? aggs 1 ≡ some agg)
aggregate_pub_nonces-get_example =
    aggregate_pub_nonces-get libraries firsts (seconds ∷ []) aggs 1 nonces_are_aggregated
      (omega arith)
