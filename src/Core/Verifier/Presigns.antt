-- ===== src/Core/Verifier/Presigns.antt =====
-- The calls of core/src/verifier.rs after a deposit: the presigned transactions of the operators and the
-- move transaction.
use clementine.Prelude.{
  ℕ, suc, ◌+◌, List, [], ◌∷◌, none, Bool, false, ltb, if◌then◌else◌, length, not, ◌==◌, get_elem?,
}
use clementine.Prelude.Bytes.{Bytes, bytes_eq}
use clementine.Circuits.Sha256.{sha256_hash}
use clementine.Core.Types.{OutPoint, Utxo, TxHandler}
use clementine.Core.Result.{
  Result, ok, err, ◌>>=◌, or_panicked, ok_or, invalid_kickoff_utxo, secp256k1_error,
  kickoff_outpoints_not_found, deposit_info_not_found,
}
use clementine.Core.Builder.Script.{to_be_bytes}
use clementine.Core.Builder.Address.{create_kickoff_address}
use clementine.Core.Builder.Transaction.{kickoff_utxo_amount_sats, assert, create_move_tx_handler}
use clementine.Core.Actor.{convert_tx_to_sighash_script_spend}
use clementine.Core.Musig2.{partial_sign}
use clementine.Core.Libraries.{Libraries, slash_or_take_tx}
use clementine.Core.Nonces.{save_agg_nonces, save_sighashes_and_get_nonces}
use clementine.Core.Deposits.{get_deposit_info, get_kickoff_utxos, save_kickoff_utxos}
use clementine.Core.Verifier.{Verifier, Tables, transaction, with_nonces, with_kickoff_utxos}

-- `kickoff_sig_hash`: what an operator signs for its kickoff.
-- The first check of `operator_kickoffs_generated`.
abbrev pub same_length : List Utxo → List Bytes → Result Unit
same_length kickoff_utxos operators_kickoff_sigs =
    if not (length operators_kickoff_sigs == length kickoff_utxos)
    then err invalid_kickoff_utxo
    else ok tt

module _ {Network KeyAggContext : Type 0} (L : Libraries Network KeyAggContext)
    (V : Verifier Network) where
  unfoldable pub kickoff_sig_hash : OutPoint → OutPoint → Bytes
  kickoff_sig_hash deposit_outpoint kickoff_outpoint = sha256_hash L.hasher (
      deposit_outpoint.txid
      ∷ to_be_bytes 4 deposit_outpoint.vout
      ∷ kickoff_outpoint.txid
      ∷ to_be_bytes 4 kickoff_outpoint.vout
      ∷ [])

  -- The checks of one kickoff, and the digest of its slash or take transaction.
  unfoldable pub check_kickoff : OutPoint → List Bytes → ℕ → Utxo → Result Bytes
  check_kickoff deposit_outpoint operators_kickoff_sigs i kickoff_utxo =
      (if ltb kickoff_utxo.txout.value kickoff_utxo_amount_sats
        then err invalid_kickoff_utxo
        else ok tt)
      >>= (λ enough. or_panicked (get_elem? operators_kickoff_sigs i) >>= (λ sig.
          or_panicked (get_elem? V.config.operators_xonly_pks i) >>= (λ operator_xonly_pk.
            (if L.verify_schnorr sig (kickoff_sig_hash deposit_outpoint kickoff_utxo.outpoint)
                operator_xonly_pk
              then ok tt
              else err secp256k1_error)
            >>= (λ verified.
                or_panicked (get_elem? V.operator_xonly_pks i) >>= (λ own_operator_xonly_pk.
                  create_kickoff_address L.scripts L.taproot V.nofn_xonly_pk own_operator_xonly_pk
                    V.config.network
                  >>= (λ musig2_and_operator.
                      assert (bytes_eq kickoff_utxo.txout.script_pubkey musig2_and_operator.0)
                      >>= (λ checked.
                          slash_or_take_tx L V.config V.nofn_xonly_pk deposit_outpoint kickoff_utxo
                            operator_xonly_pk i
                          >>= (λ slash_or_take_tx_handler.
                              convert_tx_to_sighash_script_spend L.sighashes
                                slash_or_take_tx_handler 0 0))))))))

  -- The loop over the kickoffs, from the index on.
  unfoldable pub check_kickoffs : OutPoint → List Bytes → ℕ → List Utxo → Result (List Bytes)
  check_kickoffs deposit_outpoint operators_kickoff_sigs i [] = ok []
  check_kickoffs deposit_outpoint operators_kickoff_sigs i (kickoff_utxo ∷ kickoff_utxos) =
      check_kickoff deposit_outpoint operators_kickoff_sigs i kickoff_utxo >>= (λ sighash.
        check_kickoffs deposit_outpoint operators_kickoff_sigs (suc i) kickoff_utxos
        >>= (λ sighashes. ok (sighash ∷ sighashes)))

  -- Partial signatures of digests with nonces, as far as there are both.
  unfoldable pub partial_signs : Bool → List Bytes → List (Bytes × Bytes) → Result (List Bytes)
  partial_signs tweak_flag [] nonces = ok []
  partial_signs tweak_flag (sighash ∷ sighashes) [] = ok []
  partial_signs tweak_flag (sighash ∷ sighashes) ((sec_nonce, agg_nonce) ∷ nonces) =
      partial_sign L.musig2 V.config.verifiers_public_keys none tweak_flag sec_nonce agg_nonce
        V.signer.keypair sighash
      >>= (λ sig. partial_signs tweak_flag sighashes nonces >>= (λ sigs. ok (sig ∷ sigs)))

  -- The second list, of burn signatures, is empty.
  unfoldable pub operator_kickoffs_generated :
      OutPoint
      → List Utxo
      → List Bytes
      → List Bytes
      → Tables
      → Result (List Bytes × List Bytes) × Tables
  operator_kickoffs_generated deposit_outpoint kickoff_utxos operators_kickoff_sigs agg_nonces db =
      transaction db (
        same_length kickoff_utxos operators_kickoff_sigs >>= (λ checked.
          check_kickoffs deposit_outpoint operators_kickoff_sigs 0 kickoff_utxos
          >>= (λ slash_or_take_sighashes.
              save_agg_nonces deposit_outpoint agg_nonces db.nonces >>= (λ with_agg_nonces.
                save_kickoff_utxos deposit_outpoint kickoff_utxos db.deposit_kickoff_utxos
                >>= (λ kickoffs.
                    save_sighashes_and_get_nonces deposit_outpoint (V.config.num_operators + 1)
                      slash_or_take_sighashes with_agg_nonces
                    >>= (λ signing.
                        partial_signs false slash_or_take_sighashes signing.0
                        >>= (λ slash_or_take_partial_sigs. ok (
                          (slash_or_take_partial_sigs, []),
                          with_nonces (with_kickoff_utxos db kickoffs) signing.1,
                        ))))))))

  -- The kickoffs of a deposit, its move transaction and the output that this makes.
  unfoldable pub create_deposit_details :
      OutPoint → Tables → Result ((List Utxo × TxHandler) × OutPoint)
  create_deposit_details deposit_outpoint db =
      ok_or kickoff_outpoints_not_found
        (get_kickoff_utxos deposit_outpoint db.deposit_kickoff_utxos)
      >>= (λ kickoff_utxos. get_deposit_info deposit_outpoint db.deposit_infos >>= (λ found.
          ok_or deposit_info_not_found found >>= (λ info.
            create_move_tx_handler L.scripts L.taproot deposit_outpoint info.1 info.0
              V.nofn_xonly_pk V.config.network V.config.user_takes_after V.config.bridge_amount_sats
            >>= (λ move_tx_handler. ok (
              (kickoff_utxos, move_tx_handler),
              record { txid = L.compute_txid move_tx_handler.tx; vout = 0 },
            )))))
