-- ===== src/Core/Verifier/Takes.antt =====
-- The last two calls of core/src/verifier.rs for a deposit: what the operators take with, and the move
-- transaction.
use clementine.Prelude.{
  ℕ, suc, List, [], ◌∷◌, none, some, true, false, ltb, if◌then◌else◌, length, get_elem?, take, drop,
}
use clementine.Prelude.Bytes.{Bytes}
use clementine.Core.Types.{OutPoint, Utxo, TxHandler}
use clementine.Core.Result.{
  Result, ok, err, panicked, ◌>>=◌, or_panicked, ok_or, unwrap, secp256k1_error,
}
use clementine.Core.Builder.Transaction.{assert}
use clementine.Core.Actor.{convert_tx_to_sighash_script_spend, convert_tx_to_sighash_pubkey_spend}
use clementine.Core.Musig2.{partial_sign}
use clementine.Core.Libraries.{Libraries, slash_or_take_tx, operator_takes_tx}
use clementine.Core.Nonces.{Nonces, update_sighashes, save_sighashes_and_get_nonces}
use clementine.Core.Deposits.{KickoffUtxos, save_slash_or_take_sigs, save_operator_take_sigs}
use clementine.Core.Verifier.{Verifier, Tables, with_nonces, with_kickoff_utxos}
use clementine.Core.Verifier.Presigns.{create_deposit_details, partial_signs}

-- What one query after the other does, each committed for itself.
infixl 4 ◌>>>◌
unfoldable pub ◌>>>◌ :
    {A B : Type 0} → Result A × Tables → (A → Tables → Result B × Tables) → Result B × Tables
r >>> f = elim r.0 [ ok a ↦ f a r.1 | err e ↦ (err e, r.1) | panicked ↦ (panicked, r.1) ]

-- A result that comes without a query, for the tables.
abbrev pub pure : {A : Type 0} → Result A → Tables → Result A × Tables
pure r db = (r, db)

-- The table of nonces after `save_sighashes_and_get_nonces` outside a transaction: the update stays also
-- where the nonces cannot be decoded.
abbrev pub after_sighashes : OutPoint → ℕ → List Bytes → Nonces → Nonces
after_sighashes deposit_outpoint index [] table = table
after_sighashes deposit_outpoint index (h ∷ hs) table =
    elim (update_sighashes deposit_outpoint index (h ∷ hs) table) [
      | none ↦ table
      | some table' ↦ table'
    ]

abbrev pub pairs_of : Result (List (Bytes × Bytes) × Nonces) → Result (List (Bytes × Bytes))
pairs_of (ok (pairs, table)) = ok pairs
pairs_of (err e) = err e
pairs_of panicked = panicked

-- The digests of `burn_txs_signed`.
module _ {Network KeyAggContext : Type 0} (L : Libraries Network KeyAggContext)
    (V : Verifier Network) where
  -- The digest of an operator's take transaction, once the signature of its slash or take transaction is
  -- verified.
  unfoldable pub operator_takes_sighash : OutPoint → OutPoint → List Bytes → ℕ → Utxo → Result Bytes
  operator_takes_sighash deposit_outpoint bridge_fund_outpoint slash_or_take_sigs index
        kickoff_utxo =
      or_panicked (get_elem? V.operator_xonly_pks index) >>= (λ operator_xonly_pk.
        slash_or_take_tx L V.config V.nofn_xonly_pk deposit_outpoint kickoff_utxo operator_xonly_pk
          index
        >>= (λ slash_or_take_tx_handler.
            unwrap (convert_tx_to_sighash_script_spend L.sighashes slash_or_take_tx_handler 0 0)
            >>= (λ slash_or_take_sighash.
                or_panicked (get_elem? slash_or_take_sigs index) >>= (λ sig.
                  assert (L.verify_schnorr sig slash_or_take_sighash V.nofn_xonly_pk)
                  >>= (λ verified.
                      operator_takes_tx L V.config V.nofn_xonly_pk bridge_fund_outpoint
                        slash_or_take_tx_handler operator_xonly_pk index
                      >>= (λ takes.
                          unwrap (convert_tx_to_sighash_pubkey_spend L.sighashes takes 0)))))))

  unfoldable pub operator_takes_sighashes :
      OutPoint → OutPoint → List Bytes → ℕ → List Utxo → Result (List Bytes)
  operator_takes_sighashes deposit_outpoint bridge_fund_outpoint slash_or_take_sigs index [] = ok []
  operator_takes_sighashes deposit_outpoint bridge_fund_outpoint slash_or_take_sigs index
        (kickoff_utxo ∷ kickoff_utxos) =
      operator_takes_sighash deposit_outpoint bridge_fund_outpoint slash_or_take_sigs index
        kickoff_utxo
      >>= (λ sighash.
          operator_takes_sighashes deposit_outpoint bridge_fund_outpoint slash_or_take_sigs
            (suc index) kickoff_utxos
          >>= (λ sighashes. ok (sighash ∷ sighashes)))

  -- `save_sighashes_and_get_nonces` outside a transaction.
  abbrev pub sighashes_query :
      OutPoint → ℕ → List Bytes → Tables → Result (List (Bytes × Bytes)) × Tables
  sighashes_query deposit_outpoint index sighashes db = (
    pairs_of (save_sighashes_and_get_nonces deposit_outpoint index sighashes db.nonces),
    with_nonces db (after_sighashes deposit_outpoint index sighashes db.nonces),
  )

  -- An update of the kickoffs outside a transaction.
  abbrev pub kickoffs_query : Result KickoffUtxos → Tables → Result Unit × Tables
  kickoffs_query (ok kickoffs) db = (ok tt, with_kickoff_utxos db kickoffs)
  kickoffs_query (err e) db = (err e, db)
  kickoffs_query panicked db = (panicked, db)

  -- The burn signatures are not looked at.
  unfoldable pub burn_txs_signed :
      OutPoint → List Bytes → List Bytes → Tables → Result (List Bytes) × Tables
  burn_txs_signed deposit_outpoint burn_sigs slash_or_take_sigs db =
      pure
        (create_deposit_details L V deposit_outpoint db >>= (λ details.
          operator_takes_sighashes deposit_outpoint details.1 slash_or_take_sigs 0 details.0.0))
        db
      >>> (λ sighashes db₁.
          kickoffs_query
            (save_slash_or_take_sigs deposit_outpoint slash_or_take_sigs db₁.deposit_kickoff_utxos)
            db₁
          >>> (λ saved db₂. sighashes_query deposit_outpoint 1 sighashes db₂)
          >>> (λ nonces. pure (partial_signs L V true sighashes nonces)))

  -- The check of the signature of an operator's take transaction.
  unfoldable pub check_operator_take :
      OutPoint → OutPoint → Bytes → List Bytes → ℕ → Utxo → Result Unit
  check_operator_take deposit_outpoint bridge_fund_outpoint nofn_taproot_xonly_pk operator_take_sigs
        index kickoff_utxo =
      or_panicked (get_elem? V.operator_xonly_pks index) >>= (λ operator_xonly_pk.
        slash_or_take_tx L V.config V.nofn_xonly_pk deposit_outpoint kickoff_utxo operator_xonly_pk
          index
        >>= (λ slash_or_take_tx_handler.
            operator_takes_tx L V.config V.nofn_xonly_pk bridge_fund_outpoint
              slash_or_take_tx_handler operator_xonly_pk index
            >>= (λ takes.
                unwrap (convert_tx_to_sighash_pubkey_spend L.sighashes takes 0) >>= (λ sig_hash.
                  or_panicked (get_elem? operator_take_sigs index)
                  >>= (λ sig. assert (L.verify_schnorr sig sig_hash nofn_taproot_xonly_pk))))))

  unfoldable pub check_operator_takes :
      OutPoint → OutPoint → Bytes → List Bytes → ℕ → List Utxo → Result Unit
  check_operator_takes deposit_outpoint bridge_fund_outpoint nofn_taproot_xonly_pk
        operator_take_sigs index [] =
      ok tt
  check_operator_takes deposit_outpoint bridge_fund_outpoint nofn_taproot_xonly_pk
        operator_take_sigs index (kickoff_utxo ∷ kickoff_utxos) =
      check_operator_take deposit_outpoint bridge_fund_outpoint nofn_taproot_xonly_pk
        operator_take_sigs index kickoff_utxo
      >>= (λ checked.
          check_operator_takes deposit_outpoint bridge_fund_outpoint nofn_taproot_xonly_pk
            operator_take_sigs (suc index) kickoff_utxos)

  -- The kickoffs with their signatures. An index without a signature panics.
  abbrev pub zip_sigs : List Utxo → List Bytes → Result (List (Utxo × Bytes))
  zip_sigs [] sigs = ok []
  zip_sigs (utxo ∷ utxos) [] = panicked
  zip_sigs (utxo ∷ utxos) (sig ∷ sigs) = zip_sigs utxos sigs >>= (λ pairs. ok ((utxo, sig) ∷ pairs))

  -- The key of the address without scripts: bytes 2 to 34 of its script.
  unfoldable pub nofn_taproot_key : Result Bytes
  nofn_taproot_key =
      let script = L.taproot.p2tr V.nofn_xonly_pk none V.config.network in
      or_panicked (if ltb (length script) 34 then none else some (take 32 (drop 2 script)))
      >>= (λ slice. ok_or secp256k1_error (L.taproot.xonly_from_slice slice))

  -- What comes before the first query that writes: the details, with all signatures checked.
  unfoldable pub checked_takes : OutPoint → List Bytes → Tables → Result (List Utxo × TxHandler)
  checked_takes deposit_outpoint operator_take_sigs db =
      create_deposit_details L V deposit_outpoint db >>= (λ details.
        nofn_taproot_key >>= (λ nofn_taproot_xonly_pk.
          check_operator_takes deposit_outpoint details.1 nofn_taproot_xonly_pk operator_take_sigs 0
            details.0.0
          >>= (λ checked. ok details.0)))

  unfoldable pub operator_take_txs_signed : OutPoint → List Bytes → Tables → Result Bytes × Tables
  operator_take_txs_signed deposit_outpoint operator_take_sigs db =
      pure (checked_takes deposit_outpoint operator_take_sigs db) db >>> (λ details db₁.
        kickoffs_query
          (zip_sigs details.0 operator_take_sigs
            >>= (λ pairs. save_operator_take_sigs deposit_outpoint pairs db₁.deposit_kickoff_utxos))
          db₁
        >>> (λ saved. pure (convert_tx_to_sighash_script_spend L.sighashes details.1 0 0))
        >>> (λ sighash db₂. sighashes_query deposit_outpoint 0 (sighash ∷ []) db₂ >>> (λ nonces.
            pure (
              or_panicked (get_elem? nonces 0) >>= (λ nonce.
                partial_sign L.musig2 V.config.verifiers_public_keys none false nonce.0 nonce.1
                  V.signer.keypair sighash)))))
