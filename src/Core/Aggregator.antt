-- ===== src/Core/Aggregator.antt =====
-- The aggregator of core/src/aggregator.rs.
pub mod Columns
pub mod Takes
pub mod Accepted
pub mod SlashOrTake
use clementine.Prelude.{
  ℕ, zero, suc, List, [], ◌∷◌, Option, none, some, true, false, length, get_elem?,
}
use clementine.Prelude.Bytes.{Bytes}
use clementine.Core.Types.{OutPoint, Utxo, TxHandler}
use clementine.Core.Result.{
  Result, ok, ◌>>=◌, or_panicked, ok_or, nonces_not_found, secp256k1_error,
}
use clementine.Core.Config.{BridgeConfig}
use clementine.Core.Builder.Transaction.{create_move_tx, create_move_tx_handler}
use clementine.Core.Witness.{handle_taproot_witness_new}
use clementine.Core.Actor.{convert_tx_to_sighash_script_spend, convert_tx_to_sighash_pubkey_spend}
use clementine.Core.Musig2.{
  traverse, from_musig2_pks, aggregate_nonces, aggregate_partial_signatures,
}
use clementine.Core.Libraries.{Libraries, slash_or_take_tx, operator_takes_tx}

pub record Aggregator (Network : Type 0) : Type 0 where
  pub config : BridgeConfig Network
  pub nofn_xonly_pk : Bytes

-- The elements at an index of the lists, when all of them have it: `v.get(i)`.
abbrev pub column : List (List Bytes) → ℕ → Option (List Bytes)
column lists i = traverse (λ (v : List Bytes). get_elem? v i) lists

-- A loop over the indices from `i` on, `n` of them.
abbrev pub each_from : (ℕ → Result Bytes) → ℕ → ℕ → Result (List Bytes)
each_from f i zero = ok []
each_from f i (suc n) = f i >>= (λ a. each_from f (suc i) n >>= (λ rest. ok (a ∷ rest)))

module _ {Network KeyAggContext : Type 0} (L : Libraries Network KeyAggContext) where
  -- `Aggregator::new`
  unfoldable pub new : BridgeConfig Network → Result (Aggregator Network)
  new config =
      from_musig2_pks L.musig2 config.verifiers_public_keys none false
      >>= (λ nofn_xonly_pk. ok (record { config = config; nofn_xonly_pk = nofn_xonly_pk }))

  unfoldable pub aggregate_pub_nonces : List (List Bytes) → Result (List Bytes)
  aggregate_pub_nonces pub_nonces = or_panicked (get_elem? pub_nonces 0) >>= (λ first.
      each_from
        (λ i.
          ok_or nonces_not_found (column pub_nonces i)
          >>= (λ nonces. aggregate_nonces L.musig2 nonces))
        0 (length first))

  module _ (A : Aggregator Network) where
    unfoldable pub aggregate_slash_or_take_partial_sigs :
        OutPoint → Utxo → Bytes → ℕ → Bytes → List Bytes → Result Bytes
    aggregate_slash_or_take_partial_sigs deposit_outpoint kickoff_utxo operator_xonly_pk
          operator_idx agg_nonce partial_sigs =
        slash_or_take_tx L A.config A.nofn_xonly_pk deposit_outpoint kickoff_utxo operator_xonly_pk
          operator_idx
        >>= (λ tx. convert_tx_to_sighash_script_spend L.sighashes tx 0 0 >>= (λ message.
            aggregate_partial_signatures L.musig2 A.config.verifiers_public_keys none false
              agg_nonce partial_sigs message))

    unfoldable pub aggregate_operator_takes_partial_sigs :
        OutPoint → Utxo → Bytes → ℕ → Bytes → List Bytes → Result Bytes
    aggregate_operator_takes_partial_sigs deposit_outpoint kickoff_utxo operator_xonly_pk
          operator_idx agg_nonce partial_sigs =
        create_move_tx L.scripts L.taproot deposit_outpoint A.nofn_xonly_pk
          A.config.bridge_amount_sats A.config.network
        >>= (λ move_tx.
            slash_or_take_tx L A.config A.nofn_xonly_pk deposit_outpoint kickoff_utxo
              operator_xonly_pk operator_idx
            >>= (λ slash_or_take_tx_handler.
                operator_takes_tx L A.config A.nofn_xonly_pk
                  (record { txid = L.compute_txid move_tx; vout = 0 }) slash_or_take_tx_handler
                  operator_xonly_pk operator_idx
                >>= (λ tx_handler.
                    convert_tx_to_sighash_pubkey_spend L.sighashes tx_handler 0 >>= (λ message.
                      aggregate_partial_signatures L.musig2 A.config.verifiers_public_keys none true
                        agg_nonce partial_sigs message))))

    unfoldable pub move_tx_handler : OutPoint → Bytes → Bytes → Result TxHandler
    move_tx_handler deposit_outpoint evm_address recovery_taproot_address =
        create_move_tx_handler L.scripts L.taproot deposit_outpoint evm_address
          recovery_taproot_address A.nofn_xonly_pk A.config.network A.config.user_takes_after
          A.config.bridge_amount_sats

    unfoldable pub aggregate_move_partial_sigs :
        OutPoint → Bytes → Bytes → Bytes → List Bytes → Result Bytes
    aggregate_move_partial_sigs deposit_outpoint evm_address recovery_taproot_address agg_nonce
          partial_sigs =
        move_tx_handler deposit_outpoint evm_address recovery_taproot_address >>= (λ tx.
          convert_tx_to_sighash_script_spend L.sighashes tx 0 0 >>= (λ message.
            aggregate_partial_signatures L.musig2 A.config.verifiers_public_keys none false
              agg_nonce partial_sigs message))

    abbrev pub signature : Bytes → Result Bytes
    signature agg_sig = ok_or secp256k1_error (L.signature_from_slice agg_sig)

    -- The signature of the slash or take transaction of one operator.
    unfoldable pub slash_or_take_sig :
        OutPoint → List Utxo → List Bytes → List (List Bytes) → ℕ → Result Bytes
    slash_or_take_sig deposit_outpoint kickoff_utxos agg_nonces partial_sigs i =
        ok_or nonces_not_found (column partial_sigs i) >>= (λ sigs.
          or_panicked (get_elem? kickoff_utxos i) >>= (λ kickoff_utxo.
            or_panicked (get_elem? A.config.operators_xonly_pks i) >>= (λ operator_xonly_pk.
              or_panicked (get_elem? agg_nonces i) >>= (λ agg_nonce.
                aggregate_slash_or_take_partial_sigs deposit_outpoint kickoff_utxo operator_xonly_pk
                  i agg_nonce sigs
                >>= (λ agg_sig. signature agg_sig)))))

    unfoldable pub aggregate_slash_or_take_sigs :
        OutPoint → List Utxo → List Bytes → List (List Bytes) → Result (List Bytes)
    aggregate_slash_or_take_sigs deposit_outpoint kickoff_utxos agg_nonces partial_sigs =
        or_panicked (get_elem? partial_sigs 0) >>= (λ first.
          each_from (slash_or_take_sig deposit_outpoint kickoff_utxos agg_nonces partial_sigs) 0
            (length first))

    -- The signature of the take transaction of one operator; a missing partial signature panics.
    unfoldable pub operator_take_sig :
        OutPoint → List Utxo → List Bytes → List (List Bytes) → ℕ → Result Bytes
    operator_take_sig deposit_outpoint kickoff_utxos agg_nonces partial_sigs i =
        or_panicked (get_elem? kickoff_utxos i) >>= (λ kickoff_utxo.
          or_panicked (get_elem? A.config.operators_xonly_pks i) >>= (λ operator_xonly_pk.
            or_panicked (get_elem? agg_nonces i) >>= (λ agg_nonce.
              or_panicked (column partial_sigs i) >>= (λ sigs.
                aggregate_operator_takes_partial_sigs deposit_outpoint kickoff_utxo
                  operator_xonly_pk i agg_nonce sigs
                >>= (λ agg_sig. signature agg_sig)))))

    unfoldable pub aggregate_operator_take_sigs :
        OutPoint → List Utxo → List Bytes → List (List Bytes) → Result (List Bytes)
    aggregate_operator_take_sigs deposit_outpoint kickoff_utxos agg_nonces partial_sigs =
        or_panicked (get_elem? partial_sigs 0) >>= (λ first.
          each_from (operator_take_sig deposit_outpoint kickoff_utxos agg_nonces partial_sigs) 0
            (length first))

    -- The signed move transaction, in hexadecimal, and its txid.
    unfoldable pub aggregate_move_tx_sigs :
        OutPoint → Bytes → Bytes → Bytes → List Bytes → Result (Bytes × Bytes)
    aggregate_move_tx_sigs deposit_outpoint recovery_taproot_address evm_address agg_nonce
          partial_sigs =
        aggregate_move_partial_sigs deposit_outpoint evm_address recovery_taproot_address agg_nonce
          partial_sigs
        >>= (λ final_sig. signature final_sig >>= (λ move_tx_sig.
            move_tx_handler deposit_outpoint evm_address recovery_taproot_address >>= (λ handler.
              handle_taproot_witness_new L.control_block handler (move_tx_sig ∷ []) 0 (some 0)
              >>= (λ signed. ok (L.raw_hex signed.tx, L.compute_txid signed.tx)))))
