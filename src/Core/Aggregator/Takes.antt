-- ===== src/Core/Aggregator/Takes.antt =====
-- Aggregated signatures of core/src/aggregator.rs at the checks of core/src/verifier.rs.
use clementine.Prelude.{
  ℕ, ◌≡◌, sym, ap, ◌∙◌, List, none, some, Bool, true, false, get_elem?, take, drop, if◌then◌else◌,
}
use clementine.Prelude.Bytes.{Bytes}
use clementine.Core.Types.{OutPoint, Utxo, TxHandler}
use clementine.Core.Result.{
  ok_or-eq_ok, or_panicked-eq_ok, Result, ok, ◌>>=◌, or_panicked, ok_or, unwrap, >>=-eq_ok,
  >>=-of_ok, ok_injective, key_agg_context_error, secp256k1_error,
}
use clementine.Core.Config.{BridgeConfig}
use clementine.Core.Builder.Transaction.{assert, create_move_tx}
use clementine.Core.Actor.{Actor, convert_tx_to_sighash_pubkey_spend}
use clementine.Core.ExtendedRpc.{Node}
use clementine.Core.Musig2.{
  tweaked, create_key_agg_ctx, from_musig2_pks, aggregate_partial_signatures, traverse,
}
use clementine.Core.Libraries.{Libraries, Laws, slash_or_take_tx, operator_takes_tx}
use clementine.Core.Verifier.{Verifier}
use clementine.Core.Verifier.Takes.{check_operator_take, nofn_taproot_key}
use clementine.Core.Aggregator.{
  Aggregator, column, operator_take_sig, aggregate_operator_takes_partial_sigs,
}
use clementine.Core.Aggregator.Columns.{some_injective}

module _ {Network KeyAggContext : Type 0} (L : Libraries Network KeyAggContext)
    (laws : Laws L) where
  -- A context without a tweak, and with the tweak of an address without a tree.
  create_key_agg_ctx-eq_ok :
      (pks : List Bytes) (ctx : KeyAggContext)
      → create_key_agg_ctx L.musig2 pks none true ≡ ok ctx
      → (raw : KeyAggContext) × (L.musig2.new_key_agg_context pks ≡ some raw)
        × (L.musig2.with_unspendable_taproot_tweak raw ≡ some ctx)
  unfolding create_key_agg_ctx tweaked
  create_key_agg_ctx-eq_ok pks ctx e =
      let (raw, at, e₁) =
        >>=-eq_ok (ok_or key_agg_context_error (L.musig2.new_key_agg_context pks)) _ e in
      (raw, ok_or-eq_ok _ _ at, ok_or-eq_ok _ _ e₁)

  -- What is aggregated verifies under the key of the context that it is aggregated with.
  pub aggregated-verifies :
      (pks : List Bytes) (flag : Bool) (agg_nonce : Bytes) (sigs : List Bytes)
      (message agg_sig sig : Bytes)
      → aggregate_partial_signatures L.musig2 pks none flag agg_nonce sigs message ≡ ok agg_sig
      → L.signature_from_slice agg_sig ≡ some sig
      → (ctx : KeyAggContext) × (create_key_agg_ctx L.musig2 pks none flag ≡ ok ctx)
        × (L.verify_schnorr sig message (L.musig2.aggregated_pubkey ctx) ≡ true)
  unfolding aggregate_partial_signatures
  aggregated-verifies pks flag agg_nonce sigs message agg_sig sig e s =
      let (ctx, at, e₁) = >>=-eq_ok (create_key_agg_ctx L.musig2 pks none flag) _ e in
      let (ps, _, e₂) =
        >>=-eq_ok (or_panicked (traverse L.musig2.partial_signature_from_slice sigs)) _ e₁ in
      let (nonce, _, e₃) = >>=-eq_ok (or_panicked (L.musig2.agg_nonce_from_bytes agg_nonce)) _ e₂ in
      (ctx, at, laws.aggregate_verifies ctx nonce ps message agg_sig sig (ok_or-eq_ok _ _ e₃) s)

  -- The key of n of n, and the one that its address has.
  pub nofn_key :
      (pks : List Bytes) (nofn : Bytes) (raw : KeyAggContext)
      → from_musig2_pks L.musig2 pks none false ≡ ok nofn
      → L.musig2.new_key_agg_context pks ≡ some raw
      → nofn ≡ L.musig2.aggregated_pubkey_untweaked raw
  unfolding from_musig2_pks create_key_agg_ctx tweaked
  nofn_key pks nofn raw e at = sym (
      ok_injective (
        sym (
          ap
            (λ o.
              unwrap (ok_or key_agg_context_error o >>= (λ r. ok r))
              >>= (λ ctx. ok (L.musig2.aggregated_pubkey_untweaked ctx)))
            at)
        ∙ e))

  module _ (rpc : Node) (signer : Actor) (config : BridgeConfig Network) (nofn : Bytes) where
    -- A verifier and an aggregator of one configuration.
    abbrev pub verifier_of : Verifier Network
    verifier_of = record {
      rpc = rpc;
      signer = signer;
      config = config;
      nofn_xonly_pk = nofn;
      operator_xonly_pks = config.operators_xonly_pks;
    }

    abbrev pub aggregator_of : Aggregator Network
    aggregator_of = record { config = config; nofn_xonly_pk = nofn }

    -- The key that the verifier checks with is the key of the context.
    nofn_taproot_key-tweaked :
        (ctx : KeyAggContext)
        → from_musig2_pks L.musig2 config.verifiers_public_keys none false ≡ ok nofn
        → create_key_agg_ctx L.musig2 config.verifiers_public_keys none true ≡ ok ctx
        → nofn_taproot_key L verifier_of ≡ ok (L.musig2.aggregated_pubkey ctx)
    unfolding nofn_taproot_key
    nofn_taproot_key-tweaked ctx e at =
        let (raw, made, tweak) = create_key_agg_ctx-eq_ok config.verifiers_public_keys ctx at in
        let same = nofn_key config.verifiers_public_keys nofn raw e made in
        ap
          (λ t.
            or_panicked (
              if t then none else some (take 32 (drop 2 (L.taproot.p2tr nofn none config.network))))
            >>= (λ slice. ok_or secp256k1_error (L.taproot.xonly_from_slice slice)))
          (laws.p2tr_is_long nofn config.network)
        ∙ ap
            (λ k. ok_or secp256k1_error (
              L.taproot.xonly_from_slice (take 32 (drop 2 (L.taproot.p2tr k none config.network)))))
            same
        ∙ ap (ok_or secp256k1_error)
            (laws.p2tr_is_tweaked config.verifiers_public_keys config.network raw ctx made tweak)

    -- A take transaction with a signature that verifies.
    pub record Signed (d fund : OutPoint) (key : Bytes) (i : ℕ) (u : Utxo) (s : Bytes)
        : Type 0 where
      pk : Bytes
      at_pk : get_elem? config.operators_xonly_pks i ≡ some pk
      h : TxHandler
      at_h : slash_or_take_tx L config nofn d u pk i ≡ ok h
      takes : TxHandler
      at_takes : operator_takes_tx L config nofn fund h pk i ≡ ok takes
      message : Bytes
      at_message : convert_tx_to_sighash_pubkey_spend L.sighashes takes 0 ≡ ok message
      verifies : L.verify_schnorr s message key ≡ true

    -- The output of the move transaction that the take transactions spend.
    abbrev pub fund_of : OutPoint → Result OutPoint
    fund_of d =
        create_move_tx L.scripts L.taproot d nofn config.bridge_amount_sats config.network
        >>= (λ move_tx. ok (record { txid = L.compute_txid move_tx; vout = 0 }))

    aggregated-Signed :
        (d : OutPoint) (u : Utxo) (pk : Bytes) (i : ℕ) (nonce : Bytes) (ps : List Bytes)
        (agg_sig s : Bytes) (fund : OutPoint) (key : Bytes)
        → from_musig2_pks L.musig2 config.verifiers_public_keys none false ≡ ok nofn
        → nofn_taproot_key L verifier_of ≡ ok key
        → fund_of d ≡ ok fund
        → get_elem? config.operators_xonly_pks i ≡ some pk
        → aggregate_operator_takes_partial_sigs L aggregator_of d u pk i nonce ps ≡ ok agg_sig
        → L.signature_from_slice agg_sig ≡ some s
        → Signed d fund key i u s
    unfolding aggregate_operator_takes_partial_sigs
    aggregated-Signed d u pk i nonce ps agg_sig s fund key e k m at_pk made at_s =
        let (move_tx, at_move, p₁) =
          >>=-eq_ok
            (create_move_tx L.scripts L.taproot d nofn config.bridge_amount_sats config.network) _
            made in
        let (h, at_h, p₂) = >>=-eq_ok (slash_or_take_tx L config nofn d u pk i) _ p₁ in
        let made_fund : OutPoint = record { txid = L.compute_txid move_tx; vout = 0 } in
        let (takes, at_takes, p₃) =
          >>=-eq_ok (operator_takes_tx L config nofn made_fund h pk i) _ p₂ in
        let (message, at_message, p₄) =
          >>=-eq_ok (convert_tx_to_sighash_pubkey_spend L.sighashes takes 0) _ p₃ in
        let (ctx, at_ctx, verifies) =
          aggregated-verifies config.verifiers_public_keys true nonce ps message agg_sig s p₄
            at_s in
        let same_fund : made_fund ≡ fund = ok_injective (sym (>>=-of_ok _ _ at_move) ∙ m) in
        let same_key : L.musig2.aggregated_pubkey ctx ≡ key =
          ok_injective (sym (nofn_taproot_key-tweaked ctx e at_ctx) ∙ k) in
        record {
          pk = pk;
          at_pk = at_pk;
          h = h;
          at_h = at_h;
          takes = takes;
          at_takes = ap (λ x. operator_takes_tx L config nofn x h pk i) (sym same_fund) ∙ at_takes;
          message = message;
          at_message = at_message;
          verifies = ap (L.verify_schnorr s message) (sym same_key) ∙ verifies;
        }

    pub operator_take_sig-Signed :
        (d : OutPoint) (utxos : List Utxo) (agg_nonces : List Bytes) (partials : List (List Bytes))
        (i : ℕ) (u : Utxo) (s : Bytes) (fund : OutPoint) (key : Bytes)
        → from_musig2_pks L.musig2 config.verifiers_public_keys none false ≡ ok nofn
        → nofn_taproot_key L verifier_of ≡ ok key
        → fund_of d ≡ ok fund
        → operator_take_sig L aggregator_of d utxos agg_nonces partials i ≡ ok s
        → get_elem? utxos i ≡ some u
        → Signed d fund key i u s
    unfolding operator_take_sig
    operator_take_sig-Signed d utxos agg_nonces partials i u s fund key e k m o at_u =
        let (u', at_u', o₁) = >>=-eq_ok (or_panicked (get_elem? utxos i)) _ o in
        let (pk, at_pk, o₂) =
          >>=-eq_ok (or_panicked (get_elem? config.operators_xonly_pks i)) _ o₁ in
        let (nonce, _, o₃) = >>=-eq_ok (or_panicked (get_elem? agg_nonces i)) _ o₂ in
        let (ps, _, o₄) = >>=-eq_ok (or_panicked (column partials i)) _ o₃ in
        let (agg_sig, made, o₅) =
          >>=-eq_ok (aggregate_operator_takes_partial_sigs L aggregator_of d u' pk i nonce ps) _
            o₄ in
        let same_u : u' ≡ u = some_injective (sym (or_panicked-eq_ok _ at_u') ∙ at_u) in
        aggregated-Signed d u pk i nonce ps agg_sig s fund key e k m (or_panicked-eq_ok _ at_pk)
          (ap (λ x. aggregate_operator_takes_partial_sigs L aggregator_of d x pk i nonce ps)
              (sym same_u)
            ∙ made)
          (ok_or-eq_ok _ _ o₅)

    pub Signed-passes :
        (d fund : OutPoint) (key : Bytes) (i : ℕ) (u : Utxo) (s : Bytes) (sigs : List Bytes)
        → Signed d fund key i u s
        → get_elem? sigs i ≡ some s
        → check_operator_take L verifier_of d fund key sigs i u ≡ ok tt
    unfolding check_operator_take
    Signed-passes d fund key i u s sigs g at_s =
        >>=-of_ok (or_panicked (get_elem? config.operators_xonly_pks i)) _ (ap or_panicked g.at_pk)
        ∙ >>=-of_ok (slash_or_take_tx L config nofn d u g.pk i) _ g.at_h
        ∙ >>=-of_ok (operator_takes_tx L config nofn fund g.h g.pk i) _ g.at_takes
        ∙ >>=-of_ok (unwrap (convert_tx_to_sighash_pubkey_spend L.sighashes g.takes 0)) _
            (ap unwrap g.at_message)
        ∙ >>=-of_ok (or_panicked (get_elem? sigs i)) _ (ap or_panicked at_s)
        ∙ ap assert g.verifies
