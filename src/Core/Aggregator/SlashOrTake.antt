-- ===== src/Core/Aggregator/SlashOrTake.antt =====
-- Aggregated signatures of slash or take transactions, of core/src/aggregator.rs, in `burn_txs_signed` of
-- core/src/verifier.rs.
use clementine.Prelude.{
  ℕ, ◌≤◌, ◌≡◌, sym, ap, ◌∙◌, subst, List, ◌∷◌, none, some, true, false, length, get_elem?, arith,
}
use clementine.Prelude.Bytes.{Bytes}
use clementine.Core.Types.{OutPoint, Utxo, TxHandler}
use clementine.Core.Result.{
  Result, ok, ◌>>=◌, or_panicked, ok_or, unwrap, >>=-eq_ok, >>=-of_ok, ok_injective, ok_or-eq_ok,
  or_panicked-eq_ok, nonces_not_found, key_agg_context_error,
}
use clementine.Core.Config.{BridgeConfig}
use clementine.Core.Builder.Transaction.{assert}
use clementine.Core.Actor.{
  Actor, convert_tx_to_sighash_script_spend, convert_tx_to_sighash_pubkey_spend,
}
use clementine.Core.ExtendedRpc.{Node}
use clementine.Core.Musig2.{tweaked, create_key_agg_ctx, from_musig2_pks}
use clementine.Core.Libraries.{Libraries, Laws, slash_or_take_tx, operator_takes_tx}
use clementine.Core.Verifier
use clementine.Core.Verifier.{Verifier}
use clementine.Core.Verifier.Takes.{operator_takes_sighash}
use clementine.Core.Aggregator
use clementine.Core.Aggregator.{
  Aggregator, column, slash_or_take_sig, aggregate_slash_or_take_partial_sigs,
  aggregate_slash_or_take_sigs,
}
use clementine.Core.Aggregator.Columns.{some_injective, each_from-get}
use clementine.Core.Aggregator.Takes.{verifier_of, aggregator_of, aggregated-verifies, nofn_key}
use clementine.Core.Aggregator.Accepted.{get_elem?-lt, new_verifier-eq, new_aggregator-eq}

module _ {Network KeyAggContext : Type 0} (L : Libraries Network KeyAggContext)
    (laws : Laws L) where
  -- What `operator_takes_sighash` does after its check.
  abbrev pub unchecked_takes_sighash :
      Verifier Network → OutPoint → OutPoint → ℕ → Utxo → Result Bytes
  unchecked_takes_sighash V d fund i u = or_panicked (get_elem? V.operator_xonly_pks i) >>= (λ pk.
      slash_or_take_tx L V.config V.nofn_xonly_pk d u pk i >>= (λ h.
        operator_takes_tx L V.config V.nofn_xonly_pk fund h pk i
        >>= (λ takes. unwrap (convert_tx_to_sighash_pubkey_spend L.sighashes takes 0))))

  untweaked-new :
      (pks : List Bytes) (ctx : KeyAggContext)
      → create_key_agg_ctx L.musig2 pks none false ≡ ok ctx
      → L.musig2.new_key_agg_context pks ≡ some ctx
  unfolding create_key_agg_ctx tweaked
  untweaked-new pks ctx e =
      let (raw, at, e₁) =
        >>=-eq_ok (ok_or key_agg_context_error (L.musig2.new_key_agg_context pks)) _ e in
      ok_or-eq_ok _ _ at ∙ ap some (ok_injective e₁)

  module _ (rpc : Node) (signer : Actor) (config : BridgeConfig Network) where
    -- A slash or take transaction with a signature that verifies under the key of n of n.
    record Signed (nofn : Bytes) (d : OutPoint) (i : ℕ) (u : Utxo) (s : Bytes) : Type 0 where
      pk : Bytes
      at_pk : get_elem? config.operators_xonly_pks i ≡ some pk
      h : TxHandler
      at_h : slash_or_take_tx L config nofn d u pk i ≡ ok h
      message : Bytes
      at_message : convert_tx_to_sighash_script_spend L.sighashes h 0 0 ≡ ok message
      verifies : L.verify_schnorr s message nofn ≡ true

    slash_or_take_sig-Signed :
        (nofn : Bytes) (d : OutPoint) (utxos : List Utxo) (agg_nonces : List Bytes)
        (partials : List (List Bytes)) (i : ℕ) (u : Utxo) (s : Bytes)
        → from_musig2_pks L.musig2 config.verifiers_public_keys none false ≡ ok nofn
        → slash_or_take_sig L
            (aggregator_of L laws rpc signer config nofn)
            d
            utxos
            agg_nonces
            partials
            i
          ≡ ok s
        → get_elem? utxos i ≡ some u
        → Signed nofn d i u s
    unfolding slash_or_take_sig aggregate_slash_or_take_partial_sigs
    slash_or_take_sig-Signed nofn d utxos agg_nonces partials i u s e o at_u =
        let A = aggregator_of L laws rpc signer config nofn in
        let pks = config.verifiers_public_keys in
        let (ps, _, o₁) = >>=-eq_ok (ok_or nonces_not_found (column partials i)) _ o in
        let (u', at_u', o₂) = >>=-eq_ok (or_panicked (get_elem? utxos i)) _ o₁ in
        let (pk, at_pk, o₃) =
          >>=-eq_ok (or_panicked (get_elem? config.operators_xonly_pks i)) _ o₂ in
        let (nonce, _, o₄) = >>=-eq_ok (or_panicked (get_elem? agg_nonces i)) _ o₃ in
        let (agg_sig, made, o₅) =
          >>=-eq_ok (aggregate_slash_or_take_partial_sigs L A d u' pk i nonce ps) _ o₄ in
        let (h, at_h, p₁) = >>=-eq_ok (slash_or_take_tx L config nofn d u' pk i) _ made in
        let (message, at_message, p₂) =
          >>=-eq_ok (convert_tx_to_sighash_script_spend L.sighashes h 0 0) _ p₁ in
        let (ctx, at_ctx, verifies) =
          aggregated-verifies L laws pks false nonce ps message agg_sig s p₂ (ok_or-eq_ok _ _ o₅) in
        let new_ctx = untweaked-new pks ctx at_ctx in
        let same_key : L.musig2.aggregated_pubkey ctx ≡ nofn =
          laws.new_is_untweaked pks ctx new_ctx ∙ sym (nofn_key L laws pks nofn ctx e new_ctx) in
        let same_u : u' ≡ u = some_injective (sym (or_panicked-eq_ok _ at_u') ∙ at_u) in
        record {
          pk = pk;
          at_pk = or_panicked-eq_ok _ at_pk;
          h = h;
          at_h = ap (λ x. slash_or_take_tx L config nofn d x pk i) (sym same_u) ∙ at_h;
          message = message;
          at_message = at_message;
          verifies = ap (L.verify_schnorr s message) (sym same_key) ∙ verifies;
        }

    Signed-passes :
        (nofn : Bytes) (d fund : OutPoint) (sigs : List Bytes) (i : ℕ) (u : Utxo) (s : Bytes)
        → Signed nofn d i u s
        → get_elem? sigs i ≡ some s
        → operator_takes_sighash L (verifier_of L laws rpc signer config nofn) d fund sigs i u
          ≡ unchecked_takes_sighash (verifier_of L laws rpc signer config nofn) d fund i u
    unfolding operator_takes_sighash
    Signed-passes nofn d fund sigs i u s g at_s =
        let V = verifier_of L laws rpc signer config nofn in
        let script_sighash = convert_tx_to_sighash_script_spend L.sighashes g.h 0 0 in
        let pk_is = ap or_panicked g.at_pk in
        >>=-of_ok (or_panicked (get_elem? config.operators_xonly_pks i)) _ pk_is
        ∙ >>=-of_ok (slash_or_take_tx L config nofn d u g.pk i) _ g.at_h
        ∙ >>=-of_ok (unwrap script_sighash) _ (ap unwrap g.at_message)
        ∙ >>=-of_ok (or_panicked (get_elem? sigs i)) _ (ap or_panicked at_s)
        ∙ >>=-of_ok (assert (L.verify_schnorr s g.message nofn)) _ (ap assert g.verifies)
        ∙ sym (
            >>=-of_ok (or_panicked (get_elem? config.operators_xonly_pks i)) _ pk_is
            ∙ >>=-of_ok (slash_or_take_tx L config nofn d u g.pk i) _ g.at_h)

    -- A verifier and an aggregator that are made of one configuration, where the libraries keep their
    -- laws: when the aggregator has signatures for the slash or take transactions of some kickoffs, from
    -- a first list of partial signatures that is long enough, then burn_txs_signed comes to the digest of
    -- each operator's take as if it did not check them.
    pub aggregate_slash_or_take_sigs-accepted :
        (V : Verifier Network) (A : Aggregator Network) (d fund : OutPoint) (utxos : List Utxo)
        (agg_nonces first : List Bytes) (partials : List (List Bytes)) (sigs : List Bytes) (i : ℕ)
        (u : Utxo)
        → Verifier.new L rpc signer config ≡ ok V
        → Aggregator.new L config ≡ ok A
        → length utxos ≤ length first
        → aggregate_slash_or_take_sigs L A d utxos agg_nonces (first ∷ partials) ≡ ok sigs
        → get_elem? utxos i ≡ some u
        → operator_takes_sighash L V d fund sigs i u ≡ unchecked_takes_sighash V d fund i u
    unfolding aggregate_slash_or_take_sigs
    aggregate_slash_or_take_sigs-accepted V A d fund utxos agg_nonces first partials sigs i u new_V
          new_A long made at_u =
        let (nofn, at, same_V) = new_verifier-eq L laws rpc signer config V new_V in
        let same_A = new_aggregator-eq L laws rpc signer config A nofn new_A at in
        let B = aggregator_of L laws rpc signer config nofn in
        let (s, at_s, made_s) =
          each_from-get (slash_or_take_sig L B d utxos agg_nonces (first ∷ partials)) 0
            (length first) i sigs
            (ap (λ X. aggregate_slash_or_take_sigs L X d utxos agg_nonces (first ∷ partials)) same_A
              ∙ made)
            (omega (arith, get_elem?-lt utxos i u at_u, long)) in
        let made_at_i : slash_or_take_sig L B d utxos agg_nonces (first ∷ partials) i ≡ ok s =
          ap (slash_or_take_sig L B d utxos agg_nonces (first ∷ partials)) (omega arith) ∙ made_s in
        subst
          (λ W. operator_takes_sighash L W d fund sigs i u ≡ unchecked_takes_sighash W d fund i u)
          same_V
          (Signed-passes nofn d fund sigs i u s
            (slash_or_take_sig-Signed nofn d utxos agg_nonces (first ∷ partials) i u s at made_at_i
              at_u)
            at_s)
