-- ===== src/Core/Aggregator/Accepted.antt =====
-- Aggregated signatures of core/src/aggregator.rs are accepted by the verifiers of
-- core/src/verifier.rs.
use clementine.Prelude.{
  ℕ, zero, suc, ◌+◌, ◌<◌, ◌≤◌, ◌≡◌, refl, sym, ap, ◌∙◌, subst, List, [], ◌∷◌, none, some, Bool,
  true, false, length, get_elem?, if◌then◌else◌, arith,
}
use clementine.Prelude.Bytes.{Bytes}
use clementine.Core.Types.{OutPoint, Utxo, TxHandler}
use clementine.Core.Result.{
  ok, err, ◌>>=◌, ok_or, >>=-eq_ok, >>=-of_ok, ok_injective, public_key_not_found,
  kickoff_outpoints_not_found, deposit_info_not_found,
}
use clementine.Core.Config.{BridgeConfig}
use clementine.Core.Builder.Address.{generate_deposit_address}
use clementine.Core.Builder.Transaction.{create_move_tx, create_move_tx_handler}
use clementine.Core.Actor.{Actor}
use clementine.Core.ExtendedRpc.{Node}
use clementine.Core.Musig2.{from_musig2_pks}
use clementine.Core.Deposits.{get_deposit_info, get_kickoff_utxos}
use clementine.Core.Libraries.{Libraries, Laws}
use clementine.Core.Verifier
use clementine.Core.Verifier.{Verifier, Tables, contains}
use clementine.Core.Verifier.Presigns.{create_deposit_details}
use clementine.Core.Verifier.Takes.{
  check_operator_take, check_operator_takes, nofn_taproot_key, checked_takes,
}
use clementine.Core.Aggregator
use clementine.Core.Aggregator.{Aggregator, operator_take_sig, aggregate_operator_take_sigs}
use clementine.Core.Aggregator.Columns.{each_from-get}
use clementine.Core.Aggregator.Takes.{
  verifier_of, aggregator_of, fund_of, operator_take_sig-Signed, Signed-passes,
}

pub get_elem?-lt :
    {A : Type 0} (xs : List A) (j : ℕ) (a : A) → get_elem? xs j ≡ some a → j < length xs
get_elem?-lt [] j a e = cc
get_elem?-lt (x ∷ xs) zero a e = omega arith
get_elem?-lt (x ∷ xs) (suc j) a e = omega (arith, get_elem?-lt xs j a e)

module _ {Network KeyAggContext : Type 0} (L : Libraries Network KeyAggContext) where
  check_operator_takes-passes :
      (V : Verifier Network) (d fund : OutPoint) (key : Bytes) (i : ℕ) (utxos : List Utxo)
      (sigs : List Bytes)
      → ((j : ℕ) (u : Utxo)
          → get_elem? utxos j ≡ some u
          → check_operator_take L V d fund key sigs (i + j) u ≡ ok tt)
      → check_operator_takes L V d fund key sigs i utxos ≡ ok tt
  unfolding check_operator_takes
  check_operator_takes-passes V d fund key i [] sigs each = refl
  check_operator_takes-passes V d fund key i (u ∷ utxos) sigs each =
      >>=-of_ok (check_operator_take L V d fund key sigs i u) _
        (ap (λ n. check_operator_take L V d fund key sigs n u) (omega arith) ∙ each 0 u refl)
      ∙ check_operator_takes-passes V d fund key (suc i) utxos sigs (λ j v at.
        ap (λ n. check_operator_take L V d fund key sigs n v) (omega arith) ∙ each (suc j) v at)

  -- The output that the stored details name is that of the move transaction.
  details-fund :
      (laws : Laws L) (rpc : Node) (signer : Actor) (config : BridgeConfig Network) (nofn : Bytes)
      (d : OutPoint) (db : Tables) (details : (List Utxo × TxHandler) × OutPoint)
      → create_deposit_details L (verifier_of L laws rpc signer config nofn) d db ≡ ok details
      → fund_of L laws rpc signer config nofn d ≡ ok details.1
  unfolding create_deposit_details create_move_tx_handler
  details-fund laws rpc signer config nofn d db details e =
      let (utxos, _, e₁) =
        >>=-eq_ok (ok_or kickoff_outpoints_not_found (get_kickoff_utxos d db.deposit_kickoff_utxos))
          _ e in
      let (found, _, e₂) = >>=-eq_ok (get_deposit_info d db.deposit_infos) _ e₁ in
      let (info, _, e₃) = >>=-eq_ok (ok_or deposit_info_not_found found) _ e₂ in
      let (handler, made, e₄) =
        >>=-eq_ok
          (create_move_tx_handler L.scripts L.taproot d info.1 info.0 nofn config.network
            config.user_takes_after config.bridge_amount_sats)
          _ e₃ in
      let (move_tx, at_move, e₅) =
        >>=-eq_ok
          (create_move_tx L.scripts L.taproot d nofn config.bridge_amount_sats config.network) _
          made in
      let (deposit, _, e₆) =
        >>=-eq_ok
          (generate_deposit_address L.scripts L.taproot nofn info.0 info.1 config.bridge_amount_sats
            config.network config.user_takes_after)
          _ e₅ in
      let fund : OutPoint = record { txid = L.compute_txid move_tx; vout = 0 } in
      let same_tx : move_tx ≡ handler.tx = ap (λ x. x.tx) (ok_injective e₆) in
      >>=-of_ok _ _ at_move
      ∙ ap (λ tx. ok (record { txid = L.compute_txid tx; vout = 0 })) same_tx
      ∙ ap (λ x. ok x.1) (ok_injective e₄)

  module _ (laws : Laws L) (rpc : Node) (signer : Actor) (config : BridgeConfig Network) where
    takes-pass :
        (nofn : Bytes) (d : OutPoint) (db : Tables) (details : (List Utxo × TxHandler) × OutPoint)
        (agg_nonces first : List Bytes) (partials : List (List Bytes)) (sigs : List Bytes)
        (key : Bytes)
        → from_musig2_pks L.musig2 config.verifiers_public_keys none false ≡ ok nofn
        → nofn_taproot_key L (verifier_of L laws rpc signer config nofn) ≡ ok key
        → create_deposit_details L (verifier_of L laws rpc signer config nofn) d db ≡ ok details
        → length details.0.0 ≤ length first
        → aggregate_operator_take_sigs L
            (aggregator_of L laws rpc signer config nofn)
            d
            details.0.0
            agg_nonces
            (first ∷ partials)
          ≡ ok sigs
        → checked_takes L (verifier_of L laws rpc signer config nofn) d sigs db ≡ ok details.0
    unfolding checked_takes aggregate_operator_take_sigs
    takes-pass nofn d db details agg_nonces first partials sigs key e k stored h made =
        let V = verifier_of L laws rpc signer config nofn in
        let utxos = details.0.0 in
        >>=-of_ok (create_deposit_details L V d db) _ stored
        ∙ >>=-of_ok (nofn_taproot_key L V) _ k
        ∙ >>=-of_ok (check_operator_takes L V d details.1 key sigs 0 utxos) _ (
            check_operator_takes-passes V d details.1 key 0 utxos sigs λ j u at_u.
              let (s, at_s, made_s) =
                each_from-get
                  (operator_take_sig L (aggregator_of L laws rpc signer config nofn) d utxos
                    agg_nonces (first ∷ partials))
                  0 (length first) j sigs made (omega (arith, get_elem?-lt utxos j u at_u, h)) in
              Signed-passes L laws rpc signer config nofn d details.1 key (0 + j) u s sigs
                (operator_take_sig-Signed L laws rpc signer config nofn d utxos agg_nonces
                  (first ∷ partials) (0 + j) u s details.1 key e k
                  (details-fund laws rpc signer config nofn d db details stored) made_s
                  (ap (get_elem? utxos) (omega arith) ∙ at_u))
                (ap (get_elem? sigs) (omega arith) ∙ at_s))

    pub new_verifier-eq :
        (V : Verifier Network)
        → Verifier.new L rpc signer config ≡ ok V
        → (nofn : Bytes) × (from_musig2_pks L.musig2 config.verifiers_public_keys none false
            ≡ ok nofn)
          × (verifier_of L laws rpc signer config nofn ≡ V)
    unfolding Verifier.new
    new_verifier-eq V e = by_key (contains config.verifiers_public_keys signer.keypair.public_key) e
      where
        by_key :
            (t : Bool)
            → (if t
                then from_musig2_pks L.musig2 config.verifiers_public_keys none false
                  >>= (λ nofn. ok (verifier_of L laws rpc signer config nofn))
                else err public_key_not_found)
              ≡ ok V
            → (nofn : Bytes) × (from_musig2_pks L.musig2 config.verifiers_public_keys none false
                ≡ ok nofn)
              × (verifier_of L laws rpc signer config nofn ≡ V)
        by_key true k =
            let (nofn, at, e₁) =
              >>=-eq_ok (from_musig2_pks L.musig2 config.verifiers_public_keys none false) _ k in
            (nofn, at, ok_injective e₁)
        by_key false k = cc

    pub new_aggregator-eq :
        (A : Aggregator Network) (nofn : Bytes)
        → Aggregator.new L config ≡ ok A
        → from_musig2_pks L.musig2 config.verifiers_public_keys none false ≡ ok nofn
        → aggregator_of L laws rpc signer config nofn ≡ A
    unfolding Aggregator.new
    new_aggregator-eq A nofn e at = ok_injective (sym (>>=-of_ok _ _ at) ∙ e)

    -- A verifier and an aggregator that are made of one configuration, where the libraries keep their
    -- laws and the key of the address of n of n is valid: when the aggregator has signatures for the
    -- takes of the kickoffs that the verifier has stored for a deposit, from a first list of partial
    -- signatures that is long enough, they pass all checks that operator_take_txs_signed makes before
    -- it signs the move transaction.
    pub aggregate_operator_take_sigs-accepted :
        (V : Verifier Network) (A : Aggregator Network) (d : OutPoint) (db : Tables)
        (details : (List Utxo × TxHandler) × OutPoint) (agg_nonces first : List Bytes)
        (partials : List (List Bytes)) (sigs : List Bytes) (key : Bytes)
        → Verifier.new L rpc signer config ≡ ok V
        → Aggregator.new L config ≡ ok A
        → nofn_taproot_key L V ≡ ok key
        → create_deposit_details L V d db ≡ ok details
        → length details.0.0 ≤ length first
        → aggregate_operator_take_sigs L A d details.0.0 agg_nonces (first ∷ partials) ≡ ok sigs
        → checked_takes L V d sigs db ≡ ok details.0
    aggregate_operator_take_sigs-accepted V A d db details agg_nonces first partials sigs key new_V
          new_A k stored h made =
        let (nofn, at, same_V) = new_verifier-eq V new_V in
        let same_A = new_aggregator-eq A nofn new_A at in
        subst (λ W. checked_takes L W d sigs db ≡ ok details.0) same_V
          (takes-pass nofn d db details agg_nonces first partials sigs key at
            (ap (nofn_taproot_key L) same_V ∙ k)
            (ap (λ W. create_deposit_details L W d db) same_V ∙ stored) h
            (ap (λ B. aggregate_operator_take_sigs L B d details.0.0 agg_nonces (first ∷ partials))
                same_A
              ∙ made))
