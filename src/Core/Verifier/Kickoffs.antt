-- ===== src/Core/Verifier/Kickoffs.antt =====
-- What `operator_kickoffs_generated` of core/src/verifier.rs has checked where it answers.
use clementine.Prelude.{
  ℕ, suc, ◌+◌, ◌≤◌, ◌≡◌, refl, sym, ap, ◌∙◌, subst, List, [], ◌∷◌, none, some, Bool, true, false,
  not, ◌==◌, ==_iff, ltb, if◌then◌else◌, length, get_elem?, arith,
}
use clementine.Prelude.Bytes.{Bytes, bytes_eq, bytes_eq→eq}
use clementine.Core.Types.{OutPoint, Utxo, TxHandler, SpendInfo}
use clementine.Core.Result.{
  or_panicked-eq_ok, BridgeError, Result, ok, err, or_panicked, >>=-eq_ok, ok_injective,
  invalid_kickoff_utxo, secp256k1_error,
}
use clementine.Core.Builder.Address.{create_kickoff_address}
use clementine.Core.Builder.Transaction.{kickoff_utxo_amount_sats, assert}
use clementine.Core.Actor.{convert_tx_to_sighash_script_spend}
use clementine.Core.Libraries.{Libraries, slash_or_take_tx}
use clementine.Core.Nonces.{Nonces, save_agg_nonces, save_sighashes_and_get_nonces}
use clementine.Core.Deposits.{save_kickoff_utxos}
use clementine.Core.Verifier.{Verifier, Tables}
use clementine.Core.Musig2.{partial_sign}
use clementine.Core.Verifier.Deposit.{transaction-eq_ok}
use clementine.Core.Verifier.Presigns.{
  same_length, kickoff_sig_hash, check_kickoff, check_kickoffs, partial_signs,
  operator_kickoffs_generated,
}

-- A test before the rest.
test_passes :
    (t : Bool) (e : BridgeError) (u : Unit) → (if t then ok tt else err e) ≡ ok u → t ≡ true
test_passes true e u k = refl
test_passes false e u k = cc

test_fails :
    (t : Bool) (e : BridgeError) (u : Unit) → (if t then err e else ok tt) ≡ ok u → t ≡ false
test_fails true e u k = cc
test_fails false e u k = refl

assert-eq_ok : (t : Bool) (u : Unit) → assert t ≡ ok u → t ≡ true
assert-eq_ok true u k = refl
assert-eq_ok false u k = cc

not_below : (a b : ℕ) → ltb a b ≡ false → b ≤ a
not_below a b e = ground arith

nil_is_cons : {A : Type 0} {x : A} {xs : List A} → [] ≡ x ∷ xs → ⊥
nil_is_cons e = cc

lengths_agree :
    (utxos : List Utxo) (sigs : List Bytes) (u : Unit)
    → same_length utxos sigs ≡ ok u
    → length sigs ≡ length utxos
lengths_agree utxos sigs u e =
    by_test (length sigs == length utxos) ((==_iff (length sigs) (length utxos)).0) e
  where
    by_test :
        (t : Bool)
        → (t ≡ true → length sigs ≡ length utxos)
        → (if not t then err invalid_kickoff_utxo else ok tt) ≡ ok u
        → length sigs ≡ length utxos
    by_test true k e = k refl
    by_test false k e = cc

module _ {Network KeyAggContext : Type 0} (L : Libraries Network KeyAggContext)
    (V : Verifier Network) where
  -- A kickoff of an operator for a deposit: it is worth enough, the operator has signed the digest of
  -- both, its script is the one of the operator and n of n, and the digest is that of its slash or take
  -- transaction.
  pub record Checked (d : OutPoint) (sigs : List Bytes) (i : ℕ) (u : Utxo) (sighash : Bytes)
      : Type 0 where
    pub worth : kickoff_utxo_amount_sats ≤ u.txout.value
    pub sig : Bytes
    pub at_sig : get_elem? sigs i ≡ some sig
    pub operator_xonly_pk : Bytes
    pub at_pk : get_elem? V.config.operators_xonly_pks i ≡ some operator_xonly_pk
    pub verified : L.verify_schnorr sig (kickoff_sig_hash L V d u.outpoint) operator_xonly_pk ≡ true
    pub own_xonly_pk : Bytes
    pub at_own_pk : get_elem? V.operator_xonly_pks i ≡ some own_xonly_pk
    pub address : Bytes × SpendInfo
    pub at_address :
        create_kickoff_address L.scripts L.taproot V.nofn_xonly_pk own_xonly_pk V.config.network
        ≡ ok address
    pub script : u.txout.script_pubkey ≡ address.0
    pub handler : TxHandler
    pub at_handler :
        slash_or_take_tx L V.config V.nofn_xonly_pk d u operator_xonly_pk i ≡ ok handler
    pub at_sighash : convert_tx_to_sighash_script_spend L.sighashes handler 0 0 ≡ ok sighash

  check_kickoff-Checked :
      (d : OutPoint) (sigs : List Bytes) (i : ℕ) (u : Utxo) (sighash : Bytes)
      → check_kickoff L V d sigs i u ≡ ok sighash
      → Checked d sigs i u sighash
  unfolding check_kickoff
  check_kickoff-Checked d sigs i u sighash e =
      let (w, enough, e₁) =
        >>=-eq_ok
          (if ltb u.txout.value kickoff_utxo_amount_sats then err invalid_kickoff_utxo else ok tt) _
          e in
      let (sig, at_sig, e₂) = >>=-eq_ok (or_panicked (get_elem? sigs i)) _ e₁ in
      let (pk, at_pk, e₃) =
        >>=-eq_ok (or_panicked (get_elem? V.config.operators_xonly_pks i)) _ e₂ in
      let test = L.verify_schnorr sig (kickoff_sig_hash L V d u.outpoint) pk in
      let (v, verified, e₄) = >>=-eq_ok (if test then ok tt else err secp256k1_error) _ e₃ in
      let (own, at_own, e₅) = >>=-eq_ok (or_panicked (get_elem? V.operator_xonly_pks i)) _ e₄ in
      let (address, at_address, e₆) =
        >>=-eq_ok (create_kickoff_address L.scripts L.taproot V.nofn_xonly_pk own V.config.network)
          _ e₅ in
      let same_script = bytes_eq u.txout.script_pubkey address.0 in
      let (c, checked, e₇) = >>=-eq_ok (assert same_script) _ e₆ in
      let (handler, at_handler, e₈) =
        >>=-eq_ok (slash_or_take_tx L V.config V.nofn_xonly_pk d u pk i) _ e₇ in
      record {
        worth = not_below u.txout.value kickoff_utxo_amount_sats (test_fails _ _ w enough);
        sig = sig;
        at_sig = or_panicked-eq_ok _ at_sig;
        operator_xonly_pk = pk;
        at_pk = or_panicked-eq_ok _ at_pk;
        verified = test_passes test secp256k1_error v verified;
        own_xonly_pk = own;
        at_own_pk = or_panicked-eq_ok _ at_own;
        address = address;
        at_address = at_address;
        script = bytes_eq→eq _ _ (assert-eq_ok same_script c checked);
        handler = handler;
        at_handler = at_handler;
        at_sighash = e₈;
      }

  -- The digests are those of the kickoffs, from the index on.
  abbrev pub AllChecked : OutPoint → List Bytes → ℕ → List Utxo → List Bytes → Type 0
  AllChecked d sigs i [] [] = Unit
  AllChecked d sigs i [] (h ∷ hs) = ⊥
  AllChecked d sigs i (u ∷ us) [] = ⊥
  AllChecked d sigs i (u ∷ us) (h ∷ hs) = Checked d sigs i u h × AllChecked d sigs (suc i) us hs

  check_kickoffs-AllChecked :
      (d : OutPoint) (sigs : List Bytes) (i : ℕ) (us : List Utxo) (hs : List Bytes)
      → check_kickoffs L V d sigs i us ≡ ok hs
      → AllChecked d sigs i us hs
  unfolding check_kickoffs
  check_kickoffs-AllChecked d sigs i [] [] e = tt
  check_kickoffs-AllChecked d sigs i [] (h ∷ hs) e = absurd (nil_is_cons (ok_injective e))
  check_kickoffs-AllChecked d sigs i (u ∷ us) hs e =
      let (h', at, e₁) = >>=-eq_ok (check_kickoff L V d sigs i u) _ e in
      let (hs', ats, e₂) = >>=-eq_ok (check_kickoffs L V d sigs (suc i) us) _ e₁ in
      subst (AllChecked d sigs i (u ∷ us)) (ok_injective e₂) (
        check_kickoff-Checked d sigs i u h' at,
        check_kickoffs-AllChecked d sigs (suc i) us hs' ats,
      )

  -- Each digest is signed with the nonces of its place, with the verifier's key and without a tweak, as
  -- long as there are nonces.
  abbrev pub PartialSigs : List Bytes → List (Bytes × Bytes) → List Bytes → Type 0
  PartialSigs [] nonces [] = Unit
  PartialSigs (h ∷ hs) [] [] = Unit
  PartialSigs (h ∷ hs) ((sec_nonce, agg_nonce) ∷ nonces) (p ∷ ps) =
      (partial_sign L.musig2 V.config.verifiers_public_keys none false sec_nonce agg_nonce
          V.signer.keypair h
        ≡ ok p)
      × PartialSigs hs nonces ps
  PartialSigs _ _ _ = ⊥

  partial_signs-PartialSigs :
      (hs : List Bytes) (nonces : List (Bytes × Bytes)) (ps : List Bytes)
      → partial_signs L V false hs nonces ≡ ok ps
      → PartialSigs hs nonces ps
  unfolding partial_signs
  partial_signs-PartialSigs [] nonces ps e = subst (PartialSigs [] nonces) (ok_injective e) tt
  partial_signs-PartialSigs (h ∷ hs) [] ps e = subst (PartialSigs (h ∷ hs) []) (ok_injective e) tt
  partial_signs-PartialSigs (h ∷ hs) ((sec_nonce, agg_nonce) ∷ nonces) ps e =
      let (sig, signs, e₁) =
        >>=-eq_ok
          (partial_sign L.musig2 V.config.verifiers_public_keys none false sec_nonce agg_nonce
            V.signer.keypair h)
          _ e in
      let (sigs, rest, e₂) = >>=-eq_ok (partial_signs L V false hs nonces) _ e₁ in
      subst (PartialSigs (h ∷ hs) ((sec_nonce, agg_nonce) ∷ nonces)) (ok_injective e₂)
        (signs, partial_signs-PartialSigs hs nonces sigs rest)

  -- Where operator_kickoffs_generated answers, there are as many signatures of operators as kickoffs, and
  -- every kickoff is checked: it has at least 100 000 satoshis, the operator of its index has signed it
  -- for the deposit, and its script is the one of n of n and that operator. The digests of the kickoffs'
  -- slash or take transactions were recorded from the index after the takes on, and the answer is the
  -- partial signatures of these digests, each with the nonces that were recorded for it, and no burn
  -- signatures.
  pub operator_kickoffs_generated-Checked :
      (d : OutPoint) (utxos : List Utxo) (sigs agg_nonces : List Bytes) (db : Tables)
      (partials burns : List Bytes) (db' : Tables)
      → ◌≡◌ {A = Result (List Bytes × List Bytes) × Tables}
          (operator_kickoffs_generated L V d utxos sigs agg_nonces db)
          (ok (partials, burns), db')
      → (length sigs ≡ length utxos)
        × (burns ≡ [])
        × (hs : List Bytes) × AllChecked d sigs 0 utxos hs
        × (table : Nonces) × (save_agg_nonces d agg_nonces db.nonces ≡ ok table)
        × (signing : List (Bytes × Bytes)) × ◌≡◌ {A = Result (List (Bytes × Bytes) × Nonces)}
            (save_sighashes_and_get_nonces d (V.config.num_operators + 1) hs table)
            (ok (signing, db'.nonces))
        × PartialSigs hs signing partials
  unfolding operator_kickoffs_generated
  operator_kickoffs_generated-Checked d utxos sigs agg_nonces db partials burns db' e =
      let (l, same, e₁) =
        >>=-eq_ok (same_length utxos sigs) _ (transaction-eq_ok db _ (partials, burns) db' e) in
      let (hs, checked, e₂) = >>=-eq_ok (check_kickoffs L V d sigs 0 utxos) _ e₁ in
      let (table, aggregated, e₃) = >>=-eq_ok (save_agg_nonces d agg_nonces db.nonces) _ e₂ in
      let (kickoffs, _, e₄) =
        >>=-eq_ok (save_kickoff_utxos d utxos db.deposit_kickoff_utxos) _ e₃ in
      let (signing, recorded, e₅) =
        >>=-eq_ok (save_sighashes_and_get_nonces d (V.config.num_operators + 1) hs table) _ e₄ in
      let (made, signs, e₆) = >>=-eq_ok (partial_signs L V false hs signing.0) _ e₅ in
      let end = ok_injective e₆ in
      (
        lengths_agree utxos sigs l same,
        ap (λ p. p.0.1) (sym end),
        hs,
        check_kickoffs-AllChecked d sigs 0 utxos hs checked,
        table,
        aggregated,
        signing.0,
        recorded ∙ ap (λ p. ok (signing.0, p.1.nonces)) end,
        partial_signs-PartialSigs hs signing.0 partials (signs ∙ ap (λ p. ok p.0.0) end),
      )
