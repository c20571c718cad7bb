-- ===== src/Core/User/Withdraws.antt =====
-- A withdrawal of core/src/user.rs at the operator of core/src/operator.rs.
use clementine.Prelude.{ℕ, ◌≡◌, sym, ap, ◌∙◌, [], ◌∷◌, none, some, true, if◌then◌else◌}
use clementine.Prelude.Bytes.{Bytes}
use clementine.Core.Types.{TxOut, Utxo}
use clementine.Core.Result.{
  Result, ok, err, ◌>>=◌, ok_or, bitcoin_sighash_taproot_error, secp256k1_error, >>=-eq_ok,
  >>=-of_ok, ok_injective, ok_or-eq_ok,
}
use clementine.Core.Builder.Transaction.{create_btc_tx, create_tx_ins}
use clementine.Core.Actor.{
  single_plus_anyone_can_pay, prevouts_one, prevouts_for, sign_with_tweak,
  sign_taproot_pubkey_spend_tx_with_sighash,
}
use clementine.Core.ExtendedRpc.{send_to_address}
use clementine.Core.Operator.{Operator}
use clementine.Core.Operator.Withdrawal.{slice, check_user_sig}
use clementine.Core.User.{
  User, withdrawal_empty_utxo_sats, generate_withdrawal_transaction_and_signature,
}

module _ {Network : Type 0} (op : Operator Network) (U : User Network) where
  -- Where the key in the script of the user's address verifies the signatures of the user's tweaked key,
  -- a withdrawal that the user makes has an output of 550 satoshis to the user, the amount for the
  -- address of the withdrawal, and a signature that the operator's check accepts.
  pub generate_withdrawal-accepted :
      (withdrawal_address : Bytes) (withdrawal_amount : ℕ) (bytes key : Bytes) (input : Utxo)
      (output : TxOut) (sig : Bytes)
      → slice 2 32 U.signer.address ≡ ok bytes
      → op.taproot.xonly_from_slice bytes ≡ some key
      → ((digest s : Bytes)
          → U.signer.sign_schnorr_tweaked none digest ≡ some s
          → op.verify_schnorr s digest key ≡ true)
      → ◌≡◌ {A = Result ((Utxo × TxOut) × Bytes)}
          (generate_withdrawal_transaction_and_signature U op.sighashes withdrawal_address
            withdrawal_amount)
          (ok ((input, output), sig))
      → (input.txout ≡ record { value = 550; script_pubkey = U.signer.address })
        × (output ≡ record { value = withdrawal_amount; script_pubkey = withdrawal_address })
        × (check_user_sig op sig input output ≡ ok tt)
  unfolding generate_withdrawal_transaction_and_signature sign_taproot_pubkey_spend_tx_with_sighash
      sign_with_tweak prevouts_for check_user_sig
  generate_withdrawal-accepted withdrawal_address withdrawal_amount bytes key input output sig
        at_bytes at_key verifies e =
      let (outpoint, _, e₁) =
        >>=-eq_ok (send_to_address U.rpc U.signer.address withdrawal_empty_utxo_sats) _ e in
      let txout : TxOut = record { value = 550; script_pubkey = U.signer.address } in
      let paid : TxOut = record { value = withdrawal_amount; script_pubkey = withdrawal_address } in
      let digest =
        op.sighashes.key_spend (create_btc_tx (create_tx_ins (outpoint ∷ [])) (paid ∷ [])) 0
          (prevouts_one 0 txout) single_plus_anyone_can_pay in
      let (made, signs, e₂) =
        >>=-eq_ok
          (ok_or bitcoin_sighash_taproot_error digest
            >>= (λ h. ok_or secp256k1_error (U.signer.sign_schnorr_tweaked none h)))
          _ e₁ in
      let (h, at_h, e₃) = >>=-eq_ok (ok_or bitcoin_sighash_taproot_error digest) _ signs in
      let utxo : Utxo = record { outpoint = outpoint; txout = txout } in
      let end : ◌≡◌ {A = (Utxo × TxOut) × Bytes} ((utxo, paid), made) ((input, output), sig) =
        ok_injective e₂ in
      let passes : check_user_sig op made utxo paid ≡ ok tt =
        >>=-of_ok (slice 2 32 U.signer.address) _ at_bytes
        ∙ >>=-of_ok (ok_or secp256k1_error (op.taproot.xonly_from_slice bytes)) _
            (ap (ok_or secp256k1_error) at_key)
        ∙ >>=-of_ok (ok_or bitcoin_sighash_taproot_error digest) _ at_h
        ∙ ap (λ t. if t then ok tt else err secp256k1_error)
            (verifies h made (ok_or-eq_ok _ _ e₃)) in
      (
        ap (λ p. p.0.0.txout) (sym end),
        ap (λ p. p.0.1) (sym end),
        ap (λ p. check_user_sig op p.1 p.0.0 p.0.1) (sym end) ∙ passes,
      )
