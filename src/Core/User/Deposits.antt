-- ===== src/Core/User/Deposits.antt =====
-- A deposit of core/src/user.rs at the check of core/src/extended_rpc.rs.
use clementine.Prelude.{
  ℕ, ◌≤◌, ◌≡◌, sym, ap, ◌∙◌, some, true, false, ltb, ◌&&◌, ◌==◌, if◌then◌else◌, get_elem?, arith,
}
use clementine.Prelude.Bytes.{Bytes, bytes_eq_refl}
use clementine.Core.Types.{OutPoint, TxOut, Transaction}
use clementine.Core.Result.{
  ok, err, or_panicked, ok_or, >>=-eq_ok, >>=-of_ok, ok_injective, bitcoin_rpc_error,
  deposit_not_finalized,
}
use clementine.Core.Builder.Script.{Scripts}
use clementine.Core.Builder.Address.{Taproot, generate_deposit_address}
use clementine.Core.ExtendedRpc.{
  Node, txout_eq, confirmation_blocks, check_utxo_address_and_amount, is_utxo_spent,
  check_deposit_utxo,
}
use clementine.Core.User.{User, get_deposit_address}

txout_eq_refl : (a : TxOut) → txout_eq a a ≡ true
txout_eq_refl a = ap (λ t. (a.value == a.value) && t) (bytes_eq_refl a.script_pubkey) ∙ same a.value
  where
    same : (n : ℕ) → ((n == n) && true) ≡ true
    same n = ground arith

-- An output of an amount to a script.
abbrev pays : ℕ → Bytes → TxOut
pays amount script = record { value = amount; script_pubkey = script }

module _ {Network : Type 0} (U : User Network) (C : Scripts) (T : Taproot Network) (R : Node) where
  -- An output that pays the bridge amount to the user's deposit address, whose transaction has as many
  -- confirmations as the threshold, and that is not spent, passes the check of a deposit for the user's
  -- own address and the same key of n of n and configuration.
  pub deposit-accepted :
      (evm_address deposit_address : Bytes) (outpoint : OutPoint) (blocks : ℕ) (tx : Transaction)
      (unspent : TxOut)
      → get_deposit_address U C T evm_address ≡ ok deposit_address
      → R.get_raw_transaction_info outpoint.txid ≡ some (some blocks)
      → U.config.confirmation_threshold ≤ blocks
      → R.get_raw_transaction outpoint.txid ≡ some tx
      → get_elem? tx.output outpoint.vout
        ≡ some (record { value = U.config.bridge_amount_sats; script_pubkey = deposit_address })
      → R.get_tx_out outpoint.txid outpoint.vout ≡ some (some unspent)
      → check_deposit_utxo R C T U.nofn_xonly_pk outpoint U.signer.address evm_address
          U.config.bridge_amount_sats U.config.confirmation_threshold U.config.network
          U.config.user_takes_after
        ≡ ok tt
  unfolding get_deposit_address check_deposit_utxo confirmation_blocks check_utxo_address_and_amount
      is_utxo_spent
  deposit-accepted evm_address deposit_address outpoint blocks tx unspent at_address at_info enough
        at_tx at_output at_unspent =
      let amount = U.config.bridge_amount_sats in
      let (deposit, generated, e₁) =
        >>=-eq_ok
          (generate_deposit_address C T U.nofn_xonly_pk U.signer.address evm_address amount
            U.config.network U.config.user_takes_after)
          _ at_address in
      let same : deposit_address ≡ deposit.0 = sym (ok_injective e₁) in
      let wanted : TxOut = record { value = amount; script_pubkey = deposit.0 } in
      let output : get_elem? tx.output outpoint.vout ≡ some wanted =
        at_output ∙ ap (λ (s : Bytes). some (pays amount s)) same in
      let valid : check_utxo_address_and_amount R outpoint deposit.0 amount ≡ ok true =
        >>=-of_ok (ok_or bitcoin_rpc_error (R.get_raw_transaction outpoint.txid)) _
          (ap (ok_or bitcoin_rpc_error) at_tx)
        ∙ >>=-of_ok (or_panicked (get_elem? tx.output outpoint.vout)) _ (ap or_panicked output)
        ∙ ap ok (txout_eq_refl wanted) in
      let free : is_utxo_spent R outpoint ≡ ok false =
        >>=-of_ok (ok_or bitcoin_rpc_error (R.get_tx_out outpoint.txid outpoint.vout)) _
          (ap (ok_or bitcoin_rpc_error) at_unspent) in
      >>=-of_ok (confirmation_blocks R outpoint.txid) _ (
        >>=-of_ok (ok_or bitcoin_rpc_error (R.get_raw_transaction_info outpoint.txid)) _
          (ap (ok_or bitcoin_rpc_error) at_info))
      ∙ >>=-of_ok
          (if ltb blocks U.config.confirmation_threshold then err deposit_not_finalized else ok tt)
          _
          (ap (λ t. if t then err deposit_not_finalized else ok tt)
            (not_below blocks U.config.confirmation_threshold enough))
      ∙ >>=-of_ok
          (generate_deposit_address C T U.nofn_xonly_pk U.signer.address evm_address amount
            U.config.network U.config.user_takes_after)
          _ generated
      ∙ >>=-of_ok (check_utxo_address_and_amount R outpoint deposit.0 amount) _ valid
      ∙ >>=-of_ok (is_utxo_spent R outpoint) _ free
    where
      not_below : (a b : ℕ) → b ≤ a → ltb a b ≡ false
      not_below a b h = ground arith
