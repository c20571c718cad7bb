-- ===== src/Core/Operator/Funded.antt =====
-- What `new_withdrawal_sig` of core/src/operator.rs has checked and sent where it answers.
use clementine.Prelude.{
  ℕ, ◌+◌, ◌-◌, ◌<◌, ◌≤◌, ◌^◌, ◌%◌, ◌≡◌, refl, sym, ap, ◌∙◌, [], ◌∷◌, some, Bool, true, false, not,
  ltb, leb, if◌then◌else◌, arith,
}
use clementine.Prelude.Bytes.{Bytes}
use clementine.Core.Types.{TxOut, Transaction, Utxo}
use clementine.Core.Result.{
  ok_or-eq_ok, or_panicked-eq_ok, ok, err, panicked, ◌>>=◌, or_panicked, ok_or, >>=-eq_ok,
  ok_injective, not_enough_fee_for_operator, secp256k1_error, bitcoin_sighash_taproot_error,
  bitcoin_rpc_error, bitcoin_consensus_encode_error,
}
use clementine.Core.Builder.Transaction.{create_btc_tx, create_tx_ins, sub_amount}
use clementine.Core.Actor.{single_plus_anyone_can_pay, prevouts_one}
use clementine.Core.Operator.{Operator, is_profitable}
use clementine.Core.Operator.Named.{
  NamedBy, check_input-NamedBy, signed_withdrawal, withdrawal_tx_lem,
}
use clementine.Core.Operator.Withdrawal.{
  slice, check_input, withdrawal_tx, check_user_sig, new_withdrawal_sig,
}

sub_amount-eq_ok : (a b c : ℕ) → sub_amount a b ≡ ok c → (b ≤ a) × (c ≡ a - b)
sub_amount-eq_ok a b c e = by_test (leb b a) (leb_sound b a) e
  where
    leb_sound : (b a : ℕ) → leb b a ≡ true → b ≤ a
    leb_sound b a e = ground arith

    by_test :
        (t : Bool)
        → (t ≡ true → b ≤ a)
        → (if t then ok (a - b) else panicked) ≡ ok c
        → (b ≤ a) × (c ≡ a - b)
    by_test true h k = (h refl, sym (ok_injective k))
    by_test false h k = cc

profit_bound :
    (bridge paid net fee : ℕ)
    → paid ≤ bridge
    → net ≡ bridge - paid
    → ltb fee net ≡ true
    → paid + fee < bridge
profit_bound bridge paid net fee h e k = ground arith

module _ {Network : Type 0} (op : Operator Network) where
  -- The fee is set, and what is paid leaves it.
  pub record Profit (paid : ℕ) : Type 0 where
    fee : ℕ
    at_fee : op.config.operator_withdrawal_fee_sats ≡ some fee
    bound : paid + fee < op.config.bridge_amount_sats

  is_profitable-Profit :
      (input paid : ℕ) (t : Bool) → is_profitable op input paid ≡ ok t → t ≡ true → Profit paid
  unfolding is_profitable
  is_profitable-Profit input paid t e at =
      by_test (ltb op.config.bridge_amount_sats ((paid + 2 ^ 64 - input) % 2 ^ 64)) e
    where
      by_test :
          (s : Bool)
          → (if s
              then ok false
              else sub_amount op.config.bridge_amount_sats paid >>= (λ net.
                or_panicked op.config.operator_withdrawal_fee_sats >>= (λ fee. ok (ltb fee net))))
            ≡ ok t
          → Profit paid
      by_test true k = cc
      by_test false k =
          let (net, at_net, k₁) = >>=-eq_ok (sub_amount op.config.bridge_amount_sats paid) _ k in
          let (fee, at_fee, k₂) =
            >>=-eq_ok (or_panicked op.config.operator_withdrawal_fee_sats) _ k₁ in
          let (below, same) = sub_amount-eq_ok op.config.bridge_amount_sats paid net at_net in
          record {
            fee = fee;
            at_fee = or_panicked-eq_ok _ at_fee;
            bound =
                profit_bound op.config.bridge_amount_sats paid net fee below same
                  (ok_injective k₂ ∙ at);
          }

  -- The user has signed its input and its output, with the key of the input.
  pub record UserSigned (sig : Bytes) (input : Utxo) (output : TxOut) : Type 0 where
    bytes : Bytes
    at_bytes : slice 2 32 input.txout.script_pubkey ≡ ok bytes
    key : Bytes
    at_key : op.taproot.xonly_from_slice bytes ≡ some key
    sighash : Bytes
    at_sighash :
        op.sighashes.key_spend
          (create_btc_tx (create_tx_ins (input.outpoint ∷ [])) (output ∷ []))
          0
          (prevouts_one 0 input.txout)
          single_plus_anyone_can_pay
        ≡ some sighash
    verified : op.verify_schnorr sig sighash key ≡ true

  check_user_sig-UserSigned :
      (sig : Bytes) (input : Utxo) (output : TxOut) (u : Unit)
      → check_user_sig op sig input output ≡ ok u
      → UserSigned sig input output
  unfolding check_user_sig
  check_user_sig-UserSigned sig input output u e =
      let (bytes, at_bytes, e₁) = >>=-eq_ok (slice 2 32 input.txout.script_pubkey) _ e in
      let (key, at_key, e₂) =
        >>=-eq_ok (ok_or secp256k1_error (op.taproot.xonly_from_slice bytes)) _ e₁ in
      let (sighash, at_sighash, e₃) =
        >>=-eq_ok
          (ok_or bitcoin_sighash_taproot_error (
            op.sighashes.key_spend
              (create_btc_tx (create_tx_ins (input.outpoint ∷ [])) (output ∷ [])) 0
              (prevouts_one 0 input.txout) single_plus_anyone_can_pay))
          _ e₂ in
      record {
        bytes = bytes;
        at_bytes = at_bytes;
        key = key;
        at_key = ok_or-eq_ok _ _ at_key;
        sighash = sighash;
        at_sighash = ok_or-eq_ok _ _ at_sighash;
        verified = passed (op.verify_schnorr sig sighash key) e₃;
      }
    where
      passed : (t : Bool) → (if t then ok tt else err secp256k1_error) ≡ ok u → t ≡ true
      passed true k = refl
      passed false k = cc

  -- The wallet's answers up to the transaction that is sent.
  pub record Sent (tx : Transaction) (txid : Bytes) : Type 0 where
    funded_tx : Bytes
    at_funded : op.wallet.fund_raw_transaction tx ≡ some funded_tx
    hex : Bytes
    at_hex : op.wallet.sign_raw_transaction_with_wallet funded_tx ≡ some hex
    signed_tx : Transaction
    at_signed : op.codec.deserialize hex ≡ some signed_tx
    at_txid : op.wallet.send_raw_transaction signed_tx ≡ some txid

  -- Where an operator answers a withdrawal and has a client for Citrea, the input is output 0 of the
  -- transaction that Citrea names; what is paid and the operator's fee are together less than the bridge
  -- amount; the user has signed the input and the output with the key of the input; and the wallet was
  -- given the transaction of this input with this signature, of this output and the operator's index to
  -- fund, and what it answered to sign, and what came of that was sent, with the answered txid.
  pub new_withdrawal_sig-Sent :
      (withdrawal_idx : ℕ) (sig : Bytes) (input : Utxo) (output : TxOut) (txid : Bytes)
      → new_withdrawal_sig op withdrawal_idx sig input output ≡ ok txid
      → NamedBy op op.citrea_client withdrawal_idx input.outpoint
        × Profit output.value
        × UserSigned sig input output
        × Sent (signed_withdrawal op sig input output) txid
  unfolding new_withdrawal_sig
  new_withdrawal_sig-Sent withdrawal_idx sig input output txid e =
      let tx = withdrawal_tx op sig input output in
      let (named, at_named, e₁) =
        >>=-eq_ok (check_input op op.citrea_client withdrawal_idx input.outpoint) _ e in
      let (profitable, at_profit, e₂) =
        >>=-eq_ok (is_profitable op input.txout.value output.value) _ e₁ in
      let (enough, at_enough, e₃) =
        >>=-eq_ok (if not profitable then err not_enough_fee_for_operator else ok tt) _ e₂ in
      let (signed, at_signed, e₄) = >>=-eq_ok (check_user_sig op sig input output) _ e₃ in
      let (funded_tx, at_funded, e₅) =
        >>=-eq_ok (ok_or bitcoin_rpc_error (op.wallet.fund_raw_transaction tx)) _ e₄ in
      let (hex, at_hex, e₆) =
        >>=-eq_ok (ok_or bitcoin_rpc_error (op.wallet.sign_raw_transaction_with_wallet funded_tx)) _
          e₅ in
      let (signed_tx, at_tx, e₇) =
        >>=-eq_ok (ok_or bitcoin_consensus_encode_error (op.codec.deserialize hex)) _ e₆ in
      (
        check_input-NamedBy op op.citrea_client withdrawal_idx input.outpoint at_named,
        is_profitable-Profit input.txout.value output.value profitable at_profit
            (passed profitable enough at_enough),
        check_user_sig-UserSigned sig input output signed at_signed,
        record {
          funded_tx = funded_tx;
          at_funded =
              ap op.wallet.fund_raw_transaction (sym (withdrawal_tx_lem op sig input output))
              ∙ ok_or-eq_ok _ _ at_funded;
          hex = hex;
          at_hex = ok_or-eq_ok _ _ at_hex;
          signed_tx = signed_tx;
          at_signed = ok_or-eq_ok _ _ at_tx;
          at_txid = ok_or-eq_ok _ _ e₇;
        },
      )
    where
      passed :
          (t : Bool) (u : Unit)
          → (if not t then err not_enough_fee_for_operator else ok tt) ≡ ok u
          → t ≡ true
      passed true u k = refl
      passed false u k = cc
