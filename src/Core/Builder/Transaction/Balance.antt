-- ===== src/Core/Builder/Transaction/Balance.antt =====
-- The amounts of the transactions: what goes in is what comes out and the fee.
use clementine.Prelude.{
  ℕ, ◌+◌, ◌*◌, ◌^◌, ◌%◌, ◌<◌, ◌≡◌, sym, ap, ◌∙◌, [], ◌∷◌, length, Option, none, some,
}
use clementine.Prelude.Bytes.{Bytes, bytes_eq}
use clementine.Core.Types.{OutPoint, Transaction, Utxo, TxHandler}
use clementine.Core.Result.{ok, or_panicked, >>=-eq_ok, ok_injective}
use clementine.Core.Builder.Script.{
  Scripts, anyone_can_spend_txout, op_return_txout, create_musig2_and_operator_multisig_script,
  generate_relative_timelock_script,
}
use clementine.Core.Builder.Address.{
  Taproot, create_taproot_address, create_musig2_address, create_kickoff_address,
}
use clementine.Core.Builder.Transaction.{
  sub_amount, add_amount, create_btc_tx, create_tx_outs, kickoff_utxo_amount_sats,
  kickoff_tx_min_relay_fee, move_tx_min_relay_fee, create_move_tx, create_kickoff_utxo_tx,
  create_slash_or_take_tx, create_operator_takes_tx, assert, slash_or_take_tx_min_relay_fee,
  operator_takes_tx_min_relay_fee,
}
use clementine.Core.Builder.Transaction.Amounts.{
  total, sub_amount-ok, total-replicate, outputs_of_kickoff, outputs_of_takes, outputs_of_move,
  outputs_of_slash, add_zero, mod_small, add_amount-ok, length-kickoffs,
}

module _ (C : Scripts) {Network : Type 0} (T : Taproot Network) where
  -- The outputs of a move transaction and its fee are the bridge amount.
  pub create_move_tx_balance :
      (deposit_outpoint : OutPoint) (nofn : Bytes) (bridge_amount : ℕ) (network : Network)
      (tx : Transaction)
      → create_move_tx C T deposit_outpoint nofn bridge_amount network ≡ ok tx
      → total tx.output + move_tx_min_relay_fee ≡ bridge_amount
  unfolding create_move_tx create_btc_tx
  create_move_tx_balance deposit_outpoint nofn bridge_amount network tx e =
      let dust = (anyone_can_spend_txout C).value in
      let (musig2, _, e₁) = >>=-eq_ok (create_musig2_address C T nofn network) _ e in
      let (a, f₁, e₂) = >>=-eq_ok (sub_amount bridge_amount move_tx_min_relay_fee) _ e₁ in
      let (b, f₂, e₃) = >>=-eq_ok (sub_amount a dust) _ e₂ in
      outputs_of_move b dust a bridge_amount (total tx.output)
        (ap (λ t. total t.output) (ok_injective e₃))
        (sub_amount-ok bridge_amount move_tx_min_relay_fee f₁) (sub_amount-ok a dust f₂)

  -- The outputs of a kickoff transaction are as many kickoffs as asked for, the change and the output
  -- that anyone can spend; with the fee they are the funding, which is its only input. The product
  -- of the amount and the number of kickoffs must not wrap.
  pub create_kickoff_utxo_tx_balance :
      (funding : Utxo) (nofn operator : Bytes) (network : Network) (n : ℕ) (h : TxHandler)
      → kickoff_utxo_amount_sats * n < 2 ^ 64
      → create_kickoff_utxo_tx C T funding nofn operator network n ≡ ok h
      → (total h.tx.output + kickoff_tx_min_relay_fee n ≡ funding.txout.value)
        × (length h.tx.output ≡ n + 2)
        × (total h.prevouts ≡ funding.txout.value)
  unfolding create_kickoff_utxo_tx create_btc_tx create_tx_outs
  create_kickoff_utxo_tx_balance funding nofn operator network n h small e =
      let dust = (anyone_can_spend_txout C).value in
      let product = kickoff_utxo_amount_sats * n % 2 ^ 64 in
      let (kickoff, _, e₁) =
        >>=-eq_ok
          (create_taproot_address C T
            (create_musig2_and_operator_multisig_script C nofn operator ∷ []) none network)
          _ e in
      let (a, f₁, e₂) = >>=-eq_ok (sub_amount funding.txout.value product) _ e₁ in
      let (b, f₂, e₃) = >>=-eq_ok (sub_amount a dust) _ e₂ in
      let (change, f₃, e₄) = >>=-eq_ok (sub_amount b (kickoff_tx_min_relay_fee n)) _ e₃ in
      let same = ok_injective e₄ in
      (
        outputs_of_kickoff n (kickoff_tx_min_relay_fee n) funding.txout.value product dust a b
            change (total h.tx.output) (mod_small _ small)
            (sub_amount-ok funding.txout.value product f₁) (sub_amount-ok a dust f₂)
            (sub_amount-ok b (kickoff_tx_min_relay_fee n) f₃)
            (sym (total-replicate n kickoff_utxo_amount_sats kickoff.0 _)
              ∙ ap (λ x. total x.tx.output) same),
        sym (ap (λ x. length x.tx.output) same) ∙ length-kickoffs n _ _ _,
        sym (ap (λ x. total x.prevouts) same) ∙ add_zero funding.txout.value,
      )

  -- What a slash or take transaction pays out and its fee are the value of the kickoff that it spends,
  -- where the output that anyone can spend is 330 satoshis.
  pub create_slash_or_take_tx_balance :
      (compute_txid : Transaction → Bytes) (deposit_outpoint : OutPoint) (kickoff_utxo : Utxo)
      (operator : Bytes) (idx : ℕ) (nofn : Bytes) (network : Network) (takes_after bridge : ℕ)
      (h : TxHandler)
      → (anyone_can_spend_txout C).value ≡ 330
      → create_slash_or_take_tx C T compute_txid deposit_outpoint kickoff_utxo operator idx nofn
          network takes_after bridge
        ≡ ok h
      → (total h.tx.output + slash_or_take_tx_min_relay_fee ≡ total h.prevouts)
        × (total h.prevouts ≡ kickoff_utxo.txout.value)
  unfolding create_slash_or_take_tx create_btc_tx op_return_txout
  create_slash_or_take_tx_balance compute_txid deposit_outpoint kickoff_utxo operator idx nofn
        network takes_after bridge h dust330 x =
      let value = kickoff_utxo.txout.value in
      let (move, _, x₁) = >>=-eq_ok (create_move_tx C T deposit_outpoint nofn bridge network) _ x in
      let (kickoff, _, x₂) = >>=-eq_ok (create_kickoff_address C T nofn operator network) _ x₁ in
      let (_, _, x₃) =
        >>=-eq_ok (assert (bytes_eq kickoff.0 kickoff_utxo.txout.script_pubkey)) _ x₂ in
      let (slash, _, x₄) =
        >>=-eq_ok
          (create_taproot_address C T
            (generate_relative_timelock_script C operator takes_after ∷ []) (some nofn) network)
          _ x₃ in
      let (a, f₁, x₅) = >>=-eq_ok (sub_amount value 330) _ x₄ in
      let (b, f₂, x₆) = >>=-eq_ok (sub_amount a slash_or_take_tx_min_relay_fee) _ x₅ in
      let same = ok_injective x₆ in
      let prev = sym (ap (λ z. total z.prevouts) same) ∙ add_zero value in
      (
        outputs_of_slash value a b (anyone_can_spend_txout C).value (total h.tx.output)
              (sub_amount-ok value 330 f₁) (sub_amount-ok a slash_or_take_tx_min_relay_fee f₂)
              dust330 (ap (λ z. total z.tx.output) same)
            ∙ sym prev,
        prev,
      )

  -- What an operator's take transaction pays out and its fee are what it spends: the output of the
  -- move transaction and that of the slash or take transaction.
  pub create_operator_takes_tx_balance :
      (bridge_fund : OutPoint) (slash_or_take : Utxo) (operator nofn : Bytes) (network : Network)
      (takes_after bridge : ℕ) (wallet : Option Bytes) (h : TxHandler)
      → create_operator_takes_tx C T bridge_fund slash_or_take operator nofn network takes_after
          bridge wallet
        ≡ ok h
      → total h.tx.output + operator_takes_tx_min_relay_fee ≡ total h.prevouts
  unfolding create_operator_takes_tx create_btc_tx
  create_operator_takes_tx_balance bridge_fund slash_or_take operator nofn network takes_after
        bridge wallet h x =
      let dust = (anyone_can_spend_txout C).value in
      let value = slash_or_take.txout.value in
      let (_, _, x₁) = >>=-eq_ok (or_panicked wallet) _ x in
      let (musig2, _, x₂) = >>=-eq_ok (create_musig2_address C T nofn network) _ x₁ in
      let (address, _, x₃) =
        >>=-eq_ok
          (create_taproot_address C T
            (generate_relative_timelock_script C operator takes_after ∷ []) (some nofn) network)
          _ x₂ in
      let (_, _, x₄) =
        >>=-eq_ok (assert (bytes_eq address.0 slash_or_take.txout.script_pubkey)) _ x₃ in
      let (a, f₁, x₅) = >>=-eq_ok (add_amount value bridge) _ x₄ in
      let (b, f₂, x₆) = >>=-eq_ok (sub_amount a 190) _ x₅ in
      let (c, f₃, x₇) = >>=-eq_ok (sub_amount b 230) _ x₆ in
      let (d, f₄, x₈) = >>=-eq_ok (sub_amount c dust) _ x₇ in
      let (paid, f₅, x₉) = >>=-eq_ok (sub_amount d dust) _ x₈ in
      let (e, f₆, y) = >>=-eq_ok (sub_amount bridge 190) _ x₉ in
      let (moved, f₇, z) = >>=-eq_ok (sub_amount e dust) _ y in
      let same = ok_injective z in
      outputs_of_takes value bridge dust a b c d paid e moved (total h.tx.output) (total h.prevouts)
        (add_amount-ok value bridge f₁) (sub_amount-ok a 190 f₂) (sub_amount-ok b 230 f₃)
        (sub_amount-ok c dust f₄) (sub_amount-ok d dust f₅) (sub_amount-ok bridge 190 f₆)
        (sub_amount-ok e dust f₇) (ap (λ w. total w.tx.output) same)
        (ap (λ w. total w.prevouts) same)
