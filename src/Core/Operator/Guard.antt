-- ===== src/Core/Operator/Guard.antt =====
-- The check of `new_deposit` on the funding is enough for the kickoff transaction.
use clementine.Prelude.{
  ℕ, ◌+◌, ◌-◌, ◌*◌, ◌%◌, ◌^◌, ◌<◌, ◌≤◌, ◌≡◌, ap, ◌∙◌, some, false, ltb, [], ◌∷◌, arith,
}
use clementine.Core.Types.{Utxo, SpendInfo, TxHandler}
use clementine.Core.Result.{ok, or_panicked, >>=-of_ok}
use clementine.Core.Builder.Script.{
  anyone_can_spend_txout, create_musig2_and_operator_multisig_script,
}
use clementine.Core.Builder.Address.{create_taproot_address, taproot_leaves}
use clementine.Core.Builder.Transaction.{
  kickoff_utxo_amount_sats, kickoff_tx_min_relay_fee, create_kickoff_utxo_tx, sub_amount,
}
use clementine.Core.Builder.Transaction.Amounts.{sub_amount_fits, mod_small}
use clementine.Core.Operator.{Operator, funding_needed}

covers : (value needed : ℕ) → ltb value needed ≡ false → needed ≤ value
covers value needed h = ground arith

amounts :
    (value product fee dust : ℕ)
    → dust ≡ 330
    → product + fee + 330 < 2 ^ 64
    → ltb value ((product + fee + 330) % 2 ^ 64) ≡ false
    → (product % 2 ^ 64 ≤ value)
      × (dust ≤ value - product % 2 ^ 64)
      × (fee ≤ value - product % 2 ^ 64 - dust)
amounts value product fee dust at330 small passes =
    let same = mod_small (product + fee + 330) small in
    let room = covers value ((product + fee + 330) % 2 ^ 64) passes in
    let product_fits = mod_small product (omega (arith, small)) in
    (
      omega (arith, room, same, product_fits),
      omega (arith, room, same, product_fits, at330),
      omega (arith, room, same, product_fits, at330),
    )

module _ {Network : Type 0} (op : Operator Network) where
  -- Where the library builds the taproot output of the kickoffs, the output that anyone can spend is
  -- 330 satoshis, and the funding that is needed is a `u64`, a funding that passes the check of
  -- `new_deposit` is enough: the kickoff transaction is built without a panic.
  pub funding_is_enough :
      (funding : Utxo) (info : SpendInfo)
      → op.taproot.finalize
          (taproot_leaves (
            create_musig2_and_operator_multisig_script op.scripts op.nofn_xonly_pk
              op.signer.xonly_public_key
            ∷ []))
          op.taproot.unspendable_xonly_pubkey
        ≡ some info
      → (anyone_can_spend_txout op.scripts).value ≡ 330
      → kickoff_utxo_amount_sats * op.config.operator_num_kickoff_utxos_per_tx
          + kickoff_tx_min_relay_fee op.config.operator_num_kickoff_utxos_per_tx
          + 330
        < 2 ^ 64
      → ltb funding.txout.value (funding_needed op) ≡ false
      → (h : TxHandler) × (create_kickoff_utxo_tx op.scripts op.taproot funding op.nofn_xonly_pk
            op.signer.xonly_public_key op.config.network op.config.operator_num_kickoff_utxos_per_tx
          ≡ ok h)
  unfolding create_kickoff_utxo_tx create_taproot_address funding_needed
  funding_is_enough funding info finalized dust small passes =
      let n = op.config.operator_num_kickoff_utxos_per_tx in
      let value = funding.txout.value in
      let product = kickoff_utxo_amount_sats * n % 2 ^ 64 in
      let dust330 = (anyone_can_spend_txout op.scripts).value in
      let fee = kickoff_tx_min_relay_fee n in
      let enough = amounts value (kickoff_utxo_amount_sats * n) fee dust330 dust small passes in
      (
        _,
        >>=-of_ok _ _ (>>=-of_ok _ _ (ap or_panicked finalized))
            ∙ >>=-of_ok (sub_amount value product) _ (sub_amount_fits value product enough.0)
            ∙ >>=-of_ok (sub_amount (value - product) dust330) _
                (sub_amount_fits (value - product) dust330 enough.1)
            ∙ >>=-of_ok (sub_amount (value - product - dust330) fee) _
                (sub_amount_fits (value - product - dust330) fee enough.2),
      )
