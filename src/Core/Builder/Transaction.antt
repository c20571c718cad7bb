-- ===== src/Core/Builder/Transaction.antt =====
-- core/src/builder/transaction.rs
pub mod Amounts
pub mod Balance
use clementine.Prelude.{
  ℕ, zero, suc, ◌+◌, ◌-◌, ◌*◌, ◌^◌, ◌%◌, List, [], ◌∷◌, ◌++◌, map, replicate, length, ltb, leb,
  if◌then◌else◌, Option, none, some, Bool,
}
use clementine.Prelude.Bytes.{Bytes, bytes_eq}
use clementine.Core.Types.{OutPoint, TxOut, TxIn, Transaction, Utxo, TxHandler}
use clementine.Core.Result.{Result, ok, err, panicked, ◌>>=◌, or_panicked}
use clementine.Core.Utils.{usize_to_var_len_bytes}
use clementine.Core.Builder.Script.{
  Scripts, anyone_can_spend_txout, op_return_txout, create_deposit_script,
  create_musig2_and_operator_multisig_script, generate_relative_timelock_script,
}
use clementine.Core.Builder.Address.{
  Taproot, create_taproot_address, generate_deposit_address, create_musig2_address,
  create_kickoff_address,
}

abbrev pub move_tx_min_relay_fee : ℕ
move_tx_min_relay_fee = 190

abbrev pub slash_or_take_tx_min_relay_fee : ℕ
slash_or_take_tx_min_relay_fee = 240

abbrev pub operator_takes_tx_min_relay_fee : ℕ
operator_takes_tx_min_relay_fee = 230

abbrev pub kickoff_utxo_amount_sats : ℕ
kickoff_utxo_amount_sats = 100_000

-- `Sub` and `Add` of the type `Amount`, which panic where the result is no `u64`.
abbrev pub sub_amount : ℕ → ℕ → Result ℕ
sub_amount a b = if leb b a then ok (a - b) else panicked

abbrev pub add_amount : ℕ → ℕ → Result ℕ
add_amount a b = if ltb (a + b) (2 ^ 64) then ok (a + b) else panicked

-- `assert!`
abbrev pub assert : Bool → Result Unit
assert b = if b then ok tt else panicked

unfoldable pub create_btc_tx : List TxIn → List TxOut → Transaction
create_btc_tx tx_ins tx_outs = record {
  version = 2;
  lock_time = 0;
  input = tx_ins;
  output = tx_outs;
}

-- `Sequence::ENABLE_RBF_NO_LOCKTIME`
abbrev pub enable_rbf_no_locktime : ℕ
enable_rbf_no_locktime = 0xfffffffd

-- `Sequence::from_height` of a `u16`.
unfoldable pub create_tx_ins_with_sequence : List OutPoint → ℕ → List TxIn
create_tx_ins_with_sequence utxos height =
    map
      (λ utxo. record { previous_output = utxo; sequence = height; script_sig = []; witness = [] })
      utxos

unfoldable pub create_tx_ins : List OutPoint → List TxIn
create_tx_ins outpoints =
    map
      (λ utxo. record {
        previous_output = utxo;
        sequence = enable_rbf_no_locktime;
        script_sig = [];
        witness = [];
      })
      outpoints

unfoldable pub create_tx_outs : List (ℕ × Bytes) → List TxOut
create_tx_outs pairs = map (λ pair. record { value = pair.0; script_pubkey = pair.1 }) pairs

-- The fee of a kickoff transaction, a `usize`.
unfoldable pub kickoff_tx_min_relay_fee : ℕ → ℕ
kickoff_tx_min_relay_fee num_kickoff_utxos_per_tx =
    if leb num_kickoff_utxos_per_tx 250
    then 154 + 43 * num_kickoff_utxos_per_tx
    else (156 + 43 * num_kickoff_utxos_per_tx) % 2 ^ 64

module _ (C : Scripts) {Network : Type 0} (T : Taproot Network) where
  unfoldable pub create_move_tx : OutPoint → Bytes → ℕ → Network → Result Transaction
  create_move_tx deposit_outpoint nofn_xonly_pk bridge_amount_sats network =
      let anyone_can_spend = anyone_can_spend_txout C in
      create_musig2_address C T nofn_xonly_pk network >>= (λ musig2.
        sub_amount bridge_amount_sats move_tx_min_relay_fee >>= (λ a.
          sub_amount a anyone_can_spend.value >>= (λ value. ok (
            create_btc_tx (create_tx_ins (deposit_outpoint ∷ []))
              (record { value = value; script_pubkey = musig2.0 } ∷ anyone_can_spend ∷ [])))))

  unfoldable pub create_move_tx_handler :
      OutPoint → Bytes → Bytes → Bytes → Network → ℕ → ℕ → Result TxHandler
  create_move_tx_handler deposit_outpoint evm_address recovery_taproot_address nofn_xonly_pk network
        user_takes_after bridge_amount_sats =
      create_move_tx deposit_outpoint nofn_xonly_pk bridge_amount_sats network >>= (λ move_tx.
        generate_deposit_address C T nofn_xonly_pk recovery_taproot_address evm_address
          bridge_amount_sats network user_takes_after
        >>= (λ deposit. ok (record {
          tx = move_tx;
          prevouts = record { value = bridge_amount_sats; script_pubkey = deposit.0 } ∷ [];
          scripts =
              (create_deposit_script C nofn_xonly_pk evm_address bridge_amount_sats ∷ []) ∷ [];
          taproot_spend_infos = deposit.1 ∷ [];
        })))

  -- `KICKOFF_UTXO_AMOUNT_SATS.to_sat() * n` is a product of `u64`, and wraps as in a release build.
  unfoldable pub create_kickoff_utxo_tx : Utxo → Bytes → Bytes → Network → ℕ → Result TxHandler
  create_kickoff_utxo_tx funding_utxo nofn_xonly_pk operator_xonly_pk network
        num_kickoff_utxos_per_tx =
      let anyone_can_spend = anyone_can_spend_txout C in
      let script = create_musig2_and_operator_multisig_script C nofn_xonly_pk operator_xonly_pk in
      create_taproot_address C T (script ∷ []) none network >>= (λ musig2_and_operator.
        sub_amount funding_utxo.txout.value
          (kickoff_utxo_amount_sats * num_kickoff_utxos_per_tx % 2 ^ 64)
        >>= (λ a. sub_amount a anyone_can_spend.value >>= (λ b.
            sub_amount b (kickoff_tx_min_relay_fee num_kickoff_utxos_per_tx) >>= (λ change_amount.
              ok (record {
                tx = create_btc_tx (create_tx_ins (funding_utxo.outpoint ∷ [])) (
                    create_tx_outs (
                      replicate num_kickoff_utxos_per_tx
                        (kickoff_utxo_amount_sats, musig2_and_operator.0)
                      ++ ((change_amount, T.p2tr operator_xonly_pk none network)
                          ∷ (anyone_can_spend.value, anyone_can_spend.script_pubkey)
                          ∷ [])));
                prevouts = funding_utxo.txout ∷ [];
                scripts = [] ∷ [];
                taproot_spend_infos = [];
              })))))

  -- `compute_txid` of the crate `bitcoin` is an argument; a txid is its bytes. The limit of
  -- `PushBytesBuf` is far above the 40 bytes that are pushed.
  unfoldable pub create_slash_or_take_tx :
      (Transaction → Bytes)
      → OutPoint
      → Utxo
      → Bytes
      → ℕ
      → Bytes
      → Network
      → ℕ
      → ℕ
      → Result TxHandler
  create_slash_or_take_tx compute_txid deposit_outpoint kickoff_utxo operator_xonly_pk operator_idx
        nofn_xonly_pk network operator_takes_after bridge_amount_sats =
      let musig2_and_operator_script =
        create_musig2_and_operator_multisig_script C nofn_xonly_pk operator_xonly_pk in
      let relative_timelock_script =
        generate_relative_timelock_script C operator_xonly_pk operator_takes_after in
      create_move_tx deposit_outpoint nofn_xonly_pk bridge_amount_sats network >>= (λ move_tx.
        create_kickoff_address C T nofn_xonly_pk operator_xonly_pk network >>= (λ kickoff.
          assert (bytes_eq kickoff.0 kickoff_utxo.txout.script_pubkey) >>= (λ checked.
            create_taproot_address C T (relative_timelock_script ∷ []) (some nofn_xonly_pk) network
            >>= (λ slash_or_take. sub_amount kickoff_utxo.txout.value 330 >>= (λ a.
                sub_amount a slash_or_take_tx_min_relay_fee >>= (λ value. ok (record {
                  tx = create_btc_tx (create_tx_ins (kickoff_utxo.outpoint ∷ [])) (
                      record { value = value; script_pubkey = slash_or_take.0 }
                      ∷ anyone_can_spend_txout C
                      ∷ op_return_txout C
                          (compute_txid move_tx ++ usize_to_var_len_bytes operator_idx)
                      ∷ []);
                  prevouts = kickoff_utxo.txout ∷ [];
                  scripts = (musig2_and_operator_script ∷ []) ∷ [];
                  taproot_spend_infos = kickoff.1 ∷ [];
                })))))))

  -- The wallet address stands as its script; `none` is an address of another network.
  unfoldable pub create_operator_takes_tx :
      OutPoint → Utxo → Bytes → Bytes → Network → ℕ → ℕ → Option Bytes → Result TxHandler
  create_operator_takes_tx bridge_fund_outpoint slash_or_take_utxo operator_xonly_pk nofn_xonly_pk
        network operator_takes_after bridge_amount_sats operator_wallet_address =
      let dust = (anyone_can_spend_txout C).value in
      let relative_timelock_script =
        generate_relative_timelock_script C operator_xonly_pk operator_takes_after in
      or_panicked operator_wallet_address >>= (λ operator_wallet_address_checked.
        create_musig2_address C T nofn_xonly_pk network >>= (λ musig2.
          create_taproot_address C T (relative_timelock_script ∷ []) (some nofn_xonly_pk) network
          >>= (λ slash_or_take.
              assert (bytes_eq slash_or_take.0 slash_or_take_utxo.txout.script_pubkey)
              >>= (λ checked. add_amount slash_or_take_utxo.txout.value bridge_amount_sats >>= (λ a.
                  sub_amount a move_tx_min_relay_fee >>= (λ b.
                    sub_amount b operator_takes_tx_min_relay_fee >>= (λ c.
                      sub_amount c dust >>= (λ d. sub_amount d dust >>= (λ value.
                        sub_amount bridge_amount_sats move_tx_min_relay_fee >>= (λ e.
                          sub_amount e dust >>= (λ moved. ok (record {
                            tx =
                                create_btc_tx
                                  (create_tx_ins (bridge_fund_outpoint ∷ [])
                                    ++ create_tx_ins_with_sequence
                                        (slash_or_take_utxo.outpoint ∷ [])
                                        (operator_takes_after % 2 ^ 16))
                                  (record {
                                    value = value;
                                    script_pubkey = operator_wallet_address_checked;
                                  }
                                    ∷ anyone_can_spend_txout C
                                    ∷ []);
                            prevouts =
                                record { value = moved; script_pubkey = musig2.0 }
                                ∷ slash_or_take_utxo.txout
                                ∷ [];
                            scripts = [] ∷ (relative_timelock_script ∷ []) ∷ [];
                            taproot_spend_infos = musig2.1 ∷ slash_or_take.1 ∷ [];
                          }))))))))))))
