-- ===== src/Core/User.antt =====
-- The user of core/src/user.rs.
pub mod Withdraws
pub mod Deposits
use clementine.Prelude.{ℕ, List, [], ◌∷◌, none, some, false}
use clementine.Prelude.Bytes.{Bytes}
use clementine.Core.Types.{OutPoint, TxOut, Utxo}
use clementine.Core.Result.{Result, ok, ◌>>=◌, ok_or, bitcoin_rpc_error}
use clementine.Core.Config.{BridgeConfig}
use clementine.Core.Builder.Script.{Scripts}
use clementine.Core.Builder.Address.{Taproot, generate_deposit_address}
use clementine.Core.Builder.Transaction.{create_btc_tx, create_tx_ins}
use clementine.Core.Actor.{
  SighashCache, Actor, single_plus_anyone_can_pay, sign_taproot_pubkey_spend_tx_with_sighash,
}
use clementine.Core.Musig2.{Musig2, from_musig2_pks}
use clementine.Core.ExtendedRpc.{Wallet, send_to_address}

abbrev pub withdrawal_empty_utxo_sats : ℕ
withdrawal_empty_utxo_sats = 550

pub record User (Network : Type 0) : Type 0 where
  pub rpc : Wallet
  pub signer : Actor
  pub config : BridgeConfig Network
  pub nofn_xonly_pk : Bytes

-- `User::new`, with its signer.
unfoldable pub new :
    {Network KeyAggContext : Type 0}
    → Musig2 KeyAggContext
    → Wallet
    → Actor
    → BridgeConfig Network
    → Result (User Network)
new M rpc signer config =
    from_musig2_pks M config.verifiers_public_keys none false >>= (λ nofn_xonly_pk.
      ok (record { rpc = rpc; signer = signer; config = config; nofn_xonly_pk = nofn_xonly_pk }))

module _ {Network : Type 0} (U : User Network) where
  unfoldable pub get_deposit_address : Scripts → Taproot Network → Bytes → Result Bytes
  get_deposit_address C T evm_address =
      generate_deposit_address C T U.nofn_xonly_pk U.signer.address evm_address
        U.config.bridge_amount_sats U.config.network U.config.user_takes_after
      >>= (λ deposit. ok deposit.0)

  unfoldable pub deposit_tx : Scripts → Taproot Network → Bytes → Result OutPoint
  deposit_tx C T evm_address =
      get_deposit_address C T evm_address
      >>= (λ deposit_address. send_to_address U.rpc deposit_address U.config.bridge_amount_sats)

  -- The output that is spent, the output that is paid, and the signature of both.
  unfoldable pub generate_withdrawal_transaction_and_signature :
      SighashCache → Bytes → ℕ → Result ((Utxo × TxOut) × Bytes)
  generate_withdrawal_transaction_and_signature H withdrawal_address withdrawal_amount =
      send_to_address U.rpc U.signer.address withdrawal_empty_utxo_sats >>= (λ dust_outpoint.
        let dust_utxo : Utxo = record {
          outpoint = dust_outpoint;
          txout = record { value = withdrawal_empty_utxo_sats; script_pubkey = U.signer.address };
        } in
        let txout : TxOut = record {
          value = withdrawal_amount;
          script_pubkey = withdrawal_address;
        } in
        sign_taproot_pubkey_spend_tx_with_sighash U.signer H
          (create_btc_tx (create_tx_ins (dust_utxo.outpoint ∷ [])) (txout ∷ []))
          (dust_utxo.txout ∷ []) 0 (some single_plus_anyone_can_pay)
        >>= (λ sig. ok ((dust_utxo, txout), sig)))
