-- ===== src/Core/Operator.antt =====
-- The operator of core/src/operator.rs: new deposits and the profit of a withdrawal.
pub mod Kickoffs
pub mod Deposit
pub mod Unshared
pub mod Guard
pub mod Profit
pub mod Withdrawal
pub mod Proved
pub mod Named
pub mod Funded
pub mod Start
use clementine.Prelude.{
  ℕ, zero, suc, ◌+◌, ◌-◌, ◌*◌, ◌%◌, ◌^◌, List, [], ◌∷◌, Option, none, some, Bool, true, false, ltb,
  leb, if◌then◌else◌, get_elem?, ◌≡◌,
}
use clementine.Prelude.Bytes.{Bytes}
use clementine.Circuits.Sha256.{Sha256, sha256_hash}
use clementine.Core.Types.{OutPoint, TxOut, TxIn, Transaction, Utxo, TxHandler}
use clementine.Core.Result.{
  Result, ok, err, panicked, ◌>>=◌, or_panicked, ok_or, operator_funding_utxo_not_found,
  operator_funding_utxo_amount_not_enough,
}
use clementine.Core.Builder.Script.{Scripts, to_be_bytes}
use clementine.Core.Builder.Address.{Taproot}
use clementine.Core.Builder.Transaction.{
  kickoff_utxo_amount_sats, kickoff_tx_min_relay_fee, create_kickoff_utxo_tx, sub_amount,
}
use clementine.Core.Witness.{handle_taproot_witness_new}
use clementine.Core.Actor.{SighashType, SighashCache, Actor, sign, sign_taproot_pubkey_spend}
use clementine.Core.ExtendedRpc.{Node, Wallet, check_deposit_utxo}
use clementine.Core.Config.{BridgeConfig}
use clementine.Core.Database.{
  Codec, Database, get_kickoff_utxo, get_unused_kickoff_utxo_and_increase_idx, get_funding_utxo,
  set_funding_utxo, save_kickoff_utxo, add_deposit_kickoff_generator_tx,
}
use clementine.Core.Types.{SpendInfo}

-- The calls of Citrea's bridge contract, named by their selectors in core/src/operator.rs, from the bytes
-- of their argument to the characters of the response.
pub record Citrea : Type 0 where
  pub call_471ba1e3 : Bytes → Option Bytes
  pub call_c045577b : Bytes → Option Bytes
  pub call_11e53a01 : Bytes → Option Bytes

-- An operator with the libraries and the node that it works with.
pub record Operator (Network : Type 0) : Type 0 where
  pub hasher : Sha256
  pub scripts : Scripts
  pub taproot : Taproot Network
  pub codec : Codec
  pub compute_txid : Transaction → Bytes
  pub control_block : SpendInfo → Bytes → Option Bytes
  pub rpc : Node
  pub wallet : Wallet
  pub citrea_client : Option Citrea
  pub verify_schnorr : Bytes → Bytes → Bytes → Bool
  pub taproot_signature : Bytes → SighashType → Bytes
  pub sighashes : SighashCache
  pub signer : Actor
  pub config : BridgeConfig Network
  pub nofn_xonly_pk : Bytes
  pub idx : ℕ

module _ {Network : Type 0} (op : Operator Network) where
  -- The digest that identifies the operator's kickoff for a deposit.
  unfoldable pub kickoff_sig_hash : OutPoint → OutPoint → Bytes
  kickoff_sig_hash deposit_outpoint kickoff_outpoint = sha256_hash op.hasher (
      deposit_outpoint.txid
      ∷ to_be_bytes 4 deposit_outpoint.vout
      ∷ kickoff_outpoint.txid
      ∷ to_be_bytes 4 kickoff_outpoint.vout
      ∷ [])

  -- A kickoff with the operator's signature for the deposit.
  abbrev pub signed : OutPoint → Utxo → Utxo × Bytes
  signed deposit_outpoint kickoff_utxo =
      (kickoff_utxo, sign op.signer (kickoff_sig_hash deposit_outpoint kickoff_utxo.outpoint))

  -- The funding that a kickoff transaction needs.
  unfoldable pub funding_needed : ℕ
  funding_needed =
      (kickoff_utxo_amount_sats * op.config.operator_num_kickoff_utxos_per_tx
        + kickoff_tx_min_relay_fee op.config.operator_num_kickoff_utxos_per_tx
        + 330)
      % 2 ^ 64

  -- The kickoff transaction, signed with its key, whose outputs are the kickoffs and the change.
  unfoldable pub sign_kickoff_tx : Utxo → Result TxHandler
  sign_kickoff_tx funding_utxo =
      create_kickoff_utxo_tx op.scripts op.taproot funding_utxo op.nofn_xonly_pk
        op.signer.xonly_public_key op.config.network op.config.operator_num_kickoff_utxos_per_tx
      >>= (λ kickoff_tx_handler.
          sign_taproot_pubkey_spend op.signer op.sighashes kickoff_tx_handler 0 none >>= (λ sig.
            handle_taproot_witness_new op.control_block kickoff_tx_handler (sig ∷ []) 0 none))

  -- The last branch of `new_deposit`: a new kickoff transaction, its rows and the new funding.
  unfoldable pub create_kickoffs : OutPoint → Database → Result ((Utxo × Bytes) × Database)
  create_kickoffs deposit_outpoint db =
      let n = op.config.operator_num_kickoff_utxos_per_tx in
      ok_or (operator_funding_utxo_not_found op.signer.address) (get_funding_utxo db)
      >>= (λ funding_utxo.
          (if ltb funding_utxo.txout.value funding_needed
            then err (operator_funding_utxo_amount_not_enough op.signer.address)
            else ok tt)
          >>= (λ enough. sign_kickoff_tx funding_utxo >>= (λ kickoff_tx_handler.
              or_panicked (get_elem? kickoff_tx_handler.tx.output n) >>= (λ change.
                or_panicked (get_elem? kickoff_tx_handler.tx.output 0) >>= (λ kickoff.
                  let txid = op.compute_txid kickoff_tx_handler.tx in
                  let change_utxo : Utxo = record {
                    outpoint = record { txid = txid; vout = n % 2 ^ 32 };
                    txout = change;
                  } in
                  let kickoff_utxo : Utxo = record {
                    outpoint = record { txid = txid; vout = 0 };
                    txout = kickoff;
                  } in
                  save_kickoff_utxo deposit_outpoint kickoff_utxo db >>= (λ db₁.
                    add_deposit_kickoff_generator_tx txid (op.codec.raw_hex kickoff_tx_handler.tx) n
                      funding_utxo.outpoint.txid db₁
                    >>= (λ db₂. ok (
                      signed deposit_outpoint kickoff_utxo,
                      set_funding_utxo change_utxo db₂,
                    ))))))))

  abbrev pub use_unused : OutPoint → Option Utxo → Database → Result ((Utxo × Bytes) × Database)
  use_unused deposit_outpoint (some unused_kickoff_utxo) db =
      save_kickoff_utxo deposit_outpoint unused_kickoff_utxo db
      >>= (λ db₁. ok (signed deposit_outpoint unused_kickoff_utxo, db₁))
  use_unused deposit_outpoint none db = create_kickoffs deposit_outpoint db

  -- An unused kickoff is taken where there is one.
  unfoldable pub use_or_create_kickoff : OutPoint → Database → Result ((Utxo × Bytes) × Database)
  use_or_create_kickoff deposit_outpoint db =
      get_unused_kickoff_utxo_and_increase_idx op.codec db
      >>= (λ unused. use_unused deposit_outpoint unused.0 unused.1)

  -- A deposit that has a kickoff keeps it.
  abbrev pub answer_with : OutPoint → Option Utxo → Database → Result ((Utxo × Bytes) × Database)
  answer_with deposit_outpoint (some kickoff_utxo) db =
      ok (signed deposit_outpoint kickoff_utxo, db)
  answer_with deposit_outpoint none db = use_or_create_kickoff deposit_outpoint db

  -- `new_deposit`: the answer, and the tables that its transaction commits.
  unfoldable pub new_deposit :
      OutPoint → Bytes → Bytes → Database → Result ((Utxo × Bytes) × Database)
  new_deposit deposit_outpoint recovery_taproot_address evm_address db =
      check_deposit_utxo op.rpc op.scripts op.taproot op.nofn_xonly_pk deposit_outpoint
        recovery_taproot_address evm_address op.config.bridge_amount_sats
        op.config.confirmation_threshold op.config.network op.config.user_takes_after
      >>= (λ checked. answer_with deposit_outpoint (get_kickoff_utxo deposit_outpoint db) db)

  -- `is_profitable`; `wrapping_sub` is the difference modulo `2 ^ 64`, the plain one panics.
  unfoldable pub is_profitable : ℕ → ℕ → Result Bool
  is_profitable input_amount withdrawal_amount =
      if ltb op.config.bridge_amount_sats ((withdrawal_amount + 2 ^ 64 - input_amount) % 2 ^ 64)
      then ok false
      else sub_amount op.config.bridge_amount_sats withdrawal_amount >>= (λ net_profit.
        or_panicked op.config.operator_withdrawal_fee_sats >>= (λ fee. ok (ltb fee net_profit)))

  -- A call of the operator's interface that changes its tables. A call that fails leaves them.
  pub data Step (db : Database) : Database → Type 0 where
    deposited :
        (deposit_outpoint : OutPoint) (recovery evm : Bytes) (answer : Utxo × Bytes)
        (db' : Database)
        → new_deposit deposit_outpoint recovery evm db ≡ ok (answer, db')
        → Step db db'
    funded : (utxo : Utxo) → Step db (set_funding_utxo utxo db)
