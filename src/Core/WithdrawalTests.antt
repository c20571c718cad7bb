-- ===== src/Core/WithdrawalTests.antt =====
-- Runs of the operator's withdrawals, and of a user's withdrawals and deposits, with the stand-ins of the other tests.
use clementine.Prelude.{
  arith, ℕ, ◌≡◌, ◌<◌, ◌↔◌, refl, sym, ap, ◌∙◌, List, [], ◌∷◌, ◌++◌, none, some, true, if◌then◌else◌,
  length, get_elem?, replicate, reverse,
}
use clementine.Prelude.Bytes.{Bytes, bytes_eq, bytes_eq_refl}
use clementine.Core.Types.{TxOut, Utxo}
use clementine.Core.Result.{Result, ok}
use clementine.Core.Actor.{prevouts_for, sign_with_tweak, sign_taproot_pubkey_spend_tx_with_sighash}
use clementine.Core.Musig2.{tweaked, create_key_agg_ctx, from_musig2_pks}
use clementine.Core.Database.{
  Database, GeneratorTx, get_funding_utxo, set_funding_utxo, get_deposit_kickoff_generator_tx,
}
use clementine.Core.Operator.{Operator, is_profitable}
use clementine.Core.Operator.Unshared.{no_rows}
use clementine.Core.Operator.Withdrawal.{check_input, check_user_sig, new_withdrawal_sig}
use clementine.Core.Operator.Named.{NamedBy, signed_withdrawal}
use clementine.Core.Operator.Funded.{Profit, UserSigned, Sent, new_withdrawal_sig-Sent}
use clementine.Core.Operator.Proved.{search_from, pending_txs}
use clementine.Core.Operator.Proved.Search.{Chain, pending_txs_iff}
use clementine.Core.ExtendedRpc.{send_to_address}
use clementine.Core.Operator.Start
use clementine.Core.Operator.Start.{fund, with_key, new-again}
use clementine.Core.User.{User, generate_withdrawal_transaction_and_signature}
use clementine.Core.Utils.{ilog2}
use clementine.Core.Builder.Script.{create_deposit_script, generate_relative_timelock_script}
use clementine.Core.Builder.Address.{
  leaves_from, taproot_leaves, create_taproot_address, generate_deposit_address,
}
use clementine.Core.ExtendedRpc.{check_deposit_utxo}
use clementine.Core.User.{get_deposit_address}
use clementine.Core.User.Deposits.{deposit-accepted}
use clementine.Core.User.Withdraws.{generate_withdrawal-accepted}
use clementine.Core.Standins.{libraries}
use clementine.Core.OperatorTests.{deposit_tx, operator}

abbrev user_key : Bytes
user_key = replicate 32 8

abbrev user : User (Unit {0})
user = record {
  rpc = operator.wallet;
  signer = record {
    keypair = record { public_key = 2 ∷ user_key; secret_key = 8 ∷ [] };
    xonly_public_key = user_key;
    address = 81 ∷ 32 ∷ user_key;
    sign_schnorr = λ digest. user_key ++ digest;
    sign_schnorr_tweaked = λ root digest. some (user_key ++ digest);
  };
  config = operator.config;
  nofn_xonly_pk = 2 ∷ [];
}

abbrev input : Utxo
input = record {
  outpoint = record { txid = 1 ∷ []; vout = 0 };
  txout = record { value = 550; script_pubkey = 81 ∷ 32 ∷ user_key };
}

abbrev output : TxOut
output = record { value = 994_000; script_pubkey = 7 ∷ [] }

abbrev user_sig : Bytes
user_sig = user_key ++ (9 ∷ [])

withdraws :
    ◌≡◌ {A = Result ((Utxo × TxOut) × Bytes)}
      (generate_withdrawal_transaction_and_signature user operator.sighashes (7 ∷ []) 994_000)
      (ok ((input, output), user_sig))
unfolding generate_withdrawal_transaction_and_signature send_to_address
    sign_taproot_pubkey_spend_tx_with_sighash prevouts_for sign_with_tweak
withdraws = refl

some_injective : {A : Type 0} {a b : A} → some a ≡ some b → a ≡ b
some_injective e = cc e

key_verifies :
    (digest s : Bytes)
    → user.signer.sign_schnorr_tweaked none digest ≡ some s
    → operator.verify_schnorr s digest user_key ≡ true
key_verifies digest s e =
    ap (λ x. bytes_eq x (user_key ++ digest)) (sym (some_injective e))
    ∙ bytes_eq_refl (user_key ++ digest)

generate_withdrawal-accepted_example :
    (input.txout ≡ record { value = 550; script_pubkey = 81 ∷ 32 ∷ user_key })
    × (output ≡ record { value = 994_000; script_pubkey = 7 ∷ [] })
    × (check_user_sig operator user_sig input output ≡ ok tt)
generate_withdrawal-accepted_example =
    generate_withdrawal-accepted operator user (7 ∷ []) 994_000 user_key user_key input output
      user_sig refl refl key_verifies withdraws

-- An operator with a client for Citrea, which names output 0 of one transaction for every withdrawal.
abbrev names : Operator (Unit {0})
names = record operator {
  citrea_client = some (record {
    call_471ba1e3 = λ idx. some (48 ∷ 120 ∷ replicate 64 1);
    call_c045577b = λ idx. none;
    call_11e53a01 = λ idx. none;
  });
}

abbrev named_input : Utxo
named_input = record { outpoint = record { txid = replicate 64 1; vout = 0 }; txout = input.txout }

answers : new_withdrawal_sig names 0 user_sig named_input output ≡ ok (42 ∷ [])
unfolding new_withdrawal_sig check_input is_profitable check_user_sig bytes_eq
answers = refl

new_withdrawal_sig-Sent_example :
    NamedBy names names.citrea_client 0 named_input.outpoint
    × Profit names 994_000
    × UserSigned names user_sig named_input output
    × Sent names (signed_withdrawal names user_sig named_input output) (42 ∷ [])
new_withdrawal_sig-Sent_example =
    new_withdrawal_sig-Sent names 0 user_sig named_input output (42 ∷ []) answers

-- The operator with a node that knows one transaction.
abbrev offline : Operator (Unit {0})
offline = record operator {
  rpc = record {
    get_raw_transaction_info = operator.rpc.get_raw_transaction_info;
    get_raw_transaction = λ txid. if bytes_eq txid (3 ∷ []) then some deposit_tx else none;
    get_tx_out = operator.rpc.get_tx_out;
  };
}

abbrev generator : ℕ → ℕ → GeneratorTx
generator txid funding_txid = record {
  txid = txid ∷ [];
  raw_signed_tx = txid ∷ txid ∷ [];
  num_kickoffs = 2;
  cur_unused_kickoff_index = 1;
  funding_txid = funding_txid ∷ [];
}

abbrev generators : List GeneratorTx
generators = generator 1 2 ∷ generator 2 3 ∷ []

two_are_pending : pending_txs offline (1 ∷ []) generators ≡ ok ((2 ∷ 2 ∷ []) ∷ (1 ∷ 1 ∷ []) ∷ [])
unfolding pending_txs search_from get_deposit_kickoff_generator_tx bytes_eq
two_are_pending = refl

abbrev two : List Bytes
two = (2 ∷ 2 ∷ []) ∷ (1 ∷ 1 ∷ []) ∷ []

pending_txs_iff_example :
    (pending_txs offline (1 ∷ []) generators ≡ ok two)
    ↔ (Chain offline generators (1 ∷ []) (reverse two) × (length two < 25))
pending_txs_iff_example = pending_txs_iff offline generators (1 ∷ []) two

abbrev started : Operator (Unit {0}) × Database
started = (
  with_key libraries.musig2 operator (0 ∷ []) 0,
  set_funding_utxo
      (record {
        outpoint = record { txid = 1 ∷ []; vout = 0 };
        txout = record { value = 200_000_000; script_pubkey = 81 ∷ 32 ∷ 3 ∷ [] };
      })
      no_rows,
)

starts :
    ◌≡◌ {A = Result (Operator (Unit {0}) × Database)}
      (Start.new libraries.musig2 operator no_rows)
      (ok (started.0, started.1))
unfolding Start.new send_to_address from_musig2_pks create_key_agg_ctx tweaked fund get_funding_utxo
    bytes_eq
starts = refl

new-again_example :
    (get_elem? started.0.config.operators_xonly_pks started.0.idx
      ≡ some started.0.signer.xonly_public_key)
    × (utxo : Utxo) × (get_funding_utxo started.1 ≡ some utxo)
    × (◌≡◌ {A = Result (Operator (Unit {0}) × Database)}
        (Start.new libraries.musig2 operator started.1)
        (ok (started.0, started.1)))
new-again_example = new-again libraries.musig2 operator started.0 no_rows started.1 starts

address_of_deposit :
    get_deposit_address user operator.scripts operator.taproot [] ≡ ok (81 ∷ 32 ∷ 1 ∷ [])
unfolding get_deposit_address generate_deposit_address create_deposit_script
    generate_relative_timelock_script create_taproot_address taproot_leaves leaves_from ilog2
address_of_deposit = refl

deposit-accepted_example :
    check_deposit_utxo operator.rpc operator.scripts operator.taproot
      (2 ∷ [])
      input.outpoint
      (81 ∷ 32 ∷ user_key)
      []
      1_000_000
      6
      tt
      200
    ≡ ok tt
deposit-accepted_example =
    deposit-accepted user operator.scripts operator.taproot operator.rpc [] (81 ∷ 32 ∷ 1 ∷ [])
      input.outpoint 6 deposit_tx (record { value = 1_000_000; script_pubkey = 81 ∷ 32 ∷ 1 ∷ [] })
      address_of_deposit refl (omega arith) refl refl refl
