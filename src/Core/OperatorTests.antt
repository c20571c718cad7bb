-- ===== src/Core/OperatorTests.antt =====
-- Concrete runs of the operator, with small stand-ins for the libraries and the node.
use clementine.Prelude.{
  ◌↔◌, true, ◌≤◌, ◌<◌, ℕ, ◌+◌, ◌*◌, ◌^◌, ◌<◌, ◌≡◌, refl, none, some, [], ◌∷◌, ◌++◌, false, ltb,
  length, replicate, arith,
}
use clementine.Prelude.Bytes.{Bytes, to_le_bytes, length-to_le_bytes, bytes_eq}
use clementine.Core.Types.{OutPoint, TxOut, Transaction, Utxo, TxHandler}
use clementine.Core.Result.{Result, ok, err, panicked}
use clementine.Core.Utils.{ilog2}
use clementine.Core.Builder.Script.{
  Scripts, anyone_can_spend_txout, create_deposit_script,
  create_musig2_and_operator_multisig_script, generate_relative_timelock_script,
}
use clementine.Core.Builder.Address.{
  Taproot, leaves_from, taproot_leaves, create_taproot_address, generate_deposit_address,
}
use clementine.Core.Builder.Transaction.{
  create_btc_tx, create_tx_ins, create_tx_outs, kickoff_tx_min_relay_fee, create_kickoff_utxo_tx,
}
use clementine.Core.Witness.{handle_taproot_witness_new}
use clementine.Core.Actor.{sign, sign_with_tweak, prevouts_for, sign_taproot_pubkey_spend}
use clementine.Core.ExtendedRpc.{
  confirmation_blocks, check_utxo_address_and_amount, is_utxo_spent, check_deposit_utxo,
}
use clementine.Core.Database.{
  Database, get_kickoff_utxo, increase_idx, unused_kickoff_utxo,
  get_unused_kickoff_utxo_and_increase_idx, get_funding_utxo, set_funding_utxo, save_kickoff_utxo,
  add_deposit_kickoff_generator_tx,
}
use clementine.Core.Operator.{
  Operator, kickoff_sig_hash, signed, funding_needed, sign_kickoff_tx, create_kickoffs,
  use_or_create_kickoff, new_deposit, is_profitable, deposited, funded,
}
use clementine.Core.Operator.Kickoffs.{WellFormed}
use clementine.Core.Operator.Deposit.{new_deposit-WellFormed}
use clementine.Core.Operator.Unshared.{no_rows, Reachable, start, step, Reachable-unshared}
use clementine.Core.Operator.Guard.{funding_is_enough}
use clementine.Core.Operator.Profit.{is_profitable_iff, is_profitable_panics}

abbrev scripts : Scripts
scripts = record {
  into_script = λ items. length items ∷ [];
  to_p2wsh = λ script. 0 ∷ script;
  minimal_non_dust = λ script. 330;
}

abbrev taproot : Taproot (Unit {0})
taproot = record {
  finalize = λ leaves key. some (record { leaves = leaves; internal_key = key });
  merkle_root = λ info. none;
  p2tr = λ key root network. 81 ∷ 32 ∷ key;
  unspendable_xonly_pubkey = 1 ∷ [];
  xonly_from_slice = λ slice. some slice;
}

-- Every deposit is the output of this transaction, for the script of the stand-ins.
abbrev deposit_txout : TxOut
deposit_txout = record { value = 1_000_000; script_pubkey = 81 ∷ 32 ∷ 1 ∷ [] }

abbrev pub deposit_tx : Transaction
deposit_tx = record {
  version = 2;
  lock_time = 0;
  input = [];
  output = deposit_txout ∷ deposit_txout ∷ [];
}

abbrev pub operator : Operator (Unit {0})
operator = record {
  hasher = record {
    digest = λ m. to_le_bytes 32 (length m);
    length-digest = λ m. length-to_le_bytes 32 (length m);
  };
  scripts = scripts;
  taproot = taproot;
  codec = record {
    raw_hex = λ tx. [];
    hex_decode = λ hex. some hex;
    deserialize = λ raw. some deposit_tx;
  };
  compute_txid = λ tx. 42 ∷ [];
  control_block = λ info script. none;
  rpc = record {
    get_raw_transaction_info = λ txid. some (some 6);
    get_raw_transaction = λ txid. some deposit_tx;
    get_tx_out = λ txid vout. some (some deposit_txout);
  };
  wallet = record {
    send_to_address = λ address value. some (1 ∷ []);
    get_transaction = λ txid. some (0 ∷ []);
    fund_raw_transaction = λ tx. some (1 ∷ []);
    sign_raw_transaction_with_wallet = λ raw. some raw;
    send_raw_transaction = λ tx. some (42 ∷ []);
  };
  citrea_client = none;
  verify_schnorr = λ sig message key. bytes_eq sig (key ++ message);
  taproot_signature = λ sig sighash_type. sig ++ (0x83 ∷ []);
  sighashes = record {
    key_spend = λ tx i prevouts sighash_type. some (9 ∷ []);
    script_spend = λ tx i prevouts script sighash_type. some (10 ∷ script);
  };
  signer = record {
    keypair = record { public_key = 2 ∷ 3 ∷ []; secret_key = 4 ∷ [] };
    xonly_public_key = 3 ∷ [];
    address = 81 ∷ 32 ∷ 3 ∷ [];
    sign_schnorr = λ digest. digest;
    sign_schnorr_tweaked = λ root digest. some digest;
  };
  config = record {
    bridge_amount_sats = 1_000_000;
    confirmation_threshold = 6;
    network = tt;
    user_takes_after = 200;
    verifiers_public_keys = (2 ∷ 4 ∷ []) ∷ [];
    operators_xonly_pks = (3 ∷ []) ∷ [];
    operator_wallet_addresses = some (81 ∷ 32 ∷ 3 ∷ []) ∷ [];
    num_operators = 1;
    operator_takes_after = 200;
    operator_num_kickoff_utxos_per_tx = 2;
    operator_withdrawal_fee_sats = some 5_000;
  };
  nofn_xonly_pk = 2 ∷ [];
  idx = 0;
}

abbrev pub outpoint_of : ℕ → OutPoint
outpoint_of n = record { txid = n ∷ []; vout = 0 }

abbrev funding : Utxo
funding = record {
  outpoint = outpoint_of 1;
  txout = record { value = 300_000; script_pubkey = 81 ∷ 32 ∷ 3 ∷ [] };
}

-- The tables and the answer of a call that ends.
abbrev tables_of : Result ((Utxo × Bytes) × Database) → Database
tables_of (ok (answer, db)) = db
tables_of (err e) = no_rows
tables_of panicked = no_rows

abbrev answer_of : Result ((Utxo × Bytes) × Database) → Utxo × Bytes
answer_of (ok (answer, db)) = answer
answer_of (err e) = (funding, [])
answer_of panicked = (funding, [])

abbrev recovery : Bytes
recovery = replicate 34 8

-- Two deposits, one after the other: the second takes the second kickoff of the same transaction.
abbrev first : Result ((Utxo × Bytes) × Database)
first = new_deposit operator (outpoint_of 10) recovery [] (set_funding_utxo funding no_rows)

abbrev second : Result ((Utxo × Bytes) × Database)
second = new_deposit operator (outpoint_of 11) recovery [] (tables_of first)

first_ends : first ≡ ok (answer_of first, tables_of first)
unfolding new_deposit check_deposit_utxo confirmation_blocks check_utxo_address_and_amount
    is_utxo_spent generate_deposit_address create_deposit_script generate_relative_timelock_script
    create_taproot_address taproot_leaves leaves_from ilog2 bytes_eq get_kickoff_utxo
    use_or_create_kickoff get_unused_kickoff_utxo_and_increase_idx increase_idx unused_kickoff_utxo
    save_kickoff_utxo create_kickoffs get_funding_utxo funding_needed kickoff_tx_min_relay_fee
    sign_kickoff_tx create_kickoff_utxo_tx create_btc_tx create_tx_ins create_tx_outs
    anyone_can_spend_txout create_musig2_and_operator_multisig_script sign_taproot_pubkey_spend
    prevouts_for sign_with_tweak handle_taproot_witness_new set_funding_utxo
    add_deposit_kickoff_generator_tx kickoff_sig_hash sign to_le_bytes
first_ends = refl

second_ends : second ≡ ok (answer_of second, tables_of second)
unfolding new_deposit check_deposit_utxo confirmation_blocks check_utxo_address_and_amount
    is_utxo_spent generate_deposit_address create_deposit_script generate_relative_timelock_script
    create_taproot_address taproot_leaves leaves_from ilog2 bytes_eq get_kickoff_utxo
    use_or_create_kickoff get_unused_kickoff_utxo_and_increase_idx increase_idx unused_kickoff_utxo
    save_kickoff_utxo create_kickoffs get_funding_utxo funding_needed kickoff_tx_min_relay_fee
    sign_kickoff_tx create_kickoff_utxo_tx create_btc_tx create_tx_ins create_tx_outs
    anyone_can_spend_txout create_musig2_and_operator_multisig_script sign_taproot_pubkey_spend
    prevouts_for sign_with_tweak handle_taproot_witness_new set_funding_utxo
    add_deposit_kickoff_generator_tx kickoff_sig_hash sign to_le_bytes
second_ends = refl

funded-WellFormed : WellFormed (set_funding_utxo funding no_rows)
unfolding set_funding_utxo
funded-WellFormed = record { distinct = tt; issued = tt; unique = tt }

new_deposit-WellFormed_example :
    WellFormed (tables_of first)
    × (get_kickoff_utxo (outpoint_of 10) (tables_of first) ≡ some (answer_of first).0)
    × (answer_of first ≡ signed operator (outpoint_of 10) (answer_of first).0)
new_deposit-WellFormed_example =
    new_deposit-WellFormed operator (outpoint_of 10) recovery [] (answer_of first)
      (set_funding_utxo funding no_rows) (tables_of first) funded-WellFormed first_ends

reachable : Reachable operator (tables_of second)
reachable =
    step _ _
      (step _ _ (step _ _ start (funded funding))
        (deposited (outpoint_of 10) recovery [] (answer_of first) (tables_of first) first_ends))
      (deposited (outpoint_of 11) recovery [] (answer_of second) (tables_of second) second_ends)

kept : get_kickoff_utxo (outpoint_of 10) (tables_of second) ≡ some (answer_of first).0
unfolding new_deposit check_deposit_utxo confirmation_blocks check_utxo_address_and_amount
    is_utxo_spent generate_deposit_address create_deposit_script generate_relative_timelock_script
    create_taproot_address taproot_leaves leaves_from ilog2 bytes_eq get_kickoff_utxo
    use_or_create_kickoff get_unused_kickoff_utxo_and_increase_idx increase_idx unused_kickoff_utxo
    save_kickoff_utxo create_kickoffs get_funding_utxo funding_needed kickoff_tx_min_relay_fee
    sign_kickoff_tx create_kickoff_utxo_tx create_btc_tx create_tx_ins create_tx_outs
    anyone_can_spend_txout create_musig2_and_operator_multisig_script sign_taproot_pubkey_spend
    prevouts_for sign_with_tweak handle_taproot_witness_new set_funding_utxo
    add_deposit_kickoff_generator_tx kickoff_sig_hash sign to_le_bytes
kept = refl

Reachable-unshared_example : outpoint_of 10 ≡ outpoint_of 10
Reachable-unshared_example =
    Reachable-unshared operator (tables_of second) (outpoint_of 10) (outpoint_of 10)
      (answer_of first).0 (answer_of first).0 reachable kept kept refl

dust_is_330 : (anyone_can_spend_txout scripts).value ≡ 330
unfolding anyone_can_spend_txout
dust_is_330 = refl

enough : ltb funding.txout.value (funding_needed operator) ≡ false
unfolding funding_needed kickoff_tx_min_relay_fee
enough = refl

fee_is_small : 100_000 * 2 + kickoff_tx_min_relay_fee 2 + 330 < 2 ^ 64
unfolding kickoff_tx_min_relay_fee
fee_is_small = omega arith

funding_is_enough_example :
    (h : TxHandler) × (create_kickoff_utxo_tx scripts taproot funding (2 ∷ []) (3 ∷ []) tt 2 ≡ ok h)
funding_is_enough_example =
    funding_is_enough operator funding _ refl dust_is_330 fee_is_small enough

is_profitable_iff_example :
    (is_profitable operator 990_000 994_000 ≡ ok true)
    ↔ ((990_000 ≤ 994_000) × (994_000 + 5_000 < 1_000_000))
is_profitable_iff_example = is_profitable_iff operator 990_000 994_000 5_000 refl (omega arith)

is_profitable_panics_example : is_profitable operator 990_000 1_000_001 ≡ panicked
is_profitable_panics_example =
    is_profitable_panics operator 990_000 1_000_001 (omega arith) (omega arith) (omega arith)
      (omega arith)
