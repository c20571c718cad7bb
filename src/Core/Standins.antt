-- ===== src/Core/Standins.antt =====
-- Small stand-ins for the libraries and the node, and the runs of a verifier with them that the tests
-- are about.
use clementine.Prelude.{
  ℕ, ◌≡◌, refl, sym, ap, ◌∙◌, List, [], ◌∷◌, ◌++◌, none, some, length, length-replicate, replicate,
}
use clementine.Prelude.Bytes.{Bytes, bytes_eq, bytes_eq_refl}
use clementine.Core.Types.{OutPoint, TxOut, Transaction, Utxo}
use clementine.Core.Result.{Result}
use clementine.Core.Config.{BridgeConfig}
use clementine.Core.ExtendedRpc.{Node}
use clementine.Core.Libraries.{Libraries, Laws}
use clementine.Core.Verifier.{Verifier, Tables, new_deposit}
use clementine.Core.Verifier.Presigns.{operator_kickoffs_generated}
use clementine.Core.Verifier.Takes.{burn_txs_signed, operator_take_txs_signed}
use clementine.Core.Aggregator.{Aggregator}

-- The script of every taproot address.
abbrev pub script : Bytes
script = 81 ∷ 32 ∷ replicate 32 7

abbrev pub libraries : Libraries (Unit {0}) Bytes
libraries = record {
  hasher = record {
    digest = λ m. replicate 32 0;
    length-digest = λ m. length-replicate {A = ℕ} 32 0;
  };
  scripts = record {
    into_script = λ items. length items ∷ [];
    to_p2wsh = λ s. 0 ∷ s;
    minimal_non_dust = λ s. 330;
  };
  taproot = record {
    finalize = λ leaves key. some (record { leaves = leaves; internal_key = key });
    merkle_root = λ info. none;
    p2tr = λ key root network. script;
    unspendable_xonly_pubkey = 1 ∷ [];
    xonly_from_slice = λ slice. some (1 ∷ []);
  };
  sighashes = record {
    key_spend = λ tx i prevouts sighash_type. some (9 ∷ []);
    script_spend = λ tx i prevouts s sighash_type. some (10 ∷ []);
  };
  musig2 = record {
    new_key_agg_context = λ pks. some (0 ∷ []);
    with_taproot_tweak = λ ctx scalar. some (2 ∷ []);
    with_unspendable_taproot_tweak = λ ctx. some (1 ∷ []);
    aggregated_pubkey = λ ctx. ctx;
    aggregated_pubkey_untweaked = λ ctx. 0 ∷ [];
    pub_nonce_from_bytes = λ n. some n;
    agg_nonce_from_bytes = λ n. some n;
    sec_nonce_from_bytes = λ n. some n;
    partial_signature_from_slice = λ s. some s;
    sum = λ nonces. length nonces ∷ [];
    aggregate = λ ctx agg_nonce sigs message. some (ctx ++ message);
    build_sec_nonce = λ rnd keypair. rnd;
    public_nonce = λ sec_nonce. 6 ∷ sec_nonce;
    sign_partial = λ ctx key sec_nonce agg_nonce sighash. some (key ++ sec_nonce ++ sighash);
  };
  compute_txid = λ tx. 42 ∷ [];
  raw_hex = λ tx. 43 ∷ [];
  control_block = λ info s. some (44 ∷ []);
  verify_schnorr = λ sig message key. bytes_eq sig (key ++ message);
  signature_from_slice = λ sig. some sig;
}

some_injective : {A : Type 0} {a b : A} → some a ≡ some b → a ≡ b
some_injective e = cc e

pub laws : Laws libraries
laws = record {
  aggregate_verifies = λ ctx agg_nonce sigs message agg_sig sig e s.
      ap (λ x. bytes_eq x (ctx ++ message)) (sym (some_injective e ∙ some_injective s))
      ∙ bytes_eq_refl (ctx ++ message);
  new_is_untweaked = λ pks ctx e. sym (some_injective e);
  p2tr_is_long = λ key network. refl;
  p2tr_is_tweaked = λ pks network raw ctx made tweak. tweak;
}

-- Every deposit is the output of this transaction.
abbrev pub deposit_txout : TxOut
deposit_txout = record { value = 1_000_000; script_pubkey = script }

abbrev pub deposit_tx : Transaction
deposit_tx = record { version = 2; lock_time = 0; input = []; output = deposit_txout ∷ [] }

abbrev pub node : Node
node = record {
  get_raw_transaction_info = λ txid. some (some 6);
  get_raw_transaction = λ txid. some deposit_tx;
  get_tx_out = λ txid vout. some (some deposit_txout);
}

abbrev pub config : BridgeConfig (Unit {0})
config = record {
  network = tt;
  verifiers_public_keys = (2 ∷ 4 ∷ []) ∷ [];
  operators_xonly_pks = (3 ∷ []) ∷ [];
  operator_wallet_addresses = some (81 ∷ 32 ∷ 3 ∷ []) ∷ [];
  num_operators = 1;
  operator_withdrawal_fee_sats = none;
  user_takes_after = 200;
  operator_takes_after = 200;
  bridge_amount_sats = 1_000_000;
  operator_num_kickoff_utxos_per_tx = 2;
  confirmation_threshold = 6;
}

abbrev pub verifier : Verifier (Unit {0})
verifier = record {
  rpc = node;
  signer = record {
    keypair = record { public_key = 2 ∷ 4 ∷ []; secret_key = 4 ∷ [] };
    xonly_public_key = 4 ∷ [];
    address = 81 ∷ 32 ∷ 4 ∷ [];
    sign_schnorr = λ digest. digest;
    sign_schnorr_tweaked = λ root digest. some digest;
  };
  config = config;
  nofn_xonly_pk = 0 ∷ [];
  operator_xonly_pks = (3 ∷ []) ∷ [];
}

abbrev pub aggregator : Aggregator (Unit {0})
aggregator = record { config = config; nofn_xonly_pk = 0 ∷ [] }

abbrev pub no_rows : Tables
no_rows = record { deposit_infos = []; nonces = []; deposit_kickoff_utxos = [] }

abbrev pub deposit : OutPoint
deposit = record { txid = 10 ∷ []; vout = 0 }

abbrev pub kickoff : Utxo
kickoff = record {
  outpoint = record { txid = 11 ∷ []; vout = 0 };
  txout = record { value = 100_000; script_pubkey = script };
}

abbrev pub recovery : Bytes
recovery = replicate 34 8

abbrev pub answer : List Bytes
answer = (6 ∷ 0 ∷ []) ∷ (6 ∷ 1 ∷ []) ∷ (6 ∷ 2 ∷ []) ∷ []

abbrev pub kickoff_sigs : List Bytes
kickoff_sigs = (3 ∷ replicate 32 0) ∷ []

-- A deposit, its kickoff, and the two rounds of signatures.
abbrev pub deposited : Result (List Bytes) × Tables
deposited = new_deposit libraries verifier (λ i. i ∷ []) deposit recovery [] no_rows

abbrev pub kicked_off : Result (List Bytes × List Bytes) × Tables
kicked_off =
    operator_kickoffs_generated libraries verifier deposit (kickoff ∷ []) kickoff_sigs
      ((20 ∷ []) ∷ (21 ∷ []) ∷ (22 ∷ []) ∷ []) deposited.1

abbrev pub burned : Result (List Bytes) × Tables
burned = burn_txs_signed libraries verifier deposit [] ((0 ∷ 10 ∷ []) ∷ []) kicked_off.1

abbrev pub taken : Result Bytes × Tables
taken = operator_take_txs_signed libraries verifier deposit ((1 ∷ 9 ∷ []) ∷ []) burned.1
