-- ===== src/Core/Tests.antt =====
-- Concrete runs of the crate core, with small stand-ins for the libraries and the node.
use clementine.Prelude.{ℕ, ◌+◌, ◌≡◌, refl, none, some, List, [], ◌∷◌, length, arith}
use clementine.Prelude.Bytes.{Bytes, bytes_eq}
use clementine.Core.Types.{OutPoint, Transaction, Utxo, TxHandler}
use clementine.Core.Result.{Result, ok, err, panicked}
use clementine.Core.Utils.{ilog2, get_claim_reveal_indices, usize_to_var_len_bytes}
use clementine.Core.Utils.Reveal.{Tiles, get_claim_reveal_indices-Tiles}
use clementine.Core.Builder.Script.{Scripts, anyone_can_spend_txout}
use clementine.Core.Builder.Address.{
  Taproot, leaves_from, taproot_leaves, create_taproot_address, create_musig2_address,
  create_kickoff_address,
}
use clementine.Core.Builder.Transaction.{
  kickoff_tx_min_relay_fee, create_move_tx, create_kickoff_utxo_tx, create_slash_or_take_tx,
  create_operator_takes_tx,
}
use clementine.Core.Builder.Transaction.Amounts.{total}
use clementine.Core.Builder.Transaction.Balance.{
  create_move_tx_balance, create_kickoff_utxo_tx_balance, create_slash_or_take_tx_balance,
  create_operator_takes_tx_balance,
}

abbrev scripts : Scripts
scripts = record {
  into_script = λ items. length items ∷ [];
  to_p2wsh = λ script. 0 ∷ script;
  minimal_non_dust = λ script. 330;
}

abbrev taproot : Taproot (Unit {0})
taproot = record {
  finalize = λ leaves key. some (record { leaves = leaves; internal_key = key });
  merkle_root = λ info. none;
  p2tr = λ key root network. 81 ∷ 32 ∷ key;
  unspendable_xonly_pubkey = 1 ∷ [];
  xonly_from_slice = λ slice. some slice;
}

abbrev outpoint_of : ℕ → OutPoint
outpoint_of n = record { txid = n ∷ []; vout = 0 }

abbrev utxo_of : ℕ → ℕ → Bytes → Utxo
utxo_of n value script = record {
  outpoint = outpoint_of n;
  txout = record { value = value; script_pubkey = script };
}

-- The transaction of a run that ends, else an empty one.
abbrev tx_of : Result Transaction → Transaction
tx_of (ok tx) = tx
tx_of (err e) = record { version = 0; lock_time = 0; input = []; output = [] }
tx_of panicked = record { version = 0; lock_time = 0; input = []; output = [] }

abbrev handler_of : Result TxHandler → TxHandler
handler_of (ok h) = h
handler_of (err e) = record {
  tx = tx_of (err e);
  prevouts = [];
  scripts = [];
  taproot_spend_infos = [];
}
handler_of panicked = record {
  tx = tx_of panicked;
  prevouts = [];
  scripts = [];
  taproot_spend_infos = [];
}

abbrev move : Result Transaction
move = create_move_tx scripts taproot (outpoint_of 1) (2 ∷ []) 1_000_000 tt

moves : move ≡ ok (tx_of move)
unfolding create_move_tx create_musig2_address create_taproot_address anyone_can_spend_txout
    taproot_leaves leaves_from
moves = refl

create_move_tx_balance_example : total (tx_of move).output + 190 ≡ 1_000_000
create_move_tx_balance_example =
    create_move_tx_balance scripts taproot (outpoint_of 1) (2 ∷ []) 1_000_000 tt (tx_of move) moves

abbrev kickoffs : Result TxHandler
kickoffs = create_kickoff_utxo_tx scripts taproot (utxo_of 1 300_000 []) (2 ∷ []) (3 ∷ []) tt 2

kicks_off : kickoffs ≡ ok (handler_of kickoffs)
unfolding create_kickoff_utxo_tx create_taproot_address anyone_can_spend_txout taproot_leaves
    leaves_from kickoff_tx_min_relay_fee
kicks_off = refl

create_kickoff_utxo_tx_balance_example :
    (total (handler_of kickoffs).tx.output + kickoff_tx_min_relay_fee 2 ≡ 300_000)
    × (length (handler_of kickoffs).tx.output ≡ 4)
    × (total (handler_of kickoffs).prevouts ≡ 300_000)
create_kickoff_utxo_tx_balance_example =
    create_kickoff_utxo_tx_balance scripts taproot (utxo_of 1 300_000 []) (2 ∷ []) (3 ∷ []) tt 2
      (handler_of kickoffs) (omega arith) kicks_off

abbrev txid_of : Transaction → Bytes
txid_of tx = 42 ∷ []

-- The scripts of the stand-ins: an unspendable key, and the key of all verifiers.
abbrev slash : Result TxHandler
slash =
    create_slash_or_take_tx scripts taproot txid_of (outpoint_of 1)
      (utxo_of 4 100_000 (81 ∷ 32 ∷ 1 ∷ [])) (3 ∷ []) 0 (2 ∷ []) tt 200 1_000_000

dust_is_330 : (anyone_can_spend_txout scripts).value ≡ 330
unfolding anyone_can_spend_txout
dust_is_330 = refl

slashes : slash ≡ ok (handler_of slash)
unfolding create_slash_or_take_tx create_move_tx create_musig2_address create_kickoff_address
    create_taproot_address anyone_can_spend_txout taproot_leaves leaves_from bytes_eq
    usize_to_var_len_bytes ilog2
slashes = refl

create_slash_or_take_tx_balance_example :
    (total (handler_of slash).tx.output + 240 ≡ total (handler_of slash).prevouts)
    × (total (handler_of slash).prevouts ≡ 100_000)
create_slash_or_take_tx_balance_example =
    create_slash_or_take_tx_balance scripts taproot txid_of (outpoint_of 1)
      (utxo_of 4 100_000 (81 ∷ 32 ∷ 1 ∷ [])) (3 ∷ []) 0 (2 ∷ []) tt 200 1_000_000 (handler_of slash)
      dust_is_330 slashes

abbrev takes : Result TxHandler
takes =
    create_operator_takes_tx scripts taproot (outpoint_of 1) (utxo_of 5 99_430 (81 ∷ 32 ∷ 2 ∷ []))
      (3 ∷ []) (2 ∷ []) tt 200 1_000_000 (some (6 ∷ []))

operator_takes : takes ≡ ok (handler_of takes)
unfolding create_operator_takes_tx create_musig2_address create_taproot_address
    anyone_can_spend_txout taproot_leaves leaves_from bytes_eq
operator_takes = refl

create_operator_takes_tx_balance_example :
    total (handler_of takes).tx.output + 230 ≡ total (handler_of takes).prevouts
create_operator_takes_tx_balance_example =
    create_operator_takes_tx_balance scripts taproot (outpoint_of 1)
      (utxo_of 5 99_430 (81 ∷ 32 ∷ 2 ∷ [])) (3 ∷ []) (2 ∷ []) tt 200 1_000_000 (some (6 ∷ []))
      (handler_of takes) operator_takes

get_claim_reveal_indices-Tiles_example :
    (indices : List (ℕ × ℕ)) × (get_claim_reveal_indices 3 5 ≡ some indices) × Tiles 3 5 indices
get_claim_reveal_indices-Tiles_example =
    get_claim_reveal_indices-Tiles 3 5 (omega arith) (omega arith)
