-- ===== src/Core/Verifier/Calls.antt =====
-- The interface of the verifier in core/src/verifier.rs, `VerifierRpcServer`, and histories of calls of
-- it.
pub mod Sighashes
pub mod OneDigest
use clementine.Prelude.{ℕ, List, [], ◌∷◌}
use clementine.Prelude.Bytes.{Bytes}
use clementine.Core.Types.{OutPoint, Utxo}
use clementine.Core.Result.{Result, ok, err, panicked}
use clementine.Core.Libraries.{Libraries}
use clementine.Core.Verifier.{Verifier, Tables, new_deposit}
use clementine.Core.Verifier.Presigns.{operator_kickoffs_generated}
use clementine.Core.Verifier.Takes.{burn_txs_signed, operator_take_txs_signed}

-- A call, with the random bytes that it draws.
pub data Call : Type 0 where
  new_deposit_call : (ℕ → Bytes) → OutPoint → Bytes → Bytes → Call
  operator_kickoffs_generated_call : OutPoint → List Utxo → List Bytes → List Bytes → Call
  burn_txs_signed_call : OutPoint → List Bytes → List Bytes → Call
  operator_take_txs_signed_call : OutPoint → List Bytes → Call

module _ {Network KeyAggContext : Type 0} (L : Libraries Network KeyAggContext)
    (V : Verifier Network) where
  -- The tables that a call leaves, whether it succeeds or not.
  unfoldable pub handle : Call → Tables → Tables
  handle (new_deposit_call rng d recovery evm) db = (new_deposit L V rng d recovery evm db).1
  handle (operator_kickoffs_generated_call d utxos sigs agg_nonces) db =
      (operator_kickoffs_generated L V d utxos sigs agg_nonces db).1
  handle (burn_txs_signed_call d burn_sigs sigs) db = (burn_txs_signed L V d burn_sigs sigs db).1
  handle (operator_take_txs_signed_call d sigs) db = (operator_take_txs_signed L V d sigs db).1

  unfoldable pub run : List Call → Tables → Tables
  run [] db = db
  run (call ∷ calls) db = run calls (handle call db)
