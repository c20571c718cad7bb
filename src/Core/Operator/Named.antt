-- ===== src/Core/Operator/Named.antt =====
-- What `check_input` has checked, and the transaction that `new_withdrawal_sig` of core/src/operator.rs
-- has the wallet fund.
use clementine.Prelude.{
  ℕ, ◌≡◌, refl, sym, ap, ◌∙◌, Option, none, ◌||◌, ◌==◌, ==_iff, [], ◌∷◌, some, Bool, true, false,
  not, if◌then◌else◌,
}
use clementine.Prelude.Bytes.{Bytes, bytes_eq, bytes_eq→eq}
use clementine.Core.Types.{OutPoint, TxOut, Transaction, Utxo}
use clementine.Core.Result.{
  ok_or-eq_ok, or_panicked-eq_ok, ok, err, or_panicked, ok_or, >>=-eq_ok, BridgeError,
  json_rpc_error, invalid_input_utxo,
}
use clementine.Core.Utils.{usize_to_var_len_bytes}
use clementine.Core.Builder.Script.{
  to_be_bytes, op_return_txout, push_opcode, push_slice, op_return,
}
use clementine.Core.Builder.Transaction.{create_btc_tx, create_tx_ins}
use clementine.Core.Actor.{single_plus_anyone_can_pay}
use clementine.Core.Operator.{Operator, Citrea}
use clementine.Core.Operator.Withdrawal.{slice, check_input, withdrawal_tx}

module _ {Network : Type 0} (op : Operator Network) where
  -- Citrea, where the operator has a client, answers the call for the withdrawal with the transaction
  -- whose output 0 is the input.
  pub record Named (citrea : Citrea) (withdrawal_idx : ℕ) (outpoint : OutPoint) : Type 0 where
    response : Bytes
    at_response : citrea.call_471ba1e3 (to_be_bytes 4 withdrawal_idx) ≡ some response
    digits : Bytes
    at_digits : slice 2 64 response ≡ ok digits
    at_txid : op.codec.hex_decode digits ≡ some outpoint.txid
    at_vout : outpoint.vout ≡ 0

  abbrev pub NamedBy : Option Citrea → ℕ → OutPoint → Type 0
  NamedBy none withdrawal_idx outpoint = Unit
  NamedBy (some citrea) withdrawal_idx outpoint = Named citrea withdrawal_idx outpoint

  pub check_input-NamedBy :
      (client : Option Citrea) (withdrawal_idx : ℕ) (outpoint : OutPoint)
      → check_input op client withdrawal_idx outpoint ≡ ok tt
      → NamedBy client withdrawal_idx outpoint
  unfolding check_input
  check_input-NamedBy none withdrawal_idx outpoint e = tt
  check_input-NamedBy (some citrea) withdrawal_idx outpoint e =
      let (response, at_response, e₁) =
        >>=-eq_ok (ok_or json_rpc_error (citrea.call_471ba1e3 (to_be_bytes 4 withdrawal_idx))) _
          e in
      let (digits, at_digits, e₂) = >>=-eq_ok (slice 2 64 response) _ e₁ in
      let (txid, at_txid, e₃) = >>=-eq_ok (or_panicked (op.codec.hex_decode digits)) _ e₂ in
      let (same, first) =
        both (bytes_eq txid outpoint.txid) (0 == outpoint.vout)
          (invalid_input_utxo txid outpoint.txid) e₃ in
      record {
        response = response;
        at_response = ok_or-eq_ok _ _ at_response;
        digits = digits;
        at_digits = at_digits;
        at_txid = or_panicked-eq_ok _ at_txid ∙ ap some (bytes_eq→eq txid outpoint.txid same);
        at_vout = sym ((==_iff 0 outpoint.vout).0 first);
      }
    where
      both :
          (a b : Bool) (x : BridgeError)
          → (if not a || not b then err x else ok tt) ≡ ok tt
          → (a ≡ true) × (b ≡ true)
      both true true x k = (refl, refl)
      both true false x k = cc
      both false b x k = cc

  -- The transaction that the operator has the wallet fund: the user's input with the user's signature,
  -- the user's output, and the operator's index behind it.
  abbrev pub signed_withdrawal : Bytes → Utxo → TxOut → Transaction
  signed_withdrawal sig input output = record {
    version = 2;
    lock_time = 0;
    input =
        record {
          previous_output = input.outpoint;
          sequence = 0xfffffffd;
          script_sig = [];
          witness = op.taproot_signature sig single_plus_anyone_can_pay ∷ [];
        }
        ∷ [];
    output =
        output
        ∷ record {
          value = 0;
          script_pubkey =
              op.scripts.into_script
                (push_opcode op_return ∷ push_slice (usize_to_var_len_bytes op.idx) ∷ []);
        }
        ∷ [];
  }

  pub withdrawal_tx_lem :
      (sig : Bytes) (input : Utxo) (output : TxOut)
      → withdrawal_tx op sig input output ≡ signed_withdrawal sig input output
  unfolding withdrawal_tx create_btc_tx create_tx_ins op_return_txout
  withdrawal_tx_lem sig input output = refl
