-- ===== src/Core/Witness.antt =====
-- `handle_taproot_witness_new` of core/src/utils.rs.
use clementine.Prelude.{ℕ, List, [], ◌∷◌, ◌++◌, Option, none, some, get_elem?, set}
use clementine.Prelude.Bytes.{Bytes}
use clementine.Core.Types.{TxIn, SpendInfo, TxHandler}
use clementine.Core.Result.{
  Result, ok, ◌>>=◌, or_panicked, ok_or, tx_input_not_found, control_block_error,
}

-- The witness of one input is replaced.
abbrev pub with_witness : TxHandler → ℕ → TxIn → List Bytes → TxHandler
with_witness h txin_index txin witness = record {
  tx = record {
    version = h.tx.version;
    lock_time = h.tx.lock_time;
    input = set h.tx.input txin_index (record {
      previous_output = txin.previous_output;
      sequence = txin.sequence;
      script_sig = txin.script_sig;
      witness = witness;
    });
    output = h.tx.output;
  };
  prevouts = h.prevouts;
  scripts = h.scripts;
  taproot_spend_infos = h.taproot_spend_infos;
}

-- `control_block` of the crate `bitcoin`, serialized, is an argument.
unfoldable pub handle_taproot_witness_new :
    (SpendInfo → Bytes → Option Bytes) → TxHandler → List Bytes → ℕ → Option ℕ → Result TxHandler
handle_taproot_witness_new control_block h witness_elements txin_index none =
    ok_or tx_input_not_found (get_elem? h.tx.input txin_index)
    >>= (λ txin. ok (with_witness h txin_index txin (txin.witness ++ witness_elements)))
handle_taproot_witness_new control_block h witness_elements txin_index (some index) =
    ok_or tx_input_not_found (get_elem? h.tx.input txin_index) >>= (λ txin.
      or_panicked (get_elem? h.scripts txin_index) >>= (λ scripts.
        or_panicked (get_elem? scripts index) >>= (λ script.
          or_panicked (get_elem? h.taproot_spend_infos txin_index) >>= (λ spend_info.
            ok_or control_block_error (control_block spend_info script) >>= (λ spend_control_block.
              ok (
                with_witness h txin_index txin
                  (txin.witness ++ witness_elements ++ (script ∷ spend_control_block ∷ []))))))))
