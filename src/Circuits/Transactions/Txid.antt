-- ===== src/Circuits/Transactions/Txid.antt =====
-- The circuit reads back what was written, hashes its serialization, and checks the requirements.
use clementine.Prelude.{
  ◌≡◌, refl, ap, ◌∙◌, ◌++◌, Bool, true, false, ◌||◌, ◌&&◌, not, none, some, if◌then◌else◌, length,
  append_assoc,
}
use clementine.Prelude.Bytes.{Bytes, to_le_bytes}
use clementine.Circuits.Sha256.{Sha256, Hasher}
use clementine.Circuits.Env.{M, pure, panic, ◌>>=◌, >>=-of_some}
use clementine.Circuits.Tape.{Tape, tape, tape-u32, tape-i32}
use clementine.Circuits.Transactions.{
  RequireInput, RequireOutput, is_none, update_hasher_with_varint, read_inputs, read_outputs,
  read_tx_and_calculate_txid,
}
use clementine.Circuits.Transactions.Format.{Tx, IsTx, serialize_inputs, serialize}
use clementine.Circuits.Transactions.Written.{
  write_inputs, write_outputs, write_tx, some_input, some_output,
}
use clementine.Circuits.Transactions.Chunks.{update_hasher_with_varint_lem}
use clementine.Circuits.Transactions.Inputs.{read_inputs-write}
use clementine.Circuits.Transactions.Outputs.{read_outputs-write}

verdict :
    (H : Sha256) (a b : Bool) {x y : Bytes} (rest : Tape)
    → x ≡ y
    → (if not a then panic else if not b then panic else pure (H.digest (H.digest x))) rest
      ≡ (if a && b then some (H.digest (H.digest y), rest) else none)
verdict H true true rest e = ap (λ x. some (H.digest (H.digest x), rest)) e
verdict H true false rest e = refl
verdict H false b rest e = refl

-- For every transaction whose fields are in range and whose output scripts are not empty, reading
-- what was written returns the double SHA-256 of its serialization and leaves what follows, if the
-- required input (none, or an outpoint that some input spends) and the required output (none, or an
-- address and amount that some taproot output pays) are there; otherwise it is a panic.
pub read_tx_and_calculate_txid-write :
    (H : Sha256) (r : RequireInput) (q : RequireOutput) (tx : Tx) (rest : Tape)
    → IsTx tx
    → read_tx_and_calculate_txid tape H r q (write_tx tx ++ rest) ≡ (
        if (is_none r || some_input r tx.inputs) && (is_none q || some_output q tx.outputs)
        then some (H.digest (H.digest (serialize tx)), rest)
        else none)
unfolding read_tx_and_calculate_txid write_tx serialize
read_tx_and_calculate_txid-write H r q tx rest v =
    >>=-of_some tape.read_i32 _ _ (tape-i32 tx.version _ v.version_range)
    ∙ >>=-of_some tape.read_u32 _ _ (tape-u32 (length tx.inputs) _ v.input_count)
    ∙ >>=-of_some tape.read_u32 _ _ (tape-u32 (length tx.outputs) _ v.output_count)
    ∙ >>=-of_some tape.read_u32 _ _ (tape-u32 tx.lock_time _ v.lock_time_range)
    ∙ ap (read_inputs tape (length tx.inputs) r h₁ (is_none r) >>= after_inputs)
        (append_assoc (write_inputs tx.inputs) (write_outputs tx.outputs) rest)
    ∙ >>=-of_some (read_inputs tape (length tx.inputs) r h₁ (is_none r)) after_inputs _ (
        read_inputs-write r tx.inputs h₁ (is_none r) (write_outputs tx.outputs ++ rest)
          v.all_inputs)
    ∙ >>=-of_some (read_outputs tape (length tx.outputs) q h₂ (is_none q)) _ _
        (read_outputs-write q tx.outputs h₂ (is_none q) rest v.all_outputs)
    ∙ verdict H (is_none r || some_input r tx.inputs) (is_none q || some_output q tx.outputs) rest (
        rw
          (
            update_hasher_with_varint_lem _ (length tx.outputs) v.output_count,
            update_hasher_with_varint_lem _ (length tx.inputs) v.input_count,
          )
          (simp append_assoc))
  where
    h₁ : Hasher
    h₁ = update_hasher_with_varint (to_le_bytes 4 tx.version) (length tx.inputs)

    h₂ : Hasher
    h₂ = update_hasher_with_varint (h₁ ++ serialize_inputs tx.inputs) (length tx.outputs)

    after_inputs : Hasher × Bool → M Tape Bytes
    after_inputs (hasher, input_ok) = do
      (hasher', output_ok) ←
          read_outputs tape (length tx.outputs) q
            (update_hasher_with_varint hasher (length tx.outputs)) (is_none q)
      if not input_ok
          then panic
          else if not output_ok
          then panic
          else pure (H.digest (H.digest (hasher' ++ to_le_bytes 4 tx.lock_time)))
