-- ===== src/Circuits/Transactions/Inputs.antt =====
-- The loop over the inputs of `read_tx_and_calculate_txid`.
use clementine.Prelude.{
  suc, ◌≡◌, refl, sym, ap, ap₂, ◌∙◌, List, [], ◌∷◌, ◌++◌, Bool, true, false, ◌||◌, ◌&&◌, not, some,
  if◌then◌else◌, length, append_assoc, append-nil, All,
}
use clementine.Prelude.Bytes.{to_le_bytes}
use clementine.Circuits.Sha256.{Hasher}
use clementine.Circuits.Env.{>>=-of_some}
use clementine.Circuits.Tape.{Tape, tape, tape-bytes32, tape-u32}
use clementine.Circuits.Transactions.{
  RequireInput, input_matches, update_hasher_with_varint, read_chunks_and_update_hasher, read_input,
  read_inputs,
}
use clementine.Circuits.Transactions.Format.{TxIn, IsTxIn, serialize_input, serialize_inputs}
use clementine.Circuits.Transactions.Written.{write_input, write_inputs, some_input}
use clementine.Circuits.Transactions.Chunks.{
  update_hasher_with_varint_lem, read_chunks_and_update_hasher-write,
}

input_flag : (sat m : Bool) → (if not sat && m then true else sat) ≡ sat || m
input_flag true m = refl
input_flag false true = refl
input_flag false false = refl

pub or_false : (b : Bool) → b ≡ b || false
or_false true = refl
or_false false = refl

pub or_assoc : (a b c : Bool) → (a || b) || c ≡ a || (b || c)
or_assoc true b c = refl
or_assoc false b c = refl

read_input-write :
    (r : RequireInput) (i : TxIn) (h : Hasher) (sat : Bool) (rest : Tape)
    → IsTxIn i
    → read_input tape r h sat (write_input i ++ rest)
      ≡ some ((h ++ serialize_input i, sat || input_matches r i.prev_tx_hash i.output_index), rest)
unfolding read_input
read_input-write r i h sat rest v =
    >>=-of_some tape.read_32bytes _ _ (tape-bytes32 i.prev_tx_hash _ v.hash_size)
    ∙ >>=-of_some tape.read_u32 _ _ (tape-u32 i.output_index _ v.index_range)
    ∙ >>=-of_some tape.read_u32 _ _ (tape-u32 i.sequence _ v.sequence_range)
    ∙ >>=-of_some tape.read_u32 _ _ (tape-u32 (length i.script_sig) _ v.script_range)
    ∙ >>=-of_some
        (read_chunks_and_update_hasher tape
          (update_hasher_with_varint ((h ++ i.prev_tx_hash) ++ to_le_bytes 4 i.output_index)
            (length i.script_sig))
          (length i.script_sig))
        _ _ (read_chunks_and_update_hasher-write i.script_sig _ rest)
    ∙ ap₂ (λ bytes flag. some ((bytes, flag), rest))
        (rw (update_hasher_with_varint_lem _ (length i.script_sig) v.script_range)
          (simp append_assoc))
        (input_flag sat _)

pub read_inputs-write :
    (r : RequireInput) (is : List TxIn) (h : Hasher) (sat : Bool) (rest : Tape)
    → All IsTxIn is
    → read_inputs tape (length is) r h sat (write_inputs is ++ rest)
      ≡ some ((h ++ serialize_inputs is, sat || some_input r is), rest)
unfolding read_inputs
read_inputs-write r [] h sat rest v =
    ap₂ (λ bytes flag. some ((bytes, flag), rest)) (sym (append-nil h)) (or_false sat)
read_inputs-write r (i ∷ is) h sat rest v =
    let m = input_matches r i.prev_tx_hash i.output_index in
    ap (read_inputs tape (suc (length is)) r h sat)
      (append_assoc (write_input i) (write_inputs is) rest)
    ∙ >>=-of_some (read_input tape r h sat) _ _
        (read_input-write r i h sat (write_inputs is ++ rest) v.0)
    ∙ read_inputs-write r is (h ++ serialize_input i) (sat || m) rest v.1
    ∙ ap₂ (λ bytes flag. some ((bytes, flag), rest))
        (append_assoc h (serialize_input i) (serialize_inputs is))
        (or_assoc sat m (some_input r is))
