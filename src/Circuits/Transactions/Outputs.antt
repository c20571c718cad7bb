-- ===== src/Circuits/Transactions/Outputs.antt =====
-- The loop over the outputs of `read_tx_and_calculate_txid`.
use clementine.Prelude.{
  suc, ◌≡◌, refl, sym, ap, ap₂, ◌∙◌, inl, inr, List, [], ◌∷◌, ◌++◌, Bool, true, false, ◌||◌, ◌==◌,
  Option-cases, none, some, if◌then◌else◌, length, append_assoc, append-nil, All, arith,
}
use clementine.Prelude.Bytes.{Bytes, to_le_bytes}
use clementine.Circuits.Sha256.{Hasher}
use clementine.Circuits.Env.{pure, >>=-of_some}
use clementine.Circuits.Tape.{Tape, tape, tape-bytes32, tape-u32, tape-u64}
use clementine.Circuits.Transactions.{
  RequireOutput, output_matches, update_hasher_with_varint, read_chunks_and_update_hasher,
  read_output, read_outputs,
}
use clementine.Circuits.Transactions.Format.{
  TxOut, IsTxOut, serialize_output, serialize_outputs, serialize_bytes,
}
use clementine.Circuits.Transactions.Written.{
  write_output, write_outputs, taproot_address, some_output, pays,
}
use clementine.Circuits.Transactions.Chunks.{
  update_hasher_with_varint_lem, read_chunks_and_update_hasher-write,
}
use clementine.Circuits.Transactions.Inputs.{or_false, or_assoc}

output_flag_lem : (sat m : Bool) → (if m then true else sat) ≡ sat || m
output_flag_lem true true = refl
output_flag_lem true false = refl
output_flag_lem false true = refl
output_flag_lem false false = refl

-- A script with a taproot address is the two bytes of the opcodes and the address.
taproot_address-eq_some :
    (s a : Bytes) → taproot_address s ≡ some a → (s ≡ 81 ∷ 32 ∷ a) × (length a ≡ 32)
taproot_address-eq_some [] a e = cc
taproot_address-eq_some (x ∷ []) a e = cc
taproot_address-eq_some (x ∷ y ∷ s) a e = ground arith

pays-eq :
    (r : RequireOutput) (o : TxOut) (address : Bytes)
    → taproot_address o.script_pubkey ≡ some address
    → output_matches r o.value address ≡ pays r o
pays-eq r o address e = ground arith

pays-eq_none :
    (r : RequireOutput) (o : TxOut) → taproot_address o.script_pubkey ≡ none → false ≡ pays r o
pays-eq_none r o e = ground arith

serialize_taproot :
    (s address : Bytes)
    → s ≡ 81 ∷ 32 ∷ address
    → length address ≡ 32
    → 34 ∷ 81 ∷ 32 ∷ address ≡ serialize_bytes s
serialize_taproot s address e len = rw (e, len)

read_output-write :
    (r : RequireOutput) (o : TxOut) (h : Hasher) (sat : Bool) (rest : Tape)
    → IsTxOut o
    → read_output tape r h sat (write_output o ++ rest)
      ≡ some ((h ++ serialize_output o, sat || pays r o), rest)
unfolding read_output
read_output-write r o h sat rest v = elim (Option-cases (taproot_address o.script_pubkey)) [
  | inr (address, taproot) ↦
      let (script, len) = taproot_address-eq_some o.script_pubkey address taproot in
      let value = to_le_bytes 8 o.value in
      rw taproot (
        >>=-of_some tape.read_u64 _ _ (tape-u64 o.value _ v.value_range)
        ∙ >>=-of_some tape.read_u32 _ _ (tape-u32 0 _ (omega arith))
        ∙ >>=-of_some tape.read_32bytes _ _ (tape-bytes32 address rest len)
        ∙ ap₂ (λ bytes flag. some ((bytes, flag), rest))
            (append_words h value address
              ∙ ap (λ b. h ++ (value ++ b)) (serialize_taproot o.script_pubkey address script len))
            (output_flag_lem sat (output_matches r o.value address)
              ∙ ap (λ m. sat || m) (pays-eq r o address taproot)))
  | inl other ↦
      let n = length o.script_pubkey in
      let value = to_le_bytes 8 o.value in
      let test : (n == 0) ≡ false = ground arith in
      rw other (
        >>=-of_some tape.read_u64 _ _ (tape-u64 o.value _ v.value_range)
        ∙ >>=-of_some tape.read_u32 _ _ (tape-u32 n _ v.script_range)
        ∙ rw test (
            >>=-of_some
              (read_chunks_and_update_hasher tape (update_hasher_with_varint (h ++ value) n) n)
              (λ hasher. pure (hasher, sat)) _
              (read_chunks_and_update_hasher-write o.script_pubkey _ rest)
            ∙ ap₂ (λ bytes flag. some ((bytes, flag), rest))
                (rw (update_hasher_with_varint_lem (h ++ value) n v.script_range)
                  (simp append_assoc))
                (or_false sat ∙ ap (λ m. sat || m) (pays-eq_none r o other))))
]
  where
    append_words :
        (h value address : Bytes)
        → ((((h ++ value) ++ (34 ∷ [])) ++ (81 ∷ [])) ++ (32 ∷ [])) ++ address
          ≡ h ++ (value ++ (34 ∷ 81 ∷ 32 ∷ address))
    append_words h value address = simp append_assoc

pub read_outputs-write :
    (r : RequireOutput) (os : List TxOut) (h : Hasher) (sat : Bool) (rest : Tape)
    → All IsTxOut os
    → read_outputs tape (length os) r h sat (write_outputs os ++ rest)
      ≡ some ((h ++ serialize_outputs os, sat || some_output r os), rest)
unfolding read_outputs
read_outputs-write r [] h sat rest v =
    ap₂ (λ bytes flag. some ((bytes, flag), rest)) (sym (append-nil h)) (or_false sat)
read_outputs-write r (o ∷ os) h sat rest v =
    ap (read_outputs tape (suc (length os)) r h sat)
      (append_assoc (write_output o) (write_outputs os) rest)
    ∙ >>=-of_some (read_output tape r h sat) _ _
        (read_output-write r o h sat (write_outputs os ++ rest) v.0)
    ∙ read_outputs-write r os (h ++ serialize_output o) (sat || pays r o) rest v.1
    ∙ ap₂ (λ bytes flag. some ((bytes, flag), rest))
        (append_assoc h (serialize_output o) (serialize_outputs os))
        (or_assoc sat (pays r o) (some_output r os))
