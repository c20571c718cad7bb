-- ===== src/Circuits/Transactions/Written.antt =====
-- How a transaction is laid out in the input that the circuit reads, and what of it meets the
-- requirements.
use clementine.Prelude.{
  ℕ, zero, suc, ◌-◌, ◌/◌, List, [], ◌∷◌, ◌++◌, Bool, false, ◌||◌, ◌==◌, Option, none, some,
  if◌then◌else◌, length, take, drop, replicate,
}
use clementine.Prelude.Bytes.{Bytes}
use clementine.Circuits.Tape.{Tape, bytes32, u32, u64, i32}
use clementine.Circuits.Transactions.{RequireInput, RequireOutput, input_matches, output_matches}
use clementine.Circuits.Transactions.Format.{TxIn, TxOut, Tx}

-- The last chunk is padded with zeros.
abbrev pub pad : Bytes → Bytes
pad b = b ++ replicate (32 - length b) 0

-- `n` whole chunks, and one more for what is left.
abbrev pub write_chunks : ℕ → Bytes → Tape
write_chunks zero [] = []
write_chunks zero (b ∷ bs) = bytes32 (pad (b ∷ bs)) ∷ []
write_chunks (suc n) bs = bytes32 (take 32 bs) ∷ write_chunks n (drop 32 bs)

abbrev pub write_bytes : Bytes → Tape
write_bytes b = write_chunks (length b / 32) b

abbrev pub write_input : TxIn → Tape
write_input i =
    bytes32 i.prev_tx_hash
    ∷ u32 i.output_index
    ∷ u32 i.sequence
    ∷ u32 (length i.script_sig)
    ∷ write_bytes i.script_sig

-- The address of an output whose script is `OP_1` and a push of 32 bytes.
abbrev pub taproot_address : Bytes → Option Bytes
taproot_address (op ∷ len ∷ address) =
    if op == 81
    then if len == 32 then if length address == 32 then some address else none else none
    else none
taproot_address _ = none

abbrev pub write_output : TxOut → Tape
write_output o = u64 o.value ∷ elim (taproot_address o.script_pubkey) [
  | some address ↦ u32 0 ∷ bytes32 address ∷ []
  | none ↦ u32 (length o.script_pubkey) ∷ write_bytes o.script_pubkey
]

abbrev pub write_inputs : List TxIn → Tape
write_inputs [] = []
write_inputs (i ∷ is) = write_input i ++ write_inputs is

abbrev pub write_outputs : List TxOut → Tape
write_outputs [] = []
write_outputs (o ∷ os) = write_output o ++ write_outputs os

unfoldable pub write_tx : Tx → Tape
write_tx tx =
    i32 tx.version
    ∷ u32 (length tx.inputs)
    ∷ u32 (length tx.outputs)
    ∷ u32 tx.lock_time
    ∷ (write_inputs tx.inputs ++ write_outputs tx.outputs)

-- Some input spends the required outpoint.
abbrev pub some_input : RequireInput → List TxIn → Bool
some_input r [] = false
some_input r (i ∷ is) = input_matches r i.prev_tx_hash i.output_index || some_input r is

-- A taproot output pays the required address (and amount, if one is required).
abbrev pub pays : RequireOutput → TxOut → Bool
pays r o = elim (taproot_address o.script_pubkey) [
  | some address ↦ output_matches r o.value address
  | none ↦ false
]

abbrev pub some_output : RequireOutput → List TxOut → Bool
some_output r [] = false
some_output r (o ∷ os) = pays r o || some_output r os
