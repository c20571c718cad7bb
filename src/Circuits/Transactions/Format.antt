-- ===== src/Circuits/Transactions/Format.antt =====
-- A Bitcoin transaction, and its serialization without witnesses in the format of the protocol.
use clementine.Prelude.{ℕ, ◌^◌, ◌<◌, ◌≡◌, List, [], ◌∷◌, ◌++◌, length, All, ltb, if◌then◌else◌}
use clementine.Prelude.Bytes.{Bytes, to_le_bytes}

pub record TxIn : Type 0 where
  pub prev_tx_hash : Bytes
  pub output_index : ℕ
  pub script_sig : Bytes
  pub sequence : ℕ

pub record TxOut : Type 0 where
  pub value : ℕ
  pub script_pubkey : Bytes

pub record Tx : Type 0 where
  pub version : ℕ
  pub inputs : List TxIn
  pub outputs : List TxOut
  pub lock_time : ℕ

-- The protocol's integers of variable length, for numbers below 2 ^ 32.
abbrev pub compact_size : ℕ → Bytes
compact_size n =
    if ltb n 253
    then n ∷ []
    else if ltb n (2 ^ 16)
    then 253 ∷ to_le_bytes 2 n
    else 254 ∷ to_le_bytes 4 n

abbrev pub serialize_bytes : Bytes → Bytes
serialize_bytes b = compact_size (length b) ++ b

abbrev pub serialize_input : TxIn → Bytes
serialize_input i =
    i.prev_tx_hash
    ++ (to_le_bytes 4 i.output_index ++ (serialize_bytes i.script_sig ++ to_le_bytes 4 i.sequence))

abbrev pub serialize_output : TxOut → Bytes
serialize_output o = to_le_bytes 8 o.value ++ serialize_bytes o.script_pubkey

abbrev pub serialize_inputs : List TxIn → Bytes
serialize_inputs [] = []
serialize_inputs (i ∷ is) = serialize_input i ++ serialize_inputs is

abbrev pub serialize_outputs : List TxOut → Bytes
serialize_outputs [] = []
serialize_outputs (o ∷ os) = serialize_output o ++ serialize_outputs os

unfoldable pub serialize : Tx → Bytes
serialize tx =
    to_le_bytes 4 tx.version
    ++ (compact_size (length tx.inputs)
        ++ (serialize_inputs tx.inputs
            ++ (compact_size (length tx.outputs)
                ++ (serialize_outputs tx.outputs ++ to_le_bytes 4 tx.lock_time))))

-- The ranges of the fields.
pub record IsTxIn (i : TxIn) : Type 0 where
  pub hash_size : length i.prev_tx_hash ≡ 32
  pub index_range : i.output_index < 2 ^ 32
  pub script_range : length i.script_sig < 2 ^ 32
  pub sequence_range : i.sequence < 2 ^ 32

-- The input format has no way to write an output with an empty script: the length 0 is the flag of a
-- taproot output.
pub record IsTxOut (o : TxOut) : Type 0 where
  pub value_range : o.value < 2 ^ 64
  pub script_nonempty : 0 < length o.script_pubkey
  pub script_range : length o.script_pubkey < 2 ^ 32

pub record IsTx (tx : Tx) : Type 0 where
  pub version_range : tx.version < 2 ^ 32
  pub input_count : length tx.inputs < 2 ^ 32
  pub output_count : length tx.outputs < 2 ^ 32
  pub lock_time_range : tx.lock_time < 2 ^ 32
  pub all_inputs : All IsTxIn tx.inputs
  pub all_outputs : All IsTxOut tx.outputs
