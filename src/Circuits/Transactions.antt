-- ===== src/Circuits/Transactions.antt =====
-- Reading a transaction: `read_tx_and_calculate_txid` and its helpers in circuits/src/bitcoin.rs,
-- and `read_preimages_and_calculate_commit_taproot`.
pub mod Format
pub mod Written
pub mod Chunks
pub mod Inputs
pub mod Outputs
pub mod Txid
use clementine.Prelude.{
  ℕ, zero, suc, ◌+◌, ◌*◌, ◌/◌, ◌%◌, ◌^◌, Option, none, some, Bool, true, false, List, [], ◌∷◌, ◌++◌,
  ◌==◌, ltb, leb, if◌then◌else◌, not, ◌&&◌, ◌||◌, take,
}
use clementine.Prelude.Bytes.{Bytes, bytes_eq, to_le_bytes}
use clementine.Circuits.Sha256.{Sha256, Hasher, update, update_all, sha256_hash}
use clementine.Circuits.Env.{M, pure, panic, ◌>>=◌, ◌>>◌, Environment}

-- A byte as a slice, `x.to_le_bytes()` of a `u8`.
abbrev pub u8_bytes : ℕ → Bytes
u8_bytes b = b ∷ []

unfoldable pub update_hasher_with_varint : Hasher → ℕ → Hasher
update_hasher_with_varint hasher integer =
    if ltb integer 0xfd
    then update hasher (u8_bytes integer)
    else if leb integer 0xffff
    then update (update hasher (u8_bytes 0xfd)) (to_le_bytes 2 integer)
    else update (update hasher (u8_bytes 0xfe)) (to_le_bytes 4 integer)

-- `require_input`, `require_output`
abbrev pub RequireInput : Type 0
RequireInput = Option (Bytes × ℕ)

abbrev pub RequireOutput : Type 0
RequireOutput = Option (Option ℕ × Bytes)

abbrev pub is_none {ℓ} : {A : Type ℓ} → Option A → Bool
is_none none = true
is_none (some _) = false

-- Does an input, an output meet the requirement?
abbrev pub input_matches : RequireInput → Bytes → ℕ → Bool
input_matches none prev_tx_hash output_index = false
input_matches (some (txid, vout)) prev_tx_hash output_index =
    bytes_eq prev_tx_hash txid && output_index == vout

abbrev pub value_matches : Option ℕ → ℕ → Bool
value_matches none value = true
value_matches (some v) value = v == value

abbrev pub output_matches : RequireOutput → ℕ → Bytes → Bool
output_matches none value taproot_address = false
output_matches (some (value_option, condition)) value taproot_address =
    bytes_eq taproot_address condition && value_matches value_option value

module _ {S : Type 0} (E : Environment S) where
  -- The loop over the whole chunks, with the chunks that are left.
  unfoldable pub read_chunks : ℕ → Hasher → M S Hasher
  read_chunks zero hasher = pure hasher
  read_chunks (suc chunks) hasher = do
    chunk ← E.read_32bytes
    read_chunks chunks (update hasher chunk)

  -- `if remaining_bytes > 0`
  unfoldable pub read_remaining : ℕ → Hasher → M S Hasher
  read_remaining remaining_bytes hasher =
      let last = E.read_32bytes >>= (λ chunk. pure (update hasher (take remaining_bytes chunk))) in
      if ltb 0 remaining_bytes then last else pure hasher

  unfoldable pub read_chunks_and_update_hasher : Hasher → ℕ → M S Hasher
  unfolding read_chunks read_remaining
  read_chunks_and_update_hasher hasher byte_len = do
    hasher' ← read_chunks (byte_len / 32) hasher
    read_remaining (byte_len % 32) hasher'

  -- One round of the loop over the inputs: the hasher, and `input_satisfied`.
  unfoldable pub read_input : RequireInput → Hasher → Bool → M S (Hasher × Bool)
  read_input require_input hasher input_satisfied = do
    prev_tx_hash ← E.read_32bytes
    output_index ← E.read_u32
    sequence ← E.read_u32
    let hasher₁ = update (update hasher prev_tx_hash) (to_le_bytes 4 output_index)
    script_sig_size ← E.read_u32
    let hasher₂ = update_hasher_with_varint hasher₁ script_sig_size
    hasher₃ ← read_chunks_and_update_hasher hasher₂ script_sig_size
    pure (
      update hasher₃ (to_le_bytes 4 sequence),
      if not input_satisfied && input_matches require_input prev_tx_hash output_index
          then true
          else input_satisfied,
    )

  unfoldable pub read_inputs : ℕ → RequireInput → Hasher → Bool → M S (Hasher × Bool)
  read_inputs zero require_input hasher input_satisfied = pure (hasher, input_satisfied)
  read_inputs (suc n) require_input hasher input_satisfied = do
    (hasher', satisfied) ← read_input require_input hasher input_satisfied
    read_inputs n require_input hasher' satisfied

  -- One round of the loop over the outputs. The flag 0 announces a taproot output; any other is the
  -- length of the script.
  unfoldable pub read_output : RequireOutput → Hasher → Bool → M S (Hasher × Bool)
  read_output require_output hasher output_satisfied = do
    value ← E.read_u64
    output_flag ← E.read_u32
    let taproot = do
      taproot_address ← E.read_32bytes
      let hasher' =
          update_all hasher
            (to_le_bytes 8 value ∷ u8_bytes 34 ∷ u8_bytes 81 ∷ u8_bytes 32 ∷ taproot_address ∷ [])
      pure (
        hasher',
        if output_matches require_output value taproot_address then true else output_satisfied,
      )
    let other = do
      let hasher₁ = update hasher (to_le_bytes 8 value)
      let hasher₂ = update_hasher_with_varint hasher₁ output_flag
      hasher₃ ← read_chunks_and_update_hasher hasher₂ output_flag
      pure (hasher₃, output_satisfied)
    if output_flag == 0 then taproot else other

  unfoldable pub read_outputs : ℕ → RequireOutput → Hasher → Bool → M S (Hasher × Bool)
  read_outputs zero require_output hasher output_satisfied = pure (hasher, output_satisfied)
  read_outputs (suc n) require_output hasher output_satisfied = do
    (hasher', satisfied) ← read_output require_output hasher output_satisfied
    read_outputs n require_output hasher' satisfied

  unfoldable pub read_tx_and_calculate_txid : Sha256 → RequireInput → RequireOutput → M S Bytes
  unfolding read_inputs read_input read_outputs read_output
  read_tx_and_calculate_txid H require_input require_output = do
    version ← E.read_i32
    input_count ← E.read_u32
    output_count ← E.read_u32
    lock_time ← E.read_u32
    let hasher₁ = update_hasher_with_varint (to_le_bytes 4 version) input_count
    (hasher₂, input_satisfied) ←
        read_inputs input_count require_input hasher₁ (is_none require_input)
    let hasher₃ = update_hasher_with_varint hasher₂ output_count
    (hasher₄, output_satisfied) ←
        read_outputs output_count require_output hasher₃ (is_none require_output)
    let txid = pure (H.digest (H.digest (update hasher₄ (to_le_bytes 4 lock_time))))
    if not input_satisfied then panic else if not output_satisfied then panic else txid
