-- ===== src/Core/Builder/Script.antt =====
-- core/src/builder/script.rs
use clementine.Prelude.{ℕ, List, [], ◌∷◌}
use clementine.Prelude.Bytes.{Bytes, to_le_bytes}
use clementine.Prelude.{reverse}
use clementine.Core.Types.{TxOut}

pub data Opcode : Type 0 where
  op_pushnum_1 : Opcode
  op_return : Opcode
  op_checksig : Opcode
  op_checksigverify : Opcode
  op_false : Opcode
  op_if : Opcode
  op_endif : Opcode
  op_csv : Opcode
  op_drop : Opcode

-- What a script builder of the crate `bitcoin` is given.
pub data Push : Type 0 where
  push_opcode : Opcode → Push
  push_slice : Bytes → Push
  push_x_only_key : Bytes → Push
  push_int : ℕ → Push

-- The functions of the crate `bitcoin` that scripts are made with.
pub record Scripts : Type 0 where
  pub into_script : List Push → Bytes
  pub to_p2wsh : Bytes → Bytes
  pub minimal_non_dust : Bytes → ℕ

-- `u64::to_be_bytes`
abbrev pub to_be_bytes : ℕ → ℕ → Bytes
to_be_bytes w n = reverse (to_le_bytes w n)

-- "citrea" in ASCII.
abbrev pub citrea : Bytes
citrea = 99 ∷ 105 ∷ 116 ∷ 114 ∷ 101 ∷ 97 ∷ []

module _ (C : Scripts) where
  unfoldable pub anyone_can_spend_txout : TxOut
  anyone_can_spend_txout =
      let script_pubkey = C.to_p2wsh (C.into_script (push_opcode op_pushnum_1 ∷ [])) in
      record { value = C.minimal_non_dust script_pubkey; script_pubkey = script_pubkey }

  unfoldable pub op_return_txout : Bytes → TxOut
  op_return_txout slice = record {
    value = 0;
    script_pubkey = C.into_script (push_opcode op_return ∷ push_slice slice ∷ []);
  }

  unfoldable pub create_deposit_script : Bytes → Bytes → ℕ → Bytes
  create_deposit_script nofn_xonly_pk evm_address amount = C.into_script (
      push_x_only_key nofn_xonly_pk
      ∷ push_opcode op_checksig
      ∷ push_opcode op_false
      ∷ push_opcode op_if
      ∷ push_slice citrea
      ∷ push_slice evm_address
      ∷ push_slice (to_be_bytes 8 amount)
      ∷ push_opcode op_endif
      ∷ [])

  unfoldable pub create_musig2_and_operator_multisig_script : Bytes → Bytes → Bytes
  create_musig2_and_operator_multisig_script nofn_xonly_pk operator_xonly_pk = C.into_script (
      push_x_only_key nofn_xonly_pk
      ∷ push_opcode op_checksigverify
      ∷ push_x_only_key operator_xonly_pk
      ∷ push_opcode op_checksig
      ∷ [])

  unfoldable pub generate_relative_timelock_script : Bytes → ℕ → Bytes
  generate_relative_timelock_script actor_taproot_xonly_pk block_count = C.into_script (
      push_int block_count
      ∷ push_opcode op_csv
      ∷ push_opcode op_drop
      ∷ push_x_only_key actor_taproot_xonly_pk
      ∷ push_opcode op_checksig
      ∷ [])
