-- ===== src/Core/Builder/Address.antt =====
-- core/src/builder/address.rs
pub mod Tree
use clementine.Prelude.{
  ℕ, suc, ◌+◌, ◌-◌, ◌^◌, List, [], ◌∷◌, length, ltb, leb, if◌then◌else◌, Option, none, some, take,
  drop,
}
use clementine.Prelude.Bytes.{Bytes}
use clementine.Core.Types.{SpendInfo}
use clementine.Core.Result.{Result, ok, ◌>>=◌, or_panicked}
use clementine.Core.Utils.{ilog2}
use clementine.Core.Builder.Script.{
  Scripts, create_deposit_script, generate_relative_timelock_script,
  create_musig2_and_operator_multisig_script,
}

-- The functions of the crate `bitcoin` that addresses are made with. `finalize` of a taproot builder
-- fails on leaves that make no tree.
pub record Taproot (Network : Type 0) : Type 0 where
  pub finalize : List (ℕ × Bytes) → Bytes → Option SpendInfo
  pub merkle_root : SpendInfo → Option Bytes
  pub p2tr : Bytes → Option Bytes → Network → Bytes
  pub unspendable_xonly_pubkey : Bytes
  pub xonly_from_slice : Bytes → Option Bytes

-- The scripts with their depths, from the script `i` of `n` on.
unfoldable pub leaves_from : ℕ → ℕ → ℕ → ℕ → List Bytes → List (ℕ × Bytes)
leaves_from n m k i [] = []
leaves_from n m k i (script ∷ scripts) =
    (m - (if leb (n - k) i then 1 else 0), script) ∷ leaves_from n m k (suc i) scripts

-- The depths of the leaves of a taproot tree.
unfoldable pub taproot_leaves : List Bytes → List (ℕ × Bytes)
taproot_leaves scripts =
    let n = length scripts in
    let m = ilog2 63 (n - 1) + 1 in
    if ltb 1 n then leaves_from n m (2 ^ m - n) 0 scripts else leaves_from n 0 0 0 scripts

module _ (C : Scripts) {Network : Type 0} (T : Taproot Network) where
  -- The address, as its script, and the spending information.
  unfoldable pub create_taproot_address :
      List Bytes → Option Bytes → Network → Result (Bytes × SpendInfo)
  create_taproot_address scripts internal_key network =
      let key : Bytes = elim internal_key [
        | none ↦ T.unspendable_xonly_pubkey
        | some xonly_pk ↦ xonly_pk
      ] in
      or_panicked (T.finalize (taproot_leaves scripts) key)
      >>= (λ tree_info. ok (T.p2tr key (T.merkle_root tree_info) network, tree_info))

  -- The recovery address stands as its script: bytes 2 to 34 are the key.
  unfoldable pub generate_deposit_address :
      Bytes → Bytes → Bytes → ℕ → Network → ℕ → Result (Bytes × SpendInfo)
  generate_deposit_address nofn_xonly_pk recovery_taproot_address user_evm_address amount network
        user_takes_after =
      let deposit_script = create_deposit_script C nofn_xonly_pk user_evm_address amount in
      let slice =
        if ltb (length recovery_taproot_address) 34
        then none
        else some (take 32 (drop 2 recovery_taproot_address)) in
      or_panicked slice
      >>= (λ bytes. or_panicked (T.xonly_from_slice bytes))
      >>= (λ recovery_extracted_xonly_pk.
          create_taproot_address
            (deposit_script
              ∷ generate_relative_timelock_script C recovery_extracted_xonly_pk user_takes_after
              ∷ [])
            none network)

  unfoldable pub create_musig2_address : Bytes → Network → Result (Bytes × SpendInfo)
  create_musig2_address nofn_xonly_pk network =
      create_taproot_address [] (some nofn_xonly_pk) network

  unfoldable pub create_kickoff_address : Bytes → Bytes → Network → Result (Bytes × SpendInfo)
  create_kickoff_address nofn_xonly_pk operator_xonly_pk network =
      create_taproot_address
        (create_musig2_and_operator_multisig_script C nofn_xonly_pk operator_xonly_pk ∷ []) none
        network
