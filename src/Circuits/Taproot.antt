-- ===== src/Circuits/Taproot.antt =====
-- `read_preimages_and_calculate_commit_taproot` and `calculate_taproot_from_single_script` of
-- circuits/src/bitcoin.rs.
use clementine.Prelude.{ℕ, zero, suc, ◌+◌, ◌*◌, ◌%◌, ◌^◌, Option, none, some, [], ◌∷◌}
use clementine.Prelude.Bytes.{Bytes}
use clementine.Circuits.Sha256.{Sha256, Hasher, update, update_all, sha256_hash}
use clementine.Circuits.Env.{M, pure, ◌>>=◌, Environment}
use clementine.Circuits.Transactions.{u8_bytes, update_hasher_with_varint}

-- The crate `k256`: the x coordinate of the internal key plus the tweak's multiple of the generator,
-- for the x and y coordinates of the internal key and the tweak. `none` is a failed `unwrap`.
abbrev pub TweakKey : Type 0
TweakKey = Bytes → Bytes → Bytes → Option Bytes

abbrev pub internal_key_x : Bytes
internal_key_x =
    147 ∷ 199 ∷ 55 ∷ 141 ∷ 150 ∷ 81 ∷ 138 ∷ 117 ∷ 68 ∷ 136 ∷ 33 ∷ 196 ∷ 247 ∷ 200 ∷ 244 ∷ 186 ∷ 231
    ∷ 206 ∷ 96 ∷ 248 ∷ 4 ∷ 208 ∷ 61 ∷ 31 ∷ 6 ∷ 40 ∷ 221 ∷ 93 ∷ 208 ∷ 245 ∷ 222 ∷ 81 ∷ []

abbrev pub internal_key_y : Bytes
internal_key_y =
    183 ∷ 230 ∷ 72 ∷ 141 ∷ 245 ∷ 65 ∷ 139 ∷ 76 ∷ 55 ∷ 246 ∷ 18 ∷ 113 ∷ 172 ∷ 165 ∷ 3 ∷ 144 ∷ 103 ∷ 1
    ∷ 56 ∷ 183 ∷ 220 ∷ 79 ∷ 77 ∷ 28 ∷ 43 ∷ 146 ∷ 127 ∷ 196 ∷ 59 ∷ 144 ∷ 15 ∷ 40 ∷ []

-- "TapLeaf" and "TapTweak" in ASCII.
abbrev pub tap_leaf_str : Bytes
tap_leaf_str = 84 ∷ 97 ∷ 112 ∷ 76 ∷ 101 ∷ 97 ∷ 102 ∷ []

abbrev pub tap_tweak_str : Bytes
tap_tweak_str = 84 ∷ 97 ∷ 112 ∷ 84 ∷ 119 ∷ 101 ∷ 97 ∷ 107 ∷ []

module _ (H : Sha256) (tweak_key : TweakKey) where
  unfoldable pub calculate_taproot_from_single_script : Bytes → Option Bytes
  calculate_taproot_from_single_script tap_leaf_hash =
      let tag = sha256_hash H (tap_tweak_str ∷ []) in
      tweak_key internal_key_x internal_key_y
        (sha256_hash H (tag ∷ tag ∷ internal_key_x ∷ tap_leaf_hash ∷ []))

  module _ {S : Type 0} (E : Environment S) where
    -- The loop over the preimages: the two hashers.
    unfoldable pub read_preimages : ℕ → Hasher → Hasher → M S (Hasher × Hasher)
    read_preimages zero commit_taproot claim_proof_leaf = pure (commit_taproot, claim_proof_leaf)
    read_preimages (suc n) commit_taproot claim_proof_leaf = do
      preimage ← E.read_32bytes
      read_preimages n (update_all commit_taproot (u8_bytes 32 ∷ preimage ∷ []))
          (update claim_proof_leaf (sha256_hash H (preimage ∷ [])))

    -- `37 + 33 * num_preimages` is a `u32`, and wraps as in a release build.
    unfoldable pub read_preimages_and_calculate_commit_taproot : M S (Bytes × Bytes)
    unfolding read_preimages calculate_taproot_from_single_script
    read_preimages_and_calculate_commit_taproot = do
      num_preimages ← E.read_u32
      actor_pk_bytes ← E.read_32bytes
      let tag = sha256_hash H (tap_leaf_str ∷ [])
      let hasher₁ = update_all [] (tag ∷ tag ∷ u8_bytes 192 ∷ [])
      let script_length = (37 + 33 * num_preimages) % 2 ^ 32
      let hasher₂ = update_hasher_with_varint hasher₁ script_length
      let hasher₃ = update_all hasher₂ (u8_bytes 32 ∷ actor_pk_bytes ∷ (172 ∷ 0 ∷ 99 ∷ []) ∷ [])
      (hasher₄, claim_proof_leaf) ← read_preimages num_preimages hasher₃ []
      let script_hash = H.digest (update hasher₄ (u8_bytes 104))
      taproot_address ← (λ s. elim (calculate_taproot_from_single_script script_hash) [
        | none ↦ none
        | some address ↦ some (address, s)
      ])
      pure (taproot_address, H.digest claim_proof_leaf)
