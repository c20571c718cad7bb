-- ===== src/Circuits/IncrementalMerkle.antt =====
-- circuits/src/incremental_merkle.rs: a Merkle tree that keeps one node of each level.
pub mod Nodes
pub mod Root
use clementine.Prelude.{
  ℕ, zero, suc, ◌+◌, ◌/◌, ◌%◌, ◌^◌, List, [], ◌∷◌, ◌==◌, if◌then◌else◌, replicate,
}
use clementine.Prelude.Bytes.{Bytes}
use clementine.Circuits.Sha256.{Sha256, sha256_hash}
use clementine.Circuits.Constants.{emptydata, zeroes}

pub record IncrementalMerkleTree : Type 0 where
  pub filled_subtrees : List Bytes
  pub root : Bytes
  pub index : ℕ

module _ (H : Sha256) where
  -- `new`, at `DEPTH = d`.
  unfoldable pub new : ℕ → IncrementalMerkleTree
  new d = record { filled_subtrees = replicate d emptydata; root = zeroes H d; index = 0 }

  -- The loop of `add` from level `i` on: the new entries of `filled_subtrees`, and the root.
  unfoldable pub add_from : ℕ → List Bytes → ℕ → Bytes → List Bytes × Bytes
  add_from i [] current_index current_level_hash = ([], current_level_hash)
  add_from i (filled ∷ above) current_index current_level_hash =
      let is_left = current_index % 2 == 0 in
      let left = if is_left then current_level_hash else filled in
      let right = if is_left then zeroes H i else current_level_hash in
      let (above', root) =
        add_from (suc i) above (current_index / 2) (sha256_hash H (left ∷ right ∷ [])) in
      ((if is_left then current_level_hash else filled) ∷ above', root)

  -- `self.index += 1` wraps as in a release build.
  unfoldable pub add : Bytes → IncrementalMerkleTree → IncrementalMerkleTree
  unfolding add_from
  add a t =
      let (filled, root) = add_from 0 t.filled_subtrees t.index a in
      record { filled_subtrees = filled; root = root; index = (t.index + 1) % 2 ^ 32 }
