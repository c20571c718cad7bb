-- ===== src/Circuits/MerkleProof/Completeness.antt =====
-- Every leaf of a tree has a proof that leads to its root: the siblings on its way up.
use clementine.Prelude.{
  ℕ, zero, suc, ◌+◌, ◌-◌, ◌/◌, ◌%◌, ◌^◌, ◌<◌, ◌≡◌, refl, sym, ap, ◌∙◌, inl, inr, Option, some, List,
  [], ◌∷◌, ◌++◌, ◌==◌, if◌then◌else◌, get_or, arith, Bool-cases,
}
use native.Mathlib.Nat.{pow-suc}
use clementine.Prelude.Bytes.{Bytes}
use clementine.Circuits.Sha256.{Sha256}
use clementine.Circuits.Env.{Environment, pure, >>=-of_some}
use clementine.Circuits.Constants.{zeroes, emptydata}
use clementine.Circuits.IncrementalMerkle.{IncrementalMerkleTree}
use clementine.Circuits.IncrementalMerkle.Nodes.{pair_up, level_root}
use clementine.Circuits.IncrementalMerkle.Root.{Holds}
use clementine.Circuits.MerkleProof.{read_merkle_tree_proof, climb, index_or_read}
use clementine.Circuits.MerkleProof.Paths.{
  read_siblings, message, path_root, node, twice, twice_lem, node_parent, climb-path,
}

abbrev pub sibling_index : ℕ → ℕ
sibling_index index = if index % 2 == 0 then index + 1 else index - 1

module _ (H : Sha256) where
  -- The siblings from level `i` on, over `d` levels.
  unfoldable pub path : ℕ → ℕ → List Bytes → ℕ → List Bytes
  path i zero nodes index = []
  path i (suc d) nodes index =
      node H i nodes (sibling_index index)
      ∷ path (suc i) d (pair_up H (zeroes H i) nodes) (index / 2)

  message_of_children :
      (i index : ℕ) (nodes : List Bytes)
      → message index (node H i nodes index) (node H i nodes (sibling_index index))
        ≡ node H i nodes (twice (index / 2)) ++ node H i nodes (suc (twice (index / 2)))
  message_of_children i index nodes = elim (Bool-cases (index % 2 == 0)) [
    | inl even ↦
        let l : index ≡ twice (index / 2) = ground (arith, twice_lem (index / 2)) in
        let r : index + 1 ≡ suc (twice (index / 2)) = ground (arith, twice_lem (index / 2)) in
        rw even (λ i'. node H i nodes (l i') ++ node H i nodes (r i'))
    | inr odd ↦
        let r : index ≡ suc (twice (index / 2)) = ground (arith, twice_lem (index / 2)) in
        let l : index - 1 ≡ twice (index / 2) = ground (arith, twice_lem (index / 2)) in
        rw odd (λ i'. node H i nodes (l i') ++ node H i nodes (r i'))
  ]

  pub path_root-path :
      (i d index : ℕ) (nodes : List Bytes)
      → index < 2 ^ d
      → path_root H index (node H i nodes index) (path i d nodes index) ≡ level_root H i d nodes
  unfolding path level_root
  path_root-path i zero zero [] h = refl
  path_root-path i zero zero (a ∷ nodes) h = refl
  path_root-path i zero (suc index) nodes h = absurd (omega arith)
  path_root-path i (suc d) index nodes h =
      ap
        (λ m. path_root H (index / 2) m (path (suc i) d (pair_up H (zeroes H i) nodes) (index / 2)))
        (ap H.digest (message_of_children i index nodes) ∙ sym (node_parent H i nodes (index / 2)))
      ∙ path_root-path (suc i) d (index / 2) (pair_up H (zeroes H i) nodes)
          (omega (arith, pow-suc 2 d))

module _ {S : Type 0} (E : Environment S) (H : Sha256) where
  -- When the input holds the siblings of the leaf at an index of the tree, the circuit reads them and
  -- computes the root of the tree that has taken `leaves`.
  pub read_merkle_tree_proof_complete :
      (d idx : ℕ) (leaves : List Bytes) (t : IncrementalMerkleTree) (index : Option ℕ) (s s₁ s₂ : S)
      → Holds H d leaves t
      → index_or_read E index s ≡ some (idx, s₁)
      → idx < 2 ^ d
      → read_siblings E d s₁ ≡ some (path H 0 d leaves idx, s₂)
      → read_merkle_tree_proof E H d (get_or leaves idx emptydata) index s ≡ some (t.root, s₂)
  unfolding read_merkle_tree_proof zeroes
  read_merkle_tree_proof_complete d idx leaves t index s s₁ s₂ h at_idx lt reads =
      let leaf = get_or leaves idx emptydata in
      >>=-of_some (index_or_read E index) (λ i. climb E H d i leaf) s at_idx
      ∙ climb-path E H d idx leaf s₁
      ∙ >>=-of_some (read_siblings E d) (λ bs. pure (path_root H idx leaf bs)) s₁ reads
      ∙ ap (λ r. some (r, s₂)) (path_root-path H 0 d idx leaves lt ∙ sym h.root_of_leaves)
