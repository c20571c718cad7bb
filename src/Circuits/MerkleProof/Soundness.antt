-- ===== src/Circuits/MerkleProof/Soundness.antt =====
-- A proof that leads to the root of a tree is about a leaf of that tree, or exhibits a collision.
use clementine.Prelude.{
  ℕ, zero, suc, ◌/◌, ◌%◌, ◌^◌, ◌<◌, ◌≡◌, ◌≢◌, refl, sym, ap, subst, ◌∙◌, ◌⊎◌, inl, inr, Option,
  some, List, [], ◌∷◌, ◌++◌, ◌==◌, length, All, get_or, arith, Bool-cases,
}
use native.Mathlib.Nat.{pow-suc}
use clementine.Prelude.Bytes.{Bytes, bytes_eq, bytes_eq→eq, bytes_ne}
use clementine.Circuits.Sha256.{Sha256}
use clementine.Circuits.Env.{Environment, >>=-eq_some, >>=-of_some, pure}
use clementine.Circuits.Constants.{zeroes, length-zeroes, emptydata}
use clementine.Circuits.IncrementalMerkle.{IncrementalMerkleTree}
use clementine.Circuits.IncrementalMerkle.Nodes.{pair_up, level_root}
use clementine.Circuits.IncrementalMerkle.Root.{Holds}
use clementine.Circuits.MerkleProof.{read_merkle_tree_proof, climb, index_or_read}
use clementine.Circuits.MerkleProof.Paths.{
  Is32, read_siblings, message, path_root, node, twice, twice_lem, node_parent, climb-path,
  read_siblings-Is32,
}

append-injective : (a b x y : Bytes) → length a ≡ length b → a ++ x ≡ b ++ y → (a ≡ b) × (x ≡ y)
append-injective [] [] x y l e = (refl, e)
append-injective [] (d ∷ b) x y l e = absurd (omega arith)
append-injective (c ∷ a) [] x y l e = absurd (omega arith)
append-injective (c ∷ a) (d ∷ b) x y l e =
    let (p, q) = append-injective a b x y (omega arith) (cc) in (cc, q)

module _ (H : Sha256) where
  -- The two children of the node at `index / 2`, as the tree hashes them.
  abbrev pub tree_message : ℕ → List Bytes → ℕ → Bytes
  tree_message i nodes index =
      node H i nodes (twice (index / 2)) ++ node H i nodes (suc (twice (index / 2)))

  -- At some level the path hashes other bytes than the tree does, to the same digest.
  abbrev pub Collides : ℕ → List Bytes → ℕ → Bytes → List Bytes → Type 0
  Collides i nodes index hash [] = ⊥
  Collides i nodes index hash (sibling ∷ siblings) =
      ((message index hash sibling ≢ tree_message i nodes index)
        × (H.digest (message index hash sibling) ≡ H.digest (tree_message i nodes index)))
      ⊎ Collides (suc i) (pair_up H (zeroes H i) nodes) (index / 2)
          (H.digest (message index hash sibling)) siblings

  node-Is32 : (i : ℕ) (nodes : List Bytes) (k : ℕ) → All Is32 nodes → Is32 (node H i nodes k)
  node-Is32 i [] k h = length-zeroes H i
  node-Is32 i (a ∷ nodes) zero h = h.0
  node-Is32 i (a ∷ nodes) (suc k) h = node-Is32 i nodes k h.1

  pair_up-Is32 : (z : Bytes) (nodes : List Bytes) → All Is32 (pair_up H z nodes)
  pair_up-Is32 z [] = tt
  pair_up-Is32 z (a ∷ []) = (H.length-digest _, tt)
  pair_up-Is32 z (a ∷ b ∷ nodes) = (H.length-digest _, pair_up-Is32 z nodes)

  -- Equal messages have equal children.
  child_of_message :
      (i index : ℕ) (nodes : List Bytes) (hash sibling : Bytes)
      → Is32 hash
      → Is32 sibling
      → All Is32 nodes
      → message index hash sibling ≡ tree_message i nodes index
      → hash ≡ node H i nodes index
  child_of_message i index nodes hash sibling h b all e = elim (Bool-cases (index % 2 == 0)) [
    | inl even ↦
        (append-injective _ _ _ _ (h ∙ sym (node-Is32 i nodes _ all)) (rw even at e)).0
        ∙ ap (node H i nodes) (ground (arith, twice_lem (index / 2)))
    | inr odd ↦
        (append-injective _ _ _ _ (b ∙ sym (node-Is32 i nodes _ all)) (rw odd at e)).1
        ∙ ap (node H i nodes) (ground (arith, twice_lem (index / 2)))
  ]

  path_root_sound :
      (i index : ℕ) (nodes : List Bytes) (hash : Bytes) (siblings : List Bytes)
      → Is32 hash
      → All Is32 siblings
      → All Is32 nodes
      → index < 2 ^ length siblings
      → path_root H index hash siblings ≡ level_root H i (length siblings) nodes
      → (hash ≡ node H i nodes index) ⊎ Collides i nodes index hash siblings
  unfolding level_root
  path_root_sound i zero [] hash [] h bs all lt e = inl e
  path_root_sound i zero (a ∷ nodes) hash [] h bs all lt e = inl e
  path_root_sound i (suc index) nodes hash [] h bs all lt e = absurd (omega arith)
  path_root_sound i index nodes hash (b ∷ siblings) h bs all lt e =
      elim (path_root_sound (suc i) (index / 2) (pair_up H (zeroes H i) nodes)
        (H.digest (message index hash b)) siblings (H.length-digest _) bs.1
        (pair_up-Is32 (zeroes H i) nodes) (omega (arith, pow-suc 2 (length siblings))) e) [
          | inr above ↦ inr (inr above)
          | inl parent ↦
              elim (Bool-cases (bytes_eq (message index hash b) (tree_message i nodes index))) [
                | inl same ↦
                    inl (child_of_message i index nodes hash b h bs.0 all (bytes_eq→eq _ _ same))
                | inr differ ↦
                    inr (inl (bytes_ne _ _ differ, parent ∙ node_parent H i nodes (index / 2)))
              ]
        ]

-- If a proof read from the input leads to the root of a tree that has taken `leaves`, then what it
-- proves is the leaf at the index (an empty leaf behind the last one), or some level of the proof
-- that was read exhibits a collision of SHA-256 with the tree.
module _ {S : Type 0} (E : Environment S) (H : Sha256) where
  pub read_merkle_tree_proof_sound :
      (d idx : ℕ) (leaves : List Bytes) (t : IncrementalMerkleTree) (leaf : Bytes)
      (index : Option ℕ) (s s₁ s₂ : S)
      → Holds H d leaves t
      → All Is32 leaves
      → Is32 leaf
      → index_or_read E index s ≡ some (idx, s₁)
      → idx < 2 ^ d
      → read_merkle_tree_proof E H d leaf index s ≡ some (t.root, s₂)
      → (siblings : List Bytes) × (read_siblings E d s₁ ≡ some (siblings, s₂))
        × ((leaf ≡ get_or leaves idx emptydata) ⊎ Collides H 0 leaves idx leaf siblings)
  unfolding read_merkle_tree_proof zeroes
  read_merkle_tree_proof_sound d idx leaves t leaf index s s₁ s₂ h all32 leaf32 at_idx lt e =
      let climbs : climb E H d idx leaf s₁ ≡ some (t.root, s₂) =
        sym (>>=-of_some (index_or_read E index) (λ i. climb E H d i leaf) s at_idx) ∙ e in
      let (siblings, s₃, reads, result) =
        >>=-eq_some (read_siblings E d) (λ bs. pure (path_root H idx leaf bs)) s₁
          (sym (climb-path E H d idx leaf s₁) ∙ climbs) in
      let (len, siblings32) = read_siblings-Is32 E H d s₁ s₃ siblings reads in
      let root : path_root H idx leaf siblings ≡ t.root = cc result in
      let ends : s₃ ≡ s₂ = cc result in
      (
        siblings,
        reads ∙ ap (λ r. some (siblings, r)) ends,
        path_root_sound H 0 idx leaves leaf siblings leaf32 siblings32 all32
            (subst (λ n. idx < 2 ^ n) (sym len) lt)
            (root ∙ h.root_of_leaves ∙ ap (λ n. level_root H 0 n leaves) (sym len)),
      )
