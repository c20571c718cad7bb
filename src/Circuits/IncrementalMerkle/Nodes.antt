-- ===== src/Circuits/IncrementalMerkle/Nodes.antt =====
-- The whole Merkle tree, level by level, as an independent description: the nodes of a level are
-- paired from the left, and a last node without a partner is paired with the empty tree.
use clementine.Prelude.{ℕ, zero, suc, ◌/◌, ◌%◌, ◌≡◌, refl, ap, List, [], ◌∷◌, ◌++◌, length, arith}
use clementine.Prelude.Bytes.{Bytes}
use clementine.Circuits.Sha256.{Sha256, sha256_hash}
use clementine.Circuits.Constants.{zeroes}

module _ (H : Sha256) where
  abbrev pub node_hash : Bytes → Bytes → Bytes
  node_hash left right = sha256_hash H (left ∷ right ∷ [])

  -- The parents that have both children.
  abbrev pub pairs : List Bytes → List Bytes
  pairs [] = []
  pairs (a ∷ []) = []
  pairs (a ∷ b ∷ nodes) = node_hash a b ∷ pairs nodes

  -- All parents, where `z` stands for a missing right child.
  abbrev pub pair_up : Bytes → List Bytes → List Bytes
  pair_up z [] = []
  pair_up z (a ∷ []) = node_hash a z ∷ []
  pair_up z (a ∷ b ∷ nodes) = node_hash a b ∷ pair_up z nodes

  -- The root of the tree of height `d` over the nodes of level `i`.
  unfoldable pub level_root : ℕ → ℕ → List Bytes → Bytes
  level_root i zero [] = zeroes H i
  level_root i zero (node ∷ _) = node
  level_root i (suc d) nodes = level_root (suc i) d (pair_up (zeroes H i) nodes)

  -- The root of the tree of depth `d` over `leaves`, padded with empty leaves.
  abbrev pub merkle_root : ℕ → List Bytes → Bytes
  merkle_root d leaves = level_root 0 d leaves

  -- `kept` is the node that has no partner yet, if there is one.
  abbrev pub Keeps : Bytes → List Bytes → Type 0
  Keeps kept [] = Unit
  Keeps kept (a ∷ []) = kept ≡ a
  Keeps kept (a ∷ b ∷ nodes) = Keeps kept nodes

  pub length-pairs : (nodes : List Bytes) → length (pairs nodes) ≡ length nodes / 2
  length-pairs [] = omega arith
  length-pairs (a ∷ []) = omega arith
  length-pairs (a ∷ b ∷ nodes) = omega (arith, length-pairs nodes)

  pub pair_up-append_even :
      (z h : Bytes) (nodes : List Bytes)
      → length nodes % 2 ≡ 0
      → pair_up z (nodes ++ (h ∷ [])) ≡ pairs nodes ++ (node_hash h z ∷ [])
  pair_up-append_even z h [] e = refl
  pair_up-append_even z h (a ∷ []) e = absurd (omega arith)
  pair_up-append_even z h (a ∷ b ∷ nodes) e =
      ap (λ r. node_hash a b ∷ r) (pair_up-append_even z h nodes (omega arith))

  pub pair_up-append_odd :
      (z h kept : Bytes) (nodes : List Bytes)
      → length nodes % 2 ≡ 1
      → Keeps kept nodes
      → pair_up z (nodes ++ (h ∷ [])) ≡ pairs nodes ++ (node_hash kept h ∷ [])
  pair_up-append_odd z h kept [] e k = absurd (omega arith)
  pair_up-append_odd z h kept (a ∷ []) e k = rw k
  pair_up-append_odd z h kept (a ∷ b ∷ nodes) e k =
      ap (λ r. node_hash a b ∷ r) (pair_up-append_odd z h kept nodes (omega arith) k)

  pub pairs-append_even :
      (h : Bytes) (nodes : List Bytes)
      → length nodes % 2 ≡ 0
      → pairs (nodes ++ (h ∷ [])) ≡ pairs nodes
  pairs-append_even h [] e = refl
  pairs-append_even h (a ∷ []) e = absurd (omega arith)
  pairs-append_even h (a ∷ b ∷ nodes) e =
      ap (λ r. node_hash a b ∷ r) (pairs-append_even h nodes (omega arith))

  pub pairs-append_odd :
      (h kept : Bytes) (nodes : List Bytes)
      → length nodes % 2 ≡ 1
      → Keeps kept nodes
      → pairs (nodes ++ (h ∷ [])) ≡ pairs nodes ++ (node_hash kept h ∷ [])
  pairs-append_odd h kept [] e k = absurd (omega arith)
  pairs-append_odd h kept (a ∷ []) e k = rw k
  pairs-append_odd h kept (a ∷ b ∷ nodes) e k =
      ap (λ r. node_hash a b ∷ r) (pairs-append_odd h kept nodes (omega arith) k)

  pub Keeps-append_even :
      (h : Bytes) (nodes : List Bytes) → length nodes % 2 ≡ 0 → Keeps h (nodes ++ (h ∷ []))
  Keeps-append_even h [] e = refl
  Keeps-append_even h (a ∷ []) e = absurd (omega arith)
  Keeps-append_even h (a ∷ b ∷ nodes) e = Keeps-append_even h nodes (omega arith)

  pub Keeps-append_odd :
      (kept h : Bytes) (nodes : List Bytes) → length nodes % 2 ≡ 1 → Keeps kept (nodes ++ (h ∷ []))
  Keeps-append_odd kept h [] e = absurd (omega arith)
  Keeps-append_odd kept h (a ∷ []) e = tt
  Keeps-append_odd kept h (a ∷ b ∷ nodes) e = Keeps-append_odd kept h nodes (omega arith)

  -- A level of an even number of nodes keeps none.
  pub Keeps-even : (kept : Bytes) (nodes : List Bytes) → length nodes % 2 ≡ 0 → Keeps kept nodes
  Keeps-even kept [] e = tt
  Keeps-even kept (a ∷ []) e = absurd (omega arith)
  Keeps-even kept (a ∷ b ∷ nodes) e = Keeps-even kept nodes (omega arith)
