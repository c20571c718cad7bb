-- ===== src/Circuits/IncrementalMerkle/Root.antt =====
-- The incremental tree computes the root of the whole tree.
use clementine.Prelude.{
  ℕ, zero, suc, ◌+◌, ◌/◌, ◌%◌, ◌^◌, ◌<◌, ◌≡◌, refl, sym, ap, ◌∙◌, ◌⊎◌, inl, inr, List, [], ◌∷◌,
  true, false, ◌++◌, length, arith, ◌==◌, length-append, replicate, length-replicate,
}
use native.Mathlib.Nat.{pow-suc}
use clementine.Prelude.Bytes.{Bytes}
use clementine.Circuits.Sha256.{Sha256}
use clementine.Circuits.Constants.{emptydata, zeroes}
use clementine.Circuits.IncrementalMerkle.{IncrementalMerkleTree, new, add_from, add}
use clementine.Circuits.IncrementalMerkle.Nodes.{
  node_hash, pairs, level_root, merkle_root, Keeps, length-pairs, pair_up-append_even,
  pair_up-append_odd, pairs-append_even, pairs-append_odd, Keeps-append_even, Keeps-append_odd,
  Keeps-even,
}

-- Each level of the array keeps the node without a partner, of the complete nodes of that level.
abbrev pub KeepsAll : Sha256 → List Bytes → List Bytes → Type 0
KeepsAll H [] nodes = Unit
KeepsAll H (kept ∷ above) nodes = Keeps H kept nodes × KeepsAll H above (pairs H nodes)

parity : (n : ℕ) → ((n % 2 ≡ 0) × ((n % 2 == 0) ≡ true)) ⊎ ((n % 2 ≡ 1) × ((n % 2 == 0) ≡ false))
parity n = ground arith

half-lt-pow : (n d : ℕ) → n < 2 ^ suc d → n / 2 < 2 ^ d
half-lt-pow n d h = omega (arith, pow-suc 2 d)

module _ (H : Sha256) where
  -- The hash that the loop ends with is the root over the complete nodes and the node it began with.
  add_from-root :
      (i : ℕ) (filled nodes : List Bytes) (h : Bytes)
      → KeepsAll H filled nodes
      → length nodes < 2 ^ length filled
      → (add_from H i filled (length nodes) h).1
        ≡ level_root H i (length filled) (nodes ++ (h ∷ []))
  unfolding add_from level_root
  add_from-root i [] [] h k lt = refl
  add_from-root i [] (a ∷ nodes) h k lt = absurd (omega arith)
  add_from-root i (kept ∷ above) nodes h k lt = elim (parity (length nodes)) [
    | inl (even, test) ↦
        rw (test, ← length-pairs H nodes)
          (add_from-root (suc i) above (pairs H nodes) (node_hash H h (zeroes H i)) k.1
              (rw length-pairs (half-lt-pow (length nodes) (length above) lt))
            ∙ sym (
                ap (level_root H (suc i) (length above))
                  (pair_up-append_even H (zeroes H i) h nodes even)))
    | inr (odd, test) ↦
        rw (test, ← length-pairs H nodes)
          (add_from-root (suc i) above (pairs H nodes) (node_hash H kept h) k.1
              (rw length-pairs (half-lt-pow (length nodes) (length above) lt))
            ∙ sym (
                ap (level_root H (suc i) (length above))
                  (pair_up-append_odd H (zeroes H i) h kept nodes odd k.0)))
  ]

  -- A node that is still incomplete leaves what the array keeps of the complete nodes.
  add_from_incomplete :
      (i : ℕ) (filled nodes : List Bytes) (h : Bytes)
      → KeepsAll H filled nodes
      → KeepsAll H (add_from H i filled (length nodes) h).0 nodes
  unfolding add_from
  add_from_incomplete i [] nodes h k = tt
  add_from_incomplete i (kept ∷ above) nodes h k = elim (parity (length nodes)) [
    | inl (even, test) ↦
        rw (test, ← length-pairs H nodes)
          (
            Keeps-even H h nodes even,
            add_from_incomplete (suc i) above (pairs H nodes) (node_hash H h (zeroes H i)) k.1,
          )
    | inr (odd, test) ↦
        rw (test, ← length-pairs H nodes)
          (k.0, add_from_incomplete (suc i) above (pairs H nodes) (node_hash H kept h) k.1)
  ]

  -- A complete node joins the complete nodes.
  add_from_complete :
      (i : ℕ) (filled nodes : List Bytes) (h : Bytes)
      → KeepsAll H filled nodes
      → KeepsAll H (add_from H i filled (length nodes) h).0 (nodes ++ (h ∷ []))
  unfolding add_from
  add_from_complete i [] nodes h k = tt
  add_from_complete i (kept ∷ above) nodes h k = elim (parity (length nodes)) [
    | inl (even, test) ↦
        rw (test, pairs-append_even H h nodes even, ← length-pairs H nodes)
          (
            Keeps-append_even H h nodes even,
            add_from_incomplete (suc i) above (pairs H nodes) (node_hash H h (zeroes H i)) k.1,
          )
    | inr (odd, test) ↦
        rw (test, pairs-append_odd H h kept nodes odd k.0, ← length-pairs H nodes)
          (
            Keeps-append_odd H kept h nodes odd,
            add_from_complete (suc i) above (pairs H nodes) (node_hash H kept h) k.1,
          )
  ]

  length-add_from :
      (i : ℕ) (filled : List Bytes) (n : ℕ) (h : Bytes)
      → length (add_from H i filled n h).0 ≡ length filled
  unfolding add_from
  length-add_from i [] n h = refl
  length-add_from i (kept ∷ above) n h = ap suc (length-add_from (suc i) above (n / 2) _)

  KeepsAll-new : (d : ℕ) (f : Bytes) → KeepsAll H (replicate d f) []
  KeepsAll-new zero f = tt
  KeepsAll-new (suc d) f = (tt, KeepsAll-new d f)

  level_root_empty : (i d : ℕ) → level_root H i d [] ≡ zeroes H (i + d)
  unfolding level_root
  level_root_empty i zero = ap (zeroes H) (omega arith)
  level_root_empty i (suc d) = level_root_empty (suc i) d ∙ ap (zeroes H) (omega arith)

-- The state of a tree of depth `d` that has taken `leaves`: it is what a full tree would say.
pub record Holds (H : Sha256) (d : ℕ) (leaves : List Bytes) (t : IncrementalMerkleTree)
    : Type 0 where
  pub depth : length t.filled_subtrees ≡ d
  pub kept : KeepsAll H t.filled_subtrees leaves
  pub count : t.index ≡ length leaves
  pub root_of_leaves : t.root ≡ merkle_root H d leaves

module _ (H : Sha256) where
  -- A new tree holds no leaves.
  pub new-Holds : (d : ℕ) → Holds H d [] (new H d)
  unfolding new
  new-Holds d = record {
    depth = length-replicate d emptydata;
    kept = KeepsAll-new H d emptydata;
    count = refl;
    root_of_leaves = sym (level_root_empty H 0 d ∙ ap (zeroes H) (omega arith));
  }

  -- While the tree has room and its index does not wrap, `add` appends a leaf: the root becomes
  -- that of the whole tree over all leaves so far, and the state stays fit for the next call.
  pub add-Holds :
      (d : ℕ) (leaves : List Bytes) (a : Bytes) (t : IncrementalMerkleTree)
      → Holds H d leaves t
      → length leaves < 2 ^ d
      → length leaves + 1 < 2 ^ 32
      → Holds H d (leaves ++ (a ∷ [])) (add H a t)
  unfolding add
  add-Holds d leaves a t h room no_wrap = record {
    depth = length-add_from H 0 t.filled_subtrees t.index a ∙ h.depth;
    kept = rw h.count (add_from_complete H 0 t.filled_subtrees leaves a h.kept);
    count = rw length-append (omega (arith, h.count));
    root_of_leaves =
        rw (h.count, ← h.depth)
          (add_from-root H 0 t.filled_subtrees leaves a h.kept (rw h.depth room));
  }
