-- ===== src/Circuits/Bridge/Withdrawal.antt =====
-- What an accepted withdrawal proof establishes (`read_withdrawal_proof` of circuits/src/bridge.rs).
use clementine.Prelude.{
  ℕ, ◌+◌, ◌^◌, ◌<◌, ◌≡◌, sym, ap, subst, ◌∙◌, ◌⊎◌, none, some, List, [], ◌∷◌, ◌++◌, length, All,
  get_or, arith,
}
use clementine.Prelude.Bytes.{Bytes, bytes_eq, bytes_eq→eq}
use clementine.Circuits.Sha256.{Sha256}
use clementine.Circuits.Env.{Environment, >>=-eq_some, some_pair-injective, assert-eq_some}
use clementine.Circuits.Constants.{
  emptydata, blockhash_merkle_tree_depth, withdrawal_merkle_tree_depth, bridge_amount_sats,
}
use clementine.Circuits.IncrementalMerkle.{IncrementalMerkleTree}
use clementine.Circuits.IncrementalMerkle.Root.{Holds, add-Holds}
use clementine.Circuits.MerkleProof.{
  index_or_read, read_merkle_tree_proof, read_and_verify_bitcoin_merkle_path,
}
use clementine.Circuits.MerkleProof.Paths.{Is32, read_siblings}
use clementine.Circuits.MerkleProof.BitcoinPaths.{
  PathShown, read_and_verify_bitcoin_merkle_path-PathShown,
}
use clementine.Circuits.MerkleProof.Soundness.{Collides, read_merkle_tree_proof_sound}
use clementine.Circuits.Transactions.{read_tx_and_calculate_txid}
use clementine.Circuits.Blocks.Headers.{BlockShown, blockhash-BlockShown}
use clementine.Circuits.Blocks.{read_header_except_root_and_calculate_blockhash}
use clementine.Circuits.Bridge.{read_withdrawal_proof}

withdrawal_room : (n : ℕ) → n + 1 < 2 ^ 32 → n < 2 ^ withdrawal_merkle_tree_depth
withdrawal_room n h = omega (arith, h)

module _ (H : Sha256) {S : Type 0} (E : Environment S) where
  pub blockhash-Is32 :
      (root hash : Bytes) (s s' : S)
      → read_header_except_root_and_calculate_blockhash H E root s ≡ some (hash, s')
      → Is32 hash
  blockhash-Is32 root hash s s' e =
      subst Is32 (blockhash-BlockShown E H root hash s s' e).hash_of_header (H.length-digest _)

  -- The transaction that a withdrawal proof has shown, and the block that contains it.
  pub record Withdrawn (leaves : List Bytes) (s s' : S) (output_address : Bytes) : Type 0 where
    pub txid : Bytes
    pub block_tx_mt_root : Bytes
    pub blockhash : Bytes
    pub idx : ℕ
    pub siblings : List Bytes
    pub s₁ : S
    pub s₂ : S
    pub s₃ : S
    pub s₄ : S
    pub s₅ : S
    pub address_read : E.read_32bytes s ≡ some (output_address, s₁)
    pub transaction_read :
        read_tx_and_calculate_txid E H none (some (some bridge_amount_sats, output_address)) s₁
        ≡ some (txid, s₂)
    pub path_shown : PathShown E H txid block_tx_mt_root s₂ s₃
    pub block_shown : BlockShown E H block_tx_mt_root blockhash s₃ s₄
    pub index_read : E.read_u32 s₄ ≡ some (idx, s₅)
    pub siblings_read : read_siblings E blockhash_merkle_tree_depth s₅ ≡ some (siblings, s')
    pub in_tree :
        (blockhash ≡ get_or leaves idx emptydata) ⊎ Collides H 0 leaves idx blockhash siblings

  pub read_index :
      (hash : Bytes) (s : S) {r : Bytes × S}
      → read_merkle_tree_proof E H blockhash_merkle_tree_depth hash none s ≡ some r
      → (idx : ℕ) × (t : S) × (E.read_u32 s ≡ some (idx, t))
  unfolding read_merkle_tree_proof
  read_index hash s e =
      let (idx, t, at_idx, _) = >>=-eq_some (index_or_read E none) _ s e in (idx, t, at_idx)

  -- If a withdrawal proof is accepted against the root of a tree that has taken the block hashes
  -- `leaves`, and the tree of withdrawals has room, then the input holds a transaction that pays the
  -- bridge amount to the address, and a path from it to a header whose hash is the leaf at the index
  -- (or the proof exhibits a collision), and the address is appended to the tree of withdrawals.
  pub read_withdrawal_proof_sound :
      (leaves addresses : List Bytes) (t imt imt' : IncrementalMerkleTree) (s s' : S)
      → Holds H blockhash_merkle_tree_depth leaves t
      → All Is32 leaves
      → Holds H withdrawal_merkle_tree_depth addresses imt
      → length addresses + 1 < 2 ^ 32
      → read_withdrawal_proof H E t.root imt s ≡ some (imt', s')
      → (output_address : Bytes) × Withdrawn leaves s s' output_address
        × Holds H withdrawal_merkle_tree_depth (addresses ++ (output_address ∷ [])) imt'
  unfolding read_withdrawal_proof
  read_withdrawal_proof_sound leaves addresses t imt imt' s s' h all32 h' room e =
      let (address, s₁, e₁, k₁) = >>=-eq_some E.read_32bytes _ s e in
      let (txid, s₂, e₂, k₂) =
        >>=-eq_some (read_tx_and_calculate_txid E H none (some (some bridge_amount_sats, address)))
          _ s₁ k₁ in
      let (mt_root, s₃, e₃, k₃) =
        >>=-eq_some (read_and_verify_bitcoin_merkle_path E H txid) _ s₂ k₂ in
      let (hash, s₄, e₄, k₄) =
        >>=-eq_some (read_header_except_root_and_calculate_blockhash H E mt_root) _ s₃ k₃ in
      let (root, s₆, e₆, k₆) =
        >>=-eq_some (read_merkle_tree_proof E H blockhash_merkle_tree_depth hash none) _ s₄ k₄ in
      let (same, result) = assert-eq_some (bytes_eq t.root root) _ s₆ k₆ in
      let (idx, s₅, at_idx) = read_index hash s₄ e₆ in
      let (siblings, reads, leaf) =
        read_merkle_tree_proof_sound E H blockhash_merkle_tree_depth idx leaves t hash none s₄ s₅ s₆
          h all32 (blockhash-Is32 mt_root hash s₃ s₄ e₄) at_idx (E.read_u32-lt s₄ s₅ idx at_idx)
          (e₆ ∙ ap (λ r. some (r, s₆)) (sym (bytes_eq→eq _ _ same))) in
      let (added, ends) = some_pair-injective result in
      (
        address,
        record {
          txid = txid;
          block_tx_mt_root = mt_root;
          blockhash = hash;
          idx = idx;
          siblings = siblings;
          s₁ = s₁;
          s₂ = s₂;
          s₃ = s₃;
          s₄ = s₄;
          s₅ = s₅;
          address_read = e₁;
          transaction_read = e₂;
          path_shown = read_and_verify_bitcoin_merkle_path-PathShown E H txid mt_root s₂ s₃ e₃;
          block_shown = blockhash-BlockShown E H mt_root hash s₃ s₄ e₄;
          index_read = at_idx;
          siblings_read = reads ∙ ap (λ z. some (siblings, z)) ends;
          in_tree = leaf;
        },
        subst (Holds H withdrawal_merkle_tree_depth (addresses ++ (address ∷ []))) added (
            add-Holds H withdrawal_merkle_tree_depth addresses address imt h'
              (withdrawal_room (length addresses) room) room),
      )
