-- ===== src/Circuits/Bridge/Claim.antt =====
-- What the last part of `bridge_proof` of circuits/src/bridge.rs has shown about the claim.
use clementine.Prelude.{
  ℕ, ◌^◌, ◌+◌, ◌*◌, ◌%◌, [], ◌∷◌, ◌<◌, ◌≡◌, refl, sym, ap, subst, ◌∙◌, ◌⊎◌, Option, none, some,
  true, List, All, get_elem?, get_or,
}
use clementine.Prelude.Bytes.{Bytes, bytes_eq, bytes_eq→eq}
use clementine.Circuits.Sha256.{Sha256, update, update_all, sha256_hash}
use clementine.Circuits.Env.{
  M, pure, ◌>>=◌, Environment, >>=-eq_some, some_pair-injective, assert-eq_some,
  assert_last-eq_some,
}
use clementine.Circuits.Constants.{
  emptydata, blockhash_merkle_tree_depth, claim_merkle_tree_depth, period_claim_mt_roots,
}
use clementine.Circuits.IncrementalMerkle.{IncrementalMerkleTree}
use clementine.Circuits.IncrementalMerkle.Root.{Holds}
use clementine.Circuits.MerkleProof.{
  index_or_read, read_merkle_tree_proof, read_and_verify_bitcoin_merkle_path,
}
use clementine.Circuits.MerkleProof.Paths.{Is32, read_siblings}
use clementine.Circuits.MerkleProof.BitcoinPaths.{
  PathShown, read_and_verify_bitcoin_merkle_path-PathShown,
}
use clementine.Circuits.MerkleProof.Soundness.{Collides, read_merkle_tree_proof_sound}
use clementine.Circuits.Transactions.{
  u8_bytes, update_hasher_with_varint, read_tx_and_calculate_txid,
}
use clementine.Circuits.Taproot.{
  TweakKey, tap_leaf_str, read_preimages, calculate_taproot_from_single_script,
  read_preimages_and_calculate_commit_taproot,
}
use clementine.Circuits.Blocks.Headers.{BlockShown, blockhash-BlockShown}
use clementine.Circuits.Blocks.{or_panic, read_header_except_root_and_calculate_blockhash}
use clementine.Circuits.Blocks.Chain.{or_panic-eq_some}
use clementine.Circuits.Bridge.{Rounds, Verdict, read_claim}
use clementine.Circuits.Bridge.Withdrawal.{blockhash-Is32, read_index}

-- What all results of the second part have, all results of the whole have.
ends_bind :
    {S A B : Type 0} (P : B → Type 0) (m : M S A) (f : A → M S B)
    → ((a : A) (t : S) (r : B × S) → f a t ≡ some r → P r.0)
    → (s : S) (r : B × S) → (m >>= f) s ≡ some r
    → P r.0
ends_bind P m f h s r e = let (a, t, _, k) = >>=-eq_some m f s e in h a t r k

same_root :
    (o : Option Bytes) (a b c : Bytes) → o ≡ some a → o ≡ some b → bytes_eq b c ≡ true → c ≡ a
same_root o a b c at_a at_b same =
    let equal : b ≡ c = bytes_eq→eq b c same in cc (at_a, at_b, equal)

module _ (H : Sha256) {S : Type 0} (E : Environment S) where
  -- A proof that leads to the root of a tree, where the root is only known to be equal.
  in_tree :
      (d idx : ℕ) (leaves : List Bytes) (t : IncrementalMerkleTree) (root leaf : Bytes)
      (index : Option ℕ) (s s₁ s₂ : S)
      → Holds H d leaves t
      → All Is32 leaves
      → Is32 leaf
      → index_or_read E index s ≡ some (idx, s₁)
      → idx < 2 ^ d
      → root ≡ t.root
      → read_merkle_tree_proof E H d leaf index s ≡ some (root, s₂)
      → (siblings : List Bytes) × (read_siblings E d s₁ ≡ some (siblings, s₂))
        × ((leaf ≡ get_or leaves idx emptydata) ⊎ Collides H 0 leaves idx leaf siblings)
  in_tree d idx leaves t root leaf index s s₁ s₂ h all32 leaf32 at_idx lt same e =
      read_merkle_tree_proof_sound E H d idx leaves t leaf index s s₁ s₂ h all32 leaf32 at_idx lt
        (e ∙ ap (λ r. some (r, s₂)) same)

  ends_at :
      (d : ℕ) (siblings : List Bytes) (t u v w : S)
      → u ≡ t
      → v ≡ w
      → read_siblings E d t ≡ some (siblings, v)
      → read_siblings E d u ≡ some (siblings, w)
  ends_at d siblings t u v w starts ends e =
      ap (read_siblings E d) starts ∙ e ∙ ap (λ z. some (siblings, z)) ends

module _ (H : Sha256) {S : Type 0} (E : Environment S) (tweak_key : TweakKey) where
  -- The claim leaf is a digest.
  leaf-Is32 :
      (address leaf : Bytes) (s s' : S)
      → read_preimages_and_calculate_commit_taproot H tweak_key E s ≡ some ((address, leaf), s')
      → Is32 leaf
  unfolding read_preimages_and_calculate_commit_taproot
  leaf-Is32 address leaf s s' e =
      let tag = sha256_hash H (tap_leaf_str ∷ []) in
      ends_bind (λ p. Is32 p.1) E.read_u32 _
        (λ n.
          ends_bind (λ p. Is32 p.1) E.read_32bytes _
            (λ key.
              ends_bind (λ p. Is32 p.1)
                (read_preimages H tweak_key E n
                  (update_all
                    (update_hasher_with_varint (update_all [] (tag ∷ tag ∷ u8_bytes 192 ∷ []))
                      ((37 + 33 * n) % 2 ^ 32))
                    (u8_bytes 32 ∷ key ∷ (172 ∷ 0 ∷ 99 ∷ []) ∷ []))
                  [])
                _
                (λ hashers.
                  ends_bind (λ p. Is32 p.1)
                    (λ t.
                      elim (calculate_taproot_from_single_script H tweak_key
                        (H.digest (update hashers.0 (u8_bytes 104)))) [
                          | none ↦ none
                          | some taproot ↦ some (taproot, t)
                        ])
                    (λ taproot. pure (taproot, H.digest hashers.1))
                    (λ taproot t r k.
                      subst (λ p. Is32 p.1) {x = (taproot, H.digest hashers.1)} {y = r.0}
                        (some_pair-injective {s = t} k).0 (H.length-digest hashers.1)))))
        s ((address, leaf), s') e

  -- The reveal transaction that the input has shown, the block that contains it, and the place of the
  -- claim in the tree of the period: the trees have taken `blocks` and `claims`.
  pub record Claimed (blocks claims : List Bytes) (r : Rounds) (s s' : S) : Type 0 where
    pub commit_taproot_addr : Bytes
    pub claim_proof_tree_leaf : Bytes
    pub commit_taproot_txid : Bytes
    pub vout : ℕ
    pub reveal_txid : Bytes
    pub calculated_merkle_root : Bytes
    pub calculated_blockhash : Bytes
    pub idx : ℕ
    pub block_siblings : List Bytes
    pub claim_siblings : List Bytes
    pub s₁ : S
    pub s₂ : S
    pub s₃ : S
    pub s₄ : S
    pub s₅ : S
    pub s₆ : S
    pub s₇ : S
    pub s₈ : S
    pub preimages_read :
        read_preimages_and_calculate_commit_taproot H tweak_key E s
        ≡ some ((commit_taproot_addr, claim_proof_tree_leaf), s₁)
    pub commit_read :
        read_tx_and_calculate_txid E H none (some (none, commit_taproot_addr)) s₁
        ≡ some (commit_taproot_txid, s₂)
    pub vout_read : E.read_u32 s₂ ≡ some (vout, s₃)
    pub reveal_read :
        read_tx_and_calculate_txid E H (some (commit_taproot_txid, vout)) none s₃
        ≡ some (reveal_txid, s₄)
    pub path_shown : PathShown E H reveal_txid calculated_merkle_root s₄ s₅
    pub block_shown : BlockShown E H calculated_merkle_root calculated_blockhash s₅ s₆
    pub index_read : E.read_u32 s₆ ≡ some (idx, s₇)
    pub block_siblings_read :
        read_siblings E blockhash_merkle_tree_depth s₇ ≡ some (block_siblings, s₈)
    pub in_blocks :
        (calculated_blockhash ≡ get_or blocks idx emptydata)
        ⊎ Collides H 0 blocks idx calculated_blockhash block_siblings
    pub claim_siblings_read : read_siblings E claim_merkle_tree_depth s₈ ≡ some (claim_siblings, s')
    pub in_claims :
        (claim_proof_tree_leaf ≡ get_or claims r.total_num_withdrawals emptydata)
        ⊎ Collides H 0 claims r.total_num_withdrawals claim_proof_tree_leaf claim_siblings

  pub read_claim-Claimed :
      (blocks claims : List Bytes) (claim_tree : IncrementalMerkleTree) (r : Rounds) (v : Verdict)
      (s s' : S)
      → Holds H blockhash_merkle_tree_depth blocks r.blockhashes_mt
      → All Is32 blocks
      → get_elem? period_claim_mt_roots v.challenge_period ≡ some claim_tree.root
      → Holds H claim_merkle_tree_depth claims claim_tree
      → All Is32 claims
      → r.total_num_withdrawals < 2 ^ claim_merkle_tree_depth
      → read_claim H E tweak_key r v s ≡ some (tt, s')
      → Claimed blocks claims r s s'
  unfolding read_claim
  read_claim-Claimed blocks claims claim_tree r v s s' h all32 at_period h' all32' fits e =
      let ((address, leaf), s₁, e₁, k₁) =
        >>=-eq_some (read_preimages_and_calculate_commit_taproot H tweak_key E) _ s e in
      let (commit_txid, s₂, e₂, k₂) =
        >>=-eq_some (read_tx_and_calculate_txid E H none (some (none, address))) _ s₁ k₁ in
      let (vout, s₃, e₃, k₃) = >>=-eq_some E.read_u32 _ s₂ k₂ in
      let (reveal_txid, s₄, e₄, k₄) =
        >>=-eq_some (read_tx_and_calculate_txid E H (some (commit_txid, vout)) none) _ s₃ k₃ in
      let (mt_root, s₅, e₅, k₅) =
        >>=-eq_some (read_and_verify_bitcoin_merkle_path E H reveal_txid) _ s₄ k₄ in
      let (hash, s₆, e₆, k₆) =
        >>=-eq_some (read_header_except_root_and_calculate_blockhash H E mt_root) _ s₅ k₅ in
      let (root, s₈, e₈, k₈) =
        >>=-eq_some (read_merkle_tree_proof E H blockhash_merkle_tree_depth hash none) _ s₆ k₆ in
      let (same, k₉) = assert-eq_some (bytes_eq r.blockhashes_mt.root root) _ s₈ k₈ in
      let (period_root, t, at_root, k₁₀) =
        >>=-eq_some (or_panic (get_elem? period_claim_mt_roots v.challenge_period)) _ s₈ k₉ in
      let (of_period, stays) = or_panic-eq_some _ s₈ t period_root at_root in
      let (claim_root, s₉, e₉, k₁₁) =
        >>=-eq_some
          (read_merkle_tree_proof E H claim_merkle_tree_depth leaf (some r.total_num_withdrawals)) _
          t k₁₀ in
      let (claim_same, ends) = assert_last-eq_some (bytes_eq period_root claim_root) s₉ s' k₁₁ in
      let tree_root =
        same_root (get_elem? period_claim_mt_roots v.challenge_period) claim_tree.root period_root
          claim_root at_period of_period claim_same in
      let (idx, s₇, at_idx) = read_index H E hash s₆ e₈ in
      let (siblings, reads, in_blocks) =
        in_tree H E blockhash_merkle_tree_depth idx blocks r.blockhashes_mt root hash none s₆ s₇ s₈
          h all32 (blockhash-Is32 H E mt_root hash s₅ s₆ e₆) at_idx (E.read_u32-lt s₆ s₇ idx at_idx)
          (sym (bytes_eq→eq _ _ same)) e₈ in
      let (claim_siblings, claim_reads, in_claims) =
        in_tree H E claim_merkle_tree_depth r.total_num_withdrawals claims claim_tree claim_root
          leaf (some r.total_num_withdrawals) t t s₉ h' all32' (leaf-Is32 address leaf s s₁ e₁) refl
          fits tree_root e₉ in
      record {
        commit_taproot_addr = address;
        claim_proof_tree_leaf = leaf;
        commit_taproot_txid = commit_txid;
        vout = vout;
        reveal_txid = reveal_txid;
        calculated_merkle_root = mt_root;
        calculated_blockhash = hash;
        idx = idx;
        block_siblings = siblings;
        claim_siblings = claim_siblings;
        s₁ = s₁;
        s₂ = s₂;
        s₃ = s₃;
        s₄ = s₄;
        s₅ = s₅;
        s₆ = s₆;
        s₇ = s₇;
        s₈ = s₈;
        preimages_read = e₁;
        commit_read = e₂;
        vout_read = e₃;
        reveal_read = e₄;
        path_shown = read_and_verify_bitcoin_merkle_path-PathShown E H reveal_txid mt_root s₄ s₅ e₅;
        block_shown = blockhash-BlockShown E H mt_root hash s₅ s₆ e₆;
        index_read = at_idx;
        block_siblings_read = reads;
        in_blocks = in_blocks;
        claim_siblings_read =
            ends_at H E claim_merkle_tree_depth claim_siblings t s₈ s₉ s' stays ends claim_reads;
        in_claims = in_claims;
      }
