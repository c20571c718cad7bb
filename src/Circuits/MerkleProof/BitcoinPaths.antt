-- ===== src/Circuits/MerkleProof/BitcoinPaths.antt =====
-- What `read_and_verify_bitcoin_merkle_path` of circuits/src/bitcoin.rs has read and computed.
use clementine.Prelude.{
  ℕ, zero, suc, ◌/◌, ◌%◌, ◌≡◌, refl, sym, ap, ◌∙◌, inl, inr, Option-cases, List, [], ◌∷◌, ◌==◌,
  some, if◌then◌else◌, arith,
}
use clementine.Prelude.Bytes.{Bytes}
use clementine.Circuits.Sha256.{Sha256, double_sha256_hash}
use clementine.Circuits.Env.{Environment, pure, ◌>>=◌, >>=-eq_some, some_pair-injective}
use clementine.Circuits.MerkleProof.{climb_bitcoin, read_and_verify_bitcoin_merkle_path}
use clementine.Circuits.MerkleProof.Paths.{read_siblings, message, path_root}

-- SHA-256 twice.
abbrev pub twice_hashed : Sha256 → Sha256
twice_hashed H = record {
  digest = λ m. H.digest (H.digest m);
  length-digest = λ m. H.length-digest (H.digest m);
}

module _ {S : Type 0} (E : Environment S) (H : Sha256) where
  -- The input holds an index, a number of levels and as many nodes, and the path of these from the
  -- transaction leads to the root: at each level the double hash of the two children, the even one first.
  pub record PathShown (txid root : Bytes) (s s' : S) : Type 0 where
    pub index : ℕ
    pub levels : ℕ
    pub siblings : List Bytes
    pub s₁ : S
    pub s₂ : S
    pub index_read : E.read_u32 s ≡ some (index, s₁)
    pub levels_read : E.read_u32 s₁ ≡ some (levels, s₂)
    pub siblings_read : read_siblings E levels s₂ ≡ some (siblings, s')
    pub root_of_path : path_root (twice_hashed H) index txid siblings ≡ root

  next_hash :
      (index : ℕ) (hash b : Bytes)
      → (if index % 2 == 0
          then double_sha256_hash H (hash ∷ b ∷ [])
          else double_sha256_hash H (b ∷ hash ∷ []))
        ≡ H.digest (H.digest (message index hash b))
  next_hash index hash b = ground arith

  climb_bitcoin-path :
      (n index : ℕ) (hash : Bytes) (s : S)
      → climb_bitcoin E H n index hash s
        ≡ (read_siblings E n
              >>= (λ siblings. pure (path_root (twice_hashed H) index hash siblings)))
            s
  unfolding climb_bitcoin read_siblings
  climb_bitcoin-path zero index hash s = refl
  climb_bitcoin-path (suc n) index hash s = elim (Option-cases (E.read_32bytes s)) [
    | inl fault ↦ ground arith
    | inr ((b, t), read) ↦ ground (
      arith,
      read,
      climb_bitcoin-path n (index / 2) (H.digest (H.digest (message index hash b))) t,
      next_hash index hash b,
    )
  ]

  pub read_and_verify_bitcoin_merkle_path-PathShown :
      (txid root : Bytes) (s s' : S)
      → read_and_verify_bitcoin_merkle_path E H txid s ≡ some (root, s')
      → PathShown txid root s s'
  unfolding read_and_verify_bitcoin_merkle_path
  read_and_verify_bitcoin_merkle_path-PathShown txid root s s' e =
      let (index, s₁, at_index, k₁) = >>=-eq_some E.read_u32 _ s e in
      let (levels, s₂, at_levels, k₂) = >>=-eq_some E.read_u32 _ s₁ k₁ in
      let (siblings, s₃, reads, k₃) =
        >>=-eq_some (read_siblings E levels)
          (λ siblings. pure (path_root (twice_hashed H) index txid siblings)) s₂
          (sym (climb_bitcoin-path levels index txid s₂) ∙ k₂) in
      let (same, ends) = some_pair-injective k₃ in
      record {
        index = index;
        levels = levels;
        siblings = siblings;
        s₁ = s₁;
        s₂ = s₂;
        index_read = at_index;
        levels_read = at_levels;
        siblings_read = reads ∙ ap (λ z. some (siblings, z)) ends;
        root_of_path = same;
      }
