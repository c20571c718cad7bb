-- ===== src/Circuits/Bridge/Settlement.antt =====
-- What a proof that is returned says about the challenge (`bridge_proof` of circuits/src/bridge.rs).
use clementine.Prelude.{
  ℕ, ◌+◌, ◌%◌, ◌^◌, ◌<◌, ◌≡◌, refl, ap, ap₂, subst, ◌∙◌, ◌⊎◌, inl, inr, none, some, Bool, true,
  false, ◌==◌, ltb, ltb→lt, ==_iff, replicate, sym, length, List, All, get_elem?, if◌then◌else◌,
}
use clementine.Prelude.Bytes.{Bytes, bytes_eq, bytes_eq→eq}
use clementine.Circuits.Sha256.{Sha256}
use clementine.Circuits.Env.{
  M, pure, ◌>>=◌, Environment, >>=-eq_some, >>=-of_some, some_pair-injective, assert-eq_some,
  assert_last-eq_some,
}
use clementine.Circuits.Constants.{
  blockhash_merkle_tree_depth, withdrawal_merkle_tree_depth, claim_merkle_tree_depth,
  period_claim_mt_roots, num_rounds,
}
use clementine.Circuits.IncrementalMerkle.{IncrementalMerkleTree, new}
use clementine.Circuits.IncrementalMerkle.Root.{Holds}
use clementine.Circuits.MerkleProof.Paths.{Is32}
use clementine.Circuits.Taproot.{TweakKey}
use clementine.Circuits.Blocks.Headers.{HeadersRead, chain_work}
use clementine.Circuits.Blocks.Chain.{read_blocks_and_calculate_work-chain}
use clementine.Circuits.Blocks.{Header, read_blocks_and_calculate_work}
use clementine.Circuits.Bridge.{
  Rounds, Verdict, settle_mismatch, read_and_verify_lc_proof,
  read_and_verify_verifiers_challenge_proof, read_rounds, read_claim, bridge_proof,
}
use clementine.Circuits.Bridge.Claim.{Claimed, read_claim-Claimed}

-- A mismatch that does not stop the proof is outweighed by the operator's work.
settle_mismatch-eq_some :
    {S B : Type 0} (matches : Bool) (total verifiers : ℕ) (f : Unit → M S B) (s : S) {r : B × S}
    → (settle_mismatch matches total verifiers >>= f) s ≡ some r
    → ((matches ≡ true) ⊎ (verifiers < total)) × (f tt s ≡ some r)
unfolding settle_mismatch
settle_mismatch-eq_some true total verifiers f s e = (inl refl, e)
settle_mismatch-eq_some {S} {B} false total verifiers f s {r} e =
    by_test (ltb verifiers total) refl e
  where
    by_test :
        (b : Bool)
        → ltb verifiers total ≡ b
        → ((λ t. if b then some (tt, t) else none) >>= f) s ≡ some r
        → ((false ≡ true) ⊎ (verifiers < total)) × (f tt s ≡ some r)
    by_test true more k = (inr (ltb→lt verifiers total more), k)
    by_test false less k = cc

-- Where the rounds of `bridge_proof` begin.
abbrev pub first_round : Sha256 → Bytes → Rounds
first_round H first_block_hash = record {
  blockhashes_mt = new H blockhash_merkle_tree_depth;
  withdrawal_mt = new H withdrawal_merkle_tree_depth;
  total_pow = 0;
  cur_block_hash = first_block_hash;
  lc_blockhash = replicate 32 0;
  total_num_withdrawals = 0;
  last_period = 0;
}

module _ (H : Sha256) {S : Type 0} (E : Environment S) where
  read_and_verify_lc_proof-reads :
      (lc root : Bytes) (s s' : S)
      → read_and_verify_lc_proof H E lc root s ≡ some (tt, s')
      → (t : S) × (E.read_32bytes s ≡ some (lc, t)) × (E.read_32bytes t ≡ some (root, s'))
  unfolding read_and_verify_lc_proof
  read_and_verify_lc_proof-reads lc root s s' e =
      let (b, s₁, e₁, k₁) = >>=-eq_some E.read_32bytes _ s e in
      let (eq₁, k₂) = assert-eq_some (bytes_eq b lc) _ s₁ k₁ in
      let (c, s₂, e₂, k₃) = >>=-eq_some E.read_32bytes _ s₁ k₂ in
      let (eq₂, ends) = assert_last-eq_some (bytes_eq c root) s₂ s' k₃ in
      (
        s₁,
        e₁ ∙ ap (λ x. some (x, s₁)) (bytes_eq→eq b lc eq₁),
        e₂ ∙ ap₂ (λ x y. some (x, y)) (bytes_eq→eq c root eq₂) ends,
      )

  module _ (tweak_key : TweakKey) where
    -- What `bridge_proof` has established when it returns `v` after the rounds `r`, where the trees of
    -- the blocks and of the period's claims have taken `blocks` and `claims`.
    pub record Settled (blocks claims : List Bytes) (r : Rounds) (v : Verdict) (s s' : S)
        : Type 0 where
      pub work : ℕ
      pub s₀ : S
      pub s₁ : S
      pub s₂ : S
      pub s₃ : S
      pub headers : List Header
      pub count_read : E.read_u32 s ≡ some (length headers, s₀)
      pub headers_read : HeadersRead E headers s₀ s₁
      pub work_of_headers : chain_work H r.cur_block_hash headers 0 ≡ some work
      pub period :
          (v.challenge_period ≡ r.last_period % 2 ^ 8) ⊎ (v.pow < (r.total_pow + work) % 2 ^ 256)
      pub blockhash :
          (v.last_finalized_blockhash ≡ r.cur_block_hash) ⊎ (v.pow < (r.total_pow + work) % 2 ^ 256)
      pub lc_read : E.read_32bytes s₁ ≡ some (r.lc_blockhash, s₂)
      pub withdrawals_read : E.read_32bytes s₂ ≡ some (r.withdrawal_mt.root, s₃)
      pub claimed : Claimed H E tweak_key blocks claims r s₃ s'

    -- The part of `bridge_proof` behind the challenge.
    abbrev settle : Rounds → Verdict → M S Verdict
    settle r v = do
      k_deep_work ← read_blocks_and_calculate_work H E r.cur_block_hash
      let total_pow = (r.total_pow + k_deep_work) % 2 ^ 256
      _ ← settle_mismatch (v.challenge_period == r.last_period % 2 ^ 8) total_pow v.pow
      _ ← settle_mismatch (bytes_eq v.last_finalized_blockhash r.cur_block_hash) total_pow v.pow
      _ ← read_and_verify_lc_proof H E r.lc_blockhash r.withdrawal_mt.root
      _ ← read_claim H E tweak_key r v
      pure v

    equal_periods : (a b : ℕ) {X : Type 0} → ((a == b) ≡ true) ⊎ X → (a ≡ b) ⊎ X
    equal_periods a b (inl h) = inl ((==_iff a b).0 h)
    equal_periods a b (inr x) = inr x

    equal_hashes : (a b : Bytes) {X : Type 0} → (bytes_eq a b ≡ true) ⊎ X → (a ≡ b) ⊎ X
    equal_hashes a b (inl h) = inl (bytes_eq→eq a b h)
    equal_hashes a b (inr x) = inr x

    module _ (blocks claims : List Bytes) (claim_tree : IncrementalMerkleTree) (r : Rounds)
        (block_tree : Holds H blockhash_merkle_tree_depth blocks r.blockhashes_mt)
        (block_hashes : All Is32 blocks)
        (tree_of_claims : Holds H claim_merkle_tree_depth claims claim_tree)
        (claim_hashes : All Is32 claims)
        (fits : r.total_num_withdrawals < 2 ^ claim_merkle_tree_depth) where
      settle-Settled :
          (v v' : Verdict) (s s' : S)
          → get_elem? period_claim_mt_roots v'.challenge_period ≡ some claim_tree.root
          → settle r v s ≡ some (v', s')
          → (v ≡ v') × Settled blocks claims r v s s'
      settle-Settled v v' s s' of_period e =
          let (work, s₁, e₁, k₁) =
            >>=-eq_some (read_blocks_and_calculate_work H E r.cur_block_hash) _ s e in
          let (period, k₂) =
            settle_mismatch-eq_some (v.challenge_period == r.last_period % 2 ^ 8)
              ((r.total_pow + work) % 2 ^ 256) v.pow _ s₁ k₁ in
          let (hash, k₃) =
            settle_mismatch-eq_some (bytes_eq v.last_finalized_blockhash r.cur_block_hash)
              ((r.total_pow + work) % 2 ^ 256) v.pow _ s₁ k₂ in
          let (_, s₃, e₃, k₄) =
            >>=-eq_some (read_and_verify_lc_proof H E r.lc_blockhash r.withdrawal_mt.root) _ s₁
              k₃ in
          let (s₂, lc, withdrawals) =
            read_and_verify_lc_proof-reads r.lc_blockhash r.withdrawal_mt.root s₁ s₃ e₃ in
          let (_, s₄, e₄, k₅) = >>=-eq_some (read_claim H E tweak_key r v) _ s₃ k₄ in
          let (same, ends) = some_pair-injective k₅ in
          let (headers, s₀, count, reads, works) =
            read_blocks_and_calculate_work-chain H E work r.cur_block_hash s s₁ e₁ in
          (
            same,
            record {
              work = work;
              headers = headers;
              s₀ = s₀;
              count_read = count;
              headers_read = reads;
              work_of_headers = works;
              s₁ = s₁;
              s₂ = s₂;
              s₃ = s₃;
              period = equal_periods v.challenge_period (r.last_period % 2 ^ 8) period;
              blockhash = equal_hashes v.last_finalized_blockhash r.cur_block_hash hash;
              lc_read = lc;
              withdrawals_read = withdrawals;
              claimed = subst (Claimed H E tweak_key blocks claims r s₃) ends (
                  read_claim-Claimed H E tweak_key blocks claims claim_tree r v s₃ s₄ block_tree
                    block_hashes
                    (subst
                      (λ w.
                        get_elem? period_claim_mt_roots w.challenge_period ≡ some claim_tree.root)
                      (sym same) of_period)
                    tree_of_claims claim_hashes fits e₄);
            },
          )

      -- Let the rounds of a bridge proof end with a tree that has taken the block hashes `blocks`, and let
      -- the root of the claims of the challenged period be that of a tree that has taken `claims`, with
      -- room for the number of withdrawals. If the proof is returned, then it is the verifier's challenge
      -- that was read behind the rounds; its period and its block hash are the operator's, or the
      -- operator's work, with that of the headers that were read behind, is greater than the verifier's; the light client's block hash and the root of the
      -- withdrawals are those of the rounds. In each of these cases the input holds a transaction that
      -- pays the commit address, one that spends it, and a path to a header, the header's hash is the
      -- block at the index that was read, and the leaf of the preimages is the claim at the number of
      -- withdrawals (or the siblings that were read exhibit a collision of the hash).
      pub bridge_proof-Settled :
          (v : Verdict) (first : Bytes) (s s₁ s₂ s' : S)
          → E.read_32bytes s ≡ some (first, s₁)
          → read_rounds H E num_rounds 0 (first_round H first) s₁ ≡ some (r, s₂)
          → get_elem? period_claim_mt_roots v.challenge_period ≡ some claim_tree.root
          → bridge_proof H E tweak_key s ≡ some (v, s')
          → (s₃ : S) × (read_and_verify_verifiers_challenge_proof H E s₂ ≡ some (v, s₃))
            × Settled blocks claims r v s₃ s'
      unfolding bridge_proof
      bridge_proof-Settled v first s s₁ s₂ s' at_first at_rounds of_period e =
          let k₁ = sym (>>=-of_some E.read_32bytes _ s at_first) ∙ e in
          let k₂ =
            sym (>>=-of_some (read_rounds H E num_rounds 0 (first_round H first)) _ s₁ at_rounds)
            ∙ k₁ in
          let (v', s₃, e₃, k₃) =
            >>=-eq_some (read_and_verify_verifiers_challenge_proof H E) (λ w. settle r w) s₂ k₂ in
          let (same, settled) = settle-Settled v' v s₃ s' of_period k₃ in
          (
            s₃,
            e₃ ∙ ap (λ w. some (w, s₃)) same,
            subst (λ w. Settled blocks claims r w s₃ s') same settled,
          )
