-- ===== src/Circuits/Bridge.antt =====
-- The withdrawals, the challenge and the proof as a whole: the rest of circuits/src/bridge.rs.
pub mod Withdrawal
pub mod Claim
pub mod Settlement
use clementine.Prelude.{
  ℕ, zero, suc, ◌+◌, ◌%◌, ◌^◌, Option, none, some, List, [], ◌∷◌, Bool, true, false, ◌==◌, ltb,
  ◌&&◌, not, if◌then◌else◌, replicate, get_elem?,
}
use clementine.Prelude.Bytes.{Bytes, bytes_eq, from_le_bytes}
use clementine.Circuits.Sha256.{Sha256}
use clementine.Circuits.Env.{M, pure, ◌>>=◌, assert, Environment}
use clementine.Circuits.Constants.{
  blockhash_merkle_tree_depth, withdrawal_merkle_tree_depth, claim_merkle_tree_depth,
  max_block_handle_ops, num_rounds, bridge_amount_sats, period_claim_mt_roots,
}
use clementine.Circuits.IncrementalMerkle.{IncrementalMerkleTree, new, add}
use clementine.Circuits.MerkleProof.{read_merkle_tree_proof, read_and_verify_bitcoin_merkle_path}
use clementine.Circuits.Transactions.{read_tx_and_calculate_txid}
use clementine.Circuits.Taproot.{TweakKey, read_preimages_and_calculate_commit_taproot}
use clementine.Circuits.Blocks.{
  Progress, or_panic, read_header_except_root_and_calculate_blockhash,
  read_blocks_and_add_to_merkle_tree, read_blocks_and_calculate_work,
}

-- The state of the rounds of `bridge_proof`.
pub record Rounds : Type 0 where
  pub blockhashes_mt : IncrementalMerkleTree
  pub withdrawal_mt : IncrementalMerkleTree
  pub total_pow : ℕ
  pub cur_block_hash : Bytes
  pub lc_blockhash : Bytes
  pub total_num_withdrawals : ℕ
  pub last_period : ℕ

-- What a bridge proof returns.
pub record Verdict : Type 0 where
  pub pow : ℕ
  pub last_finalized_blockhash : Bytes
  pub challenge_period : ℕ

unfoldable pub verify_challenge_proof : List Bytes → Bool
verify_challenge_proof proof = true

-- The mismatch of one value between the verifier and the operator: the operator's work has to be
-- greater. `win()` does nothing.
unfoldable pub settle_mismatch : {S : Type 0} → Bool → ℕ → ℕ → M S Unit
settle_mismatch matches total_pow verifiers_pow s =
    if matches then some (tt, s) else if ltb verifiers_pow total_pow then some (tt, s) else none

module _ (H : Sha256) {S : Type 0} (E : Environment S) where
  unfoldable pub read_withdrawal_proof : Bytes → IncrementalMerkleTree → M S IncrementalMerkleTree
  read_withdrawal_proof block_mt_root imt = do
    output_address ← E.read_32bytes
    txid ← read_tx_and_calculate_txid E H none (some (some bridge_amount_sats, output_address))
    block_tx_mt_root ← read_and_verify_bitcoin_merkle_path E H txid
    calculated_blockhash ← read_header_except_root_and_calculate_blockhash H E block_tx_mt_root
    root ← read_merkle_tree_proof E H blockhash_merkle_tree_depth calculated_blockhash none
    _ ← assert (bytes_eq block_mt_root root)
    pure (add H output_address imt)

  -- The loop of one round over its withdrawals.
  unfoldable pub read_withdrawal_proofs :
      ℕ → Bytes → IncrementalMerkleTree → M S IncrementalMerkleTree
  read_withdrawal_proofs zero block_mt_root imt = pure imt
  read_withdrawal_proofs (suc n) block_mt_root imt = do
    imt' ← read_withdrawal_proof block_mt_root imt
    read_withdrawal_proofs n block_mt_root imt'

  unfoldable pub read_and_verify_lc_proof : Bytes → Bytes → M S Unit
  read_and_verify_lc_proof lc_blockhash withdrawal_mt_root = do
    read_lc_blockhash ← E.read_32bytes
    _ ← assert (bytes_eq read_lc_blockhash lc_blockhash)
    read_withdrawal_mt_root ← E.read_32bytes
    assert (bytes_eq read_withdrawal_mt_root withdrawal_mt_root)

  unfoldable pub read_and_verify_verifiers_challenge_proof : M S Verdict
  read_and_verify_verifiers_challenge_proof = do
    a ← E.read_32bytes
    b ← E.read_32bytes
    c ← E.read_32bytes
    d ← E.read_32bytes
    lc_cutoff_blockhash ← E.read_32bytes
    max_pow_bytes ← E.read_32bytes
    period_num ← E.read_u32
    _ ← assert (verify_challenge_proof (a ∷ b ∷ c ∷ d ∷ []))
    pure (record {
      pow = from_le_bytes max_pow_bytes;
      last_finalized_blockhash = lc_cutoff_blockhash;
      challenge_period = period_num % 2 ^ 8;
    })

  -- One round, up to the question whether to end; the work and the number of withdrawals wrap.
  unfoldable pub read_round : Rounds → M S Rounds
  read_round r = do
    p ←
        read_blocks_and_add_to_merkle_tree H E r.cur_block_hash r.blockhashes_mt
          max_block_handle_ops
    num_withdrawals ← E.read_u32
    withdrawal_mt ← read_withdrawal_proofs num_withdrawals p.imt.root r.withdrawal_mt
    pure (record {
      blockhashes_mt = p.imt;
      withdrawal_mt = withdrawal_mt;
      total_pow = (r.total_pow + p.total_work) % 2 ^ 256;
      cur_block_hash = p.curr_prev_block_hash;
      lc_blockhash = p.lc_block_hash;
      total_num_withdrawals = (r.total_num_withdrawals + num_withdrawals) % 2 ^ 32;
      last_period = r.last_period;
    })

  -- The loop over the periods at `period_count`, with the rounds that are left.
  unfoldable pub read_rounds : ℕ → ℕ → Rounds → M S Rounds
  read_rounds zero period_count r = pure r
  read_rounds (suc rounds) period_count r = do
    r' ← read_round r
    do_you_want_to_end_proving ← E.read_u32
    elim (do_you_want_to_end_proving == 1) [
      | true ↦ pure (record {
        blockhashes_mt = r'.blockhashes_mt;
        withdrawal_mt = r'.withdrawal_mt;
        total_pow = r'.total_pow;
        cur_block_hash = r'.cur_block_hash;
        lc_blockhash = r'.lc_blockhash;
        total_num_withdrawals = r'.total_num_withdrawals;
        last_period = period_count;
      })
      | false ↦ read_rounds rounds (period_count + 1) r'
    ]

  module _ (tweak_key : TweakKey) where
    -- The last part of `bridge_proof`: the inclusion of the reveal transaction and the claim.
    unfoldable pub read_claim : Rounds → Verdict → M S Unit
    read_claim r v = do
      (commit_taproot_addr, claim_proof_tree_leaf) ←
          read_preimages_and_calculate_commit_taproot H tweak_key E
      commit_taproot_txid ← read_tx_and_calculate_txid E H none (some (none, commit_taproot_addr))
      vout ← E.read_u32
      reveal_txid ← read_tx_and_calculate_txid E H (some (commit_taproot_txid, vout)) none
      calculated_merkle_root ← read_and_verify_bitcoin_merkle_path E H reveal_txid
      calculated_blockhash ←
          read_header_except_root_and_calculate_blockhash H E calculated_merkle_root
      root ← read_merkle_tree_proof E H blockhash_merkle_tree_depth calculated_blockhash none
      _ ← assert (bytes_eq r.blockhashes_mt.root root)
      period_root ← or_panic (get_elem? period_claim_mt_roots v.challenge_period)
      claim_root ←
          read_merkle_tree_proof E H claim_merkle_tree_depth claim_proof_tree_leaf
            (some r.total_num_withdrawals)
      assert (bytes_eq period_root claim_root)

    unfoldable pub bridge_proof : M S Verdict
    bridge_proof = do
      first_block_hash ← E.read_32bytes
      r ← read_rounds num_rounds 0 (record {
        blockhashes_mt = new H blockhash_merkle_tree_depth;
        withdrawal_mt = new H withdrawal_merkle_tree_depth;
        total_pow = 0;
        cur_block_hash = first_block_hash;
        lc_blockhash = replicate 32 0;
        total_num_withdrawals = 0;
        last_period = 0;
      })
      v ← read_and_verify_verifiers_challenge_proof
      k_deep_work ← read_blocks_and_calculate_work H E r.cur_block_hash
      let total_pow = (r.total_pow + k_deep_work) % 2 ^ 256
      _ ← settle_mismatch (v.challenge_period == r.last_period % 2 ^ 8) total_pow v.pow
      _ ← settle_mismatch (bytes_eq v.last_finalized_blockhash r.cur_block_hash) total_pow v.pow
      _ ← read_and_verify_lc_proof r.lc_blockhash r.withdrawal_mt.root
      _ ← read_claim r v
      pure v
