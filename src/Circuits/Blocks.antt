-- ===== src/Circuits/Blocks.antt =====
-- Reading block headers: the first functions of circuits/src/bridge.rs.
pub mod Headers
pub mod Chain
use clementine.Prelude.{
  ℕ, zero, suc, ◌+◌, ◌-◌, ◌%◌, ◌^◌, Option, none, some, List, [], ◌∷◌, ◌==◌, if◌then◌else◌,
  replicate,
}
use clementine.Prelude.Bytes.{Bytes, to_le_bytes}
use clementine.Circuits.Sha256.{Sha256, double_sha256_hash}
use clementine.Circuits.Env.{M, pure, ◌>>=◌, Environment}
use clementine.Circuits.IncrementalMerkle.{IncrementalMerkleTree, add}
use clementine.Circuits.Work.{validate_threshold_and_add_work}

-- `HeaderWithoutPrevBlockHash`
pub record Header : Type 0 where
  pub version : ℕ
  pub merkle_root : Bytes
  pub time : ℕ
  pub bits : ℕ
  pub nonce : ℕ

-- What the loops carry: the tree, the work, the last block hash and `lc_block_hash`.
pub record Progress : Type 0 where
  pub imt : IncrementalMerkleTree
  pub total_work : ℕ
  pub curr_prev_block_hash : Bytes
  pub lc_block_hash : Bytes

-- A step that can panic.
abbrev pub or_panic : {S A : Type 0} → Option A → M S A
or_panic none s = none
or_panic (some a) s = some (a, s)

module _ (H : Sha256) where
  unfoldable pub calculate_next_block_hash : Bytes → Header → Bytes
  calculate_next_block_hash prev_block_hash h = double_sha256_hash H (
      to_le_bytes 4 h.version
      ∷ prev_block_hash
      ∷ h.merkle_root
      ∷ to_le_bytes 4 h.time
      ∷ to_le_bytes 4 h.bits
      ∷ to_le_bytes 4 h.nonce
      ∷ [])

  module _ {S : Type 0} (E : Environment S) where
    unfoldable pub read_header_except_prev_blockhash : M S Header
    read_header_except_prev_blockhash = do
      version ← E.read_i32
      merkle_root ← E.read_32bytes
      time ← E.read_u32
      bits ← E.read_u32
      nonce ← E.read_u32
      pure (record {
        version = version;
        merkle_root = merkle_root;
        time = time;
        bits = bits;
        nonce = nonce;
      })

    unfoldable pub read_header_except_root_and_calculate_blockhash : Bytes → M S Bytes
    read_header_except_root_and_calculate_blockhash mt_root = do
      version ← E.read_i32
      prev_blockhash ← E.read_32bytes
      time ← E.read_u32
      bits ← E.read_u32
      nonce ← E.read_u32
      pure (
          double_sha256_hash H (
            to_le_bytes 4 version
            ∷ prev_blockhash
            ∷ mt_root
            ∷ to_le_bytes 4 time
            ∷ to_le_bytes 4 bits
            ∷ to_le_bytes 4 nonce
            ∷ []))

    -- The loop of `read_blocks_and_add_to_merkle_tree` at round `i` of `n`, with the rounds that are
    -- left. `n - max_block_handle_ops` wraps as in a release build.
    unfoldable pub read_blocks_from : ℕ → ℕ → ℕ → ℕ → Progress → M S Progress
    unfolding read_header_except_prev_blockhash
    read_blocks_from zero i n max_block_handle_ops p = pure p
    read_blocks_from (suc rounds) i n max_block_handle_ops p = do
      header ← read_header_except_prev_blockhash
      let lc =
          if i == (n + 2 ^ 32 - max_block_handle_ops) % 2 ^ 32
          then p.curr_prev_block_hash
          else p.lc_block_hash
      let next = calculate_next_block_hash p.curr_prev_block_hash header
      work ←
          or_panic (validate_threshold_and_add_work (to_le_bytes 4 header.bits) next p.total_work)
      read_blocks_from rounds (i + 1) n max_block_handle_ops (record {
        imt = add H next p.imt;
        total_work = work;
        curr_prev_block_hash = next;
        lc_block_hash = lc;
      })

    unfoldable pub read_blocks_and_add_to_merkle_tree :
        Bytes → IncrementalMerkleTree → ℕ → M S Progress
    read_blocks_and_add_to_merkle_tree start_prev_block_hash imt max_block_handle_ops = do
      n ← E.read_u32
      read_blocks_from n 0 n max_block_handle_ops (record {
        imt = imt;
        total_work = 0;
        curr_prev_block_hash = start_prev_block_hash;
        lc_block_hash = replicate 32 0;
      })

    -- The loop of `read_blocks_and_calculate_work`, with the rounds that are left.
    unfoldable pub read_work_from : ℕ → Bytes → ℕ → M S ℕ
    unfolding read_header_except_prev_blockhash
    read_work_from zero curr_prev_block_hash total_work = pure total_work
    read_work_from (suc rounds) curr_prev_block_hash total_work = do
      header ← read_header_except_prev_blockhash
      let next = calculate_next_block_hash curr_prev_block_hash header
      work ← or_panic (validate_threshold_and_add_work (to_le_bytes 4 header.bits) next total_work)
      read_work_from rounds next work

    unfoldable pub read_blocks_and_calculate_work : Bytes → M S ℕ
    read_blocks_and_calculate_work start_prev_block_hash = do
      num_blocks ← E.read_u32
      read_work_from num_blocks start_prev_block_hash 0
