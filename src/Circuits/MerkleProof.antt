-- ===== src/Circuits/MerkleProof.antt =====
-- Reading Merkle proofs: `read_merkle_tree_proof` of circuits/src/bridge.rs and
-- `read_and_verify_bitcoin_merkle_path` of circuits/src/bitcoin.rs.
pub mod Paths
pub mod Soundness
pub mod Completeness
pub mod BitcoinPaths
use clementine.Prelude.{ℕ, zero, suc, ◌/◌, ◌%◌, Option, none, some, [], ◌∷◌, ◌==◌, if◌then◌else◌}
use clementine.Prelude.Bytes.{Bytes}
use clementine.Circuits.Sha256.{Sha256, sha256_hash, double_sha256_hash}
use clementine.Circuits.Env.{M, pure, ◌>>=◌, Environment}

-- `index.unwrap_or_else(|| E::read_u32())`
abbrev pub index_or_read : {S : Type 0} → Environment S → Option ℕ → M S ℕ
index_or_read E (some index) = pure index
index_or_read E none = E.read_u32

module _ {S : Type 0} (E : Environment S) (H : Sha256) where
  -- The loop of `read_merkle_tree_proof`, with the levels that are left.
  unfoldable pub climb : ℕ → ℕ → Bytes → M S Bytes
  climb zero level_idx hash = pure hash
  climb (suc levels) level_idx hash = do
    sibling ← E.read_32bytes
    climb levels (level_idx / 2) (
        if level_idx % 2 == 0
        then sha256_hash H (hash ∷ sibling ∷ [])
        else sha256_hash H (sibling ∷ hash ∷ []))

  -- `D = d`
  unfoldable pub read_merkle_tree_proof : ℕ → Bytes → Option ℕ → M S Bytes
  unfolding climb
  read_merkle_tree_proof d leaf index = do level_idx ← index_or_read E index; climb d level_idx leaf

  -- The loop of `read_and_verify_bitcoin_merkle_path`. `index & 1` is `index % 2`.
  unfoldable pub climb_bitcoin : ℕ → ℕ → Bytes → M S Bytes
  climb_bitcoin zero index hash = pure hash
  climb_bitcoin (suc levels) index hash = do
    node ← E.read_32bytes
    climb_bitcoin levels (index / 2) (
        if index % 2 == 0
        then double_sha256_hash H (hash ∷ node ∷ [])
        else double_sha256_hash H (node ∷ hash ∷ []))

  unfoldable pub read_and_verify_bitcoin_merkle_path : Bytes → M S Bytes
  unfolding climb_bitcoin
  read_and_verify_bitcoin_merkle_path txid = do
    index ← E.read_u32
    levels ← E.read_u32
    climb_bitcoin levels index txid
