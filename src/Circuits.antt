-- ===== src/Circuits.antt =====
-- The crate `circuits`: what the prover's guest program computes from the host's input.
pub mod Sha256
pub mod Env
pub mod Constants
pub mod IncrementalMerkle
pub mod MerkleProof
pub mod Work
pub mod Transactions
pub mod Tape
pub mod Taproot
pub mod Blocks
pub mod Bridge
mod Tests
mod BridgeTests
