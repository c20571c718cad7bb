-- ===== src/Core.antt =====
-- The crate core: the transactions of the bridge, the operator and its tables.
pub mod Types
pub mod Result
pub mod Utils
pub mod Builder
pub mod Witness
pub mod Actor
pub mod ExtendedRpc
pub mod Database
pub mod Nonces
pub mod Config
pub mod Musig2
pub mod Libraries
pub mod Deposits
pub mod Operator
pub mod Verifier
pub mod Aggregator
pub mod User
mod Standins
mod VerifierTests
mod AggregatorTests
mod WithdrawalTests
mod DigestTests
mod BuilderTests
mod Tests
mod OperatorTests
mod NonceTests
