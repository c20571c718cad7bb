-- ===== src/Lib.antt =====
-- Clementine, a Bitcoin bridge: the circuits that prove the operator's work, and the crate core that
-- builds the bridge's transactions and runs the operator, the verifiers, the aggregator and the user.
--
-- The parts, and the files that model them:
-- - Circuits/Env, Circuits/Sha256, Circuits/Constants: the trait `Environment` (circuits/src/env.rs) as
--   an interface whose reads hand on the rest of the input, the hash macros (hashes.rs) over a SHA-256
--   that is a parameter with 32-byte results, and constants.rs. A panic is `none`.
-- - Circuits/IncrementalMerkle and below: incremental_merkle.rs, `new` and `add`. Nodes defines the root
--   of the whole tree over a list of leaves, Root relates the two.
-- - Circuits/MerkleProof and below: `read_merkle_tree_proof` (bridge.rs) and
--   `read_and_verify_bitcoin_merkle_path` (bitcoin.rs).
-- - Circuits/Work and below: targets, the check of a hash, and the work (bitcoin.rs).
-- - Circuits/Transactions and below: `read_tx_and_calculate_txid` (bitcoin.rs). Format is the protocol's
--   serialization, Written the layout of the input, Tape a concrete environment.
-- - Circuits/Taproot: the commit taproot (bitcoin.rs). The curve of the crate `k256` is a parameter.
-- - Circuits/Blocks and Circuits/Bridge, with what is below them: bridge.rs. Every loop is a structural
--   recursion on its number of rounds, so that no fuel is needed. Integers wrap as in a release build.
-- - Core/Types, Core/Result: the data that core exchanges, and results with the errors of errors.rs and
--   the panics.
-- - Core/Utils, Core/Witness: functions of core/src/utils.rs.
-- - Core/Builder and below: core/src/builder. The functions of the crate `bitcoin` are records of
--   functions (Scripts, Taproot); an address stands as its script. Subtractions of amounts panic.
-- - Core/Config: what the parties read of config.rs. Core/Actor: the signer and the digests that it signs
--   (actor.rs), over the digests of the crate `bitcoin`. Core/Musig2: musig2.rs over the crate `musig2`.
-- - Core/Libraries: these parameters together, the presigned transactions that the verifiers and the
--   aggregator build in the same way, and the laws of the crates that signatures rest on.
-- - Core/ExtendedRpc: the checks of a deposit and the payments of extended_rpc.rs; the answers of the node
--   and of its wallet are parameters.
-- - Core/Database and below: the operator's tables (database/common.rs) as lists, newest row first, with
--   the constraints of scripts/schema.sql. A query that fails leaves the tables, as its transaction is
--   rolled back.
-- - Core/Nonces and below: the verifier's table of nonces, its queries and the trigger that forbids a
--   second sighash. Core/Deposits: the verifier's other tables (database/common.rs).
-- - Core/Verifier and below: verifier.rs. Presigns has `operator_kickoffs_generated`, Takes the two calls
--   behind it, and Calls the interface with histories of calls. A call in a transaction leaves the tables
--   where it fails; `burn_txs_signed` and `operator_take_txs_signed` commit query by query, and hand on
--   what they have committed.
-- - Core/Aggregator and below: aggregator.rs, and its signatures at the verifier's checks.
-- - Core/Operator and below: operator.rs. Start has the constructor, Withdrawal `new_withdrawal_sig`, and
--   Proved `withdrawal_proved_on_citrea`, whose loop has 25 rounds as in the source. Citrea's contract and
--   the node's wallet are parameters. The table lock makes calls of `new_deposit` a sequence of steps.
-- - Core/User and below: user.rs.
--
-- The verifiers and the aggregator exchange nonces and signatures through their callers and build the
-- same transactions of one configuration. The random bytes of nonces are arguments. The circuits and the
-- core share no state: the operator calls the builders and keeps its state in the tables, and the circuit
-- reads its input alone.
--
-- Not modelled: connections, servers, logging and the command line, which are input and output; methods
-- that only forward a call to the node; files that are commented out; the guests' entry points.
pub mod Prelude
pub mod Circuits
pub mod Core
