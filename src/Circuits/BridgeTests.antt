-- ===== src/Circuits/BridgeTests.antt =====
-- Concrete runs of the bridge circuit, with a constant in place of SHA-256: the root of the claims of
-- period 0, so that a whole proof can be written down.
use clementine.Prelude.{
  ℕ, zero, suc, ◌≡◌, refl, none, some, List, [], ◌∷◌, ◌++◌, length, replicate, get_or, get_elem?,
  take, ◌+◌, ◌-◌, ◌%◌, ◌^◌, ltb, if◌then◌else◌, arith,
}
use clementine.Prelude.Bytes.{Bytes, to_le_bytes, from_le_bytes, bytes_eq}
use clementine.Circuits.Sha256.{Sha256}
use clementine.Circuits.Constants.{zeroes, num_rounds, period_claim_mt_roots}
use clementine.Circuits.IncrementalMerkle.{new, add}
use clementine.Circuits.IncrementalMerkle.Root.{Holds, new-Holds}
use clementine.Circuits.MerkleProof.{read_merkle_tree_proof, read_and_verify_bitcoin_merkle_path}
use clementine.Circuits.Tape.{
  Tape, bytes32, u32, u64, i32, tape, tape_u32, tape_32bytes, tape_i32, tape_u64,
}
use clementine.Circuits.Transactions.{read_tx_and_calculate_txid}
use clementine.Circuits.Transactions.Format.{Tx, serialize, IsTx}
use clementine.Circuits.Transactions.Written.{write_tx}
use clementine.Circuits.Transactions.Txid.{read_tx_and_calculate_txid-write}
use clementine.Circuits.Work.{
  validate_threshold_and_add_work, decode_compact_target, check_hash_valid, calculate_work,
  check_below, fill_at, fill_end,
}
use clementine.Circuits.Blocks.{
  Header, Progress, read_blocks_and_add_to_merkle_tree, read_blocks_from, calculate_next_block_hash,
  read_header_except_prev_blockhash, read_header_except_root_and_calculate_blockhash,
  read_blocks_and_calculate_work, read_work_from,
}
use clementine.Circuits.Blocks.Headers.{HeadersRead, chain_hashes, last_hash, chain_work}
use clementine.Circuits.Blocks.Chain.{read_blocks_and_add_to_merkle_tree-Ran}
use clementine.Circuits.Taproot.{
  TweakKey, read_preimages_and_calculate_commit_taproot, read_preimages,
  calculate_taproot_from_single_script,
}
use clementine.Circuits.Transactions.{
  read_inputs, read_input, read_outputs, read_output, read_chunks_and_update_hasher, read_chunks,
  read_remaining, update_hasher_with_varint,
}
use clementine.Circuits.MerkleProof.{climb, climb_bitcoin}
use clementine.Circuits.Bridge.{
  Verdict, bridge_proof, read_rounds, read_round, read_withdrawal_proof, read_withdrawal_proofs,
  read_and_verify_verifiers_challenge_proof, verify_challenge_proof, settle_mismatch,
  read_and_verify_lc_proof, read_claim,
}
use clementine.Circuits.Bridge.Withdrawal.{Withdrawn, read_withdrawal_proof_sound}
use clementine.Circuits.Bridge.Settlement.{first_round, Settled, bridge_proof-Settled}

abbrev constant : Sha256
constant = record { digest = λ m. get_or period_claim_mt_roots 0 []; length-digest = λ m. refl }

abbrev coin : Tx
coin = record {
  version = 2;
  inputs =
      record {
        prev_tx_hash = replicate 32 7;
        output_index = 1;
        script_sig = 1 ∷ 2 ∷ [];
        sequence = 9;
      }
      ∷ [];
  outputs = record { value = 100_000_000; script_pubkey = 81 ∷ 32 ∷ replicate 32 5 } ∷ [];
  lock_time = 0;
}

coin-IsTx : IsTx coin
coin-IsTx = record {
  version_range = omega arith;
  input_count = omega arith;
  output_count = omega arith;
  lock_time_range = omega arith;
  all_inputs = (
    record {
      hash_size = refl;
      index_range = omega arith;
      script_range = omega arith;
      sequence_range = omega arith;
    },
    tt,
  );
  all_outputs = (
    record { value_range = omega arith; script_nonempty = omega arith; script_range = omega arith },
    tt,
  );
}

read_tx_and_calculate_txid-write_example :
    read_tx_and_calculate_txid tape constant none
      (some (some 100_000_000, replicate 32 5))
      (write_tx coin ++ (u32 3 ∷ []))
    ≡ some (constant.digest (constant.digest (serialize coin)), u32 3 ∷ [])
unfolding bytes_eq
read_tx_and_calculate_txid-write_example =
    read_tx_and_calculate_txid-write constant none (some (some 100_000_000, replicate 32 5)) coin
      (u32 3 ∷ []) coin-IsTx

abbrev block_tape : Tape
block_tape = i32 1 ∷ bytes32 (replicate 32 1) ∷ u32 1_700_000_000 ∷ u32 0x207fffff ∷ u32 7 ∷ []

abbrev genesis : Bytes
genesis = replicate 32 0

abbrev after_block : Progress
after_block = record {
  imt = add constant (constant.digest []) (new constant 2);
  total_work = 2;
  curr_prev_block_hash = constant.digest [];
  lc_block_hash = genesis;
}

reads_block :
    read_blocks_and_add_to_merkle_tree constant tape genesis (new constant 2) 1 (u32 1 ∷ block_tape)
    ≡ some (after_block, [])
unfolding read_blocks_and_add_to_merkle_tree read_blocks_from read_header_except_prev_blockhash
    calculate_next_block_hash tape_u32 tape_i32 tape_32bytes validate_threshold_and_add_work
    decode_compact_target check_hash_valid calculate_work check_below fill_at fill_end to_le_bytes
    from_le_bytes
reads_block = refl

reads_count : tape.read_u32 (u32 1 ∷ block_tape) ≡ some (1, block_tape)
unfolding tape_u32
reads_count = refl

read_blocks_and_add_to_merkle_tree-Ran_example :
    (headers : List Header) × (length headers ≡ 1)
    × HeadersRead tape headers block_tape []
    × Holds constant 2 ([] ++ chain_hashes constant genesis headers) after_block.imt
    × (after_block.curr_prev_block_hash ≡ last_hash constant genesis headers)
    × (genesis ≡ (
        if ltb ((1 + 2 ^ 32 - 1) % 2 ^ 32) 1
        then last_hash constant genesis (take ((1 + 2 ^ 32 - 1) % 2 ^ 32) headers)
        else replicate 32 0))
    × (chain_work constant genesis headers 0 ≡ some after_block.total_work)
read_blocks_and_add_to_merkle_tree-Ran_example =
    read_blocks_and_add_to_merkle_tree-Ran constant tape 2 1 1 [] genesis (new constant 2)
      after_block (u32 1 ∷ block_tape) block_tape [] (new-Holds constant 2) reads_count
      (omega arith) (omega arith) reads_block

-- A block's header without its root, and a proof of 32 levels for index 0.
abbrev header_tape : Tape
header_tape = i32 1 ∷ bytes32 genesis ∷ u32 1 ∷ u32 2 ∷ u32 3 ∷ []

abbrev siblings_tape : ℕ → Tape
siblings_tape zero = []
siblings_tape (suc n) = bytes32 (constant.digest []) ∷ siblings_tape n

abbrev withdrawal_tape : Tape
withdrawal_tape =
    bytes32 (replicate 32 5)
    ∷ (write_tx coin ++ (u32 0 ∷ u32 0 ∷ (header_tape ++ (u32 0 ∷ siblings_tape 32))))

reads_withdrawal :
    read_withdrawal_proof constant tape (new constant 32).root (new constant 32) withdrawal_tape
    ≡ some (add constant (replicate 32 5) (new constant 32), [])
unfolding read_withdrawal_proof read_tx_and_calculate_txid read_inputs read_input read_outputs
    read_output read_chunks_and_update_hasher read_chunks read_remaining update_hasher_with_varint
    write_tx read_and_verify_bitcoin_merkle_path climb_bitcoin
    read_header_except_root_and_calculate_blockhash read_merkle_tree_proof climb tape_u32 tape_i32
    tape_32bytes tape_u64 bytes_eq new zeroes
reads_withdrawal = refl

read_withdrawal_proof_sound_example :
    (output_address : Bytes) × Withdrawn constant tape [] withdrawal_tape [] output_address
    × Holds constant 32
        ([] ++ (output_address ∷ []))
        (add constant (replicate 32 5) (new constant 32))
read_withdrawal_proof_sound_example =
    read_withdrawal_proof_sound constant tape [] [] (new constant 32) (new constant 32)
      (add constant (replicate 32 5) (new constant 32)) withdrawal_tape [] (new-Holds constant 32)
      tt (new-Holds constant 32) (omega arith) reads_withdrawal

-- A whole proof: no blocks and no withdrawals, and the claim of period 0.
abbrev reveal_tape : Tape
reveal_tape =
    i32 2 ∷ u32 1 ∷ u32 0 ∷ u32 0 ∷ bytes32 (constant.digest []) ∷ u32 4 ∷ u32 9 ∷ u32 0 ∷ []

abbrev first_hash : Bytes
first_hash = replicate 32 7

abbrev address : Bytes
address = replicate 32 3

abbrev commit_tape : Tape
commit_tape = i32 2 ∷ u32 0 ∷ u32 1 ∷ u32 0 ∷ u64 600 ∷ u32 0 ∷ bytes32 address ∷ []

abbrev challenge_tape : Tape
challenge_tape =
    bytes32 genesis
    ∷ bytes32 genesis
    ∷ bytes32 genesis
    ∷ bytes32 genesis
    ∷ bytes32 first_hash
    ∷ bytes32 genesis
    ∷ u32 0
    ∷ []

-- Behind the rounds.
abbrev challenged_tape : Tape
challenged_tape =
    (challenge_tape
      ++ (u32 0
          ∷ bytes32 genesis
          ∷ bytes32 (constant.digest [])
          ∷ u32 0
          ∷ bytes32 genesis
          ∷ (commit_tape
              ++ (u32 4
                  ∷ (reveal_tape
                      ++ (u32 0
                          ∷ u32 0
                          ∷ (header_tape ++ (u32 0 ∷ (siblings_tape 32 ++ siblings_tape 4)))))))))

abbrev rounds_tape : Tape
rounds_tape = u32 0 ∷ u32 0 ∷ u32 1 ∷ challenged_tape

abbrev whole_tape : Tape
whole_tape = bytes32 first_hash ∷ rounds_tape

-- The root of the claims of period 0 is the root of a tree without claims.
claims_of_period : get_elem? period_claim_mt_roots 0 ≡ some (new constant 4).root
unfolding new zeroes
claims_of_period = refl

abbrev verdict : Verdict
verdict = record { pow = 0; last_finalized_blockhash = first_hash; challenge_period = 0 }

abbrev tweak : TweakKey
tweak x y t = some address

proves : bridge_proof constant tape tweak whole_tape ≡ some (verdict, [])
unfolding bridge_proof read_rounds read_round read_withdrawal_proofs
    read_and_verify_verifiers_challenge_proof verify_challenge_proof settle_mismatch
    read_and_verify_lc_proof read_claim read_blocks_and_add_to_merkle_tree read_blocks_from
    read_blocks_and_calculate_work read_work_from read_preimages_and_calculate_commit_taproot
    read_preimages calculate_taproot_from_single_script read_tx_and_calculate_txid read_inputs
    read_input read_outputs read_output read_chunks_and_update_hasher read_chunks read_remaining
    update_hasher_with_varint write_tx read_and_verify_bitcoin_merkle_path climb_bitcoin
    read_header_except_root_and_calculate_blockhash read_merkle_tree_proof climb tape_u32 tape_i32
    tape_32bytes tape_u64 bytes_eq new zeroes from_le_bytes
proves = refl

reads_first : tape.read_32bytes whole_tape ≡ some (first_hash, rounds_tape)
unfolding tape_32bytes
reads_first = refl

reads_rounds :
    read_rounds constant tape num_rounds 0 (first_round constant first_hash) rounds_tape
    ≡ some (first_round constant first_hash, challenged_tape)
unfolding read_rounds read_round read_withdrawal_proofs read_blocks_and_add_to_merkle_tree
    read_blocks_from tape_u32 new zeroes
reads_rounds = refl

bridge_proof-Settled_example :
    (s₃ : Tape) × (read_and_verify_verifiers_challenge_proof constant tape challenged_tape
      ≡ some (verdict, s₃))
    × Settled constant tape tweak [] [] (first_round constant first_hash) verdict s₃ []
bridge_proof-Settled_example =
    bridge_proof-Settled constant tape tweak [] [] (new constant 4)
      (first_round constant first_hash) (new-Holds constant 32) tt (new-Holds constant 4) tt
      (omega arith) verdict first_hash whole_tape rounds_tape challenged_tape [] reads_first
      reads_rounds claims_of_period proves
