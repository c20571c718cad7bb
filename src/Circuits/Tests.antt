-- ===== src/Circuits/Tests.antt =====
-- Concrete runs of the circuits: the theorems on small inputs, with a toy hash in place of SHA-256.
use clementine.Prelude.{
  ℕ, zero, suc, ◌+◌, ◌*◌, ◌%◌, ◌^◌, ◌<◌, ◌≤◌, ◌≡◌, ◌↔◌, ◌⊎◌, refl, none, some, List, [], ◌∷◌,
  length, All, replicate, get_or, min, arith,
}
use clementine.Prelude.Bytes.{Bytes, IsByte, to_le_bytes, length-to_le_bytes, from_le_bytes}
use clementine.Circuits.Sha256.{Sha256}
use clementine.Circuits.Constants.{emptydata, zeroes}
use clementine.Circuits.IncrementalMerkle.{IncrementalMerkleTree, new, add}
use clementine.Circuits.IncrementalMerkle.Root.{Holds, new-Holds, add-Holds}
use clementine.Circuits.MerkleProof.{index_or_read, read_merkle_tree_proof}
use clementine.Circuits.MerkleProof.Paths.{read_siblings}
use clementine.Circuits.MerkleProof.Soundness.{Collides, read_merkle_tree_proof_sound}
use clementine.Circuits.MerkleProof.Completeness.{path, read_merkle_tree_proof_complete}
use clementine.Circuits.Tape.{Tape, bytes32, u32, tape, tape_u32, tape_32bytes}
use clementine.Circuits.Work.{
  u256_max, calculate_work, decode_compact_target, check_hash_valid,
  validate_threshold_and_add_work, validate_threshold_and_subtract_work, check_below, fill_at,
  fill_end,
}
use clementine.Circuits.Work.HashValid.{check_hash_valid_iff}
use clementine.Circuits.Work.Target.{
  compact_target, bits_of, mantissa, decode_compact_target_value, decode_compact_target_panics,
  decode_compact_target_small,
}
use clementine.Circuits.Work.Calculate.{
  calculate_work_lem, validate_threshold_and_add_work_lem, subtract_work-add_work,
}

-- A weighted sum of the bytes.
abbrev checksum : Bytes → ℕ
checksum [] = 1
checksum (b ∷ bs) = (b + 3 * checksum bs) % 2 ^ 64

abbrev toy : Sha256
toy = record {
  digest = λ m. to_le_bytes 32 (checksum m);
  length-digest = λ m. length-to_le_bytes 32 (checksum m);
}

abbrev leaf_one : Bytes
leaf_one = replicate 32 1

abbrev leaf_two : Bytes
leaf_two = replicate 32 2

abbrev tree_of_one : IncrementalMerkleTree
tree_of_one = add toy leaf_one (new toy 2)

tree_of_one-Holds : Holds toy 2 (leaf_one ∷ []) tree_of_one
tree_of_one-Holds =
    add-Holds toy 2 [] leaf_one (new toy 2) (new-Holds toy 2) (omega arith) (omega arith)

trees_hold : Holds toy 2 (leaf_one ∷ leaf_two ∷ []) (add toy leaf_two tree_of_one)
trees_hold =
    add-Holds toy 2 (leaf_one ∷ []) leaf_two tree_of_one tree_of_one-Holds (omega arith)
      (omega arith)

add-Holds_example : Holds toy 2 (leaf_one ∷ leaf_two ∷ []) (add toy leaf_two tree_of_one)
add-Holds_example =
    add-Holds toy 2 (leaf_one ∷ []) leaf_two tree_of_one tree_of_one-Holds (omega arith)
      (omega arith)

abbrev proof_of_two : List Bytes
proof_of_two = leaf_one ∷ zeroes toy 1 ∷ []

abbrev proof_tape : Tape
proof_tape = u32 1 ∷ bytes32 leaf_one ∷ bytes32 (zeroes toy 1) ∷ []

abbrev tree_of_two : IncrementalMerkleTree
tree_of_two = add toy leaf_two tree_of_one

reads_index :
    index_or_read tape none proof_tape ≡ some (1, bytes32 leaf_one ∷ bytes32 (zeroes toy 1) ∷ [])
unfolding tape_u32
reads_index = refl

reads_path :
    read_siblings tape 2 (bytes32 leaf_one ∷ bytes32 (zeroes toy 1) ∷ [])
    ≡ some (path toy 0 2 (leaf_one ∷ leaf_two ∷ []) 1, [])
unfolding read_siblings tape_32bytes path zeroes to_le_bytes
reads_path = refl

reads_proof :
    read_merkle_tree_proof tape toy 2 leaf_two none proof_tape ≡ some (tree_of_two.root, [])
reads_proof =
    read_merkle_tree_proof_complete tape toy 2 1 (leaf_one ∷ leaf_two ∷ []) tree_of_two none
      proof_tape (bytes32 leaf_one ∷ bytes32 (zeroes toy 1) ∷ []) [] trees_hold reads_index
      (omega arith) reads_path

copies-IsByte : (n b : ℕ) → b < 256 → All IsByte (replicate n b)
copies-IsByte zero b h = tt
copies-IsByte (suc n) b h = (h, copies-IsByte n b h)

ones-IsByte : All IsByte leaf_one
ones-IsByte = copies-IsByte 32 1 (omega arith)

twos-IsByte : All IsByte leaf_two
twos-IsByte = copies-IsByte 32 2 (omega arith)

ones_below_twos : from_le_bytes leaf_one ≤ from_le_bytes leaf_two
unfolding from_le_bytes
ones_below_twos = omega arith

-- The largest target counts as work 2.
adds_two : validate_threshold_and_add_work (bits_of 32 127 255 255) leaf_one 5 ≡ some 7
unfolding validate_threshold_and_add_work decode_compact_target check_hash_valid check_below
    calculate_work from_le_bytes fill_at fill_end
adds_two = refl

read_merkle_tree_proof_complete_example :
    read_merkle_tree_proof tape toy 2 leaf_two none proof_tape ≡ some (tree_of_two.root, [])
read_merkle_tree_proof_complete_example =
    read_merkle_tree_proof_complete tape toy 2 1 (leaf_one ∷ leaf_two ∷ []) tree_of_two none
      proof_tape (bytes32 leaf_one ∷ bytes32 (zeroes toy 1) ∷ []) [] trees_hold reads_index
      (omega arith) reads_path

read_merkle_tree_proof_sound_example :
    (siblings : List Bytes) × (read_siblings tape 2 (bytes32 leaf_one ∷ bytes32 (zeroes toy 1) ∷ [])
      ≡ some (siblings, []))
    × ((leaf_two ≡ get_or (leaf_one ∷ leaf_two ∷ []) 1 emptydata)
        ⊎ Collides toy 0 (leaf_one ∷ leaf_two ∷ []) 1 leaf_two siblings)
read_merkle_tree_proof_sound_example =
    read_merkle_tree_proof_sound tape toy 2 1 (leaf_one ∷ leaf_two ∷ []) tree_of_two leaf_two none
      proof_tape (bytes32 leaf_one ∷ bytes32 (zeroes toy 1) ∷ []) [] trees_hold (refl, (refl, tt))
      refl reads_index (omega arith) reads_proof

check_hash_valid_iff_example :
    (check_hash_valid leaf_one leaf_two ≡ some tt)
    ↔ (from_le_bytes leaf_one ≤ from_le_bytes leaf_two)
check_hash_valid_iff_example =
    check_hash_valid_iff leaf_one leaf_two refl refl ones-IsByte twos-IsByte

decode_compact_target_value_example :
    (target : Bytes) × (decode_compact_target (bits_of 29 0 255 255) ≡ some target)
    × (length target ≡ 32)
    × All IsByte target
    × (from_le_bytes target ≡ compact_target 29 (mantissa 0 255 255))
decode_compact_target_value_example =
    decode_compact_target_value 29 0 255 255 (omega arith) (omega arith) (omega arith) (omega arith)
      (omega arith)

decode_compact_target_panics_example : decode_compact_target (bits_of 33 1 2 3) ≡ none
decode_compact_target_panics_example = decode_compact_target_panics 33 1 2 3 (omega arith)

decode_compact_target_small_example :
    (target : Bytes) × (decode_compact_target (bits_of 3 1 2 3) ≡ some target)
    × ((from_le_bytes target ≡ compact_target 3 (mantissa 1 2 3))
        ↔ (compact_target 3 (mantissa 1 2 3) ≡ 0))
decode_compact_target_small_example =
    decode_compact_target_small 3 1 2 3 (omega arith) (omega arith) (omega arith) (omega arith)
      (omega arith)

calculate_work_lem_example :
    let t = min (from_le_bytes leaf_one + 1) u256_max in
    (calculate_work leaf_one * t ≤ u256_max)
    × (u256_max < (calculate_work leaf_one + 1) * t)
    × (calculate_work leaf_two ≤ calculate_work leaf_one)
calculate_work_lem_example = calculate_work_lem leaf_one leaf_two ones_below_twos

validate_threshold_and_add_work_lem_example :
    (target : Bytes) × (from_le_bytes target ≡ compact_target 32 (mantissa 127 255 255))
    × (from_le_bytes leaf_one ≤ from_le_bytes target
        → validate_threshold_and_add_work (bits_of 32 127 255 255) leaf_one 5
          ≡ some ((5 + calculate_work target) % 2 ^ 256))
    × (from_le_bytes target < from_le_bytes leaf_one
        → validate_threshold_and_add_work (bits_of 32 127 255 255) leaf_one 5 ≡ none)
validate_threshold_and_add_work_lem_example =
    validate_threshold_and_add_work_lem 32 127 255 255 5 leaf_one (omega arith) (omega arith)
      (omega arith) (omega arith) (omega arith) refl ones-IsByte

subtract_work-add_work_example :
    validate_threshold_and_subtract_work (bits_of 32 127 255 255) leaf_one 7 ≡ some 5
subtract_work-add_work_example =
    subtract_work-add_work (bits_of 32 127 255 255) leaf_one 5 7 (omega arith) adds_two
