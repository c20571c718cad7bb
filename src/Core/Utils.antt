-- ===== src/Core/Utils.antt =====
-- `usize_to_var_len_bytes` and `get_claim_reveal_indices` of core/src/utils.rs. The `u32` of the latter wraps as in a
-- release build.
pub mod Reveal
pub mod VarLen
use clementine.Prelude.{
  ℕ, zero, suc, ◌+◌, ◌-◌, ◌*◌, ◌/◌, ◌%◌, ◌^◌, List, [], ◌∷◌, ◌++◌, Bool, true, false, ◌==◌, leb,
  if◌then◌else◌, max, drop, reverse, Option, none, some,
}
use clementine.Prelude.Bytes.{Bytes, to_le_bytes}

-- `u64::ilog2` of a positive number below `2 ^ (suc w)`.
unfoldable pub ilog2 : ℕ → ℕ → ℕ
ilog2 zero x = 0
ilog2 (suc w) x = let below = ilog2 w x in if leb (2 ^ suc w) x then suc w else below

-- A `usize` has 64 bits.
unfoldable pub usize_to_var_len_bytes : ℕ → Bytes
usize_to_var_len_bytes x =
    let bits = ilog2 63 (max x 1) + 1 in
    let len = (bits + 7) / 8 in drop (8 - len) (reverse (to_le_bytes 8 x))

-- `2u32.pow(depth as u32)`: the depth is cut to 32 bits, and the power wraps as in a release build.
unfoldable pub pow_2 : ℕ → ℕ
pow_2 depth = 2 ^ (depth % 2 ^ 32) % 2 ^ 32

-- By recursion on the depth. `none` is a failed `assert!`.
unfoldable pub get_claim_reveal_indices : ℕ → ℕ → Option (List (ℕ × ℕ))
get_claim_reveal_indices zero count =
    if count == 0 then some ((0, 0) ∷ []) else if count == 1 then some [] else none
get_claim_reveal_indices (suc depth) count =
    let odd = get_claim_reveal_indices depth ((count + 1) / 2) in
    let even = get_claim_reveal_indices depth (count / 2) in
    if leb count (pow_2 (suc depth))
    then if count == 0
      then some ((0, 0) ∷ [])
      else if count == pow_2 (suc depth)
      then some []
      else if count % 2 == 1
      then elim odd [ none ↦ none | some indices ↦ some ((suc depth, count) ∷ indices) ]
      else even
    else none
