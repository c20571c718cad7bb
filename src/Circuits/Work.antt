-- ===== src/Circuits/Work.antt =====
-- Proof of work: the first functions of circuits/src/bitcoin.rs. Arrays of bytes are lists, a `U256`
-- is a number below 2 ^ 256, and `none` is a panic. Where Rust writes `value >> (8 * k)` as a byte,
-- the model writes `value / 256 ^ k % 256`.
pub mod Values
pub mod HashValid
pub mod Target
pub mod Calculate
use clementine.Prelude.{
  ℕ, zero, suc, ◌+◌, ◌-◌, ◌*◌, ◌/◌, ◌%◌, ◌^◌, Option, none, some, Bool, List, [], ◌∷◌, reverse,
  length, get_or, set, replicate, ltb, leb, if◌then◌else◌, min,
}
use clementine.Prelude.Bytes.{Bytes, from_le_bytes}

abbrev pub u256_max : ℕ
u256_max = 2 ^ 256 - 1

infixl 5 ◌>>=◌
abbrev pub ◌>>=◌ : {A B : Type 0} → Option A → (A → Option B) → Option B
none >>= f = none
some a >>= f = f a

-- `a[i] = v`, which panics out of bounds.
abbrev pub write : Bytes → ℕ → ℕ → Option Bytes
write a i v = if ltb i (length a) then some (set a i v) else none

-- The loop for an exponent of at most 3: `i` runs up, and `n` rounds are left.
unfoldable pub fill_end : ℕ → ℕ → ℕ → ℕ → Bytes → Option Bytes
fill_end zero i start_index value target = some target
fill_end (suc n) i start_index value target = do
  target' ← write target (31 - i) (value / 256 ^ (start_index + i) % 256)
  fill_end n (i + 1) start_index value target'

-- The loop for an exponent above 3.
unfoldable pub fill_at : ℕ → ℕ → ℕ → ℕ → Bytes → Option Bytes
fill_at zero i exponent value target = some target
fill_at (suc n) i exponent value target = do
  target' ← write target (exponent - 3 + i) (value / 256 ^ i % 256)
  fill_at n (i + 1) exponent value target'

-- `bits` are the four bytes of the header field, least significant first; they are reversed.
unfoldable pub decode_compact_target : Bytes → Option Bytes
unfolding fill_end fill_at
decode_compact_target bits =
    let bits' = reverse bits in
    let exponent = get_or bits' 0 0 in
    let value = get_or bits' 1 0 * 2 ^ 16 + get_or bits' 2 0 * 2 ^ 8 + get_or bits' 3 0 in
    let target = replicate 32 0 in
    if leb exponent 3
    then fill_end exponent 0 (4 - exponent) value target
    else fill_at 3 0 exponent value target

-- The loop of `check_hash_valid`, over the `n` lowest bytes, from the top down.
unfoldable pub check_below : ℕ → Bytes → Bytes → Option (Unit {0})
check_below zero hash target = some tt
check_below (suc i) hash target =
    let rest = check_below i hash target in
    if ltb (get_or target i 0) (get_or hash i 0)
    then none
    else if ltb (get_or hash i 0) (get_or target i 0)
    then some tt
    else rest

unfoldable pub check_hash_valid : Bytes → Bytes → Option (Unit {0})
unfolding check_below
check_hash_valid hash target = check_below 32 hash target

-- `saturating_add` and a division by a number above 0.
unfoldable pub calculate_work : Bytes → ℕ
calculate_work target =
    let target_plus_one = min (from_le_bytes target + 1) u256_max in u256_max / target_plus_one

unfoldable pub validate_threshold_and_add_work : Bytes → Bytes → ℕ → Option ℕ
validate_threshold_and_add_work bits block_hash old_work = do
  target ← decode_compact_target bits
  _ ← check_hash_valid block_hash target
  some ((old_work + calculate_work target) % 2 ^ 256)

unfoldable pub validate_threshold_and_subtract_work : Bytes → Bytes → ℕ → Option ℕ
validate_threshold_and_subtract_work bits block_hash old_work = do
  target ← decode_compact_target bits
  _ ← check_hash_valid block_hash target
  some ((old_work + 2 ^ 256 - calculate_work target) % 2 ^ 256)
