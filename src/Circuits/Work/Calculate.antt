-- ===== src/Circuits/Work/Calculate.antt =====
-- The work of a target, and the two functions that check a block and count its work.
use clementine.Prelude.{
  ℕ, ◌+◌, ◌*◌, ◌/◌, ◌%◌, ◌^◌, ◌<◌, ◌≤◌, ◌≡◌, some, none, length, All, arith, min, Option-cases, inl,
  inr,
}
use native.Mathlib.Nat.{div-mul-le_self, lt-div-mul-add, div-le_self, le-div_iff_mul-le}
use clementine.Prelude.Bytes.{Bytes, IsByte, from_le_bytes}
use clementine.Circuits.Work.{
  u256_max, calculate_work, decode_compact_target, check_hash_valid,
  validate_threshold_and_add_work, validate_threshold_and_subtract_work,
}
use clementine.Circuits.Work.HashValid.{check_hash_valid_iff}
use clementine.Circuits.Work.Target.{compact_target, bits_of, mantissa, decode_compact_target_value}

div_bounds : (n t : ℕ) → 0 < t → (n / t * t ≤ n) × (n < (n / t + 1) * t)
div_bounds n t h = (div-mul-le_self n t, omega (arith, lt-div-mul-add {a = n} h))

div_antitone : (n a b : ℕ) → 0 < a → a ≤ b → n / b ≤ n / a
div_antitone n a b pos h = (le-div_iff_mul-le pos).1 (grind (arith, div-mul-le_self n b))

-- The work is the whole number w with w * t ≤ 2 ^ 256 - 1 < (w + 1) * t, where t is the target plus
-- one, or 2 ^ 256 - 1 for the largest target; and a lower target never counts as less work.
pub calculate_work_lem :
    (lower higher : Bytes)
    → from_le_bytes lower ≤ from_le_bytes higher
    → let t = min (from_le_bytes lower + 1) u256_max in
      (calculate_work lower * t ≤ u256_max)
      × (u256_max < (calculate_work lower + 1) * t)
      × (calculate_work higher ≤ calculate_work lower)
unfolding calculate_work
calculate_work_lem lower higher h =
    let t = min (from_le_bytes lower + 1) u256_max in
    let (lo, hi) = div_bounds u256_max t (omega arith) in
    (
      lo,
      hi,
      div_antitone u256_max t (min (from_le_bytes higher + 1) u256_max) (omega arith) (omega arith),
    )

-- A block of a header field with an exponent from 4 to 32 is accepted exactly when its hash is at
-- most the target of the field; then its work is added, modulo 2 ^ 256. Otherwise it is a panic.
pub validate_threshold_and_add_work_lem :
    (e b₂ b₁ b₀ old_work : ℕ) (block_hash : Bytes)
    → 3 < e
    → e ≤ 32
    → b₂ < 256
    → b₁ < 256
    → b₀ < 256
    → length block_hash ≡ 32
    → All IsByte block_hash
    → (target : Bytes) × (from_le_bytes target ≡ compact_target e (mantissa b₂ b₁ b₀))
      × (from_le_bytes block_hash ≤ from_le_bytes target
          → validate_threshold_and_add_work (bits_of e b₂ b₁ b₀) block_hash old_work
            ≡ some ((old_work + calculate_work target) % 2 ^ 256))
      × (from_le_bytes target < from_le_bytes block_hash
          → validate_threshold_and_add_work (bits_of e b₂ b₁ b₀) block_hash old_work ≡ none)
unfolding validate_threshold_and_add_work
validate_threshold_and_add_work_lem e b₂ b₁ b₀ old_work block_hash lo hi h₂ h₁ h₀ len bytes =
    let (target, decodes, len', bytes', value) =
      decode_compact_target_value e b₂ b₁ b₀ lo hi h₂ h₁ h₀ in
    let (valid→le, le→valid) = check_hash_valid_iff block_hash target len len' bytes bytes' in
    (
      target,
      value,
      (λ le. rw (decodes, le→valid le)),
      (λ lt. elim (Option-cases (check_hash_valid block_hash target)) [
        | inl refused ↦ rw (decodes, refused)
        | inr (tt, passes) ↦ absurd (omega (arith, valid→le passes, lt))
      ]),
    )

calculate_work-le : (target : Bytes) → calculate_work target ≤ u256_max
unfolding calculate_work
calculate_work-le target = div-le_self u256_max (min (from_le_bytes target + 1) u256_max)

-- Subtracting the work of a block takes back what adding it did.
pub subtract_work-add_work :
    (bits block_hash : Bytes) (old_work new_work : ℕ)
    → old_work < 2 ^ 256
    → validate_threshold_and_add_work bits block_hash old_work ≡ some new_work
    → validate_threshold_and_subtract_work bits block_hash new_work ≡ some old_work
unfolding validate_threshold_and_add_work validate_threshold_and_subtract_work
subtract_work-add_work bits block_hash old_work new_work h e =
    elim (Option-cases (decode_compact_target bits)) [
      | inl panics ↦ ground arith
      | inr (target, decodes) ↦ elim (Option-cases (check_hash_valid block_hash target)) [
        | inl panics ↦ ground arith
        | inr (u, passes) ↦ ground (arith, calculate_work-le target)
      ]
    ]
