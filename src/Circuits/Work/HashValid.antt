-- ===== src/Circuits/Work/HashValid.antt =====
-- `check_hash_valid` compares two little-endian numbers.
use clementine.Prelude.{
  ℕ, zero, suc, ◌+◌, ◌*◌, ◌^◌, ◌<◌, ◌≤◌, ◌≡◌, ◌↔◌, refl, some, length, get_or, All, arith, ◌∙◌,
  subst, sym, ap,
}
use clementine.Prelude.Bytes.{Bytes, IsByte, from_le_bytes}
use clementine.Circuits.Work.{check_below, check_hash_valid}
use clementine.Circuits.Work.Values.{low_value, low_value_all, low_value-suc, low_value-lt}

-- The higher digit decides.
higher_digit : (p x y u v : ℕ) → x < p → y < p → u < v → x + u * p < y + v * p
higher_digit p x y u v hx hy h = grind arith

check_below_iff :
    (n : ℕ) (hash target : Bytes)
    → All IsByte hash
    → All IsByte target
    → (check_below n hash target ≡ some tt) ↔ (low_value n hash ≤ low_value n target)
unfolding check_below
check_below_iff zero hash target h t = (λ _. omega arith, λ _. refl)
check_below_iff (suc n) hash target h t = ground (
  arith,
  low_value-suc n hash,
  low_value-suc n target,
  higher_digit (256 ^ n) (low_value n hash) (low_value n target) (get_or hash n 0)
      (get_or target n 0) (low_value-lt n hash h) (low_value-lt n target t),
  higher_digit (256 ^ n) (low_value n target) (low_value n hash) (get_or target n 0)
      (get_or hash n 0) (low_value-lt n target t) (low_value-lt n hash h),
  check_below_iff n hash target h t,
)

-- `check_hash_valid` passes exactly when the hash, read as a little-endian number, is at most the
-- target, and it panics otherwise.
pub check_hash_valid_iff :
    (hash target : Bytes)
    → length hash ≡ 32
    → length target ≡ 32
    → All IsByte hash
    → All IsByte target
    → (check_hash_valid hash target ≡ some tt) ↔ (from_le_bytes hash ≤ from_le_bytes target)
unfolding check_hash_valid
check_hash_valid_iff hash target lh lt h t =
    subst (λ (v : ℕ). (check_below 32 hash target ≡ some tt) ↔ (v ≤ from_le_bytes target))
      (ap (λ n. low_value n hash) (sym lh) ∙ low_value_all hash)
      (subst (λ (v : ℕ). (check_below 32 hash target ≡ some tt) ↔ (low_value 32 hash ≤ v))
        (ap (λ n. low_value n target) (sym lt) ∙ low_value_all target)
        (check_below_iff 32 hash target h t))
