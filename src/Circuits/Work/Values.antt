-- ===== src/Circuits/Work/Values.antt =====
-- Little-endian values: prefixes, and single writes.
use clementine.Prelude.{
  ℕ, zero, suc, ◌+◌, ◌*◌, ◌^◌, ◌<◌, ◌≡◌, refl, ap, [], ◌∷◌, length, get_or, set, replicate, All,
  arith,
}
use native.Mathlib.Nat.{pow-suc}
use clementine.Prelude.Bytes.{Bytes, IsByte, from_le_bytes}

-- The value of the `n` lowest bytes.
abbrev pub low_value : ℕ → Bytes → ℕ
low_value zero a = 0
low_value (suc n) [] = 0
low_value (suc n) (b ∷ a) = b + 256 * low_value n a

pub low_value_all : (a : Bytes) → low_value (length a) a ≡ from_le_bytes a
unfolding from_le_bytes
low_value_all [] = refl
low_value_all (b ∷ a) = omega (arith, low_value_all a)

pub low_value-suc :
    (n : ℕ) (a : Bytes) → low_value (suc n) a ≡ low_value n a + get_or a n 0 * 256 ^ n
low_value-suc zero [] = omega arith
low_value-suc zero (b ∷ a) = omega arith
low_value-suc (suc n) [] = omega arith
low_value-suc (suc n) (b ∷ a) =
    omega (arith, low_value-suc n a, ap (λ (t : ℕ). get_or a n 0 * t) (pow-suc 256 n))

pub low_value-lt : (n : ℕ) (a : Bytes) → All IsByte a → low_value n a < 256 ^ n
low_value-lt zero a h = omega arith
low_value-lt (suc n) [] h = omega (arith, low_value-lt n [] tt, pow-suc 256 n)
low_value-lt (suc n) (b ∷ a) h = omega (arith, low_value-lt n a h.1, pow-suc 256 n)

-- A write replaces one digit.
pub from_le_bytes-set :
    (a : Bytes) (i v : ℕ)
    → i < length a
    → from_le_bytes (set a i v) + get_or a i 0 * 256 ^ i ≡ from_le_bytes a + v * 256 ^ i
unfolding from_le_bytes
from_le_bytes-set [] i v h = absurd (omega arith)
from_le_bytes-set (b ∷ a) zero v h = omega arith
from_le_bytes-set (b ∷ a) (suc i) v h = omega (
  arith,
  from_le_bytes-set a i v (omega arith),
  ap (λ (t : ℕ). get_or a i 0 * t) (pow-suc 256 i),
  ap (λ (t : ℕ). v * t) (pow-suc 256 i),
)

pub from_le_bytes-replicate : (n : ℕ) → from_le_bytes (replicate n 0) ≡ 0
unfolding from_le_bytes
from_le_bytes-replicate zero = refl
from_le_bytes-replicate (suc n) = omega (arith, from_le_bytes-replicate n)
