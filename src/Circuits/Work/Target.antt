-- ===== src/Circuits/Work/Target.antt =====
-- `decode_compact_target` against Bitcoin's reading of the field: a mantissa of three bytes, shifted
-- by whole bytes so that the number has as many bytes as the exponent says.
use clementine.Prelude.{
  ℕ, zero, suc, ◌+◌, ◌-◌, ◌*◌, ◌/◌, ◌%◌, ◌^◌, ◌<◌, ◌≤◌, ◌≡◌, ◌≢◌, ◌↔◌, refl, ap, ap₂, subst, false,
  ◌∙◌, none, some, [], ◌∷◌, length, get_or, set, replicate, All, arith, leb, if◌then◌else◌,
  length-set, length-replicate,
}
use native.Mathlib.Nat.{pow-suc}
use native.Mathlib.Numerals.{towards_suc}
use clementine.Prelude.Bytes.{Bytes, IsByte, from_le_bytes}
use clementine.Circuits.Work.{fill_at, decode_compact_target}
use clementine.Circuits.Work.Values.{from_le_bytes-set, from_le_bytes-replicate}

-- The target that a field with exponent `e` and mantissa `m` stands for.
abbrev pub compact_target : ℕ → ℕ → ℕ
compact_target e m = if leb e 3 then m / 256 ^ (3 - e) else m * 256 ^ (e - 3)

-- The field with exponent `e` and mantissa bytes `b₂ b₁ b₀`, least significant byte first.
abbrev pub bits_of : ℕ → ℕ → ℕ → ℕ → Bytes
bits_of e b₂ b₁ b₀ = b₀ ∷ b₁ ∷ b₂ ∷ e ∷ []

abbrev pub mantissa : ℕ → ℕ → ℕ → ℕ
mantissa b₂ b₁ b₀ = b₂ * 2 ^ 16 + b₁ * 2 ^ 8 + b₀

get_or-set_ne : (a : Bytes) (i j v : ℕ) → i ≢ j → get_or (set a i v) j 0 ≡ get_or a j 0
get_or-set_ne [] i j v h = refl
get_or-set_ne (b ∷ a) zero zero v h = absurd (h refl)
get_or-set_ne (b ∷ a) zero (suc j) v h = refl
get_or-set_ne (b ∷ a) (suc i) zero v h = refl
get_or-set_ne (b ∷ a) (suc i) (suc j) v h = get_or-set_ne a i j v (λ e. h (ap suc e))

get_or-replicate : (n i : ℕ) → get_or (replicate {A = ℕ} n 0) i 0 ≡ 0
get_or-replicate zero i = refl
get_or-replicate (suc n) zero = refl
get_or-replicate (suc n) (suc i) = get_or-replicate n i

set-IsByte : (a : Bytes) (i v : ℕ) → All IsByte a → v < 256 → All IsByte (set a i v)
set-IsByte [] i v h lt = tt
set-IsByte (b ∷ a) zero v h lt = (lt, h.1)
set-IsByte (b ∷ a) (suc i) v h lt = (h.0, set-IsByte a i v h.1 lt)

replicate-IsByte : (n : ℕ) → All IsByte (replicate n 0)
replicate-IsByte zero = tt
replicate-IsByte (suc n) = (omega arith, replicate-IsByte n)

abbrev zeros : Bytes
zeros = replicate 32 0

-- Three writes into an array of zeros.
abbrev three : ℕ → ℕ → ℕ → ℕ → Bytes
three k x y z = set (set (set zeros k x) (k + 1) y) (k + 2) z

pow-step : (k : ℕ) → 256 ^ (k + 1) ≡ 256 * 256 ^ k
pow-step k = simp towards_suc (omega (arith, pow-suc 256 k))

pow_two_steps : (k : ℕ) → 256 ^ (k + 2) ≡ 65536 * 256 ^ k
pow_two_steps k = simp towards_suc (omega (arith, pow-suc 256 k, pow-suc 256 (suc k)))

regroup :
    (x y z p : ℕ) → 0 + x * p + y * (256 * p) + z * (65536 * p) ≡ (z * 2 ^ 16 + y * 2 ^ 8 + x) * p
regroup x y z p = grind arith

from_le_bytes-set_zero :
    (a : Bytes) (i v : ℕ)
    → i < length a
    → get_or a i 0 ≡ 0
    → from_le_bytes (set a i v) ≡ from_le_bytes a + v * 256 ^ i
from_le_bytes-set_zero a i v h z =
    omega (arith, from_le_bytes-set a i v h, ap (λ (t : ℕ). t * 256 ^ i) z)

three_value :
    (k x y z : ℕ)
    → k + 2 < 32
    → from_le_bytes (three k x y z) ≡ (z * 2 ^ 16 + y * 2 ^ 8 + x) * 256 ^ k
three_value k x y z h =
    let a = set zeros k x in
    let b = set a (k + 1) y in
    from_le_bytes-set_zero b (k + 2) z
      (rw (length-set a (k + 1) y, length-set zeros k x, length-replicate) h)
      (get_or-set_ne a (k + 1) (k + 2) y (omega arith)
        ∙ get_or-set_ne zeros k (k + 2) x (omega arith)
        ∙ get_or-replicate 32 (k + 2))
    ∙ ap₂ ◌+◌
        (from_le_bytes-set_zero a (k + 1) y
            (rw (length-set zeros k x, length-replicate) (omega arith))
            (get_or-set_ne zeros k (k + 1) x (omega arith) ∙ get_or-replicate 32 (k + 1))
          ∙ ap₂ ◌+◌
              (from_le_bytes-set_zero zeros k x (rw length-replicate (omega arith))
                  (get_or-replicate 32 k)
                ∙ ap (λ (t : ℕ). t + x * 256 ^ k) (from_le_bytes-replicate 32))
              (ap (λ (t : ℕ). y * t) (pow-step k)))
        (ap (λ (t : ℕ). z * t) (pow_two_steps k))
    ∙ regroup x y z (256 ^ k)

fill_at-three :
    (k v : ℕ)
    → k + 2 < 32
    → fill_at 3 0 (k + 3) v zeros
      ≡ some (three k (v / 256 ^ 0 % 256) (v / 256 ^ 1 % 256) (v / 256 ^ 2 % 256))
unfolding fill_at
fill_at-three k v h =
    let x = v / 256 ^ 0 % 256 in
    let y = v / 256 ^ 1 % 256 in
    ground
      (arith, length-set zeros k x, length-set (set zeros k x) (k + 1) y, index₀, index₁, index₂)
  where
    index₀ : k + 3 - 3 + 0 ≡ k
    index₀ = omega arith

    index₁ : k + 3 - 3 + (0 + 1) ≡ k + 1
    index₁ = omega arith

    index₂ : k + 3 - 3 + (0 + 1 + 1) ≡ k + 2
    index₂ = omega arith

three-IsByte : (k x y z : ℕ) → x < 256 → y < 256 → z < 256 → All IsByte (three k x y z)
three-IsByte k x y z hx hy hz =
    set-IsByte _ (k + 2) z
      (set-IsByte _ (k + 1) y (set-IsByte zeros k x (replicate-IsByte 32) hx) hy) hz

length-three : (k x y z : ℕ) → length (three k x y z) ≡ 32
length-three k x y z =
    length-set _ (k + 2) z
    ∙ length-set _ (k + 1) y
    ∙ length-set zeros k x
    ∙ length-replicate {A = ℕ} 32 0

-- For an exponent from 4 to 32 the target is an array of 32 bytes with the value that the field
-- stands for.
pub decode_compact_target_value :
    (e b₂ b₁ b₀ : ℕ)
    → 3 < e
    → e ≤ 32
    → b₂ < 256
    → b₁ < 256
    → b₀ < 256
    → (target : Bytes) × (decode_compact_target (bits_of e b₂ b₁ b₀) ≡ some target)
      × (length target ≡ 32)
      × All IsByte target
      × (from_le_bytes target ≡ compact_target e (mantissa b₂ b₁ b₀))
unfolding decode_compact_target
decode_compact_target_value e b₂ b₁ b₀ lo hi h₂ h₁ h₀ =
    let m = mantissa b₂ b₁ b₀ in
    let k = e - 3 in
    let x = m / 256 ^ 0 % 256 in
    let y = m / 256 ^ 1 % 256 in
    let z = m / 256 ^ 2 % 256 in
    let test : leb e 3 ≡ false = ground arith in
    let exponent : k + 3 ≡ e = omega arith in
    let digits : z * 2 ^ 16 + y * 2 ^ 8 + x ≡ m = omega arith in
    (
      three k x y z,
      rw test (
          subst (λ n. fill_at 3 0 n m zeros ≡ some (three k x y z)) exponent
            (fill_at-three k m (omega arith))),
      length-three k x y z,
      three-IsByte k x y z (omega arith) (omega arith) (omega arith),
      three_value k x y z (omega arith) ∙ rw test (ap (λ (t : ℕ). t * 256 ^ k) digits),
    )

-- An exponent above 32 is a panic.
pub decode_compact_target_panics :
    (e b₂ b₁ b₀ : ℕ) → 32 < e → decode_compact_target (bits_of e b₂ b₁ b₀) ≡ none
unfolding decode_compact_target
decode_compact_target_panics e b₂ b₁ b₀ h =
    let m = mantissa b₂ b₁ b₀ in
    let a = set zeros (e - 3 + 0) (m / 256 ^ 0 % 256) in
    ground (
      arith,
      length-set zeros (e - 3 + 0) (m / 256 ^ 0 % 256),
      length-set a (e - 3 + (0 + 1)) (m / 256 ^ 1 % 256),
    )

-- For an exponent from 1 to 3 the bytes are put at the wrong end of the array: the target has the
-- value that the field stands for only where that is 0.
pub decode_compact_target_small :
    (e b₂ b₁ b₀ : ℕ)
    → 0 < e
    → e ≤ 3
    → b₂ < 256
    → b₁ < 256
    → b₀ < 256
    → (target : Bytes) × (decode_compact_target (bits_of e b₂ b₁ b₀) ≡ some target)
      × ((from_le_bytes target ≡ compact_target e (mantissa b₂ b₁ b₀))
          ↔ (compact_target e (mantissa b₂ b₁ b₀) ≡ 0))
unfolding decode_compact_target from_le_bytes
decode_compact_target_small zero b₂ b₁ b₀ lo hi h₂ h₁ h₀ = absurd (omega arith)
decode_compact_target_small (suc zero) b₂ b₁ b₀ lo hi h₂ h₁ h₀ =
    (_, refl, (omega arith, omega arith))
decode_compact_target_small (suc (suc zero)) b₂ b₁ b₀ lo hi h₂ h₁ h₀ =
    (_, refl, (omega arith, omega arith))
decode_compact_target_small (suc (suc (suc zero))) b₂ b₁ b₀ lo hi h₂ h₁ h₀ =
    (_, refl, (omega arith, omega arith))
decode_compact_target_small (suc (suc (suc (suc e)))) b₂ b₁ b₀ lo hi h₂ h₁ h₀ = absurd (omega arith)
