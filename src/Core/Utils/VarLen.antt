-- ===== src/Core/Utils/VarLen.antt =====
-- `ilog2` and `usize_to_var_len_bytes` of core/src/utils.rs.
use mathlib.Core.List.{reverse-append, reverse-reverse, reverse-cons}
use clementine.Prelude.{
  ℕ, zero, suc, ◌+◌, ◌-◌, ◌*◌, ◌/◌, ◌%◌, ◌^◌, ◌≤◌, ◌<◌, max, ◌≡◌, refl, sym, ap, ◌∙◌, subst, [],
  ◌∷◌, ◌++◌, length, length-append, length-replicate, drop, replicate, reverse, Bool, true, false,
  leb, if◌then◌else◌, arith,
}
use clementine.Prelude.Bytes.{Bytes, to_le_bytes, length-to_le_bytes, from_le_bytes}
use clementine.Core.Utils.{ilog2, usize_to_var_len_bytes}

pub ilog2-bounds :
    (w x : ℕ) → 1 ≤ x → x < 2 ^ suc w → (2 ^ ilog2 w x ≤ x) × (x < 2 ^ suc (ilog2 w x))
unfolding ilog2
ilog2-bounds zero x h k = (h, k)
ilog2-bounds (suc w) x h k =
    by_test (leb (2 ^ suc w) x) (leb_sound (2 ^ suc w) x) (leb_fails (2 ^ suc w) x)
      (ilog2-bounds w x h)
  where
    leb_sound : (a b : ℕ) → leb a b ≡ true → a ≤ b
    leb_sound a b e = ground arith

    leb_fails : (a b : ℕ) → leb a b ≡ false → b < a
    leb_fails a b e = ground arith

    by_test :
        (t : Bool)
        → (t ≡ true → 2 ^ suc w ≤ x)
        → (t ≡ false → x < 2 ^ suc w)
        → (x < 2 ^ suc w → (2 ^ ilog2 w x ≤ x) × (x < 2 ^ suc (ilog2 w x)))
        → (2 ^ (if t then suc w else ilog2 w x) ≤ x)
          × (x < 2 ^ suc (if t then suc w else ilog2 w x))
    by_test true s f ih = (s refl, k)
    by_test false s f ih = ih (f refl)

zero_bytes : (k : ℕ) → to_le_bytes k 0 ≡ replicate k 0
unfolding to_le_bytes
zero_bytes zero = refl
zero_bytes (suc k) = ap (λ l. 0 ∷ l) (zero_bytes k)

-- A number below `256 ^ a` has zeros behind its first `a` bytes.
to_le_bytes-zeros :
    (a b x : ℕ) → x < 256 ^ a → to_le_bytes (a + b) x ≡ to_le_bytes a x ++ replicate b 0
unfolding to_le_bytes
to_le_bytes-zeros zero b x h =
    ap (λ n. to_le_bytes n x) (zero_add b) ∙ ap (to_le_bytes b) (below_one x h) ∙ zero_bytes b
  where
    zero_add : (b : ℕ) → zero + b ≡ b
    zero_add b = omega arith

    below_one : (x : ℕ) → x < 256 ^ zero → x ≡ 0
    below_one x h = omega arith
to_le_bytes-zeros (suc a) b x h =
    ap (λ n. to_le_bytes n x) (suc_add a b)
    ∙ ap (λ l. (x % 256) ∷ l) (to_le_bytes-zeros a b (x / 256) (divided (256 ^ a) x (power a x h)))
  where
    suc_add : (a b : ℕ) → suc a + b ≡ suc (a + b)
    suc_add a b = omega arith

    power : (a x : ℕ) → x < 256 ^ suc a → x < 256 * 256 ^ a
    power a x h = omega arith

    divided : (p x : ℕ) → x < 256 * p → x / 256 < p
    divided p x h = omega arith

from_le_bytes-to_le_bytes : (k x : ℕ) → x < 256 ^ k → from_le_bytes (to_le_bytes k x) ≡ x
unfolding to_le_bytes from_le_bytes
from_le_bytes-to_le_bytes zero x h = omega arith
from_le_bytes-to_le_bytes (suc k) x h =
    ap (λ n. x % 256 + 256 * n)
      (from_le_bytes-to_le_bytes k (x / 256) (divided (256 ^ k) x (power k x h)))
    ∙ whole x
  where
    power : (a x : ℕ) → x < 256 ^ suc a → x < 256 * 256 ^ a
    power a x h = omega arith

    divided : (p x : ℕ) → x < 256 * p → x / 256 < p
    divided p x h = omega arith

    whole : (x : ℕ) → x % 256 + 256 * (x / 256) ≡ x
    whole x = omega arith

drop-append : (xs ys : Bytes) → drop (length xs) (xs ++ ys) ≡ ys
drop-append [] ys = refl
drop-append (x ∷ xs) ys = drop-append xs ys

length-reverse : (xs : Bytes) → length (reverse xs) ≡ length xs
length-reverse [] = refl
length-reverse (x ∷ xs) =
    ap length (reverse-cons x xs)
    ∙ length-append (reverse xs) (x ∷ [])
    ∙ omega (arith, length-reverse xs)

-- The last `len` bytes of a number that has no more.
last_bytes :
    (len x : ℕ)
    → len ≤ 8
    → x < 256 ^ len
    → drop (8 - len) (reverse (to_le_bytes 8 x)) ≡ reverse (to_le_bytes len x)
last_bytes len x h k =
    let zeros = replicate (8 - len) 0 in
    let many : length (reverse zeros) ≡ 8 - len =
      length-reverse zeros ∙ length-replicate (8 - len) 0 in
    ap (λ n. drop (8 - len) (reverse (to_le_bytes n x))) (fill len h)
    ∙ ap (λ l. drop (8 - len) (reverse l)) (to_le_bytes-zeros len (8 - len) x k)
    ∙ ap (drop (8 - len)) (reverse-append (to_le_bytes len x) zeros)
    ∙ ap (λ n. drop n (reverse zeros ++ reverse (to_le_bytes len x))) (sym many)
    ∙ drop-append (reverse zeros) (reverse (to_le_bytes len x))
  where
    fill : (len : ℕ) → len ≤ 8 → 8 ≡ len + (8 - len)
    fill len h = omega arith

ilog2-le : (w x : ℕ) → ilog2 w x ≤ w
unfolding ilog2
ilog2-le zero x = omega arith
ilog2-le (suc w) x = by_test (leb (2 ^ suc w) x) (ilog2-le w x)
  where
    by_test : (t : Bool) → ilog2 w x ≤ w → (if t then suc w else ilog2 w x) ≤ suc w
    by_test true h = omega arith
    by_test false h = omega arith

pow_mono : (a b : ℕ) → a ≤ b → 2 ^ a ≤ 2 ^ b
pow_mono a zero h = subst (λ n. 2 ^ n ≤ 2 ^ zero) (sym (only_zero a h)) (same (2 ^ zero))
  where
    only_zero : (a : ℕ) → a ≤ zero → a ≡ zero
    only_zero a h = omega arith

    same : (n : ℕ) → n ≤ n
    same n = omega arith
pow_mono zero (suc b) h = omega (arith, pow_mono zero b (omega arith))
pow_mono (suc a) (suc b) h = omega (arith, pow_mono a b (omega arith))

pow_256 : (n : ℕ) → 256 ^ n ≡ 2 ^ (8 * n)
pow_256 zero = refl
pow_256 (suc n) = omega (arith, pow_256 n) ∙ sym (ap (λ k. 2 ^ k) (eight n))
  where
    eight : (n : ℕ) → 8 * suc n ≡ suc (suc (suc (suc (suc (suc (suc (suc (8 * n))))))))
    eight n = omega arith

-- The bytes that a `usize` is written in, most significant first, stand for it; they are at most eight,
-- and no fewer would do: without the first byte there is only room for what is less than the number, or
-- than 1.
pub from_le_bytes-usize_to_var_len_bytes :
    (x : ℕ)
    → x < 2 ^ 64
    → (from_le_bytes (reverse (usize_to_var_len_bytes x)) ≡ x)
      × (length (usize_to_var_len_bytes x) ≤ 8)
      × (256 ^ (length (usize_to_var_len_bytes x) - 1) ≤ max x 1)
unfolding usize_to_var_len_bytes
from_le_bytes-usize_to_var_len_bytes x h =
    let l = ilog2 63 (max x 1) in
    let len = (l + 1 + 7) / 8 in
    let (above, below) = ilog2-bounds 63 (max x 1) (at_least_one x) (at_most x h) in
    let short : len ≤ 8 = eighth l (ilog2-le 63 (max x 1)) in
    let room : x < 256 ^ len =
      subst (λ p. x < p) (sym (pow_256 len))
        (less x (2 ^ suc l) (2 ^ (8 * len)) below (pow_mono (suc l) (8 * len) (enough l))) in
    let is_last = last_bytes len x short room in
    let count : length (drop (8 - len) (reverse (to_le_bytes 8 x))) ≡ len =
      ap length is_last ∙ length-reverse (to_le_bytes len x) ∙ length-to_le_bytes len x in
    (
      ap (λ l. from_le_bytes (reverse l)) is_last
          ∙ ap from_le_bytes (reverse-reverse (to_le_bytes len x))
          ∙ from_le_bytes-to_le_bytes len x room,
      subst (λ n. n ≤ 8) (sym count) short,
      subst (λ n. 256 ^ (n - 1) ≤ max x 1) (sym count)
          (subst (λ p. p ≤ max x 1) (sym (pow_256 (len - 1)))
            (trans (2 ^ (8 * (len - 1))) (2 ^ l) (max x 1) (pow_mono (8 * (len - 1)) l (not_more l))
              above)),
    )
  where
    at_least_one : (x : ℕ) → 1 ≤ max x 1
    at_least_one x = omega arith

    at_most : (x : ℕ) → x < 2 ^ 64 → max x 1 < 2 ^ 64
    at_most x h = omega arith

    eighth : (l : ℕ) → l ≤ 63 → (l + 1 + 7) / 8 ≤ 8
    eighth l h = omega arith

    enough : (l : ℕ) → suc l ≤ 8 * ((l + 1 + 7) / 8)
    enough l = omega arith

    not_more : (l : ℕ) → 8 * ((l + 1 + 7) / 8 - 1) ≤ l
    not_more l = omega arith

    less : (x p q : ℕ) → max x 1 < p → p ≤ q → x < q
    less x p q h k = omega arith

    trans : (a b c : ℕ) → a ≤ b → b ≤ c → a ≤ c
    trans a b c h k = omega arith
