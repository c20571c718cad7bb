-- ===== src/Core/Utils/Reveal.antt =====
-- What `get_claim_reveal_indices` of core/src/utils.rs reveals of the tree.
use native.Mathlib.Nat.{pow-suc, pow-le-pow_right}
use clementine.Prelude.{
  ℕ, zero, suc, ◌+◌, ◌-◌, ◌*◌, ◌/◌, ◌%◌, ◌^◌, ◌≤◌, ◌<◌, ◌≡◌, ◌≢◌, refl, sym, subst, ◌⊎◌, inl, inr,
  Option, none, some, List, [], ◌∷◌, Bool, true, false, ◌==◌, ==_iff, leb, if◌then◌else◌, arith,
}
use clementine.Core.Utils.{pow_2, get_claim_reveal_indices}

-- The nodes, each a level below the root and an index on it, have below them the leaves from `start` to
-- the last one of a tree of the depth, each leaf once and from left to right.
abbrev pub Tiles : ℕ → ℕ → List (ℕ × ℕ) → Type 0
Tiles depth start [] = start ≡ 2 ^ depth
Tiles depth start (p ∷ nodes) =
    (p.0 ≤ depth)
    × (p.1 * 2 ^ (depth - p.0) ≡ start)
    × Tiles depth (start + 2 ^ (depth - p.0)) nodes

leb-le : (a b : ℕ) → a ≤ b → leb a b ≡ true
leb-le a b h = ground arith

==_false : (a b : ℕ) → (a == b) ≡ false → a ≢ b
==_false a b h e = ground arith

no_level : (depth : ℕ) → 2 ^ (depth - depth) ≡ 1
no_level depth = rw (level_zero) refl
  where
    level_zero : depth - depth ≡ 0
    level_zero = omega arith

one_leaf : (depth count : ℕ) → count * 2 ^ (suc depth - suc depth) ≡ count
one_leaf depth count = rw (no_level (suc depth)) (omega arith)

next_leaf :
    (depth count : ℕ) → count % 2 ≡ 1 → (count + 1) / 2 * 2 ≡ count + 2 ^ (suc depth - suc depth)
next_leaf depth count h = rw (no_level (suc depth)) (omega (arith, h))

same_leaf : (count : ℕ) → count % 2 ≢ 1 → count / 2 * 2 ≡ count
same_leaf count h = omega (arith, h)

level_below : (depth level : ℕ) → level ≤ depth → suc depth - level ≡ suc (depth - level)
level_below depth level h = omega (arith, h)

-- One level further down there are twice as many leaves below each node.
Tiles-deeper :
    (depth start : ℕ) (nodes : List (ℕ × ℕ))
    → Tiles depth start nodes
    → Tiles (suc depth) (start * 2) nodes
Tiles-deeper depth start [] h = rw (h, pow-suc 2 depth) refl
Tiles-deeper depth start ((level, node) ∷ nodes) (within, at, rest) = (
  omega (arith, within),
  rw (doubled depth level within) (twice_as_many node (2 ^ (depth - level)) start at),
  subst (λ s. Tiles (suc depth) s nodes)
      (further start (2 ^ (depth - level)) (2 ^ (suc depth - level)) (doubled depth level within))
      (Tiles-deeper depth (start + 2 ^ (depth - level)) nodes rest),
)
  where
    doubled : (depth level : ℕ) → level ≤ depth → 2 ^ (suc depth - level) ≡ 2 ^ (depth - level) * 2
    doubled depth level h = rw (level_below depth level h) (pow-suc 2 (depth - level))

    twice_as_many : (node p start : ℕ) → node * p ≡ start → node * (p * 2) ≡ start * 2
    twice_as_many node p start at = omega (arith, at)

    further : (start p q : ℕ) → q ≡ p * 2 → (start + p) * 2 ≡ start * 2 + q
    further start p q h = omega (arith, h)

pow_2_small : (depth : ℕ) → depth < 32 → pow_2 depth ≡ 2 ^ depth
unfolding pow_2
pow_2_small depth h = rw (same_depth, pow_fits) refl
  where
    same_depth : depth % 2 ^ 32 ≡ depth
    same_depth = omega (arith, h)

    pow_fits : 2 ^ depth % 2 ^ 32 ≡ 2 ^ depth
    pow_fits =
        omega
          (arith, pow-le-pow_right {n = 2} (omega arith) {i = depth} {j = 31} (omega (arith, h)))

-- What the function returns for a count.
abbrev Returns : ℕ → ℕ → Option (List (ℕ × ℕ)) → Type 0
Returns depth count r = (indices : List (ℕ × ℕ)) × (r ≡ some indices) × Tiles depth count indices

zero_or_one : (count : ℕ) → count ≤ 2 ^ 0 → (count ≡ 0) ⊎ (count ≡ 1)
zero_or_one count h = omega (arith, h)

from_all : (depth : ℕ) → Tiles depth 0 ((0, 0) ∷ [])
from_all depth = (omega arith, omega arith, rw (whole depth) (omega arith))
  where
    whole : (d : ℕ) → d - 0 ≡ d
    whole d = omega arith

-- For a depth below 32 and a count that the tree of the depth has room for, the function returns nodes
-- that have below them the leaves from the count on to the last, each leaf once and from left to right.
pub get_claim_reveal_indices-Tiles :
    (depth count : ℕ)
    → depth < 32
    → count ≤ 2 ^ depth
    → (indices : List (ℕ × ℕ)) × (get_claim_reveal_indices depth count ≡ some indices)
      × Tiles depth count indices
unfolding get_claim_reveal_indices
get_claim_reveal_indices-Tiles zero count small h = elim (zero_or_one count h) [
  | inl none_yet ↦
      subst (λ c. Returns 0 c (get_claim_reveal_indices 0 c)) (sym none_yet)
        ((0, 0) ∷ [], refl, from_all 0)
  | inr one ↦ subst (λ c. Returns 0 c (get_claim_reveal_indices 0 c)) (sym one) ([], refl, refl)
]
get_claim_reveal_indices-Tiles (suc depth) count small h = rw (pow_2_small (suc depth) small) (
    by_test (leb count (2 ^ suc depth)) (count == 0) (count == 2 ^ suc depth) (count % 2 == 1)
      (leb-le count (2 ^ suc depth) h) (λ e. (==_iff count 0).0 e)
      (λ e. (==_iff count (2 ^ suc depth)).0 e) (==_false (count % 2) 1)
      (λ e. (==_iff (count % 2) 1).0 e)
      (get_claim_reveal_indices-Tiles depth ((count + 1) / 2) (omega (arith, small))
        (omega (arith, h, pow-suc 2 depth)))
      (get_claim_reveal_indices-Tiles depth (count / 2) (omega (arith, small))
        (omega (arith, h, pow-suc 2 depth))))
  where
    by_test :
        (fits empty full odd : Bool)
        → fits ≡ true
        → (empty ≡ true → count ≡ 0)
        → (full ≡ true → count ≡ 2 ^ suc depth)
        → (odd ≡ false → count % 2 ≢ 1)
        → (odd ≡ true → count % 2 ≡ 1)
        → Returns depth ((count + 1) / 2) (get_claim_reveal_indices depth ((count + 1) / 2))
        → Returns depth (count / 2) (get_claim_reveal_indices depth (count / 2))
        → Returns (suc depth) count (
            if fits
            then if empty
              then some ((0, 0) ∷ [])
              else if full
              then some []
              else if odd
              then elim (get_claim_reveal_indices depth ((count + 1) / 2)) [
                | none ↦ none
                | some indices ↦ some ((suc depth, count) ∷ indices)
              ]
              else get_claim_reveal_indices depth (count / 2)
            else none)
    by_test false empty full odd e at_empty at_full even_at odd_at above below = cc
    by_test true true full odd e at_empty at_full even_at odd_at above below = (
      (0, 0) ∷ [],
      refl,
      subst (λ c. Tiles (suc depth) c ((0, 0) ∷ [])) (sym (at_empty refl)) (from_all (suc depth)),
    )
    by_test true false true odd e at_empty at_full even_at odd_at above below =
        ([], refl, at_full refl)
    by_test true false false true e at_empty at_full even_at odd_at (indices, at, tiles) below = (
      (suc depth, count) ∷ indices,
      rw at refl,
      (
        omega arith,
        one_leaf depth count,
        subst (λ s. Tiles (suc depth) s indices) (next_leaf depth count (odd_at refl))
            (Tiles-deeper depth ((count + 1) / 2) indices tiles),
      ),
    )
    by_test true false false false e at_empty at_full even_at odd_at above (indices, at, tiles) = (
      indices,
      at,
      subst (λ s. Tiles (suc depth) s indices) (same_leaf count (even_at refl))
          (Tiles-deeper depth (count / 2) indices tiles),
    )
