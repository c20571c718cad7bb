-- ===== src/Core/Builder/Address/Tree.antt =====
-- The depths of the leaves in `create_taproot_address` of core/src/builder/address.rs make a binary tree.
use clementine.Prelude.{
  ℕ, zero, suc, ◌+◌, ◌-◌, ◌^◌, ◌≤◌, ◌<◌, ◌≡◌, refl, sym, ap, ◌∙◌, subst, List, [], ◌∷◌, ◌++◌, map,
  append-nil, append_assoc, replicate, length, true, false, leb, ltb, if◌then◌else◌, arith,
}
use clementine.Prelude.Bytes.{Bytes}
use clementine.Core.Utils.{ilog2}
use clementine.Core.Utils.VarLen.{ilog2-bounds}
use clementine.Core.Builder.Address.{leaves_from, taproot_leaves}

-- The depths of the leaves of a binary tree from left to right, whose root has the given depth.
pub data FullTree : ℕ → List ℕ → Type 0 where
  leaf : (d : ℕ) → FullTree d (d ∷ [])
  node :
      (d : ℕ) (xs ys : List ℕ) → FullTree (suc d) xs → FullTree (suc d) ys → FullTree d (xs ++ ys)

-- Trees side by side.
Forest : ℕ → ℕ → List ℕ → Type 0
Forest p zero xs = xs ≡ []
Forest p (suc c) xs =
    (ys : List ℕ) × (zs : List ℕ) × FullTree p ys × Forest p c zs × (xs ≡ ys ++ zs)

zero_add : (c : ℕ) → c ≡ zero + c
zero_add c = omega arith

suc_add : (b c : ℕ) → suc (b + c) ≡ suc b + c
suc_add b c = omega arith

Forest-append :
    (p b c : ℕ) (xs ys : List ℕ) → Forest p b xs → Forest p c ys → Forest p (b + c) (xs ++ ys)
unfolding Forest
Forest-append p zero c xs ys e g =
    subst (λ n. Forest p n (xs ++ ys)) (zero_add c) (subst (λ zs. Forest p c (zs ++ ys)) (sym e) g)
Forest-append p (suc b) c xs ys (us, vs, t, f, e) g =
    subst (λ n. Forest p n (xs ++ ys)) (suc_add b c)
      (us, vs ++ ys, t, Forest-append p b c vs ys f g, ap (λ l. l ++ ys) e ∙ append_assoc us vs ys)

-- Two trees of a level are one of the level above.
Forest-pairs : (p c : ℕ) (xs : List ℕ) → Forest (suc p) (c + c) xs → Forest p c xs
unfolding Forest
Forest-pairs p zero xs f = f
Forest-pairs p (suc c) xs f =
    let two = subst (λ n. Forest (suc p) n xs) (double c) f in
    let (us, rest, t, g, e) = two in
    let (vs, zs, t', h, e') = g in
    (
      us ++ vs,
      zs,
      node p us vs t t',
      Forest-pairs p c zs h,
      e ∙ ap (λ l. us ++ l) e' ∙ sym (append_assoc us vs zs),
    )
  where
    double : (c : ℕ) → suc c + suc c ≡ suc (suc (c + c))
    double c = omega arith

Forest-FullTree : (p : ℕ) (xs : List ℕ) → Forest p (2 ^ p) xs → FullTree 0 xs
unfolding Forest
Forest-FullTree zero xs (ys, zs, t, e, e') =
    subst (FullTree 0) (sym (e' ∙ ap (λ l. ys ++ l) e ∙ append-nil ys)) t
Forest-FullTree (suc p) xs f =
    Forest-FullTree p xs (Forest-pairs p (2 ^ p) xs (subst (λ n. Forest (suc p) n xs) (twice p) f))
  where
    twice : (p : ℕ) → 2 ^ suc p ≡ 2 ^ p + 2 ^ p
    twice p = omega arith

Forest-leaves : (p c : ℕ) → Forest p c (replicate c p)
unfolding Forest
Forest-leaves p zero = refl
Forest-leaves p (suc c) = (p ∷ [], replicate c p, leaf p, Forest-leaves p c, refl)

-- Behind the first `n - k` leaves, all are one level higher.
depths_behind :
    (n m k i : ℕ) (scripts : List Bytes)
    → n - k ≤ i
    → map (λ l. l.0) (leaves_from n m k i scripts) ≡ replicate (length scripts) (m - 1)
unfolding leaves_from
depths_behind n m k i [] h = refl
depths_behind n m k i (script ∷ scripts) h =
    ap (λ t. (m - (if t then 1 else 0)) ∷ map (λ l. l.0) (leaves_from n m k (suc i) scripts))
      (leb_holds (n - k) i h)
    ∙ ap (λ l. (m - 1) ∷ l) (depths_behind n m k (suc i) scripts (omega arith))
  where
    leb_holds : (a b : ℕ) → a ≤ b → leb a b ≡ true
    leb_holds a b e = ground arith

depths_from :
    (n m k i a : ℕ) (scripts : List Bytes)
    → n - k ≡ i + a
    → a ≤ length scripts
    → map (λ l. l.0) (leaves_from n m k i scripts)
      ≡ replicate a m ++ replicate (length scripts - a) (m - 1)
unfolding leaves_from
depths_from n m k i zero scripts e h =
    depths_behind n m k i scripts (omega arith) ∙ ap (λ c. replicate c (m - 1)) (omega arith)
depths_from n m k i (suc a) [] e h = absurd (omega arith)
depths_from n m k i (suc a) (script ∷ scripts) e h =
    ap (λ t. (m - (if t then 1 else 0)) ∷ map (λ l. l.0) (leaves_from n m k (suc i) scripts))
      (leb_fails (n - k) i (omega arith))
    ∙ ap (λ d. d ∷ map (λ l. l.0) (leaves_from n m k (suc i) scripts)) (minus_zero m)
    ∙ ap (λ l. m ∷ l)
        (depths_from n m k (suc i) a scripts (omega arith) (omega arith)
          ∙ ap (λ c. replicate a m ++ replicate c (m - 1)) (omega arith))
  where
    leb_fails : (a b : ℕ) → b < a → leb a b ≡ false
    leb_fails a b e = ground arith

    minus_zero : (m : ℕ) → m - 0 ≡ m
    minus_zero m = omega arith

scripts_are_kept :
    (n m k i : ℕ) (scripts : List Bytes) → map (λ l. l.1) (leaves_from n m k i scripts) ≡ scripts
unfolding leaves_from
scripts_are_kept n m k i [] = refl
scripts_are_kept n m k i (script ∷ scripts) =
    ap (λ l. script ∷ l) (scripts_are_kept n m k (suc i) scripts)

-- The numbers of leaves on the two levels, for `n` leaves and `2 ^ q < n ≤ 2 ^ suc q`.
counts :
    (n p : ℕ)
    → p < n
    → n ≤ p + p
    → (n - (p + p - n) ≡ (n - p) + (n - p))
      × (n - ((n - p) + (n - p)) ≡ p + p - n)
      × ((n - p) + (p + p - n) ≡ p)
counts n p h k = (omega arith, omega arith, omega arith)

twice : (q : ℕ) → 2 ^ suc q ≡ 2 ^ q + 2 ^ q
twice q = omega arith

levels-Forest :
    (n q : ℕ)
    → 2 ^ q < n
    → n ≤ 2 ^ suc q
    → Forest q
        (2 ^ q)
        (replicate (n - (2 ^ suc q - n)) (suc q) ++ replicate (n - (n - (2 ^ suc q - n))) q)
levels-Forest n q h k =
    let (deep, high, both) = counts n (2 ^ q) h (subst (λ t. n ≤ t) (twice q) k) in
    let deep_is : n - (2 ^ suc q - n) ≡ (n - 2 ^ q) + (n - 2 ^ q) =
      ap (λ t. n - (t - n)) (twice q) ∙ deep in
    let high_is : n - (n - (2 ^ suc q - n)) ≡ 2 ^ q + 2 ^ q - n = ap (λ t. n - t) deep_is ∙ high in
    subst
      (λ c.
        Forest q c
          (replicate (n - (2 ^ suc q - n)) (suc q) ++ replicate (n - (n - (2 ^ suc q - n))) q))
      both
      (Forest-append q (n - 2 ^ q) (2 ^ q + 2 ^ q - n) _ _
        (Forest-pairs q (n - 2 ^ q) _ (
          subst (λ c. Forest (suc q) c (replicate (n - (2 ^ suc q - n)) (suc q))) deep_is
            (Forest-leaves (suc q) (n - (2 ^ suc q - n)))))
        (subst (λ c. Forest q c (replicate (n - (n - (2 ^ suc q - n))) q)) high_is
          (Forest-leaves q (n - (n - (2 ^ suc q - n))))))

-- The leaves of at least two scripts.
leaves_of_many :
    (scripts : List Bytes)
    → 1 < length scripts
    → taproot_leaves scripts
      ≡ leaves_from
          (length scripts)
          (suc (ilog2 63 (length scripts - 1)))
          (2 ^ suc (ilog2 63 (length scripts - 1)) - length scripts)
          0
          scripts
unfolding taproot_leaves
leaves_of_many scripts h =
    ap
      (λ t.
        if t
        then leaves_from (length scripts) (ilog2 63 (length scripts - 1) + 1)
            (2 ^ (ilog2 63 (length scripts - 1) + 1) - length scripts) 0 scripts
        else leaves_from (length scripts) 0 0 0 scripts)
      (ltb_holds 1 (length scripts) h)
    ∙ ap (λ m. leaves_from (length scripts) m (2 ^ m - length scripts) 0 scripts)
        (add_one (ilog2 63 (length scripts - 1)))
  where
    ltb_holds : (a b : ℕ) → a < b → ltb a b ≡ true
    ltb_holds a b e = ground arith

    add_one : (q : ℕ) → q + 1 ≡ suc q
    add_one q = omega arith

many-FullTree :
    (scripts : List Bytes)
    → 1 < length scripts
    → length scripts ≤ 2 ^ 64
    → FullTree 0 (map (λ l. l.0) (taproot_leaves scripts))
many-FullTree scripts h k =
    let n = length scripts in
    let q = ilog2 63 (n - 1) in
    let (above, below) = ilog2-bounds 63 (n - 1) (positive n h) (fits n k) in
    let depths : map (λ l. l.0) (taproot_leaves scripts)
        ≡ replicate (n - (2 ^ suc q - n)) (suc q) ++ replicate (n - (n - (2 ^ suc q - n))) q =
      ap (map (λ l. l.0)) (leaves_of_many scripts h)
      ∙ depths_from n (suc q) (2 ^ suc q - n) 0 (n - (2 ^ suc q - n)) scripts (zero_add _)
          (minus_le n (2 ^ suc q - n))
      ∙ ap (λ p. replicate (n - (2 ^ suc q - n)) (suc q) ++ replicate (n - (n - (2 ^ suc q - n))) p)
          (pred q) in
    subst (FullTree 0) (sym depths)
      (Forest-FullTree q _ (levels-Forest n q (up n (2 ^ q) h above) (down n (2 ^ suc q) h below)))
  where
    positive : (n : ℕ) → 1 < n → 1 ≤ n - 1
    positive n h = omega arith

    fits : (n : ℕ) → n ≤ 2 ^ 64 → n - 1 < 2 ^ 64
    fits n k = omega arith

    minus_le : (n k : ℕ) → n - k ≤ n
    minus_le n k = omega arith

    pred : (q : ℕ) → suc q - 1 ≡ q
    pred q = omega arith

    up : (n p : ℕ) → 1 < n → p ≤ n - 1 → p < n
    up n p h k = omega arith

    down : (n p : ℕ) → 1 < n → n - 1 < p → n ≤ p
    down n p h k = omega arith

-- The depths that a taproot address gives to at least one script, and at most 2 ^ 64, are those of the
-- leaves of a binary tree from left to right; and the leaves are the scripts in their order.
pub taproot_leaves-FullTree :
    (scripts : List Bytes)
    → 1 ≤ length scripts
    → length scripts ≤ 2 ^ 64
    → FullTree 0 (map (λ l. l.0) (taproot_leaves scripts))
      × (map (λ l. l.1) (taproot_leaves scripts) ≡ scripts)
unfolding taproot_leaves leaves_from
taproot_leaves-FullTree [] h k = absurd (omega arith)
taproot_leaves-FullTree (script ∷ []) h k = (leaf 0, refl)
taproot_leaves-FullTree (script ∷ second ∷ scripts) h k =
    let all = script ∷ second ∷ scripts in
    let two : 1 < length all = omega arith in
    (
      many-FullTree all two k,
      ap (map (λ l. l.1)) (leaves_of_many all two) ∙ scripts_are_kept (length all) _ _ 0 all,
    )
