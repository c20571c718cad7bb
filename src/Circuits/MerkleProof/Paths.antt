-- ===== src/Circuits/MerkleProof/Paths.antt =====
-- What a run of the loop read, and the root that these nodes lead to.
use clementine.Prelude.{
  ℕ, zero, suc, ◌*◌, ◌/◌, ◌%◌, ◌≡◌, refl, ap, subst, inl, inr, Option-cases, some, List, [], ◌∷◌,
  ◌++◌, ◌==◌, if◌then◌else◌, length, All, get_or, arith,
}
use clementine.Prelude.Bytes.{Bytes}
use clementine.Circuits.Sha256.{Sha256, sha256_hash}
use clementine.Circuits.Env.{M, pure, ◌>>=◌, Environment, >>=-eq_some}
use clementine.Circuits.Constants.{zeroes}
use clementine.Circuits.IncrementalMerkle.Nodes.{pair_up, node_hash}
use clementine.Circuits.MerkleProof.{climb}

abbrev pub Is32 : Bytes → Type 0
Is32 b = length b ≡ 32

-- The next `n` values of 32 bytes.
unfoldable pub read_siblings : {S : Type 0} → Environment S → ℕ → M S (List Bytes)
read_siblings E zero = pure []
read_siblings E (suc n) = do
  sibling ← E.read_32bytes
  siblings ← read_siblings E n
  pure (sibling ∷ siblings)

-- The 64 bytes that are hashed at one level.
abbrev pub message : ℕ → Bytes → Bytes → Bytes
message index hash sibling = if index % 2 == 0 then hash ++ sibling else sibling ++ hash

module _ (H : Sha256) where
  abbrev pub path_root : ℕ → Bytes → List Bytes → Bytes
  path_root index hash [] = hash
  path_root index hash (sibling ∷ siblings) =
      path_root (index / 2) (H.digest (message index hash sibling)) siblings

  -- The node `k` of level `i`.
  abbrev pub node : ℕ → List Bytes → ℕ → Bytes
  node i nodes k = get_or nodes k (zeroes H i)

abbrev pub twice : ℕ → ℕ
twice zero = zero
twice (suc k) = suc (suc (twice k))

pub twice_lem : (k : ℕ) → twice k ≡ 2 * k
twice_lem zero = omega arith
twice_lem (suc k) = omega (arith, twice_lem k)

module _ (H : Sha256) where
  -- The children of a parent, missing ones included.
  pub get_or-pair_up :
      (z : Bytes) (nodes : List Bytes) (k : ℕ)
      → get_or (pair_up H z nodes) k (node_hash H z z)
        ≡ H.digest (get_or nodes (twice k) z ++ get_or nodes (suc (twice k)) z)
  get_or-pair_up z [] k = refl
  get_or-pair_up z (a ∷ []) zero = refl
  get_or-pair_up z (a ∷ []) (suc k) = refl
  get_or-pair_up z (a ∷ b ∷ nodes) zero = refl
  get_or-pair_up z (a ∷ b ∷ nodes) (suc k) = get_or-pair_up z nodes k

  pub node_parent :
      (i : ℕ) (nodes : List Bytes) (k : ℕ)
      → node H (suc i) (pair_up H (zeroes H i) nodes) k
        ≡ H.digest (node H i nodes (twice k) ++ node H i nodes (suc (twice k)))
  unfolding zeroes
  node_parent i nodes k = get_or-pair_up (zeroes H i) nodes k

module _ {S : Type 0} (E : Environment S) (H : Sha256) where
  next_hash :
      (index : ℕ) (hash b : Bytes)
      → (if index % 2 == 0 then sha256_hash H (hash ∷ b ∷ []) else sha256_hash H (b ∷ hash ∷ []))
        ≡ H.digest (message index hash b)
  next_hash index hash b = ground arith

  -- The loop returns the root of the path that it reads.
  pub climb-path :
      (n index : ℕ) (hash : Bytes) (s : S)
      → climb E H n index hash s
        ≡ (read_siblings E n >>= (λ siblings. pure (path_root H index hash siblings))) s
  unfolding climb read_siblings
  climb-path zero index hash s = refl
  climb-path (suc n) index hash s = elim (Option-cases (E.read_32bytes s)) [
    | inl fault ↦ ground arith
    | inr ((b, t), read) ↦ ground (
      arith,
      read,
      climb-path n (index / 2) (H.digest (message index hash b)) t,
      next_hash index hash b,
    )
  ]

  pub read_siblings-Is32 :
      (n : ℕ) (s s' : S) (siblings : List Bytes)
      → read_siblings E n s ≡ some (siblings, s')
      → (length siblings ≡ n) × All Is32 siblings
  unfolding read_siblings
  read_siblings-Is32 zero s s' siblings e = ground arith
  read_siblings-Is32 (suc n) s s' siblings e =
      let (b, t, read, rest) = >>=-eq_some E.read_32bytes _ s e in
      let (bs, t', reads, result) = >>=-eq_some (read_siblings E n) _ t rest in
      let (len, all) = read_siblings-Is32 n t t' bs reads in
      let same : b ∷ bs ≡ siblings = cc result in
      subst (λ l. (length l ≡ suc n) × All Is32 l) same
        (ap suc len, (E.read_32bytes-length s t b read, all))
