-- ===== src/Core/Aggregator/Columns.antt =====
-- The loops of core/src/aggregator.rs: what a loop that ends has computed, and the aggregation of nonces.
use clementine.Prelude.{
  ℕ, zero, suc, ◌+◌, ◌<◌, ◌≡◌, sym, ap, ◌∙◌, List, ◌∷◌, some, length, get_elem?, arith,
}
use clementine.Prelude.Bytes.{Bytes}
use clementine.Core.Result.{
  ok_or, ok_or-eq_ok, nonces_not_found, ◌>>=◌, Result, ok, >>=-eq_ok, ok_injective,
}
use clementine.Core.Musig2.{aggregate_nonces}
use clementine.Core.Libraries.{Libraries}
use clementine.Core.Aggregator.{column, each_from, aggregate_pub_nonces}

pub some_injective : {A : Type 0} {a b : A} → some a ≡ some b → a ≡ b
some_injective e = cc e

-- Each element of the result comes from its index.
pub each_from-get :
    (f : ℕ → Result Bytes) (i n j : ℕ) (rest : List Bytes)
    → each_from f i n ≡ ok rest
    → j < n
    → (a : Bytes) × (get_elem? rest j ≡ some a) × (f (i + j) ≡ ok a)
each_from-get f i zero j rest e h = absurd (omega arith)
each_from-get f i (suc n) zero rest e h =
    let (a, at, e₁) = >>=-eq_ok (f i) _ e in
    let (later, _, e₂) = >>=-eq_ok (each_from f (suc i) n) _ e₁ in
    (a, ap (λ xs. get_elem? xs 0) (sym (ok_injective e₂)), ap f (omega arith) ∙ at)
each_from-get f i (suc n) (suc j) rest e h =
    let (a, at, e₁) = >>=-eq_ok (f i) _ e in
    let (later, ends, e₂) = >>=-eq_ok (each_from f (suc i) n) _ e₁ in
    let (b, found, at') = each_from-get f (suc i) n j later ends (omega arith) in
    (b, ap (λ xs. get_elem? xs (suc j)) (sym (ok_injective e₂)) ∙ found, ap f (omega arith) ∙ at')

pub length-each_from :
    (f : ℕ → Result Bytes) (i n : ℕ) (rest : List Bytes)
    → each_from f i n ≡ ok rest
    → length rest ≡ n
length-each_from f i zero rest e = ap length (sym (ok_injective e))
length-each_from f i (suc n) rest e =
    let (a, at, e₁) = >>=-eq_ok (f i) _ e in
    let (later, ends, e₂) = >>=-eq_ok (each_from f (suc i) n) _ e₁ in
    ap length (sym (ok_injective e₂)) ∙ ap suc (length-each_from f (suc i) n later ends)

module _ {Network KeyAggContext : Type 0} (L : Libraries Network KeyAggContext) where
  -- Where aggregate_pub_nonces answers, there is one aggregated nonce for each nonce of the first
  -- verifier, and each is the aggregate of the nonces that all verifiers have at its index.
  pub aggregate_pub_nonces-get :
      (first : List Bytes) (lists : List (List Bytes)) (aggs : List Bytes) (j : ℕ)
      → aggregate_pub_nonces L (first ∷ lists) ≡ ok aggs
      → j < length first
      → (length aggs ≡ length first)
        × (nonces : List Bytes) × (column (first ∷ lists) j ≡ some nonces)
        × (agg : Bytes) × (aggregate_nonces L.musig2 nonces ≡ ok agg)
        × (get_elem? aggs j ≡ some agg)
  unfolding aggregate_pub_nonces
  aggregate_pub_nonces-get first lists aggs j e h =
      let one : ℕ → Result Bytes = λ i.
        ok_or nonces_not_found (column (first ∷ lists) i)
        >>= (λ nonces. aggregate_nonces L.musig2 nonces) in
      let (agg, at, made) = each_from-get one 0 (length first) j aggs e h in
      let (nonces, found, sums) =
        >>=-eq_ok (ok_or nonces_not_found (column (first ∷ lists) (0 + j))) _ made in
      (
        length-each_from one 0 (length first) aggs e,
        nonces,
        ap (column (first ∷ lists)) (omega arith) ∙ ok_or-eq_ok _ _ found,
        agg,
        sums,
        at,
      )
