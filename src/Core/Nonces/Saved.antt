-- ===== src/Core/Nonces/Saved.antt =====
-- Nonces of core/src/database/common.rs that are saved for a new deposit are read back.
use clementine.Prelude.{
  ℕ, suc, ◌≡◌, refl, sym, ap, ◌∙◌, List, [], ◌∷◌, ◌++◌, map, append-nil, append_assoc, Option, none,
  some, Bool, true, false, leb, if◌then◌else◌, arith,
}
use clementine.Prelude.Bytes.{Bytes, bytes_eq_refl}
use clementine.Core.Types.{OutPoint, outpoint_eq}
use clementine.Core.Result.{Result, ok, err, ok_injective, database_error}
use clementine.Core.Nonces.{
  NonceRow, Nonces, insert_by_idx, sort_by_idx, of_deposit, get_pub_nonces, contains_key,
  insert_from, save_nonces,
}

-- A row without an aggregated nonce and a sighash.
abbrev pub fresh_row : OutPoint → ℕ → Bytes → Bytes → NonceRow
fresh_row d idx sec pub_nonce = record {
  deposit_outpoint = d;
  internal_idx = idx;
  pub_nonce = pub_nonce;
  sec_nonce = sec;
  agg_nonce = none;
  sighash = none;
}

-- The rows of a batch.
abbrev pub rows_from : OutPoint → ℕ → List (Bytes × Bytes) → Nonces
rows_from d idx [] = []
rows_from d idx ((sec, pub_nonce) ∷ nonces) =
    fresh_row d idx sec pub_nonce ∷ rows_from d (suc idx) nonces

insert_from-eq_ok :
    (d : OutPoint) (idx : ℕ) (nonces : List (Bytes × Bytes)) (table table' : Nonces)
    → insert_from d idx nonces table ≡ ok table'
    → table' ≡ table ++ rows_from d idx nonces
insert_from-eq_ok d idx [] table table' e = sym (ok_injective e) ∙ sym (append-nil table)
insert_from-eq_ok d idx ((sec, pub_nonce) ∷ nonces) table table' e =
    by_test (contains_key table d idx)
      (λ k. insert_from-eq_ok d (suc idx) nonces _ table' k ∙ append_assoc table _ _) e
  where
    by_test :
        {X : Result Nonces} (t : Bool)
        → (X ≡ ok table' → table' ≡ table ++ rows_from d idx ((sec, pub_nonce) ∷ nonces))
        → (if t then err database_error else X) ≡ ok table'
        → table' ≡ table ++ rows_from d idx ((sec, pub_nonce) ∷ nonces)
    by_test true later k = cc
    by_test false later k = later k

outpoint_eq_refl : (d : OutPoint) → outpoint_eq d d ≡ true
outpoint_eq_refl d = simp (bytes_eq_refl d.txid) (ground arith)

of_deposit-append :
    (d : OutPoint) (table rows : Nonces)
    → of_deposit d (table ++ rows) ≡ of_deposit d table ++ of_deposit d rows
of_deposit-append d [] rows = refl
of_deposit-append d (row ∷ table) rows =
    by_test (outpoint_eq row.deposit_outpoint d) (of_deposit-append d table rows)
  where
    by_test :
        (t : Bool)
        → of_deposit d (table ++ rows) ≡ of_deposit d table ++ of_deposit d rows
        → (if t then row ∷ of_deposit d (table ++ rows) else of_deposit d (table ++ rows))
          ≡ (if t then row ∷ of_deposit d table else of_deposit d table) ++ of_deposit d rows
    by_test true k = ap (λ rest. row ∷ rest) k
    by_test false k = k

of_deposit-rows_from :
    (d : OutPoint) (idx : ℕ) (nonces : List (Bytes × Bytes))
    → of_deposit d (rows_from d idx nonces) ≡ rows_from d idx nonces
of_deposit-rows_from d idx [] = refl
of_deposit-rows_from d idx ((sec, pub_nonce) ∷ nonces) =
    rw (outpoint_eq_refl d)
      (ap (λ rest. fresh_row d idx sec pub_nonce ∷ rest) (of_deposit-rows_from d (suc idx) nonces))

insert_first :
    (d : OutPoint) (idx : ℕ) (sec pub_nonce : Bytes) (nonces : List (Bytes × Bytes))
    → insert_by_idx (fresh_row d idx sec pub_nonce) (rows_from d (suc idx) nonces)
      ≡ fresh_row d idx sec pub_nonce ∷ rows_from d (suc idx) nonces
insert_first d idx sec pub_nonce [] = refl
insert_first d idx sec pub_nonce ((sec', pub_nonce') ∷ nonces) = ground arith

-- The rows of a batch are in order.
sort-rows_from :
    (d : OutPoint) (idx : ℕ) (nonces : List (Bytes × Bytes))
    → sort_by_idx (rows_from d idx nonces) ≡ rows_from d idx nonces
sort-rows_from d idx [] = refl
sort-rows_from d idx ((sec, pub_nonce) ∷ nonces) =
    ap (insert_by_idx (fresh_row d idx sec pub_nonce)) (sort-rows_from d (suc idx) nonces)
    ∙ insert_first d idx sec pub_nonce nonces

map-rows_from :
    (d : OutPoint) (idx : ℕ) (nonces : List (Bytes × Bytes))
    → map (λ (row : NonceRow). row.pub_nonce) (rows_from d idx nonces) ≡ map (λ n. n.1) nonces
map-rows_from d idx [] = refl
map-rows_from d idx ((sec, pub_nonce) ∷ nonces) =
    ap (λ rest. pub_nonce ∷ rest) (map-rows_from d (suc idx) nonces)

insert-not-nil : (row : NonceRow) (rows : Nonces) → insert_by_idx row rows ≡ [] → ⊥
insert-not-nil row [] e = cc
insert-not-nil row (r ∷ rows) e = by_test (leb row.internal_idx r.internal_idx) e
  where
    by_test : (t : Bool) → (if t then row ∷ r ∷ rows else r ∷ insert_by_idx row rows) ≡ [] → ⊥
    by_test true k = cc
    by_test false k = cc

-- A deposit without nonces has no rows.
get_pub_nonces-none :
    (d : OutPoint) (table : Nonces) → get_pub_nonces d table ≡ none → of_deposit d table ≡ []
unfolding get_pub_nonces
get_pub_nonces-none d table e = by_rows (of_deposit d table) e
  where
    by_nonces :
        (ns : List Bytes)
        → elim ns as (λ _. Option (List Bytes)) [ [] ↦ none | n ∷ ns ↦ some (n ∷ ns) ] ≡ none
        → ns ≡ []
    by_nonces [] k = refl
    by_nonces (n ∷ ns) k = cc

    by_sorted : (rows : Nonces) → map (λ (row : NonceRow). row.pub_nonce) rows ≡ [] → rows ≡ []
    by_sorted [] k = refl
    by_sorted (row ∷ rows) k = cc

    by_rows :
        (rows : Nonces)
        → elim (map (λ (row : NonceRow). row.pub_nonce) (sort_by_idx rows))
            as (λ _. Option (List Bytes)) [ [] ↦ none | n ∷ ns ↦ some (n ∷ ns) ]
          ≡ none
        → rows ≡ []
    by_rows [] k = refl
    by_rows (row ∷ rows) k =
        absurd (insert-not-nil row (sort_by_idx rows) (by_sorted _ (by_nonces _ k)))

-- Nonces that are saved for a deposit without nonces are read back in their order.
pub get_pub_nonces-save_nonces :
    (d : OutPoint) (n : Bytes × Bytes) (nonces : List (Bytes × Bytes)) (table table' : Nonces)
    → get_pub_nonces d table ≡ none
    → save_nonces d (n ∷ nonces) table ≡ ok table'
    → get_pub_nonces d table' ≡ some (n.1 ∷ map (λ m. m.1) nonces)
unfolding get_pub_nonces save_nonces
get_pub_nonces-save_nonces d (sec, pub_nonce) nonces table table' fresh e =
    let batch = (sec, pub_nonce) ∷ nonces in
    let rows : of_deposit d table' ≡ rows_from d 0 batch =
      ap (of_deposit d) (insert_from-eq_ok d 0 batch table table' e)
      ∙ of_deposit-append d table (rows_from d 0 batch)
      ∙ ap (λ before. before ++ of_deposit d (rows_from d 0 batch))
          (get_pub_nonces-none d table fresh)
      ∙ of_deposit-rows_from d 0 batch in
    ap (λ ns. elim ns as (λ _. Option (List Bytes)) [ [] ↦ none | m ∷ ms ↦ some (m ∷ ms) ])
      (ap (λ rows. map (λ (row : NonceRow). row.pub_nonce) (sort_by_idx rows)) rows
        ∙ ap (map (λ (row : NonceRow). row.pub_nonce)) (sort-rows_from d 0 batch)
        ∙ map-rows_from d 0 batch)
