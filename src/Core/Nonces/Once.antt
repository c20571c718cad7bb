-- ===== src/Core/Nonces/Once.antt =====
-- The sighash of a nonce of the verifier, through the queries on its table.
use clementine.Prelude.{
  ℕ, suc, ◌≡◌, refl, sym, ap, ◌∙◌, List, [], ◌∷◌, ◌++◌, map, Option, none, some, Bool, true, false,
  if◌then◌else◌,
}
use clementine.Prelude.Bytes.{Bytes, bytes_eq, bytes_eq→eq}
use clementine.Core.Types.{OutPoint}
use clementine.Core.Result.{Result, ok, err, >>=-eq_ok, ok_injective, ok_or, database_error}
use clementine.Core.Nonces.{
  NonceRow, Nonces, has_key, with_sighash, in_batch, set_agg_nonce, set_sighash, contains_key,
  insert_from, save_nonces, save_agg_nonces, prevent_sighash_update, update_sighashes, nonce_pairs,
  sort_by_idx, touched, save_sighashes_and_get_nonces,
}

-- The sighash of the row with a key.
abbrev pub sighash_of : Nonces → OutPoint → ℕ → Option Bytes
sighash_of [] d i = none
sighash_of (row ∷ rows) d i =
    let rest = sighash_of rows d i in if has_key row d i then row.sighash else rest

-- A query that changes the table, and succeeds.
pub data NonceStep (table : Nonces) : Nonces → Type 0 where
  nonces_saved :
      (d : OutPoint) (nonces : List (Bytes × Bytes)) (table' : Nonces)
      → save_nonces d nonces table ≡ ok table'
      → NonceStep table table'
  agg_nonces_saved :
      (d : OutPoint) (aggs : List Bytes) (table' : Nonces)
      → save_agg_nonces d aggs table ≡ ok table'
      → NonceStep table table'
  sighashes_saved :
      (d : OutPoint) (index : ℕ) (sighashes : List Bytes) (pairs : List (Bytes × Bytes))
      (table' : Nonces)
      → save_sighashes_and_get_nonces d index sighashes table ≡ ok (pairs, table')
      → NonceStep table table'

pub data NonceSteps : Nonces → Nonces → Type 0 where
  done : (table : Nonces) → NonceSteps table table
  query :
      (table table' table'' : Nonces)
      → NonceStep table table'
      → NonceSteps table' table''
      → NonceSteps table table''

sighash_of-append :
    (table rows : Nonces) (d : OutPoint) (i : ℕ) (h : Bytes)
    → sighash_of table d i ≡ some h
    → sighash_of (table ++ rows) d i ≡ some h
sighash_of-append [] rows d i h e = cc
sighash_of-append (row ∷ table) rows d i h e =
    by_key (has_key row d i) (sighash_of-append table rows d i h) e
  where
    by_key :
        (t : Bool)
        → (sighash_of table d i ≡ some h → sighash_of (table ++ rows) d i ≡ some h)
        → (if t then row.sighash else sighash_of table d i) ≡ some h
        → (if t then row.sighash else sighash_of (table ++ rows) d i) ≡ some h
    by_key true later k = k
    by_key false later k = later k

insert_from-keeps :
    (d' : OutPoint) (idx : ℕ) (nonces : List (Bytes × Bytes)) (table table' : Nonces) (d : OutPoint)
    (i : ℕ) (h : Bytes)
    → insert_from d' idx nonces table ≡ ok table'
    → sighash_of table d i ≡ some h
    → sighash_of table' d i ≡ some h
insert_from-keeps d' idx [] table table' d i h e s =
    ap (λ t. sighash_of t d i) (sym (ok_injective e)) ∙ s
insert_from-keeps d' idx ((sec, pub_nonce) ∷ nonces) table table' d i h e s =
    by_test (contains_key table d' idx)
      (λ k.
        insert_from-keeps d' (suc idx) nonces _ table' d i h k (sighash_of-append table _ d i h s))
      e
  where
    by_test :
        {X : Result Nonces} (t : Bool)
        → (X ≡ ok table' → sighash_of table' d i ≡ some h)
        → (if t then err database_error else X) ≡ ok table'
        → sighash_of table' d i ≡ some h
    by_test true later k = cc
    by_test false later k = later k

set_agg_nonce-same :
    (a : Option Bytes) (row : NonceRow) (d : OutPoint) (i : ℕ)
    → (has_key (set_agg_nonce a row) d i ≡ has_key row d i)
      × ((set_agg_nonce a row).sighash ≡ row.sighash)
set_agg_nonce-same none row d i = (refl, refl)
set_agg_nonce-same (some agg) row d i = (refl, refl)

sighash_of-map :
    (d' : OutPoint) (aggs : List Bytes) (table : Nonces) (d : OutPoint) (i : ℕ)
    → sighash_of (map (λ row. set_agg_nonce (in_batch d' 0 aggs row) row) table) d i
      ≡ sighash_of table d i
sighash_of-map d' aggs [] d i = refl
sighash_of-map d' aggs (row ∷ table) d i =
    let (key, sighash) = set_agg_nonce-same (in_batch d' 0 aggs row) row d i in
    ap
      (λ t.
        if t
        then (set_agg_nonce (in_batch d' 0 aggs row) row).sighash
        else sighash_of (map (λ r. set_agg_nonce (in_batch d' 0 aggs r) r) table) d i)
      key
    ∙ ap
        (λ s.
          if has_key row d i
          then s
          else sighash_of (map (λ r. set_agg_nonce (in_batch d' 0 aggs r) r) table) d i)
        sighash
    ∙ ap (λ rest. if has_key row d i then row.sighash else rest) (sighash_of-map d' aggs table d i)

some_injective : {A : Type 0} {a b : A} → some a ≡ some b → a ≡ b
some_injective e = cc e

none_is_some : {A : Type 0} {a : A} → none ≡ some a → ⊥
none_is_some e = cc

prevent_sighash_update-keeps :
    (old : Option Bytes) (row row' : NonceRow) (g h : Bytes) (d : OutPoint) (i : ℕ)
    → prevent_sighash_update old row g ≡ some row'
    → (has_key row' d i ≡ has_key row d i) × (old ≡ some h → row'.sighash ≡ some h)
unfolding prevent_sighash_update
prevent_sighash_update-keeps none row row' g h d i e =
    (ap (λ r. has_key r d i) (sym (some_injective e)), λ k. absurd (none_is_some k))
prevent_sighash_update-keeps (some o) row row' g h d i e =
    by_test (bytes_eq o g) (bytes_eq→eq o g) e
  where
    by_test :
        (t : Bool)
        → (t ≡ true → o ≡ g)
        → (if t then some (with_sighash row g) else none) ≡ some row'
        → (has_key row' d i ≡ has_key row d i) × (some o ≡ some h → row'.sighash ≡ some h)
    by_test true same k = (
      ap (λ r. has_key r d i) (sym (some_injective k)),
      λ s. ap (λ r. r.sighash) (sym (some_injective k)) ∙ ap some (sym (same refl)) ∙ s,
    )
    by_test false same k = absurd (none_is_some k)

pub set_sighash-keeps :
    (o : Option Bytes) (row row' : NonceRow) (h : Bytes) (d : OutPoint) (i : ℕ)
    → set_sighash o row ≡ some row'
    → (has_key row' d i ≡ has_key row d i) × (row.sighash ≡ some h → row'.sighash ≡ some h)
set_sighash-keeps none row row' h d i e =
    let same = sym (some_injective e) in
    (ap (λ r. has_key r d i) same, λ s. ap (λ r. r.sighash) same ∙ s)
set_sighash-keeps (some g) row row' h d i e =
    prevent_sighash_update-keeps row.sighash row row' g h d i e

-- The row that is updated and the rows behind it.
keeps_cons :
    (row row' : NonceRow) (rows rows' : Nonces) (d : OutPoint) (i : ℕ) (h : Bytes)
    → (has_key row' d i ≡ has_key row d i)
    → (row.sighash ≡ some h → row'.sighash ≡ some h)
    → (sighash_of rows d i ≡ some h → sighash_of rows' d i ≡ some h)
    → sighash_of (row ∷ rows) d i ≡ some h
    → sighash_of (row' ∷ rows') d i ≡ some h
keeps_cons row row' rows rows' d i h key here later e =
    ap (λ t. if t then row'.sighash else sighash_of rows' d i) key ∙ by_key (has_key row d i) e
  where
    by_key :
        (t : Bool)
        → (if t then row.sighash else sighash_of rows d i) ≡ some h
        → (if t then row'.sighash else sighash_of rows' d i) ≡ some h
    by_key true k = here k
    by_key false k = later k

pub update_sighashes-keeps :
    (d' : OutPoint) (index : ℕ) (hs : List Bytes) (table table' : Nonces) (d : OutPoint) (i : ℕ)
    (h : Bytes)
    → update_sighashes d' index hs table ≡ some table'
    → sighash_of table d i ≡ some h
    → sighash_of table' d i ≡ some h
unfolding update_sighashes
update_sighashes-keeps d' index hs [] table' d i h e s =
    ap (λ t. sighash_of t d i) (sym (some_injective e)) ∙ s
update_sighashes-keeps d' index hs (row ∷ rows) table' d i h e s =
    by_row (set_sighash (in_batch d' index hs row) row) (update_sighashes d' index hs rows)
      (λ row' at. set_sighash-keeps (in_batch d' index hs row) row row' h d i at)
      (λ rows' at. update_sighashes-keeps d' index hs rows rows' d i h at) e
  where
    by_row :
        (o : Option NonceRow) (os : Option Nonces)
        → ((row' : NonceRow)
            → o ≡ some row'
            → (has_key row' d i ≡ has_key row d i) × (row.sighash ≡ some h → row'.sighash ≡ some h))
        → ((rows' : Nonces)
            → os ≡ some rows'
            → sighash_of rows d i ≡ some h
            → sighash_of rows' d i ≡ some h)
        → elim o as (λ _. Option Nonces) [
          | none ↦ none
          | some row' ↦ elim os as (λ _. Option Nonces) [
            | none ↦ none
            | some rows' ↦ some (row' ∷ rows')
          ]
        ]
          ≡ some table'
        → sighash_of table' d i ≡ some h
    by_row none os at_row at_rows k = absurd (none_is_some k)
    by_row (some row') none at_row at_rows k = absurd (none_is_some k)
    by_row (some row') (some rows') at_row at_rows k =
        let (key, here) = at_row row' refl in
        ap (λ t. sighash_of t d i) (sym (some_injective k))
        ∙ keeps_cons row row' rows rows' d i h key here (at_rows rows' refl) s

ok_or-eq_ok : {A : Type 0} (o : Option A) {a : A} → ok_or database_error o ≡ ok a → o ≡ some a
ok_or-eq_ok none e = cc
ok_or-eq_ok (some b) e = ap some (ok_injective e)

pub NonceStep-keeps :
    (table table' : Nonces) (d : OutPoint) (i : ℕ) (h : Bytes)
    → NonceStep table table'
    → sighash_of table d i ≡ some h
    → sighash_of table' d i ≡ some h
unfolding save_nonces save_agg_nonces save_sighashes_and_get_nonces
NonceStep-keeps table _ d i h (nonces_saved d' [] table' e) s = cc
NonceStep-keeps table _ d i h (nonces_saved d' (n ∷ ns) table' e) s =
    insert_from-keeps d' 0 (n ∷ ns) table table' d i h e s
NonceStep-keeps table _ d i h (agg_nonces_saved d' [] table' e) s = cc
NonceStep-keeps table _ d i h (agg_nonces_saved d' (a ∷ aggs) table' e) s =
    ap (λ t. sighash_of t d i) (sym (ok_injective e)) ∙ sighash_of-map d' (a ∷ aggs) table d i ∙ s
NonceStep-keeps table _ d i h (sighashes_saved d' index [] pairs table' e) s = cc
NonceStep-keeps table _ d i h (sighashes_saved d' index (g ∷ gs) pairs table' e) s =
    let (updated, at, e₁) =
      >>=-eq_ok (ok_or database_error (update_sighashes d' index (g ∷ gs) table)) _ e in
    let (returned, _, e₂) =
      >>=-eq_ok (ok_or database_error (nonce_pairs (sort_by_idx (touched d' index (g ∷ gs) table))))
        _ e₁ in
    ap (λ r. sighash_of r.1 d i) (sym (ok_injective e₂))
    ∙ update_sighashes-keeps d' index (g ∷ gs) table updated d i h (ok_or-eq_ok _ at) s

-- Whatever queries succeed on the table of nonces, a sighash that the row of a key has stays that
-- row's sighash.
pub NonceSteps-keeps :
    (table table' : Nonces) (d : OutPoint) (i : ℕ) (h : Bytes)
    → NonceSteps table table'
    → sighash_of table d i ≡ some h
    → sighash_of table' d i ≡ some h
NonceSteps-keeps table _ d i h (done _) s = s
NonceSteps-keeps table _ d i h (query _ table' table'' first later) s =
    NonceSteps-keeps table' table'' d i h later (NonceStep-keeps table table' d i h first s)
