-- ===== src/Core/Nonces/Recorded.antt =====
-- The sighashes that `save_sighashes_and_get_nonces` of core/src/database/common.rs records.
use clementine.Prelude.{
  ℕ, ◌+◌, ◌-◌, ◌≡◌, refl, sym, ap, ◌∙◌, List, [], ◌∷◌, Option, none, some, Bool, true, false, ◌&&◌,
  ◌||◌, ◌==◌, leb, if◌then◌else◌, get_elem?, arith,
}
use clementine.Prelude.Bytes.{Bytes, bytes_eq}
use clementine.Core.Types.{OutPoint, outpoint_eq}
use clementine.Core.Result.{ok, ok_or, >>=-eq_ok, ok_injective, ok_or-eq_ok, database_error}
use clementine.Core.Nonces.{
  NonceRow, Nonces, has_key, with_sighash, in_batch, set_sighash, contains_key,
  prevent_sighash_update, update_sighashes, nonce_pairs, sort_by_idx, touched,
  save_sighashes_and_get_nonces,
}
use clementine.Core.Nonces.Once.{sighash_of, set_sighash-keeps}

some_injective : {A : Type 0} {a b : A} → some a ≡ some b → a ≡ b
some_injective e = cc e

prevent_sighash_update-sets :
    (old : Option Bytes) (row row' : NonceRow) (h : Bytes)
    → prevent_sighash_update old row h ≡ some row'
    → row'.sighash ≡ some h
unfolding prevent_sighash_update
prevent_sighash_update-sets none row row' h e = ap (λ r. r.sighash) (sym (some_injective e))
prevent_sighash_update-sets (some old) row row' h e = by_test (bytes_eq old h) e
  where
    by_test :
        (t : Bool)
        → (if t then some (with_sighash row h) else none) ≡ some row'
        → row'.sighash ≡ some h
    by_test true k = ap (λ r. r.sighash) (sym (some_injective k))
    by_test false k = cc

index_matches : (i index j : ℕ) → (i == index + j) ≡ true → (leb index i ≡ true) × (i - index ≡ j)
index_matches i index j e = ground arith

and_true : (a b : Bool) → (a && b) ≡ true → (a ≡ true) × (b ≡ true)
and_true true true e = (refl, refl)
and_true true false e = cc
and_true false b e = cc

-- A row with the key of an element of the batch gets that element.
in_batch-key :
    (d : OutPoint) (index j : ℕ) (hs : List Bytes) (row : NonceRow)
    → has_key row d (index + j) ≡ true
    → in_batch d index hs row ≡ get_elem? hs j
in_batch-key d index j hs row e =
    let (same_d, same_i) =
      and_true (outpoint_eq row.deposit_outpoint d) (row.internal_idx == index + j) e in
    let (above, offset) = index_matches row.internal_idx index j same_i in
    ap
      (λ t.
        if t && leb index row.internal_idx then get_elem? hs (row.internal_idx - index) else none)
      same_d
    ∙ ap (λ t. if t then get_elem? hs (row.internal_idx - index) else none) above
    ∙ ap (get_elem? hs) offset

-- The first row with a key, where a new row has the keys of the old one.
record_cons :
    (row row' : NonceRow) (rows rows' : Nonces) (d : OutPoint) (i : ℕ) (h : Bytes)
    → has_key row' d i ≡ has_key row d i
    → (has_key row d i ≡ true → row'.sighash ≡ some h)
    → (contains_key rows d i ≡ true → sighash_of rows' d i ≡ some h)
    → contains_key (row ∷ rows) d i ≡ true
    → sighash_of (row' ∷ rows') d i ≡ some h
record_cons row row' rows rows' d i h key here later e =
    ap (λ t. if t then row'.sighash else sighash_of rows' d i) key ∙ by_key (has_key row d i) here e
  where
    by_key :
        (t : Bool)
        → (t ≡ true → row'.sighash ≡ some h)
        → (t || contains_key rows d i) ≡ true
        → (if t then row'.sighash else sighash_of rows' d i) ≡ some h
    by_key true at k = at refl
    by_key false at k = later k

update_sighashes-records :
    (d : OutPoint) (index j : ℕ) (hs : List Bytes) (table table' : Nonces) (h : Bytes)
    → update_sighashes d index hs table ≡ some table'
    → get_elem? hs j ≡ some h
    → contains_key table d (index + j) ≡ true
    → sighash_of table' d (index + j) ≡ some h
unfolding update_sighashes
update_sighashes-records d index j hs [] table' h e at k = cc
update_sighashes-records d index j hs (row ∷ rows) table' h e at k =
    by_row (set_sighash (in_batch d index hs row) row) (update_sighashes d index hs rows) refl
      (λ rows' u c. update_sighashes-records d index j hs rows rows' h u at c) e
  where
    by_row :
        (o : Option NonceRow) (os : Option Nonces)
        → set_sighash (in_batch d index hs row) row ≡ o
        → ((rows' : Nonces)
            → os ≡ some rows'
            → contains_key rows d (index + j) ≡ true
            → sighash_of rows' d (index + j) ≡ some h)
        → elim o as (λ _. Option Nonces) [
          | none ↦ none
          | some row' ↦ elim os as (λ _. Option Nonces) [
            | none ↦ none
            | some rows' ↦ some (row' ∷ rows')
          ]
        ]
          ≡ some table'
        → sighash_of table' d (index + j) ≡ some h
    by_row none os is ih m = cc
    by_row (some row') none is ih m = cc
    by_row (some row') (some rows') is ih m =
        let (key, _) = set_sighash-keeps (in_batch d index hs row) row row' h d (index + j) is in
        ap (λ t. sighash_of t d (index + j)) (sym (some_injective m))
        ∙ record_cons row row' rows rows' d (index + j) h key
            (λ own.
              prevent_sighash_update-sets row.sighash row row' h
                (ap (λ b. set_sighash b row) (sym (in_batch-key d index j hs row own ∙ at)) ∙ is))
            (ih rows' refl) k

updated :
    (d : OutPoint) (index : ℕ) (hs : List Bytes) (table table' : Nonces)
    (pairs : List (Bytes × Bytes))
    → save_sighashes_and_get_nonces d index hs table ≡ ok (pairs, table')
    → update_sighashes d index hs table ≡ some table'
unfolding save_sighashes_and_get_nonces
updated d index [] table table' pairs e = cc
updated d index (g ∷ gs) table table' pairs e =
    let (t, at, e₁) =
      >>=-eq_ok (ok_or database_error (update_sighashes d index (g ∷ gs) table)) _ e in
    let (ps, _, e₂) =
      >>=-eq_ok (ok_or database_error (nonce_pairs (sort_by_idx (touched d index (g ∷ gs) table))))
        _ e₁ in
    ok_or-eq_ok _ _ at ∙ ap (λ r. some r.1) (ok_injective e₂)

-- A query that has recorded a digest for the nonce of a key, and answered.
pub record Recorded (d : OutPoint) (i : ℕ) (h : Bytes) (table table' : Nonces) : Type 0 where
  pub index : ℕ
  pub sighashes : List Bytes
  pub pairs : List (Bytes × Bytes)
  pub answered : save_sighashes_and_get_nonces d index sighashes table ≡ ok (pairs, table')
  pub offset : ℕ
  pub at_key : i ≡ index + offset
  pub at_digest : get_elem? sighashes offset ≡ some h

pub Recorded-sighash_of :
    (d : OutPoint) (i : ℕ) (h : Bytes) (table table' : Nonces)
    → Recorded d i h table table'
    → contains_key table d i ≡ true
    → sighash_of table' d i ≡ some h
Recorded-sighash_of d i h table table' r c =
    ap (sighash_of table' d) r.at_key ∙ by_batch r.sighashes r.at_digest r.answered
  where
    by_batch :
        (hs : List Bytes)
        → get_elem? hs r.offset ≡ some h
        → save_sighashes_and_get_nonces d r.index hs table ≡ ok (r.pairs, table')
        → sighash_of table' d (r.index + r.offset) ≡ some h
    by_batch hs at e =
        update_sighashes-records d r.index r.offset hs table table' h
          (updated d r.index hs table _ _ e) at (ap (contains_key table d) (sym r.at_key) ∙ c)
