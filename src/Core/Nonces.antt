-- ===== src/Core/Nonces.antt =====
-- The verifier's table of nonces: its queries in core/src/database/common.rs, and the trigger of
-- scripts/schema.sql that forbids a second sighash. An empty batch is no query, and fails.
pub mod Once
pub mod Saved
pub mod Recorded
use clementine.Prelude.{
  ℕ, zero, suc, ◌+◌, ◌-◌, ◌≡◌, List, [], ◌∷◌, ◌++◌, map, Option, none, some, Bool, true, false,
  ◌&&◌, ◌||◌, ◌==◌, leb, if◌then◌else◌, get_elem?,
}
use clementine.Prelude.Bytes.{Bytes, bytes_eq}
use clementine.Core.Types.{OutPoint, outpoint_eq}
use clementine.Core.Result.{Result, ok, err, ◌>>=◌, ok_or, database_error}

-- A row of `nonces`.
pub record NonceRow : Type 0 where
  pub deposit_outpoint : OutPoint
  pub internal_idx : ℕ
  pub pub_nonce : Bytes
  pub sec_nonce : Bytes
  pub agg_nonce : Option Bytes
  pub sighash : Option Bytes

abbrev pub Nonces : Type 0
Nonces = List NonceRow

-- The columns of the primary key.
abbrev pub has_key : NonceRow → OutPoint → ℕ → Bool
has_key row deposit_outpoint idx =
    outpoint_eq row.deposit_outpoint deposit_outpoint && row.internal_idx == idx

abbrev pub with_sighash : NonceRow → Bytes → NonceRow
with_sighash row sighash = record {
  deposit_outpoint = row.deposit_outpoint;
  internal_idx = row.internal_idx;
  pub_nonce = row.pub_nonce;
  sec_nonce = row.sec_nonce;
  agg_nonce = row.agg_nonce;
  sighash = some sighash;
}

abbrev pub with_agg_nonce : NonceRow → Bytes → NonceRow
with_agg_nonce row agg_nonce = record {
  deposit_outpoint = row.deposit_outpoint;
  internal_idx = row.internal_idx;
  pub_nonce = row.pub_nonce;
  sec_nonce = row.sec_nonce;
  agg_nonce = some agg_nonce;
  sighash = row.sighash;
}

-- `ORDER BY internal_idx`
abbrev pub insert_by_idx : NonceRow → Nonces → Nonces
insert_by_idx row [] = row ∷ []
insert_by_idx row (r ∷ rows) =
    let later = r ∷ insert_by_idx row rows in
    if leb row.internal_idx r.internal_idx then row ∷ r ∷ rows else later

abbrev pub sort_by_idx : Nonces → Nonces
sort_by_idx [] = []
sort_by_idx (row ∷ rows) = insert_by_idx row (sort_by_idx rows)

abbrev pub of_deposit : OutPoint → Nonces → Nonces
of_deposit deposit_outpoint [] = []
of_deposit deposit_outpoint (row ∷ rows) =
    let rest = of_deposit deposit_outpoint rows in
    if outpoint_eq row.deposit_outpoint deposit_outpoint then row ∷ rest else rest

-- `none` when the deposit has no rows.
unfoldable pub get_pub_nonces : OutPoint → Nonces → Option (List Bytes)
get_pub_nonces deposit_outpoint table =
    elim (map (λ row. row.pub_nonce) (sort_by_idx (of_deposit deposit_outpoint table))) [
      | [] ↦ none
      | nonce ∷ nonces ↦ some (nonce ∷ nonces)
    ]

abbrev pub contains_key : Nonces → OutPoint → ℕ → Bool
contains_key [] deposit_outpoint idx = false
contains_key (row ∷ rows) deposit_outpoint idx =
    has_key row deposit_outpoint idx || contains_key rows deposit_outpoint idx

-- The rows of a batch from the index on; a key that is there is an error.
abbrev pub insert_from : OutPoint → ℕ → List (Bytes × Bytes) → Nonces → Result Nonces
insert_from deposit_outpoint idx [] table = ok table
insert_from deposit_outpoint idx ((sec, pub_nonce) ∷ nonces) table =
    let rest = insert_from deposit_outpoint (suc idx) nonces (
      table
      ++ (record {
        deposit_outpoint = deposit_outpoint;
        internal_idx = idx;
        pub_nonce = pub_nonce;
        sec_nonce = sec;
        agg_nonce = none;
        sighash = none;
      }
          ∷ [])) in
    if contains_key table deposit_outpoint idx then err database_error else rest

unfoldable pub save_nonces : OutPoint → List (Bytes × Bytes) → Nonces → Result Nonces
save_nonces deposit_outpoint [] table = err database_error
save_nonces deposit_outpoint (nonce ∷ nonces) table =
    insert_from deposit_outpoint 0 (nonce ∷ nonces) table

-- The value of a batch that starts at `index`, for a row of the deposit.
abbrev pub in_batch : OutPoint → ℕ → List Bytes → NonceRow → Option Bytes
in_batch deposit_outpoint index batch row =
    if outpoint_eq row.deposit_outpoint deposit_outpoint && leb index row.internal_idx
    then get_elem? batch (row.internal_idx - index)
    else none

abbrev pub set_agg_nonce : Option Bytes → NonceRow → NonceRow
set_agg_nonce none row = row
set_agg_nonce (some agg_nonce) row = with_agg_nonce row agg_nonce

unfoldable pub save_agg_nonces : OutPoint → List Bytes → Nonces → Result Nonces
save_agg_nonces deposit_outpoint [] table = err database_error
save_agg_nonces deposit_outpoint (agg ∷ aggs) table =
    ok (map (λ row. set_agg_nonce (in_batch deposit_outpoint 0 (agg ∷ aggs) row) row) table)

-- `prevent_sighash_update`, before the update of a row that has the given sighash.
unfoldable pub prevent_sighash_update : Option Bytes → NonceRow → Bytes → Option NonceRow
prevent_sighash_update none row sighash = some (with_sighash row sighash)
prevent_sighash_update (some old) row sighash =
    if bytes_eq old sighash then some (with_sighash row sighash) else none

abbrev pub set_sighash : Option Bytes → NonceRow → Option NonceRow
set_sighash none row = some row
set_sighash (some sighash) row = prevent_sighash_update row.sighash row sighash

-- The table after the update, unless a trigger stopped it.
unfoldable pub update_sighashes : OutPoint → ℕ → List Bytes → Nonces → Option Nonces
update_sighashes deposit_outpoint index sighashes [] = some []
update_sighashes deposit_outpoint index sighashes (row ∷ rows) =
    elim (set_sighash (in_batch deposit_outpoint index sighashes row) row) [
      | none ↦ none
      | some row' ↦ elim (update_sighashes deposit_outpoint index sighashes rows) [
        | none ↦ none
        | some rows' ↦ some (row' ∷ rows')
      ]
    ]

-- The rows that the update touched.
abbrev pub touched : OutPoint → ℕ → List Bytes → Nonces → Nonces
touched deposit_outpoint index sighashes [] = []
touched deposit_outpoint index sighashes (row ∷ rows) =
    let rest = touched deposit_outpoint index sighashes rows in
    elim (in_batch deposit_outpoint index sighashes row) [ none ↦ rest | some _ ↦ row ∷ rest ]

-- The pairs of nonces that are returned; a missing aggregated nonce cannot be decoded. Outside a
-- transaction the update would stay in spite of that error.
abbrev pub nonce_pairs : Nonces → Option (List (Bytes × Bytes))
nonce_pairs [] = some []
nonce_pairs (row ∷ rows) = elim row.agg_nonce [
  | none ↦ none
  | some agg ↦ elim (nonce_pairs rows) [
    | none ↦ none
    | some pairs ↦ some ((row.sec_nonce, agg) ∷ pairs)
  ]
]

unfoldable pub save_sighashes_and_get_nonces :
    OutPoint → ℕ → List Bytes → Nonces → Result (List (Bytes × Bytes) × Nonces)
save_sighashes_and_get_nonces deposit_outpoint index [] table = err database_error
save_sighashes_and_get_nonces deposit_outpoint index (h ∷ hs) table =
    ok_or database_error (update_sighashes deposit_outpoint index (h ∷ hs) table) >>= (λ table'.
      ok_or database_error
        (nonce_pairs (sort_by_idx (touched deposit_outpoint index (h ∷ hs) table)))
      >>= (λ pairs. ok (pairs, table')))
