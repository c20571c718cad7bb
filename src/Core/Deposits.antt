-- ===== src/Core/Deposits.antt =====
-- The verifier's tables of deposits and of their kickoffs: the queries of core/src/database/common.rs
-- with the constraints of scripts/schema.sql. An empty batch is no query, and fails.
use clementine.Prelude.{
  ℕ, suc, List, [], ◌∷◌, ◌++◌, map, Option, none, some, Bool, false, ◌&&◌, ◌||◌, ◌==◌, leb,
  if◌then◌else◌, get_elem?,
}
use clementine.Prelude.Bytes.{Bytes, bytes_eq}
use clementine.Core.Types.{OutPoint, Utxo, outpoint_eq}
use clementine.Core.Result.{Result, ok, err, database_error}

-- A row of `deposit_infos`.
pub record DepositInfo : Type 0 where
  pub deposit_outpoint : OutPoint
  pub recovery_taproot_address : Bytes
  pub evm_address : Bytes

-- A row of `deposit_kickoff_utxos`.
pub record KickoffUtxo : Type 0 where
  pub deposit_outpoint : OutPoint
  pub operator_idx : ℕ
  pub kickoff_utxo : Utxo
  pub slash_or_take_sig : Option Bytes
  pub operator_take_sig : Option Bytes

abbrev pub DepositInfos : Type 0
DepositInfos = List DepositInfo

abbrev pub KickoffUtxos : Type 0
KickoffUtxos = List KickoffUtxo

-- A missing row is an error of `fetch_one`, and never a `None`.
unfoldable pub get_deposit_info : OutPoint → DepositInfos → Result (Option (Bytes × Bytes))
get_deposit_info deposit_outpoint [] = err database_error
get_deposit_info deposit_outpoint (row ∷ rows) =
    let rest = get_deposit_info deposit_outpoint rows in
    if outpoint_eq row.deposit_outpoint deposit_outpoint
    then ok (some (row.recovery_taproot_address, row.evm_address))
    else rest

abbrev pub has_info : DepositInfos → OutPoint → Bool
has_info [] deposit_outpoint = false
has_info (row ∷ rows) deposit_outpoint =
    outpoint_eq row.deposit_outpoint deposit_outpoint || has_info rows deposit_outpoint

-- `deposit_outpoint` is the primary key.
unfoldable pub save_deposit_info : OutPoint → Bytes → Bytes → DepositInfos → Result DepositInfos
save_deposit_info deposit_outpoint recovery_taproot_address evm_address table =
    if has_info table deposit_outpoint
    then err database_error
    else ok (
        table
        ++ (record {
          deposit_outpoint = deposit_outpoint;
          recovery_taproot_address = recovery_taproot_address;
          evm_address = evm_address;
        }
            ∷ []))

abbrev pub utxo_eq : Utxo → Utxo → Bool
utxo_eq a b =
    outpoint_eq a.outpoint b.outpoint
    && (a.txout.value == b.txout.value)
    && bytes_eq a.txout.script_pubkey b.txout.script_pubkey

-- `ORDER BY operator_idx ASC`
abbrev pub insert_by_idx : KickoffUtxo → KickoffUtxos → KickoffUtxos
insert_by_idx row [] = row ∷ []
insert_by_idx row (r ∷ rows) =
    let later = r ∷ insert_by_idx row rows in
    if leb row.operator_idx r.operator_idx then row ∷ r ∷ rows else later

abbrev pub sort_by_idx : KickoffUtxos → KickoffUtxos
sort_by_idx [] = []
sort_by_idx (row ∷ rows) = insert_by_idx row (sort_by_idx rows)

abbrev pub of_deposit : OutPoint → KickoffUtxos → KickoffUtxos
of_deposit deposit_outpoint [] = []
of_deposit deposit_outpoint (row ∷ rows) =
    let rest = of_deposit deposit_outpoint rows in
    if outpoint_eq row.deposit_outpoint deposit_outpoint then row ∷ rest else rest

-- `none` when the deposit has no rows.
unfoldable pub get_kickoff_utxos : OutPoint → KickoffUtxos → Option (List Utxo)
get_kickoff_utxos deposit_outpoint table =
    elim (map (λ row. row.kickoff_utxo) (sort_by_idx (of_deposit deposit_outpoint table))) [
      | [] ↦ none
      | utxo ∷ utxos ↦ some (utxo ∷ utxos)
    ]

abbrev pub has_key : KickoffUtxos → OutPoint → ℕ → Bool
has_key [] deposit_outpoint idx = false
has_key (row ∷ rows) deposit_outpoint idx =
    (outpoint_eq row.deposit_outpoint deposit_outpoint && row.operator_idx == idx)
    || has_key rows deposit_outpoint idx

-- `ON CONFLICT DO NOTHING`: a key that is there keeps its row.
abbrev pub insert_from : OutPoint → ℕ → List Utxo → KickoffUtxos → KickoffUtxos
insert_from deposit_outpoint idx [] table = table
insert_from deposit_outpoint idx (utxo ∷ utxos) table =
    let kept = insert_from deposit_outpoint (suc idx) utxos table in
    let inserted = insert_from deposit_outpoint (suc idx) utxos (
      table
      ++ (record {
        deposit_outpoint = deposit_outpoint;
        operator_idx = idx;
        kickoff_utxo = utxo;
        slash_or_take_sig = none;
        operator_take_sig = none;
      }
          ∷ [])) in
    if has_key table deposit_outpoint idx then kept else inserted

unfoldable pub save_kickoff_utxos : OutPoint → List Utxo → KickoffUtxos → Result KickoffUtxos
save_kickoff_utxos deposit_outpoint [] table = err database_error
save_kickoff_utxos deposit_outpoint (utxo ∷ utxos) table =
    ok (insert_from deposit_outpoint 0 (utxo ∷ utxos) table)

abbrev pub set_slash_or_take_sig : Option Bytes → KickoffUtxo → KickoffUtxo
set_slash_or_take_sig none row = row
set_slash_or_take_sig (some sig) row = record {
  deposit_outpoint = row.deposit_outpoint;
  operator_idx = row.operator_idx;
  kickoff_utxo = row.kickoff_utxo;
  slash_or_take_sig = some sig;
  operator_take_sig = row.operator_take_sig;
}

abbrev pub set_operator_take_sig : Option Bytes → KickoffUtxo → KickoffUtxo
set_operator_take_sig none row = row
set_operator_take_sig (some sig) row = record {
  deposit_outpoint = row.deposit_outpoint;
  operator_idx = row.operator_idx;
  kickoff_utxo = row.kickoff_utxo;
  slash_or_take_sig = row.slash_or_take_sig;
  operator_take_sig = some sig;
}

-- The signature of a batch for a row of the deposit, by the row's index.
abbrev pub sig_at : OutPoint → List Bytes → KickoffUtxo → Option Bytes
sig_at deposit_outpoint sigs row =
    if outpoint_eq row.deposit_outpoint deposit_outpoint
    then get_elem? sigs row.operator_idx
    else none

unfoldable pub save_slash_or_take_sigs : OutPoint → List Bytes → KickoffUtxos → Result KickoffUtxos
save_slash_or_take_sigs deposit_outpoint [] table = err database_error
save_slash_or_take_sigs deposit_outpoint (sig ∷ sigs) table =
    ok (map (λ row. set_slash_or_take_sig (sig_at deposit_outpoint (sig ∷ sigs) row) row) table)

abbrev pub find_sig : List (Utxo × Bytes) → Utxo → Option Bytes
find_sig [] utxo = none
find_sig ((kickoff_utxo, sig) ∷ pairs) utxo =
    let rest = find_sig pairs utxo in if utxo_eq utxo kickoff_utxo then some sig else rest

-- The signature of a batch for a row of the deposit, by the row's kickoff. Which one is taken where
-- the batch has a kickoff twice is up to the database; here it is the first.
abbrev pub sig_for : OutPoint → List (Utxo × Bytes) → KickoffUtxo → Option Bytes
sig_for deposit_outpoint pairs row =
    if outpoint_eq row.deposit_outpoint deposit_outpoint
    then find_sig pairs row.kickoff_utxo
    else none

unfoldable pub save_operator_take_sigs :
    OutPoint → List (Utxo × Bytes) → KickoffUtxos → Result KickoffUtxos
save_operator_take_sigs deposit_outpoint [] table = err database_error
save_operator_take_sigs deposit_outpoint (pair ∷ pairs) table =
    ok (map (λ row. set_operator_take_sig (sig_for deposit_outpoint (pair ∷ pairs) row) row) table)

-- The first row of a deposit with a kickoff.
abbrev pub find_row : OutPoint → Utxo → KickoffUtxos → Option KickoffUtxo
find_row deposit_outpoint kickoff_utxo [] = none
find_row deposit_outpoint kickoff_utxo (row ∷ rows) =
    let rest = find_row deposit_outpoint kickoff_utxo rows in
    if outpoint_eq row.deposit_outpoint deposit_outpoint && utxo_eq row.kickoff_utxo kickoff_utxo
    then some row
    else rest

-- A column that is NULL cannot be decoded.
abbrev pub decoded : Option (Option Bytes) → Result (Option Bytes)
decoded none = ok none
decoded (some none) = err database_error
decoded (some (some sig)) = ok (some sig)

unfoldable pub get_slash_or_take_sig : OutPoint → Utxo → KickoffUtxos → Result (Option Bytes)
get_slash_or_take_sig deposit_outpoint kickoff_utxo table =
    decoded (elim (find_row deposit_outpoint kickoff_utxo table) [
      | none ↦ none
      | some row ↦ some row.slash_or_take_sig
    ])

unfoldable pub get_operator_take_sig : OutPoint → Utxo → KickoffUtxos → Result (Option Bytes)
get_operator_take_sig deposit_outpoint kickoff_utxo table =
    decoded (elim (find_row deposit_outpoint kickoff_utxo table) [
      | none ↦ none
      | some row ↦ some row.operator_take_sig
    ])
