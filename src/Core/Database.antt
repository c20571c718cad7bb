-- ===== src/Core/Database.antt =====
-- The operator's tables of core/src/database/common.rs, with the constraints of scripts/schema.sql.
-- A query inside a transaction hands on the tables; an error leaves them to the caller.
pub mod Unused
pub mod Inserts
use clementine.Prelude.{
  ℕ, zero, suc, ◌+◌, ◌-◌, ◌%◌, ◌^◌, List, [], ◌∷◌, Option, none, some, Bool, true, false, ltb, leb,
  ◌&&◌, ◌||◌, not, if◌then◌else◌, get_elem?,
}
use clementine.Prelude.Bytes.{Bytes, bytes_eq}
use clementine.Core.Types.{OutPoint, TxOut, Transaction, Utxo, outpoint_eq}
use clementine.Core.Result.{
  Result, ok, err, ◌>>=◌, or_panicked, ok_or, database_error, bitcoin_consensus_encode_error,
}

-- A row of `operators_kickoff_utxo`.
pub record KickoffRow : Type 0 where
  pub deposit_outpoint : OutPoint
  pub kickoff_utxo : Utxo

-- A row of `deposit_kickoff_generator_txs`.
pub record GeneratorTx : Type 0 where
  pub txid : Bytes
  pub raw_signed_tx : Bytes
  pub num_kickoffs : ℕ
  pub cur_unused_kickoff_index : ℕ
  pub funding_txid : Bytes

-- The tables, with the newest row first.
pub record Database : Type 0 where
  pub operators_kickoff_utxo : List KickoffRow
  pub deposit_kickoff_generator_txs : List GeneratorTx
  pub funding_utxos : List Utxo

-- Hexadecimal strings, and `deserialize` of the crate `bitcoin`.
pub record Codec : Type 0 where
  pub raw_hex : Transaction → Bytes
  pub hex_decode : Bytes → Option Bytes
  pub deserialize : Bytes → Option Transaction

abbrev pub find_kickoff : List KickoffRow → OutPoint → Option Utxo
find_kickoff [] deposit_outpoint = none
find_kickoff (row ∷ rows) deposit_outpoint =
    let rest = find_kickoff rows deposit_outpoint in
    if outpoint_eq row.deposit_outpoint deposit_outpoint then some row.kickoff_utxo else rest

unfoldable pub get_kickoff_utxo : OutPoint → Database → Option Utxo
get_kickoff_utxo deposit_outpoint db = find_kickoff db.operators_kickoff_utxo deposit_outpoint

abbrev pub increased : GeneratorTx → GeneratorTx
increased g = record {
  txid = g.txid;
  raw_signed_tx = g.raw_signed_tx;
  num_kickoffs = g.num_kickoffs;
  cur_unused_kickoff_index = g.cur_unused_kickoff_index + 1;
  funding_txid = g.funding_txid;
}

-- The `UPDATE`: the newest row with an unused kickoff, after the update, and the table.
unfoldable pub increase_idx : List GeneratorTx → Option (GeneratorTx × List GeneratorTx)
increase_idx [] = none
increase_idx (g ∷ gs) =
    let rest : Option (GeneratorTx × List GeneratorTx) = elim (increase_idx gs) [
      | none ↦ none
      | some (h, hs) ↦ some (h, g ∷ hs)
    ] in
    if ltb g.cur_unused_kickoff_index g.num_kickoffs
    then some (increased g, increased g ∷ gs)
    else rest

abbrev pub with_generators : Database → List GeneratorTx → Database
with_generators db gs = record {
  operators_kickoff_utxo = db.operators_kickoff_utxo;
  deposit_kickoff_generator_txs = gs;
  funding_utxos = db.funding_utxos;
}

-- The UTXO of the row that the `UPDATE` returned.
unfoldable pub unused_kickoff_utxo : Codec → GeneratorTx → Result Utxo
unused_kickoff_utxo C g = or_panicked (C.hex_decode g.raw_signed_tx) >>= (λ raw.
    ok_or bitcoin_consensus_encode_error (C.deserialize raw) >>= (λ tx.
      or_panicked (get_elem? tx.output (g.cur_unused_kickoff_index - 1)) >>= (λ txout. ok (record {
        outpoint = record { txid = g.txid; vout = g.cur_unused_kickoff_index - 1 };
        txout = txout;
      }))))

-- The answer for what the `UPDATE` returned.
abbrev pub unused_of :
    Codec → Database → Option (GeneratorTx × List GeneratorTx) → Result (Option Utxo × Database)
unused_of C db none = ok (none, db)
unused_of C db (some (g, gs)) =
    unused_kickoff_utxo C g >>= (λ utxo. ok (some utxo, with_generators db gs))

unfoldable pub get_unused_kickoff_utxo_and_increase_idx :
    Codec → Database → Result (Option Utxo × Database)
get_unused_kickoff_utxo_and_increase_idx C db =
    unused_of C db (increase_idx db.deposit_kickoff_generator_txs)

unfoldable pub get_funding_utxo : Database → Option Utxo
get_funding_utxo db = elim db.funding_utxos [ [] ↦ none | utxo ∷ _ ↦ some utxo ]

unfoldable pub set_funding_utxo : Utxo → Database → Database
set_funding_utxo funding_utxo db = record {
  operators_kickoff_utxo = db.operators_kickoff_utxo;
  deposit_kickoff_generator_txs = db.deposit_kickoff_generator_txs;
  funding_utxos = funding_utxo ∷ db.funding_utxos;
}

-- `deposit_outpoint` is the primary key.
unfoldable pub save_kickoff_utxo : OutPoint → Utxo → Database → Result Database
save_kickoff_utxo deposit_outpoint kickoff_utxo db =
    elim (find_kickoff db.operators_kickoff_utxo deposit_outpoint) [
      | some row ↦ err database_error
      | none ↦ ok (record {
        operators_kickoff_utxo =
            record { deposit_outpoint = deposit_outpoint; kickoff_utxo = kickoff_utxo }
            ∷ db.operators_kickoff_utxo;
        deposit_kickoff_generator_txs = db.deposit_kickoff_generator_txs;
        funding_utxos = db.funding_utxos;
      })
    ]

abbrev pub has_txid : List GeneratorTx → Bytes → Bool
has_txid [] txid = false
has_txid (g ∷ gs) txid = bytes_eq g.txid txid || has_txid gs txid

-- `txid` is unique, and the row begins with index 1, which must not exceed the number of kickoffs as
-- an `i32`.
unfoldable pub add_deposit_kickoff_generator_tx :
    Bytes → Bytes → ℕ → Bytes → Database → Result Database
add_deposit_kickoff_generator_tx txid raw_hex num_kickoffs funding_txid db =
    let n = num_kickoffs % 2 ^ 32 in
    if leb 1 n && ltb n (2 ^ 31) && not (has_txid db.deposit_kickoff_generator_txs txid)
    then ok (
        with_generators db (
          record {
            txid = txid;
            raw_signed_tx = raw_hex;
            num_kickoffs = n;
            cur_unused_kickoff_index = 1;
            funding_txid = funding_txid;
          }
          ∷ db.deposit_kickoff_generator_txs))
    else err database_error

unfoldable pub get_deposit_kickoff_generator_tx : Bytes → List GeneratorTx → Option GeneratorTx
get_deposit_kickoff_generator_tx txid [] = none
get_deposit_kickoff_generator_tx txid (g ∷ gs) =
    let rest = get_deposit_kickoff_generator_tx txid gs in
    if bytes_eq g.txid txid then some g else rest
