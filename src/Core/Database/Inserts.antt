-- ===== src/Core/Database/Inserts.antt =====
-- What the queries that change the operator's tables have done when they succeed.
use clementine.Prelude.{
  ℕ, ◌-◌, ◌%◌, ◌^◌, ◌≡◌, refl, sym, ap, ◌∙◌, List, ◌∷◌, Option, none, some, Bool, true, false, ltb,
  leb, ◌&&◌, not, if◌then◌else◌, get_elem?,
}
use clementine.Prelude.Bytes.{Bytes}
use clementine.Core.Types.{OutPoint, Utxo}
use clementine.Core.Result.{
  Result, ok, err, >>=-eq_ok, ok_injective, or_panicked, ok_or, database_error,
  bitcoin_consensus_encode_error,
}
use clementine.Core.Database.{
  GeneratorTx, Database, Codec, find_kickoff, with_generators, has_txid, increase_idx,
  unused_kickoff_utxo, unused_of, get_unused_kickoff_utxo_and_increase_idx, save_kickoff_utxo,
  add_deposit_kickoff_generator_tx,
}
use clementine.Core.Database.Unused.{Taken, increase_idx-Taken}

-- What a successful insert has done.
pub save_kickoff_utxo-inserts :
    (d : OutPoint) (u : Utxo) (db db' : Database)
    → save_kickoff_utxo d u db ≡ ok db'
    → (db'.operators_kickoff_utxo
        ≡ record { deposit_outpoint = d; kickoff_utxo = u } ∷ db.operators_kickoff_utxo)
      × (db'.deposit_kickoff_generator_txs ≡ db.deposit_kickoff_generator_txs)
      × (db'.funding_utxos ≡ db.funding_utxos)
unfolding save_kickoff_utxo
save_kickoff_utxo-inserts d u db db' e = by_row (find_kickoff db.operators_kickoff_utxo d) e
  where
    by_row :
        (o : Option Utxo)
        → elim o as (λ _. Result Database) [
          | some row ↦ err database_error
          | none ↦ ok (record {
            operators_kickoff_utxo =
                record { deposit_outpoint = d; kickoff_utxo = u } ∷ db.operators_kickoff_utxo;
            deposit_kickoff_generator_txs = db.deposit_kickoff_generator_txs;
            funding_utxos = db.funding_utxos;
          })
        ]
          ≡ ok db'
        → (db'.operators_kickoff_utxo
            ≡ record { deposit_outpoint = d; kickoff_utxo = u } ∷ db.operators_kickoff_utxo)
          × (db'.deposit_kickoff_generator_txs ≡ db.deposit_kickoff_generator_txs)
          × (db'.funding_utxos ≡ db.funding_utxos)
    by_row (some row) k = cc
    by_row none k =
        let same = sym (ok_injective k) in
        (
          ap (λ x. x.operators_kickoff_utxo) same,
          ap (λ x. x.deposit_kickoff_generator_txs) same,
          ap (λ x. x.funding_utxos) same,
        )

pub ok_pair-injective :
    {A B : Type 0} {a a' : A} {b b' : B}
    → ◌≡◌ {A = Result (A × B)} (ok (a, b)) (ok (a', b'))
    → (a ≡ a') × (b ≡ b')
ok_pair-injective e = let same = ok_injective e in (ap (λ x. x.0) same, ap (λ x. x.1) same)

pub some_injective : {A : Type 0} {a b : A} → some a ≡ some b → a ≡ b
some_injective e = cc e

none_is_some : {A : Type 0} {a : A} → none ≡ some a → ⊥
none_is_some e = cc

unused_kickoff_utxo-names :
    (C : Codec) (g : GeneratorTx) (u : Utxo)
    → unused_kickoff_utxo C g ≡ ok u
    → (u.outpoint.txid ≡ g.txid) × (u.outpoint.vout ≡ g.cur_unused_kickoff_index - 1)
unfolding unused_kickoff_utxo
unused_kickoff_utxo-names C g u e =
    let (raw, _, e₁) = >>=-eq_ok (or_panicked (C.hex_decode g.raw_signed_tx)) _ e in
    let (tx, _, e₂) = >>=-eq_ok (ok_or bitcoin_consensus_encode_error (C.deserialize raw)) _ e₁ in
    let (txout, _, e₃) =
      >>=-eq_ok (or_panicked (get_elem? tx.output (g.cur_unused_kickoff_index - 1))) _ e₂ in
    let same = sym (ok_injective e₃) in
    (ap (λ x. x.outpoint.txid) same, ap (λ x. x.outpoint.vout) same)

-- What a successful `UPDATE` has done.
pub get_unused-takes :
    (C : Codec) (db db' : Database) (u : Utxo)
    → get_unused_kickoff_utxo_and_increase_idx C db ≡ ok (some u, db')
    → (h : GeneratorTx) × (hs : List GeneratorTx) × Taken db.deposit_kickoff_generator_txs h hs
      × (u.outpoint.txid ≡ h.txid)
      × (u.outpoint.vout ≡ h.cur_unused_kickoff_index - 1)
      × (with_generators db hs ≡ db')
unfolding get_unused_kickoff_utxo_and_increase_idx
get_unused-takes C db db' u e =
    by_row (increase_idx db.deposit_kickoff_generator_txs) (increase_idx-Taken _) e
  where
    by_row :
        (o : Option (GeneratorTx × List GeneratorTx))
        → ((h : GeneratorTx) (hs : List GeneratorTx)
            → o ≡ some (h, hs)
            → Taken db.deposit_kickoff_generator_txs h hs)
        → unused_of C db o ≡ ok (some u, db')
        → (h : GeneratorTx) × (hs : List GeneratorTx) × Taken db.deposit_kickoff_generator_txs h hs
          × (u.outpoint.txid ≡ h.txid)
          × (u.outpoint.vout ≡ h.cur_unused_kickoff_index - 1)
          × (with_generators db hs ≡ db')
    by_row none taken k = absurd (none_is_some (ok_pair-injective k).0)
    by_row (some (h, hs)) taken k =
        let (utxo, named, k₁) = >>=-eq_ok (unused_kickoff_utxo C h) _ k in
        let (answer, tables) = ok_pair-injective k₁ in
        let (txid, vout) =
          unused_kickoff_utxo-names C h u (named ∙ ap ok (some_injective answer)) in
        (h, hs, taken h hs refl, txid, vout, tables)

pub get_unused-none :
    (C : Codec) (db db' : Database)
    → get_unused_kickoff_utxo_and_increase_idx C db ≡ ok (none, db')
    → db ≡ db'
unfolding get_unused_kickoff_utxo_and_increase_idx
get_unused-none C db db' e = by_row (increase_idx db.deposit_kickoff_generator_txs) e
  where
    by_row :
        (o : Option (GeneratorTx × List GeneratorTx)) → unused_of C db o ≡ ok (none, db') → db ≡ db'
    by_row none k = (ok_pair-injective k).1
    by_row (some (h, hs)) k =
        let (utxo, _, k₁) = >>=-eq_ok (unused_kickoff_utxo C h) _ k in
        absurd (none_is_some (sym (ok_pair-injective k₁).0))

and_true : (a b c : Bool) → (a && b && not c) ≡ true → c ≡ false
and_true true true false e = refl
and_true true true true e = cc
and_true true false c e = cc
and_true false b c e = cc

-- What a successful insert of a generator transaction has done.
pub add_generator-inserts :
    (txid raw : Bytes) (n : ℕ) (funding : Bytes) (db db' : Database)
    → add_deposit_kickoff_generator_tx txid raw n funding db ≡ ok db'
    → (has_txid db.deposit_kickoff_generator_txs txid ≡ false)
      × (with_generators db (
            record {
              txid = txid;
              raw_signed_tx = raw;
              num_kickoffs = n % 2 ^ 32;
              cur_unused_kickoff_index = 1;
              funding_txid = funding;
            }
            ∷ db.deposit_kickoff_generator_txs)
          ≡ db')
unfolding add_deposit_kickoff_generator_tx
add_generator-inserts txid raw n funding db db' e =
    by_test
      (leb 1 (n % 2 ^ 32)
        && ltb (n % 2 ^ 32) (2 ^ 31)
        && not (has_txid db.deposit_kickoff_generator_txs txid))
      (and_true (leb 1 (n % 2 ^ 32)) (ltb (n % 2 ^ 32) (2 ^ 31))
        (has_txid db.deposit_kickoff_generator_txs txid))
      e
  where
    by_test :
        (t : Bool)
        → (t ≡ true → has_txid db.deposit_kickoff_generator_txs txid ≡ false)
        → (if t
            then ok (
                with_generators db (
                  record {
                    txid = txid;
                    raw_signed_tx = raw;
                    num_kickoffs = n % 2 ^ 32;
                    cur_unused_kickoff_index = 1;
                    funding_txid = funding;
                  }
                  ∷ db.deposit_kickoff_generator_txs))
            else err database_error)
          ≡ ok db'
        → (has_txid db.deposit_kickoff_generator_txs txid ≡ false)
          × (with_generators db (
                record {
                  txid = txid;
                  raw_signed_tx = raw;
                  num_kickoffs = n % 2 ^ 32;
                  cur_unused_kickoff_index = 1;
                  funding_txid = funding;
                }
                ∷ db.deposit_kickoff_generator_txs)
              ≡ db')
    by_test true unique k = (unique refl, ok_injective k)
    by_test false unique k = cc
