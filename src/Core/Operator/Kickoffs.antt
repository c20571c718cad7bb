-- ===== src/Core/Operator/Kickoffs.antt =====
-- The operator's tables never give one kickoff to two deposits.
use clementine.Prelude.{◌≡◌, ◌≢◌, sym, subst, List, [], ◌∷◌, All}
use clementine.Core.Types.{OutPoint}
use clementine.Core.Database.{KickoffRow, GeneratorTx, Database}
use clementine.Core.Database.Unused.{Issued, DistinctTxids}

abbrev pub Unique : List KickoffRow → Type 0
Unique [] = Unit
Unique (r ∷ rs) = All (λ s. s.kickoff_utxo.outpoint ≢ r.kickoff_utxo.outpoint) rs × Unique rs

-- Every kickoff of a deposit has been handed out by its generator transaction, and to it alone.
pub record WellFormed (db : Database) : Type 0 where
  pub distinct : DistinctTxids db.deposit_kickoff_generator_txs
  pub issued :
      All
        (λ row. Issued db.deposit_kickoff_generator_txs row.kickoff_utxo.outpoint)
        db.operators_kickoff_utxo
  pub unique : Unique db.operators_kickoff_utxo

All-imp :
    {A : Type 0} (P Q : A → Type 0) (xs : List A) → ((x : A) → P x → Q x) → All P xs → All Q xs
All-imp P Q [] f h = tt
All-imp P Q (x ∷ xs) f h = (f x h.0, All-imp P Q xs f h.1)

-- A deposit takes a kickoff that was not handed out before.
pub extend :
    (rows : List KickoffRow) (gs hs : List GeneratorTx) (row : KickoffRow)
    → (Issued gs row.kickoff_utxo.outpoint → ⊥)
    → Issued hs row.kickoff_utxo.outpoint
    → ((o : OutPoint) → Issued gs o → Issued hs o)
    → All (λ r. Issued gs r.kickoff_utxo.outpoint) rows
    → Unique rows
    → All (λ r. Issued hs r.kickoff_utxo.outpoint) (row ∷ rows) × Unique (row ∷ rows)
extend rows gs hs row fresh now stays issued unique = (
  (now, All-imp _ _ rows (λ r i. stays r.kickoff_utxo.outpoint i) issued),
  (All-imp _ _ rows (λ r i same. fresh (subst (Issued gs) same i)) issued, unique),
)

pub WellFormed-of_tables :
    (db : Database) (rows : List KickoffRow) (gs : List GeneratorTx)
    → db.operators_kickoff_utxo ≡ rows
    → db.deposit_kickoff_generator_txs ≡ gs
    → DistinctTxids gs
    → All (λ r. Issued gs r.kickoff_utxo.outpoint) rows
    → Unique rows
    → WellFormed db
WellFormed-of_tables db rows gs at_rows at_gs distinct issued unique = record {
  distinct = subst DistinctTxids (sym at_gs) distinct;
  issued =
      subst (All (λ r. Issued db.deposit_kickoff_generator_txs r.kickoff_utxo.outpoint))
        (sym at_rows)
        (subst (λ g. All (λ r. Issued g r.kickoff_utxo.outpoint) rows) (sym at_gs) issued);
  unique = subst Unique (sym at_rows) unique;
}
