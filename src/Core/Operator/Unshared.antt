-- ===== src/Core/Operator/Unshared.antt =====
-- No two deposits share a kickoff, in every state that the operator's interface reaches.
use clementine.Prelude.{
  ◌≡◌, ◌≢◌, refl, sym, ap, ap₂, subst, ◌∙◌, List, [], ◌∷◌, some, Bool, true, false, ◌&&◌, ◌==◌,
  ==_iff, if◌then◌else◌, All,
}
use clementine.Prelude.Bytes.{bytes_eq, bytes_eq→eq}
use clementine.Core.Types.{OutPoint, Utxo, outpoint_eq}
use clementine.Core.Database.{KickoffRow, Database, find_kickoff, get_kickoff_utxo}
use clementine.Core.Operator.{Operator, Step}
use clementine.Core.Database.Inserts.{some_injective}
use clementine.Core.Operator.Kickoffs.{WellFormed, Unique}
use clementine.Core.Operator.Deposit.{Step-WellFormed}

-- The tables before the first call.
abbrev pub no_rows : Database
no_rows = record {
  operators_kickoff_utxo = [];
  deposit_kickoff_generator_txs = [];
  funding_utxos = [];
}

pub data Reachable {Network : Type 0} (op : Operator Network) : Database → Type 0 where
  start : Reachable op no_rows
  step : (db db' : Database) → Reachable op db → Step op db db' → Reachable op db'

outpoint_eq→eq : (a b : OutPoint) → outpoint_eq a b ≡ true → a ≡ b
outpoint_eq→eq a b h =
    let (txid, vout) = both (bytes_eq a.txid b.txid) (a.vout == b.vout) h in
    ap₂ (λ x y. record { txid = x; vout = y }) (bytes_eq→eq a.txid b.txid txid)
      ((==_iff a.vout b.vout).0 vout)
  where
    both : (x y : Bool) → (x && y) ≡ true → (x ≡ true) × (y ≡ true)
    both true true k = (refl, refl)
    both true false k = cc
    both false y k = cc

-- What holds of every row holds of the kickoff that is found.
find-All :
    (P : OutPoint → Type 0) (rows : List KickoffRow) (d : OutPoint) (u : Utxo)
    → All (λ r. P r.kickoff_utxo.outpoint) rows
    → find_kickoff rows d ≡ some u
    → P u.outpoint
find-All P [] d u h e = cc
find-All P (r ∷ rows) d u h e =
    by_test (outpoint_eq r.deposit_outpoint d) (find-All P rows d u h.1) e
  where
    by_test :
        (t : Bool)
        → (find_kickoff rows d ≡ some u → P u.outpoint)
        → (if t then some r.kickoff_utxo else find_kickoff rows d) ≡ some u
        → P u.outpoint
    by_test true later k = subst P (ap (λ x. x.outpoint) (some_injective k)) h.0
    by_test false later k = later k

Unique-unshared :
    (rows : List KickoffRow) (d₁ d₂ : OutPoint) (u₁ u₂ : Utxo)
    → Unique rows
    → find_kickoff rows d₁ ≡ some u₁
    → find_kickoff rows d₂ ≡ some u₂
    → u₁.outpoint ≡ u₂.outpoint
    → d₁ ≡ d₂
Unique-unshared [] d₁ d₂ u₁ u₂ h e₁ e₂ same = cc
Unique-unshared (r ∷ rows) d₁ d₂ u₁ u₂ h e₁ e₂ same =
    by_test (outpoint_eq r.deposit_outpoint d₁) (outpoint_eq r.deposit_outpoint d₂)
      (outpoint_eq→eq r.deposit_outpoint d₁) (outpoint_eq→eq r.deposit_outpoint d₂)
      (Unique-unshared rows d₁ d₂ u₁ u₂ h.1) e₁ e₂
  where
    by_test :
        (t₁ t₂ : Bool)
        → (t₁ ≡ true → r.deposit_outpoint ≡ d₁)
        → (t₂ ≡ true → r.deposit_outpoint ≡ d₂)
        → (find_kickoff rows d₁ ≡ some u₁
            → find_kickoff rows d₂ ≡ some u₂
            → u₁.outpoint ≡ u₂.outpoint
            → d₁ ≡ d₂)
        → (if t₁ then some r.kickoff_utxo else find_kickoff rows d₁) ≡ some u₁
        → (if t₂ then some r.kickoff_utxo else find_kickoff rows d₂) ≡ some u₂
        → d₁ ≡ d₂
    by_test true true at₁ at₂ later k₁ k₂ = sym (at₁ refl) ∙ at₂ refl
    by_test true false at₁ at₂ later k₁ k₂ = absurd (
        find-All (λ o. o ≢ r.kickoff_utxo.outpoint) rows d₂ u₂ h.0 k₂
          (sym same ∙ sym (ap (λ x. x.outpoint) (some_injective k₁))))
    by_test false true at₁ at₂ later k₁ k₂ = absurd (
        find-All (λ o. o ≢ r.kickoff_utxo.outpoint) rows d₁ u₁ h.0 k₁
          (same ∙ sym (ap (λ x. x.outpoint) (some_injective k₂))))
    by_test false false at₁ at₂ later k₁ k₂ = later k₁ k₂ same

module _ {Network : Type 0} (op : Operator Network) where
  Reachable-WellFormed : (db : Database) → Reachable op db → WellFormed db
  Reachable-WellFormed _ start = record { distinct = tt; issued = tt; unique = tt }
  Reachable-WellFormed _ (step db db' r s) = Step-WellFormed op db db' (Reachable-WellFormed db r) s

  -- In every state that calls of the operator's interface lead to, two deposits whose kickoffs are the
  -- same output are the same deposit.
  pub Reachable-unshared :
      (db : Database) (d₁ d₂ : OutPoint) (u₁ u₂ : Utxo)
      → Reachable op db
      → get_kickoff_utxo d₁ db ≡ some u₁
      → get_kickoff_utxo d₂ db ≡ some u₂
      → u₁.outpoint ≡ u₂.outpoint
      → d₁ ≡ d₂
  unfolding get_kickoff_utxo
  Reachable-unshared db d₁ d₂ u₁ u₂ r e₁ e₂ same =
      Unique-unshared db.operators_kickoff_utxo d₁ d₂ u₁ u₂ (Reachable-WellFormed db r).unique e₁ e₂
        same
