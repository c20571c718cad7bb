-- ===== src/Core/Operator/Deposit.antt =====
-- `new_deposit` keeps the operator's tables well-formed.
use clementine.Prelude.{
  ℕ, ◌<◌, ◌%◌, ◌^◌, ◌≡◌, refl, sym, ap, subst, ◌∙◌, inl, inr, List, ◌∷◌, Option, none, some, true,
  false, ltb, if◌then◌else◌, get_elem?, ==_iff, arith,
}
use clementine.Prelude.Bytes.{Bytes, bytes_eq_refl}
use clementine.Core.Types.{OutPoint, Utxo, outpoint_eq}
use clementine.Core.Result.{
  Result, ok, err, ◌>>=◌, >>=-eq_ok, or_panicked, ok_or, operator_funding_utxo_not_found,
  operator_funding_utxo_amount_not_enough,
}
use clementine.Core.ExtendedRpc.{check_deposit_utxo}
use clementine.Core.Database.{
  KickoffRow, GeneratorTx, Database, find_kickoff, get_kickoff_utxo, has_txid,
  get_unused_kickoff_utxo_and_increase_idx, get_funding_utxo, save_kickoff_utxo,
  add_deposit_kickoff_generator_tx, set_funding_utxo,
}
use clementine.Core.Database.Unused.{not-Issued}
use clementine.Core.Operator.{
  Operator, signed, funding_needed, sign_kickoff_tx, create_kickoffs, use_unused,
  use_or_create_kickoff, answer_with, new_deposit, Step, deposited, funded,
}
use clementine.Core.Database.Inserts.{
  save_kickoff_utxo-inserts, get_unused-takes, get_unused-none, add_generator-inserts,
  ok_pair-injective,
}
use clementine.Core.Operator.Kickoffs.{WellFormed, extend, WellFormed-of_tables}

below_one : (n : ℕ) → n ≡ 0 → n < 1
below_one n h = omega (arith, h)

outpoint_eq_refl : (o : OutPoint) → outpoint_eq o o ≡ true
outpoint_eq_refl o = rw bytes_eq_refl ((==_iff o.vout o.vout).1 refl)

find-first :
    (d : OutPoint) (u : Utxo) (rows : List KickoffRow)
    → find_kickoff (record { deposit_outpoint = d; kickoff_utxo = u } ∷ rows) d ≡ some u
find-first d u rows = rw outpoint_eq_refl refl

module _ {Network : Type 0} (op : Operator Network) where
  -- The kickoff of an answer is the deposit's row on top of the former rows.
  abbrev Recorded : OutPoint → Utxo × Bytes → Database → Database → Type 0
  Recorded d answer db db' =
      (answer ≡ signed op d answer.0)
      × (db'.operators_kickoff_utxo
          ≡ record { deposit_outpoint = d; kickoff_utxo = answer.0 } ∷ db.operators_kickoff_utxo)

  recorded :
      (d : OutPoint) (u : Utxo) (answer : Utxo × Bytes) (db db' : Database)
      → signed op d u ≡ answer
      → db'.operators_kickoff_utxo
        ≡ record { deposit_outpoint = d; kickoff_utxo = u } ∷ db.operators_kickoff_utxo
      → Recorded d answer db db'
  recorded d u answer db db' same rows = (
    sym same ∙ ap (λ a. signed op d a.0) same,
    rows
        ∙ ap (λ a. record { deposit_outpoint = d; kickoff_utxo = a.0 } ∷ db.operators_kickoff_utxo)
            same,
  )

  abbrev save_rows :
      OutPoint → Utxo → Bytes → ℕ → Bytes → Utxo → Database → Result ((Utxo × Bytes) × Database)
  save_rows d u raw n funding change db = save_kickoff_utxo d u db >>= (λ db₁.
      add_deposit_kickoff_generator_tx u.outpoint.txid raw n funding db₁
      >>= (λ db₂. ok (signed op d u, set_funding_utxo change db₂)))

  -- The rows of a new kickoff transaction, whose first output goes to the deposit.
  create_rows-WellFormed :
      (d : OutPoint) (u : Utxo) (answer : Utxo × Bytes) (db db' : Database) (raw : Bytes) (n : ℕ)
      (funding : Bytes) (change : Utxo)
      → u.outpoint.vout ≡ 0
      → save_rows d u raw n funding change db ≡ ok (answer, db')
      → WellFormed db
      → WellFormed db' × Recorded d answer db db'
  unfolding set_funding_utxo
  create_rows-WellFormed d u answer db db' raw n funding change first e w =
      let (db₁, saved, e₁) = >>=-eq_ok (save_kickoff_utxo d u db) _ e in
      let (db₂, added, e₂) =
        >>=-eq_ok (add_deposit_kickoff_generator_tx u.outpoint.txid raw n funding db₁) _ e₁ in
      let (rows, gens, _) = save_kickoff_utxo-inserts d u db db₁ saved in
      let (fresh, tables) = add_generator-inserts u.outpoint.txid raw n funding db₁ db₂ added in
      let (same, ends) = ok_pair-injective e₂ in
      let row : KickoffRow = record { deposit_outpoint = d; kickoff_utxo = u } in
      let g : GeneratorTx = record {
        txid = u.outpoint.txid;
        raw_signed_tx = raw;
        num_kickoffs = n % 2 ^ 32;
        cur_unused_kickoff_index = 1;
        funding_txid = funding;
      } in
      let at_gens : db'.deposit_kickoff_generator_txs ≡ g ∷ db.deposit_kickoff_generator_txs =
        ap (λ x. x.deposit_kickoff_generator_txs) (sym ends)
        ∙ ap (λ x. x.deposit_kickoff_generator_txs) (sym tables)
        ∙ ap (λ gs. g ∷ gs) gens in
      let at_rows : db'.operators_kickoff_utxo ≡ row ∷ db.operators_kickoff_utxo =
        ap (λ x. x.operators_kickoff_utxo) (sym ends)
        ∙ ap (λ x. x.operators_kickoff_utxo) (sym tables)
        ∙ rows in
      let unknown : has_txid db.deposit_kickoff_generator_txs u.outpoint.txid ≡ false =
        ap (λ gs. has_txid gs u.outpoint.txid) (sym gens) ∙ fresh in
      let (issued, unique) =
        extend db.operators_kickoff_utxo db.deposit_kickoff_generator_txs
          (g ∷ db.deposit_kickoff_generator_txs) row
          (not-Issued db.deposit_kickoff_generator_txs u.outpoint unknown)
          (inl (refl, below_one u.outpoint.vout first)) (λ o i. inr i) w.issued w.unique in
      (
        WellFormed-of_tables db' (row ∷ db.operators_kickoff_utxo)
            (g ∷ db.deposit_kickoff_generator_txs) at_rows at_gens (unknown, w.distinct) issued
            unique,
        recorded d u answer db db' same at_rows,
      )

  use_unused-WellFormed :
      (d : OutPoint) (u : Utxo) (answer : Utxo × Bytes) (db₀ db db' : Database)
      → get_unused_kickoff_utxo_and_increase_idx op.codec db₀ ≡ ok (some u, db)
      → use_unused op d (some u) db ≡ ok (answer, db')
      → WellFormed db₀
      → WellFormed db' × Recorded d answer db₀ db'
  use_unused-WellFormed d u answer db₀ db db' taken e w =
      let (h, hs, t, txid, vout, tables) = get_unused-takes op.codec db₀ db u taken in
      let (db₁, saved, e₁) = >>=-eq_ok (save_kickoff_utxo d u db) _ e in
      let (rows, gens, _) = save_kickoff_utxo-inserts d u db db₁ saved in
      let (same, ends) = ok_pair-injective e₁ in
      let row : KickoffRow = record { deposit_outpoint = d; kickoff_utxo = u } in
      let at_gens : db'.deposit_kickoff_generator_txs ≡ hs =
        ap (λ x. x.deposit_kickoff_generator_txs) (sym ends)
        ∙ gens
        ∙ ap (λ x. x.deposit_kickoff_generator_txs) (sym tables) in
      let at_rows : db'.operators_kickoff_utxo ≡ row ∷ db₀.operators_kickoff_utxo =
        ap (λ x. x.operators_kickoff_utxo) (sym ends)
        ∙ rows
        ∙ ap (λ x. row ∷ x.operators_kickoff_utxo) (sym tables) in
      let (issued, unique) =
        extend db₀.operators_kickoff_utxo db₀.deposit_kickoff_generator_txs hs row
          (t.was_unused w.distinct u.outpoint txid vout) (t.is_issued u.outpoint txid vout)
          t.stays_issued w.issued w.unique in
      (
        WellFormed-of_tables db' (row ∷ db₀.operators_kickoff_utxo) hs at_rows at_gens
            (t.distinct w.distinct) issued unique,
        recorded d u answer db₀ db' same at_rows,
      )

  create_kickoffs-WellFormed :
      (d : OutPoint) (answer : Utxo × Bytes) (db db' : Database)
      → create_kickoffs op d db ≡ ok (answer, db')
      → WellFormed db
      → WellFormed db' × Recorded d answer db db'
  unfolding create_kickoffs set_funding_utxo
  create_kickoffs-WellFormed d answer db db' e w =
      let n = op.config.operator_num_kickoff_utxos_per_tx in
      let (funding, _, e₁) =
        >>=-eq_ok (ok_or (operator_funding_utxo_not_found op.signer.address) (get_funding_utxo db))
          _ e in
      let (_, _, e₂) =
        >>=-eq_ok
          (if ltb funding.txout.value (funding_needed op)
            then err (operator_funding_utxo_amount_not_enough op.signer.address)
            else ok tt)
          _ e₁ in
      let (handler, _, e₃) = >>=-eq_ok (sign_kickoff_tx op funding) _ e₂ in
      let (change, _, e₄) = >>=-eq_ok (or_panicked (get_elem? handler.tx.output n)) _ e₃ in
      let (kickoff, _, e₅) = >>=-eq_ok (or_panicked (get_elem? handler.tx.output 0)) _ e₄ in
      let u : Utxo = record {
        outpoint = record { txid = op.compute_txid handler.tx; vout = 0 };
        txout = kickoff;
      } in
      create_rows-WellFormed d u answer db db' _ n funding.outpoint.txid _ refl e₅ w

  -- What a deposit leaves: well-formed tables, in which its kickoff is the one that was answered.
  use_or_create-WellFormed :
      (d : OutPoint) (answer : Utxo × Bytes) (db db' : Database)
      → use_or_create_kickoff op d db ≡ ok (answer, db')
      → WellFormed db
      → WellFormed db' × Recorded d answer db db'
  unfolding use_or_create_kickoff
  use_or_create-WellFormed d answer db db' e w =
      let (unused, taken, e₁) =
        >>=-eq_ok (get_unused_kickoff_utxo_and_increase_idx op.codec db) _ e in
      by_unused unused.0 unused.1 taken e₁
    where
      by_unused :
          (u : Option Utxo) (db₁ : Database)
          → get_unused_kickoff_utxo_and_increase_idx op.codec db ≡ ok (u, db₁)
          → use_unused op d u db₁ ≡ ok (answer, db')
          → WellFormed db' × Recorded d answer db db'
      by_unused (some u) db₁ taken k = use_unused-WellFormed d u answer db db₁ db' taken k w
      by_unused none db₁ taken k =
          let same = get_unused-none op.codec db db₁ taken in
          create_kickoffs-WellFormed d answer db db' (ap (λ x. create_kickoffs op d x) same ∙ k) w

  -- A deposit that is answered keeps the tables well-formed, and afterwards the table has the kickoff
  -- that was answered for it; the signature is over the digest of both.
  pub new_deposit-WellFormed :
      (d : OutPoint) (recovery evm : Bytes) (answer : Utxo × Bytes) (db db' : Database)
      → WellFormed db
      → new_deposit op d recovery evm db ≡ ok (answer, db')
      → WellFormed db' × (get_kickoff_utxo d db' ≡ some answer.0) × (answer ≡ signed op d answer.0)
  unfolding new_deposit get_kickoff_utxo
  new_deposit-WellFormed d recovery evm answer db db' w e =
      let (_, _, e₁) =
        >>=-eq_ok
          (check_deposit_utxo op.rpc op.scripts op.taproot op.nofn_xonly_pk d recovery evm
            op.config.bridge_amount_sats op.config.confirmation_threshold op.config.network
            op.config.user_takes_after)
          _ e in
      by_row (find_kickoff db.operators_kickoff_utxo d) refl e₁
    where
      by_row :
          (o : Option Utxo)
          → find_kickoff db.operators_kickoff_utxo d ≡ o
          → answer_with op d o db ≡ ok (answer, db')
          → WellFormed db'
            × (find_kickoff db'.operators_kickoff_utxo d ≡ some answer.0)
            × (answer ≡ signed op d answer.0)
      by_row (some u) at k =
          let (same, ends) = ok_pair-injective k in
          (
            subst WellFormed ends w,
            ap (λ x. find_kickoff x.operators_kickoff_utxo d) (sym ends)
                ∙ at
                ∙ ap (λ a. some a.0) same,
            sym same ∙ ap (λ a. signed op d a.0) same,
          )
      by_row none at k =
          let (w', recorded_row) = use_or_create-WellFormed d answer db db' k w in
          (w', ap (λ r. find_kickoff r d) recorded_row.1 ∙ find-first d answer.0 _, recorded_row.0)

  -- Every call of the interface keeps the tables well-formed.
  pub Step-WellFormed : (db db' : Database) → WellFormed db → Step op db db' → WellFormed db'
  unfolding set_funding_utxo
  Step-WellFormed db db' w (deposited d recovery evm answer _ e) =
      (new_deposit-WellFormed d recovery evm answer db db' w e).0
  Step-WellFormed db _ w (funded utxo) = record {
    distinct = w.distinct;
    issued = w.issued;
    unique = w.unique;
  }
