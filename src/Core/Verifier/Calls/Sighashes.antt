-- ===== src/Core/Verifier/Calls/Sighashes.antt =====
-- The sighashes of the verifier's nonces, through any history of its calls.
use clementine.Prelude.{
  ℕ, ◌+◌, ◌≡◌, refl, sym, ap, List, [], ◌∷◌, Option, none, some, Bool, true, false, if◌then◌else◌,
}
use clementine.Prelude.Bytes.{Bytes}
use clementine.Core.Types.{OutPoint, Utxo}
use clementine.Core.Result.{Result, ok, err, panicked, >>=-eq_ok, ok_injective, nonces_not_found}
use clementine.Core.Libraries.{Libraries}
use clementine.Core.ExtendedRpc.{check_deposit_utxo}
use clementine.Core.Deposits.{save_deposit_info, save_kickoff_utxos}
use clementine.Core.Nonces.{
  Nonces, update_sighashes, get_pub_nonces, save_nonces, save_agg_nonces,
  save_sighashes_and_get_nonces,
}
use clementine.Core.Nonces.Once.{
  sighash_of, NonceStep, nonces_saved, agg_nonces_saved, sighashes_saved, NonceStep-keeps,
  update_sighashes-keeps,
}
use clementine.Core.Verifier.{
  Verifier, Tables, transaction, fresh_nonces, num_required_nonces, create_nonces, answer_nonces,
  new_deposit,
}
use clementine.Core.Verifier.Presigns.{
  same_length, check_kickoffs, partial_signs, operator_kickoffs_generated,
}
use clementine.Core.Verifier.Takes.{
  ◌>>>◌, kickoffs_query, after_sighashes, burn_txs_signed, operator_take_txs_signed,
}
use clementine.Core.Verifier.Calls.{
  Call, new_deposit_call, operator_kickoffs_generated_call, burn_txs_signed_call,
  operator_take_txs_signed_call, handle, run,
}

-- A sighash of the first table is one of the second.
pub record Kept (table table' : Nonces) : Type 0 where
  pub at :
      (d : OutPoint) (i : ℕ) (h : Bytes)
      → sighash_of table d i ≡ some h
      → sighash_of table' d i ≡ some h

Kept-refl : (table : Nonces) → Kept table table
Kept-refl table = record { at = λ d i h s. s }

Kept-trans : {t u v : Nonces} → Kept t u → Kept u v → Kept t v
Kept-trans k l = record { at = λ d i h s. l.at d i h (k.at d i h s) }

NonceStep-Kept : {table table' : Nonces} → NonceStep table table' → Kept table table'
NonceStep-Kept step = record { at = λ d i h s. NonceStep-keeps _ _ d i h step s }

after_sighashes-Kept :
    (d' : OutPoint) (index : ℕ) (hs : List Bytes) (table : Nonces)
    → Kept table (after_sighashes d' index hs table)
after_sighashes-Kept d' index [] table = Kept-refl table
after_sighashes-Kept d' index (g ∷ gs) table =
    by_update (update_sighashes d' index (g ∷ gs) table) (λ table' e. record {
      at = λ d i h s. update_sighashes-keeps d' index (g ∷ gs) table table' d i h e s;
    })
  where
    by_update :
        (o : Option Nonces)
        → ((table' : Nonces) → o ≡ some table' → Kept table table')
        → Kept table (elim o [ none ↦ table | some table' ↦ table' ])
    by_update none k = Kept-refl table
    by_update (some table') k = k table' refl

transaction-Kept :
    {A : Type 0} (db : Tables) (r : Result (A × Tables))
    → ((a : A) (db' : Tables) → r ≡ ok (a, db') → Kept db.nonces db'.nonces)
    → Kept db.nonces (transaction db r).1.nonces
unfolding transaction
transaction-Kept db (ok (a, db')) k = k a db' refl
transaction-Kept db (err e) k = Kept-refl db.nonces
transaction-Kept db panicked k = Kept-refl db.nonces

>>>-Kept :
    {A B : Type 0} (table : Nonces) (r : Result A × Tables) (f : A → Tables → Result B × Tables)
    → Kept table r.1.nonces
    → ((a : A) (db : Tables) → Kept db.nonces (f a db).1.nonces)
    → Kept table (r >>> f).1.nonces
unfolding ◌>>>◌
>>>-Kept table (ok a, db) f k l = Kept-trans k (l a db)
>>>-Kept table (err e, db) f k l = k
>>>-Kept table (panicked, db) f k l = k

pair_injective :
    {A B : Type 0} {a c : A} {b d : B} → ◌≡◌ {A = Result (A × B)} (ok (a, b)) (ok (c, d)) → b ≡ d
pair_injective e = ap (λ p. p.1) (ok_injective e)

Kept-of : {t u v : Nonces} → u ≡ v → Kept t u → Kept t v
Kept-of e k = rw (sym e) k

module _ {Network KeyAggContext : Type 0} (L : Libraries Network KeyAggContext)
    (V : Verifier Network) where
  create_nonces-Kept :
      (rng : ℕ → Bytes) (d : OutPoint) (recovery evm : Bytes) (db : Tables) (a : List Bytes)
      (db' : Tables)
      → create_nonces L V rng d recovery evm db ≡ ok (a, db')
      → Kept db.nonces db'.nonces
  unfolding create_nonces
  create_nonces-Kept rng d recovery evm db a db' e =
      let nonces = fresh_nonces L V rng 0 (num_required_nonces L V) in
      let (infos, _, e₁) = >>=-eq_ok (save_deposit_info d recovery evm db.deposit_infos) _ e in
      let (table, saved, e₂) = >>=-eq_ok (save_nonces d nonces db.nonces) _ e₁ in
      Kept-of (ap (λ t. t.nonces) (pair_injective e₂))
        (NonceStep-Kept (nonces_saved d nonces table saved))

  answer_nonces-Kept :
      (rng : ℕ → Bytes) (d : OutPoint) (recovery evm : Bytes) (o : Option (List Bytes))
      (db : Tables) (a : List Bytes) (db' : Tables)
      → answer_nonces L V rng d recovery evm o db ≡ ok (a, db')
      → Kept db.nonces db'.nonces
  unfolding answer_nonces
  answer_nonces-Kept rng d recovery evm none db a db' e =
      create_nonces-Kept rng d recovery evm db a db' e
  answer_nonces-Kept rng d recovery evm (some []) db a db' e =
      create_nonces-Kept rng d recovery evm db a db' e
  answer_nonces-Kept rng d recovery evm (some (p ∷ ps)) db a db' e = by_length _ e
    where
      by_length :
          (t : Bool)
          → ◌≡◌ {A = Result (List Bytes × Tables)}
              (if t then err nonces_not_found else ok (p ∷ ps, db))
              (ok (a, db'))
          → Kept db.nonces db'.nonces
      by_length true k = cc
      by_length false k = Kept-of (ap (λ t. t.nonces) (pair_injective k)) (Kept-refl db.nonces)

  new_deposit-Kept :
      (rng : ℕ → Bytes) (d : OutPoint) (recovery evm : Bytes) (db : Tables)
      → Kept db.nonces (new_deposit L V rng d recovery evm db).1.nonces
  unfolding new_deposit
  new_deposit-Kept rng d recovery evm db = transaction-Kept db _ λ a db' e.
      let (_, _, e₁) =
        >>=-eq_ok
          (check_deposit_utxo V.rpc L.scripts L.taproot V.nofn_xonly_pk d recovery evm
            V.config.bridge_amount_sats V.config.confirmation_threshold V.config.network
            V.config.user_takes_after)
          _ e in
      answer_nonces-Kept rng d recovery evm (get_pub_nonces d db.nonces) db a db' e₁

  operator_kickoffs_generated-Kept :
      (d : OutPoint) (utxos : List Utxo) (sigs agg_nonces : List Bytes) (db : Tables)
      → Kept db.nonces (operator_kickoffs_generated L V d utxos sigs agg_nonces db).1.nonces
  unfolding operator_kickoffs_generated
  operator_kickoffs_generated-Kept d utxos sigs agg_nonces db = transaction-Kept db _ λ a db' e.
      let (_, _, e₁) = >>=-eq_ok (same_length utxos sigs) _ e in
      let (hs, _, e₂) = >>=-eq_ok (check_kickoffs L V d sigs 0 utxos) _ e₁ in
      let (aggregated, step, e₃) = >>=-eq_ok (save_agg_nonces d agg_nonces db.nonces) _ e₂ in
      let (_, _, e₄) = >>=-eq_ok (save_kickoff_utxos d utxos db.deposit_kickoff_utxos) _ e₃ in
      let (signing, step', e₅) =
        >>=-eq_ok (save_sighashes_and_get_nonces d (V.config.num_operators + 1) hs aggregated) _
          e₄ in
      let (_, _, e₆) = >>=-eq_ok (partial_signs L V false hs signing.0) _ e₅ in
      Kept-of (ap (λ t. t.nonces) (pair_injective e₆)) (
        Kept-trans (NonceStep-Kept (agg_nonces_saved d agg_nonces aggregated step))
          (NonceStep-Kept (sighashes_saved d _ hs signing.0 signing.1 step')))

  kickoffs_query-Kept :
      (r : Result _) (db : Tables) → Kept db.nonces (kickoffs_query L V r db).1.nonces
  kickoffs_query-Kept (ok kickoffs) db = Kept-refl db.nonces
  kickoffs_query-Kept (err e) db = Kept-refl db.nonces
  kickoffs_query-Kept panicked db = Kept-refl db.nonces

  burn_txs_signed-Kept :
      (d : OutPoint) (burn_sigs sigs : List Bytes) (db : Tables)
      → Kept db.nonces (burn_txs_signed L V d burn_sigs sigs db).1.nonces
  unfolding burn_txs_signed
  burn_txs_signed-Kept d burn_sigs sigs db = >>>-Kept _ _ _ (Kept-refl db.nonces) λ hs db₁.
      >>>-Kept _ _ _
        (>>>-Kept _ _ _ (kickoffs_query-Kept _ db₁)
          (λ _ db₂. after_sighashes-Kept d 1 hs db₂.nonces))
        (λ nonces db₃. Kept-refl db₃.nonces)

  operator_take_txs_signed-Kept :
      (d : OutPoint) (sigs : List Bytes) (db : Tables)
      → Kept db.nonces (operator_take_txs_signed L V d sigs db).1.nonces
  unfolding operator_take_txs_signed
  operator_take_txs_signed-Kept d sigs db = >>>-Kept _ _ _ (Kept-refl db.nonces) λ details db₁.
      >>>-Kept _ _ _ (>>>-Kept _ _ _ (kickoffs_query-Kept _ db₁) (λ _ db₂. Kept-refl db₂.nonces))
        (λ h db₂.
          >>>-Kept _ _ _ (after_sighashes-Kept d 0 (h ∷ []) db₂.nonces)
            (λ nonces db₃. Kept-refl db₃.nonces))

  handle-Kept : (call : Call) (db : Tables) → Kept db.nonces (handle L V call db).nonces
  unfolding handle
  handle-Kept (new_deposit_call rng d recovery evm) db = new_deposit-Kept rng d recovery evm db
  handle-Kept (operator_kickoffs_generated_call d utxos sigs agg_nonces) db =
      operator_kickoffs_generated-Kept d utxos sigs agg_nonces db
  handle-Kept (burn_txs_signed_call d burn_sigs sigs) db = burn_txs_signed-Kept d burn_sigs sigs db
  handle-Kept (operator_take_txs_signed_call d sigs) db = operator_take_txs_signed-Kept d sigs db

  run-Kept : (calls : List Call) (db : Tables) → Kept db.nonces (run L V calls db).nonces
  unfolding run
  run-Kept [] db = Kept-refl db.nonces
  run-Kept (call ∷ calls) db =
      Kept-trans (handle-Kept call db) (run-Kept calls (handle L V call db))

  -- Through any history of calls of a verifier, failing or not, a sighash that the row of a key of the
  -- nonces has stays that row's sighash.
  pub run-keeps_sighash :
      (calls : List Call) (db : Tables) (d : OutPoint) (i : ℕ) (h : Bytes)
      → sighash_of db.nonces d i ≡ some h
      → sighash_of (run L V calls db).nonces d i ≡ some h
  run-keeps_sighash calls db d i h s = (run-Kept calls db).at d i h s
