-- ===== src/Core/Verifier/Deposit.antt =====
-- `new_deposit` of core/src/verifier.rs, and the same call again.
use clementine.Prelude.{
  ℕ, zero, suc, ◌+◌, ◌*◌, ◌≡◌, refl, sym, ap, ◌∙◌, List, [], ◌∷◌, map, Option, none, some, Bool,
  true, false, not, ◌==◌, ==_iff, if◌then◌else◌, length,
}
use clementine.Prelude.Bytes.{Bytes}
use clementine.Core.Types.{OutPoint}
use clementine.Core.Result.{
  Result, ok, err, panicked, >>=-eq_ok, >>=-of_ok, ok_injective, nonces_not_found,
}
use clementine.Core.ExtendedRpc.{check_deposit_utxo}
use clementine.Core.Libraries.{Libraries}
use clementine.Core.Nonces.{Nonces, get_pub_nonces, save_nonces}
use clementine.Core.Nonces.Saved.{get_pub_nonces-save_nonces}
use clementine.Core.Deposits.{save_deposit_info}
use clementine.Core.Verifier.{
  Verifier, Tables, transaction, fresh_nonces, num_required_nonces, create_nonces, answer_nonces,
  new_deposit,
}

pub transaction-eq_ok :
    {A : Type 0} (db : Tables) (r : Result (A × Tables)) (a : A) (db' : Tables)
    → ◌≡◌ {A = Result A × Tables} (transaction db r) (ok a, db')
    → ◌≡◌ {A = Result (A × Tables)} r (ok (a, db'))
unfolding transaction
transaction-eq_ok {A} db (ok (b, db₁)) a db' e =
    let same : b ≡ a = ok_injective (ap (λ p. p.0) e) in
    let same_db : db₁ ≡ db' = ap (λ p. p.1) e in
    ap (λ (x : A). ok (x, db₁)) same ∙ ap (λ (t : Tables). ok (a, t)) same_db
transaction-eq_ok db (err x) a db' e = cc (ap (λ p. p.0) e)
transaction-eq_ok db panicked a db' e = cc (ap (λ p. p.0) e)

-- A deposit has no empty list of nonces.
never_empty : (d : OutPoint) (table : Nonces) → get_pub_nonces d table ≡ some [] → ⊥
unfolding get_pub_nonces
never_empty d table e = by_nonces _ e
  where
    by_nonces :
        (ns : List Bytes)
        → elim ns as (λ _. Option (List Bytes)) [ [] ↦ none | n ∷ ns ↦ some (n ∷ ns) ] ≡ some []
        → ⊥
    by_nonces [] k = cc
    by_nonces (n ∷ ns) k = cc

module _ {Network KeyAggContext : Type 0} (L : Libraries Network KeyAggContext)
    (V : Verifier Network) where
  length-fresh_nonces :
      (rng : ℕ → Bytes) (i n : ℕ) → length (map (λ m. m.1) (fresh_nonces L V rng i n)) ≡ n
  unfolding fresh_nonces
  length-fresh_nonces rng i zero = refl
  length-fresh_nonces rng i (suc n) = ap suc (length-fresh_nonces rng (suc i) n)

  -- The nonces that a deposit has are as many as are required.
  record Answered (d : OutPoint) (answer : List Bytes) (table : Nonces) : Type 0 where
    first : Bytes
    rest : List Bytes
    shape : answer ≡ first ∷ rest
    count : length answer ≡ num_required_nonces L V
    stored : get_pub_nonces d table ≡ some answer

  saved-Answered :
      (d : OutPoint) (nonces : List (Bytes × Bytes)) (answer : List Bytes) (table table' : Nonces)
      → get_pub_nonces d table ≡ none
      → save_nonces d nonces table ≡ ok table'
      → map (λ n. n.1) nonces ≡ answer
      → length (map (λ (n : Bytes × Bytes). n.1) nonces) ≡ num_required_nonces L V
      → Answered d answer table'
  unfolding save_nonces
  saved-Answered d [] answer table table' fresh e same count = cc
  saved-Answered d (n ∷ nonces) answer table table' fresh e same count = record {
    first = n.1;
    rest = map (λ n. n.1) nonces;
    shape = sym same;
    count = ap length (sym same) ∙ count;
    stored = get_pub_nonces-save_nonces d n nonces table table' fresh e ∙ ap some same;
  }

  create_nonces-Answered :
      (rng : ℕ → Bytes) (d : OutPoint) (recovery evm : Bytes) (db : Tables) (answer : List Bytes)
      (db' : Tables)
      → get_pub_nonces d db.nonces ≡ none
      → create_nonces L V rng d recovery evm db ≡ ok (answer, db')
      → Answered d answer db'.nonces
  unfolding create_nonces
  create_nonces-Answered rng d recovery evm db answer db' fresh e =
      let nonces = fresh_nonces L V rng 0 (num_required_nonces L V) in
      let (infos, _, e₁) = >>=-eq_ok (save_deposit_info d recovery evm db.deposit_infos) _ e in
      let (table, saved, e₂) = >>=-eq_ok (save_nonces d nonces db.nonces) _ e₁ in
      let same_table : table ≡ db'.nonces = ap (λ p. p.1.nonces) (ok_injective e₂) in
      saved-Answered d nonces answer db.nonces db'.nonces fresh (saved ∙ ap ok same_table)
        (ap (λ p. p.0) (ok_injective e₂)) (length-fresh_nonces rng 0 (num_required_nonces L V))

  answer_nonces-Answered :
      (rng : ℕ → Bytes) (d : OutPoint) (recovery evm : Bytes) (o : Option (List Bytes))
      (db : Tables) (answer : List Bytes) (db' : Tables)
      → get_pub_nonces d db.nonces ≡ o
      → answer_nonces L V rng d recovery evm o db ≡ ok (answer, db')
      → Answered d answer db'.nonces
  unfolding answer_nonces
  answer_nonces-Answered rng d recovery evm none db answer db' at e =
      create_nonces-Answered rng d recovery evm db answer db' at e
  answer_nonces-Answered rng d recovery evm (some []) db answer db' at e =
      absurd (never_empty d db.nonces at)
  answer_nonces-Answered rng d recovery evm (some (p ∷ ps)) db answer db' at e =
      by_length (length (p ∷ ps) == num_required_nonces L V)
        ((==_iff (length (p ∷ ps)) (num_required_nonces L V)).0) e
    where
      by_length :
          (t : Bool)
          → (t ≡ true → length (p ∷ ps) ≡ num_required_nonces L V)
          → ◌≡◌ {A = Result (List Bytes × Tables)}
              (if not t then err nonces_not_found else ok (p ∷ ps, db))
              (ok (answer, db'))
          → Answered d answer db'.nonces
      by_length true count k =
          let same : p ∷ ps ≡ answer = ap (λ q. q.0) (ok_injective k) in
          let same_table : db.nonces ≡ db'.nonces = ap (λ q. q.1.nonces) (ok_injective k) in
          record {
            first = p;
            rest = ps;
            shape = sym same;
            count = ap length (sym same) ∙ count refl;
            stored = ap (get_pub_nonces d) (sym same_table) ∙ at ∙ ap some same;
          }
      by_length false count k = cc

  Answered-again :
      (rng : ℕ → Bytes) (d : OutPoint) (recovery evm : Bytes) (answer : List Bytes) (db : Tables)
      → Answered d answer db.nonces
      → ◌≡◌ {A = Result (List Bytes × Tables)}
          (answer_nonces L V rng d recovery evm (get_pub_nonces d db.nonces) db)
          (ok (answer, db))
  unfolding answer_nonces
  Answered-again rng d recovery evm answer db a =
      let full = a.first ∷ a.rest in
      ap (λ o. answer_nonces L V rng d recovery evm o db) (a.stored ∙ ap some a.shape)
      ∙ ap
          (λ t.
            if◌then◌else◌ {A = Result (List Bytes × Tables)} (not t) (err nonces_not_found)
              (ok (full, db)))
          ((==_iff (length full) (num_required_nonces L V)).1 (ap length (sym a.shape) ∙ a.count))
      ∙ ap (λ (x : List Bytes). ok (x, db)) (sym a.shape)

  -- A deposit that a verifier answers gets one public nonce for the move transaction and two for each
  -- operator, which are then the deposit's; and the same call again, with any random bytes, gives the
  -- same answer and changes nothing.
  pub new_deposit-again :
      (rng rng' : ℕ → Bytes) (d : OutPoint) (recovery evm : Bytes) (db : Tables)
      (answer : List Bytes) (db' : Tables)
      → ◌≡◌ {A = Result (List Bytes) × Tables}
          (new_deposit L V rng d recovery evm db)
          (ok answer, db')
      → (length answer ≡ 2 * length V.operator_xonly_pks + 1)
        × (get_pub_nonces d db'.nonces ≡ some answer)
        × (◌≡◌ {A = Result (List Bytes) × Tables}
            (new_deposit L V rng' d recovery evm db')
            (ok answer, db'))
  unfolding new_deposit num_required_nonces transaction
  new_deposit-again rng rng' d recovery evm db answer db' e =
      let checks =
        check_deposit_utxo V.rpc L.scripts L.taproot V.nofn_xonly_pk d recovery evm
          V.config.bridge_amount_sats V.config.confirmation_threshold V.config.network
          V.config.user_takes_after in
      let (checked, passes, e₁) = >>=-eq_ok checks _ (transaction-eq_ok db _ answer db' e) in
      let a =
        answer_nonces-Answered rng d recovery evm (get_pub_nonces d db.nonces) db answer db' refl
          e₁ in
      (
        a.count,
        a.stored,
        ap (transaction db')
            (>>=-of_ok checks _ passes ∙ Answered-again rng' d recovery evm answer db' a),
      )
