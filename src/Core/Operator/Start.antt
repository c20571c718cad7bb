-- ===== src/Core/Operator/Start.antt =====
-- `Operator::new` of core/src/operator.rs.
use clementine.Prelude.{
  ℕ, zero, suc, ◌≡◌, refl, sym, ap, ◌∙◌, subst, List, [], ◌∷◌, Option, none, some, Bool, true,
  false, if◌then◌else◌, get_elem?,
}
use clementine.Prelude.Bytes.{Bytes, bytes_eq, bytes_eq→eq}
use clementine.Core.Types.{Utxo}
use clementine.Core.Result.{
  Result, ok, err, ◌>>=◌, ok_or, server_error, operator_withdrawal_fee_not_set, >>=-eq_ok,
  >>=-of_ok, ok_injective, ok_or-eq_ok,
}
use clementine.Core.Musig2.{Musig2, from_musig2_pks}
use clementine.Core.Database.{Database, get_funding_utxo, set_funding_utxo}
use clementine.Core.ExtendedRpc.{send_to_address}
use clementine.Core.Operator.{Operator}

-- `position`
abbrev pub position : List Bytes → Bytes → Option ℕ
position [] pk = none
position (key ∷ keys) pk =
    let rest : Option ℕ = elim (position keys pk) [ none ↦ none | some i ↦ some (suc i) ] in
    if bytes_eq key pk then some zero else rest

abbrev pub first_funding_sats : ℕ
first_funding_sats = 200_000_000

some_injective : {A : Type 0} {a b : A} → some a ≡ some b → a ≡ b
some_injective e = cc e

abbrev pub check_fee : Option ℕ → Result Unit
check_fee none = err operator_withdrawal_fee_not_set
check_fee (some fee) = ok tt

position-get :
    (keys : List Bytes) (pk : Bytes) (i : ℕ)
    → position keys pk ≡ some i
    → get_elem? keys i ≡ some pk
position-get [] pk i e = cc
position-get (key ∷ keys) pk i e =
    by_test (bytes_eq key pk) (position keys pk) (bytes_eq→eq key pk)
      (λ j k. position-get keys pk j k) e
  where
    by_test :
        (t : Bool) (o : Option ℕ)
        → (t ≡ true → key ≡ pk)
        → ((j : ℕ) → o ≡ some j → get_elem? keys j ≡ some pk)
        → (if t
            then some zero
            else elim o as (λ _. Option ℕ) [ none ↦ none | some i ↦ some (suc i) ])
          ≡ some i
        → get_elem? (key ∷ keys) i ≡ some pk
    by_test true o same ih k =
        ap (get_elem? (key ∷ keys)) (some_injective (sym k)) ∙ ap some (same refl)
    by_test false none same ih k = cc
    by_test false (some j) same ih k =
        ap (get_elem? (key ∷ keys)) (some_injective (sym k)) ∙ ih j refl

module _ {Network KeyAggContext : Type 0} (M : Musig2 KeyAggContext) where
  -- The operator with the key of n of n and its index.
  abbrev pub with_key : Operator Network → Bytes → ℕ → Operator Network
  with_key op nofn_xonly_pk idx = record op { nofn_xonly_pk = nofn_xonly_pk; idx = idx }

  -- The funding of an operator that has none.
  unfoldable pub fund : Operator Network → Option Utxo → Database → Result Database
  fund op (some funding_utxo) db = ok db
  fund op none db = send_to_address op.wallet op.signer.address first_funding_sats >>= (λ outpoint.
      ok (
        set_funding_utxo
          (record {
            outpoint = outpoint;
            txout = record { value = first_funding_sats; script_pubkey = op.signer.address };
          })
          db))

  -- The libraries, the node, the signer and the configuration are those of the argument.
  unfoldable pub new : Operator Network → Database → Result (Operator Network × Database)
  new op db = from_musig2_pks M op.config.verifiers_public_keys none false >>= (λ nofn_xonly_pk.
      ok_or server_error (position op.config.operators_xonly_pks op.signer.xonly_public_key)
      >>= (λ idx. check_fee op.config.operator_withdrawal_fee_sats >>= (λ set.
          fund op (get_funding_utxo db) db >>= (λ db'. ok (with_key op nofn_xonly_pk idx, db')))))

  funding-fund :
      (op : Operator Network) (o : Option Utxo) (db db' : Database)
      → get_funding_utxo db ≡ o
      → fund op o db ≡ ok db'
      → (utxo : Utxo) × (get_funding_utxo db' ≡ some utxo)
  unfolding fund set_funding_utxo get_funding_utxo
  funding-fund op (some utxo) db db' at e = (utxo, ap get_funding_utxo (sym (ok_injective e)) ∙ at)
  funding-fund op none db db' at e =
      let (outpoint, _, e₁) =
        >>=-eq_ok (send_to_address op.wallet op.signer.address first_funding_sats) _ e in
      (_, ap get_funding_utxo (sym (ok_injective e₁)))

  -- An operator that starts has the index of its own key among the operators, and a funding; when it
  -- starts again with the tables that it left, it is the same operator and leaves them as they are.
  pub new-again :
      (op op' : Operator Network) (db db' : Database)
      → ◌≡◌ {A = Result (Operator Network × Database)} (new op db) (ok (op', db'))
      → (get_elem? op'.config.operators_xonly_pks op'.idx ≡ some op'.signer.xonly_public_key)
        × (utxo : Utxo) × (get_funding_utxo db' ≡ some utxo)
        × (◌≡◌ {A = Result (Operator Network × Database)} (new op db') (ok (op', db')))
  unfolding new fund
  new-again op op' db db' e =
      let keys = op.config.operators_xonly_pks in
      let own = op.signer.xonly_public_key in
      let (nofn, at_nofn, e₁) =
        >>=-eq_ok (from_musig2_pks M op.config.verifiers_public_keys none false) _ e in
      let (idx, at_idx, e₂) = >>=-eq_ok (ok_or server_error (position keys own)) _ e₁ in
      let (set, at_set, e₃) = >>=-eq_ok (check_fee op.config.operator_withdrawal_fee_sats) _ e₂ in
      let (db₁, at_db, e₄) = >>=-eq_ok (fund op (get_funding_utxo db) db) _ e₃ in
      let same : with_key op nofn idx ≡ op' = ap (λ p. p.0) (ok_injective e₄) in
      let same_db : db₁ ≡ db' = ap (λ p. p.1) (ok_injective e₄) in
      let (utxo, funded) =
        funding-fund op (get_funding_utxo db) db db' refl (at_db ∙ ap ok same_db) in
      (
        subst
            (λ (o : Operator Network).
              get_elem? o.config.operators_xonly_pks o.idx ≡ some o.signer.xonly_public_key)
            same (position-get keys own idx (ok_or-eq_ok _ _ at_idx)),
        utxo,
        funded,
        >>=-of_ok (from_musig2_pks M op.config.verifiers_public_keys none false) _ at_nofn
            ∙ >>=-of_ok (ok_or server_error (position keys own)) _ at_idx
            ∙ >>=-of_ok (check_fee op.config.operator_withdrawal_fee_sats) _ at_set
            ∙ >>=-of_ok (fund op (get_funding_utxo db') db') _ (ap (λ o. fund op o db') funded)
            ∙ ap (λ (o : Operator Network). ok (o, db')) same,
      )
