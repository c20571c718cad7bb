-- ===== src/Core/Operator/Proved/Search.antt =====
-- The transactions that an operator has to send before its kickoff: the loop of
-- `withdrawal_proved_on_citrea` in core/src/operator.rs.
use clementine.Prelude.{
  ℕ, zero, suc, ◌<◌, ◌≡◌, ◌↔◌, refl, sym, ap, ◌∙◌, subst, List, [], ◌∷◌, some, Bool, true, false,
  not, if◌then◌else◌, length, length-append, reverse, arith,
}
use mathlib.Core.List.{reverse-cons, reverse-reverse}
use clementine.Prelude.Bytes.{Bytes}
use clementine.Core.Result.{
  ok_or-eq_ok, Result, ok, err, ◌>>=◌, ok_or, >>=-eq_ok, >>=-of_ok, ok_injective,
  kickoff_generator_tx_not_found, kickoff_generator_txs_too_many_iterations,
}
use clementine.Core.Database.{GeneratorTx, get_deposit_kickoff_generator_tx}
use clementine.Core.Operator.{Operator}
use clementine.Core.Operator.Proved.{is_known, search_from, pending_txs}

length-reverse : (xs : List Bytes) → length (reverse xs) ≡ length xs
length-reverse [] = refl
length-reverse (x ∷ xs) =
    ap length (reverse-cons x xs)
    ∙ length-append (reverse xs) (x ∷ [])
    ∙ omega (arith, length-reverse xs)

module _ {Network : Type 0} (op : Operator Network) (table : List GeneratorTx) where
  -- A row of the table for a transaction that the node does not know.
  pub record Unsent (txid raw : Bytes) : Type 0 where
    pub unknown : is_known op txid ≡ false
    pub generator : GeneratorTx
    pub at_row : get_deposit_kickoff_generator_tx txid table ≡ some generator
    pub at_raw : raw ≡ generator.raw_signed_tx

  -- Each transaction is unsent and funded by the next one, up to one that the node knows.
  abbrev pub Chain : Bytes → List Bytes → Type 0
  Chain txid [] = is_known op txid ≡ true
  Chain txid (raw ∷ raws) = (u : Unsent txid raw) × Chain u.generator.funding_txid raws

  abbrev both : List Bytes → Bool → List Bytes × Bool
  both raws t = (raws, t)

  -- A round for a transaction that the node does not know.
  abbrev later : ℕ → Bytes → Result (List Bytes × Bool)
  later rounds txid =
      ok_or kickoff_generator_tx_not_found (get_deposit_kickoff_generator_tx txid table)
      >>= (λ generator.
          search_from op rounds generator.funding_txid table
          >>= (λ found. ok (both (generator.raw_signed_tx ∷ found.0) found.1)))

  abbrev round : ℕ → Bytes → Bool → Result (List Bytes × Bool)
  round rounds txid t = elim t as (λ _. Result (List Bytes × Bool)) [
    | true ↦ ok (both [] true)
    | false ↦ later rounds txid
  ]

  search_from-Chain :
      (rounds : ℕ) (txid : Bytes) (raws : List Bytes)
      → search_from op rounds txid table ≡ ok (both raws true)
      → Chain txid raws × (length raws < rounds)
  unfolding search_from
  search_from-Chain zero txid raws e = absurd (ends (ap (λ p. p.1) (ok_injective e)))
    where
      ends : false ≡ true → ⊥
      ends k = cc
  search_from-Chain (suc rounds) txid raws e =
      by_known (is_known op txid) refl (λ g rest k. search_from-Chain rounds g.funding_txid rest k)
        e
    where
      by_known :
          (t : Bool)
          → is_known op txid ≡ t
          → ((g : GeneratorTx) (rest : List Bytes)
              → search_from op rounds g.funding_txid table ≡ ok (both rest true)
              → Chain g.funding_txid rest × (length rest < rounds))
          → round rounds txid t ≡ ok (both raws true)
          → Chain txid raws × (length raws < suc rounds)
      by_known true at ih k =
          subst (λ r. Chain txid r × (length r < suc rounds)) (ap (λ p. p.0) (ok_injective k))
            (at, omega arith)
      by_known false at ih k =
          let (g, at_g, k₁) =
            >>=-eq_ok
              (ok_or kickoff_generator_tx_not_found (get_deposit_kickoff_generator_tx txid table)) _
              k in
          let (found, at_found, k₂) = >>=-eq_ok (search_from op rounds g.funding_txid table) _ k₁ in
          let shown : found.1 ≡ true = ap (λ p. p.1) (ok_injective k₂) in
          let (chain, short) = ih g found.0 (at_found ∙ ap (λ t. ok (both found.0 t)) shown) in
          let u : Unsent txid g.raw_signed_tx = record {
            unknown = at;
            generator = g;
            at_row = ok_or-eq_ok _ _ at_g;
            at_raw = refl;
          } in
          subst (λ r. Chain txid r × (length r < suc rounds)) (ap (λ p. p.0) (ok_injective k₂))
            ((u, chain), omega arith)

  Chain-search_from :
      (rounds : ℕ) (txid : Bytes) (raws : List Bytes)
      → Chain txid raws
      → length raws < rounds
      → search_from op rounds txid table ≡ ok (both raws true)
  unfolding search_from
  Chain-search_from zero txid raws c h = absurd (omega arith)
  Chain-search_from (suc rounds) txid [] c h = ap (round rounds txid) c
  Chain-search_from (suc rounds) txid (raw ∷ raws) (u, c) h =
      ap (round rounds txid) u.unknown
      ∙ >>=-of_ok
          (ok_or kickoff_generator_tx_not_found (get_deposit_kickoff_generator_tx txid table)) _
          (ap (ok_or kickoff_generator_tx_not_found) u.at_row)
      ∙ >>=-of_ok (search_from op rounds u.generator.funding_txid table) _
          (Chain-search_from rounds u.generator.funding_txid raws c (omega arith))
      ∙ ap (λ r. ok (both (r ∷ raws) true)) (sym u.at_raw)

  pending_txs-Chain :
      (txid : Bytes) (txs : List Bytes)
      → pending_txs op txid table ≡ ok txs
      → Chain txid (reverse txs) × (length txs < 25)
  unfolding pending_txs
  pending_txs-Chain txid txs e =
      let (found, at_found, e₁) = >>=-eq_ok (search_from op 25 txid table) _ e in
      by_found found.0 found.1 at_found e₁
    where
      by_found :
          (raws : List Bytes) (t : Bool)
          → search_from op 25 txid table ≡ ok (both raws t)
          → (if not t then err kickoff_generator_txs_too_many_iterations else ok (reverse raws))
            ≡ ok txs
          → Chain txid (reverse txs) × (length txs < 25)
      by_found raws false at k = cc
      by_found raws true at k =
          let same : reverse raws ≡ txs = ok_injective k in
          let (chain, short) = search_from-Chain 25 txid raws at in
          subst (λ r. Chain txid (reverse r) × (length r < 25)) same
            (
              subst (Chain txid) (sym (reverse-reverse raws)) chain,
              subst (λ n. n < 25) (sym (length-reverse raws)) short,
            )

  Chain-pending_txs :
      (txid : Bytes) (txs : List Bytes)
      → Chain txid (reverse txs)
      → length txs < 25
      → pending_txs op txid table ≡ ok txs
  unfolding pending_txs
  Chain-pending_txs txid txs c h =
      >>=-of_ok (search_from op 25 txid table) _ (
        Chain-search_from 25 txid (reverse txs) c
          (subst (λ n. n < 25) (sym (length-reverse txs)) h))
      ∙ ap ok (reverse-reverse txs)

  -- The transactions before a kickoff are found exactly when each of them is a row of the table that
  -- the node does not know, funded by the one before it, the first one is funded by a transaction that
  -- the node knows, and there are fewer than 25. They come in the order in which they can be sent.
  pub pending_txs_iff :
      (txid : Bytes) (txs : List Bytes)
      → (pending_txs op txid table ≡ ok txs) ↔ (Chain txid (reverse txs) × (length txs < 25))
  pending_txs_iff txid txs = (pending_txs-Chain txid txs, λ p. Chain-pending_txs txid txs p.0 p.1)
