-- ===== src/Core/Operator/Profit.antt =====
-- What `is_profitable` and the guard of `new_deposit` decide.
use clementine.Prelude.{
  ℕ, ◌+◌, ◌-◌, ◌%◌, ◌^◌, ◌<◌, ◌≤◌, ◌≡◌, ◌≢◌, ◌↔◌, ◌⊎◌, inl, inr, refl, sym, ap, ◌∙◌, some, Bool,
  true, false, if◌then◌else◌, ltb, arith,
}
use clementine.Core.Result.{Result, ok, panicked, ◌>>=◌, ok_injective}
use clementine.Core.Builder.Transaction.Amounts.{sub_amount_fits, sub_amount_over}
use clementine.Core.Operator.{Operator, is_profitable}

ltb-ge : (a b : ℕ) → b ≤ a → ltb a b ≡ false
ltb-ge a b h = ground arith

ltb-lt : (a b : ℕ) → a < b → ltb a b ≡ true
ltb-lt a b h = ground arith

lt_or_ge : (a b : ℕ) → (a < b) ⊎ (b ≤ a)
lt_or_ge a b = omega arith

ok_false : ok false ≢ ok true
ok_false e = cc

guarded_panic :
    (s : Bool) (r : Result ℕ) (f : ℕ → Result Bool)
    → r ≡ panicked
    → (if s then ok false else r >>= f) ≢ ok true
guarded_panic true r f p k = cc
guarded_panic false r f p k = panicked_ok (sym (ap (λ x. x >>= f) p) ∙ k)
  where
    panicked_ok : ◌≢◌ {A = Result Bool} panicked (ok true)
    panicked_ok e = cc

module _ {Network : Type 0} (op : Operator Network) where
  profit_within :
      (input withdrawal fee : ℕ)
      → op.config.operator_withdrawal_fee_sats ≡ some fee
      → op.config.bridge_amount_sats < 2 ^ 64
      → input ≤ withdrawal
      → withdrawal ≤ op.config.bridge_amount_sats
      → is_profitable op input withdrawal ≡ ok (ltb fee (op.config.bridge_amount_sats - withdrawal))
  unfolding is_profitable
  profit_within input withdrawal fee at_fee small covered within =
      rw
        (
          ltb-ge op.config.bridge_amount_sats ((withdrawal + 2 ^ 64 - input) % 2 ^ 64)
              (omega arith),
          sub_amount_fits op.config.bridge_amount_sats withdrawal within,
          at_fee,
        )
        refl

  -- The difference wraps, and is above the bridge amount.
  profit_under :
      (input withdrawal : ℕ)
      → input + op.config.bridge_amount_sats < 2 ^ 64
      → withdrawal < input
      → is_profitable op input withdrawal ≡ ok false
  unfolding is_profitable
  profit_under input withdrawal room under =
      rw
        (ltb-lt op.config.bridge_amount_sats ((withdrawal + 2 ^ 64 - input) % 2 ^ 64) (omega arith))
        refl

  profit_over :
      (input withdrawal : ℕ)
      → op.config.bridge_amount_sats < withdrawal
      → is_profitable op input withdrawal ≢ ok true
  unfolding is_profitable
  profit_over input withdrawal over e =
      guarded_panic (ltb op.config.bridge_amount_sats ((withdrawal + 2 ^ 64 - input) % 2 ^ 64)) _ _
        (sub_amount_over op.config.bridge_amount_sats withdrawal over) e

  -- For an input that leaves room for the bridge amount in 64 bits, a withdrawal is profitable exactly
  -- when it pays at least its input, and what it pays and the operator's fee are together less than the
  -- bridge amount.
  pub is_profitable_iff :
      (input withdrawal fee : ℕ)
      → op.config.operator_withdrawal_fee_sats ≡ some fee
      → input + op.config.bridge_amount_sats < 2 ^ 64
      → (is_profitable op input withdrawal ≡ ok true)
        ↔ ((input ≤ withdrawal) × (withdrawal + fee < op.config.bridge_amount_sats))
  is_profitable_iff input withdrawal fee at_fee room = (only, enough)
    where
      below :
          ok (ltb fee (op.config.bridge_amount_sats - withdrawal)) ≡ ok true
          → withdrawal + fee < op.config.bridge_amount_sats
      below e =
          let more : ltb fee (op.config.bridge_amount_sats - withdrawal) ≡ true = ok_injective e in
          ground arith

      only :
          is_profitable op input withdrawal ≡ ok true
          → (input ≤ withdrawal) × (withdrawal + fee < op.config.bridge_amount_sats)
      only e = elim (lt_or_ge withdrawal input) [
        | inl under ↦ absurd (ok_false (sym (profit_under input withdrawal room under) ∙ e))
        | inr covered ↦ elim (lt_or_ge op.config.bridge_amount_sats withdrawal) [
          | inl over ↦ absurd (profit_over input withdrawal over e)
          | inr within ↦ (
            covered,
            below
                (sym (profit_within input withdrawal fee at_fee (omega arith) covered within) ∙ e),
          )
        ]
      ]

      enough :
          (input ≤ withdrawal) × (withdrawal + fee < op.config.bridge_amount_sats)
          → is_profitable op input withdrawal ≡ ok true
      enough h =
          profit_within input withdrawal fee at_fee (omega (arith, room)) h.0 (omega (arith, h.1))
          ∙ ap ok (ltb-lt fee (op.config.bridge_amount_sats - withdrawal) (omega (arith, h.1)))

  -- A withdrawal above the bridge amount, by no more than its input, panics.
  pub is_profitable_panics :
      (input withdrawal : ℕ)
      → op.config.bridge_amount_sats < withdrawal
      → withdrawal < 2 ^ 64
      → input ≤ withdrawal
      → withdrawal ≤ op.config.bridge_amount_sats + input
      → is_profitable op input withdrawal ≡ panicked
  unfolding is_profitable
  is_profitable_panics input withdrawal over small covered within =
      rw
        (
          ltb-ge op.config.bridge_amount_sats ((withdrawal + 2 ^ 64 - input) % 2 ^ 64)
              (omega arith),
          sub_amount_over op.config.bridge_amount_sats withdrawal over,
        )
        refl
