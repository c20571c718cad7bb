-- ===== src/Core/Builder/Transaction/Amounts.antt =====
-- Sums of outputs, and the arithmetic of `Amount`.
use clementine.Prelude.{
  ℕ, zero, suc, ◌+◌, ◌-◌, ◌*◌, ◌^◌, ◌%◌, ◌≤◌, ◌<◌, ◌≡◌, refl, ap, ◌∙◌, List, [], ◌∷◌, ◌++◌,
  replicate, length, ltb, leb, leb→le, if◌then◌else◌, Bool, true, false, arith,
}
use native.Mathlib.Nat.{mul-suc}
use clementine.Prelude.Bytes.{Bytes}
use clementine.Core.Types.{TxOut}
use clementine.Core.Result.{ok, panicked, ok_injective}
use clementine.Core.Builder.Transaction.{
  sub_amount, add_amount, create_tx_outs, kickoff_utxo_amount_sats,
}

-- The sum of the values of outputs.
abbrev pub total : List TxOut → ℕ
total [] = 0
total (o ∷ os) = o.value + total os

pub sub_amount-ok : (a b : ℕ) {c : ℕ} → sub_amount a b ≡ ok c → c + b ≡ a
sub_amount-ok a b {c} e = by_test (leb b a) refl e
  where
    by_test : (t : Bool) → leb b a ≡ t → (if t then ok (a - b) else panicked) ≡ ok c → c + b ≡ a
    by_test true fits k = let eq : a - b ≡ c = cc k in omega (arith, leb→le b a fits, eq)
    by_test false over k = cc

pub sub_amount_fits : (a b : ℕ) → b ≤ a → sub_amount a b ≡ ok (a - b)
sub_amount_fits a b h = ground arith

pub sub_amount_over : (a b : ℕ) → a < b → sub_amount a b ≡ panicked
sub_amount_over a b h = ground arith

pub total-replicate :
    (n v : ℕ) (script : Bytes) (pairs : List (ℕ × Bytes))
    → total (create_tx_outs (replicate n (v, script) ++ pairs))
      ≡ v * n + total (create_tx_outs pairs)
unfolding create_tx_outs
total-replicate zero v script pairs = omega arith
total-replicate (suc n) v script pairs =
    let rest = total-replicate n v script pairs in add_one n v _ _ rest
  where
    add_one : (n v x y : ℕ) → x ≡ v * n + y → v + x ≡ v * suc n + y
    add_one n v x y h = rw (h, mul-suc v n) (omega arith)

pub outputs_of_kickoff :
    (n fee funding product dust a b change out : ℕ)
    → product ≡ kickoff_utxo_amount_sats * n
    → a + product ≡ funding
    → b + dust ≡ a
    → change + fee ≡ b
    → kickoff_utxo_amount_sats * n + (change + (dust + 0)) ≡ out
    → out + fee ≡ funding
outputs_of_kickoff n fee funding product dust a b change out h₁ h₂ h₃ h₄ h₅ = omega arith

pub outputs_of_takes :
    (slash bridge dust a b c d value e moved out prev : ℕ)
    → slash + bridge ≡ a
    → b + 190 ≡ a
    → c + 230 ≡ b
    → d + dust ≡ c
    → value + dust ≡ d
    → e + 190 ≡ bridge
    → moved + dust ≡ e
    → value + (dust + 0) ≡ out
    → moved + (slash + 0) ≡ prev
    → out + 230 ≡ prev
outputs_of_takes slash bridge dust a b c d value e moved out prev h₁ h₂ h₃ h₄ h₅ h₆ h₇ h₈ h₉ =
    omega arith

pub outputs_of_move :
    (b dust a bridge out : ℕ)
    → b + (dust + 0) ≡ out
    → a + 190 ≡ bridge
    → b + dust ≡ a
    → out + 190 ≡ bridge
outputs_of_move b dust a bridge out h₁ h₂ h₃ = omega arith

pub outputs_of_slash :
    (value a b dust out : ℕ)
    → a + 330 ≡ value
    → b + 240 ≡ a
    → dust ≡ 330
    → b + (dust + (0 + 0)) ≡ out
    → out + 240 ≡ value
outputs_of_slash value a b dust out h₁ h₂ h₃ h₄ = omega arith

pub add_zero : (n : ℕ) → n + 0 ≡ n
add_zero n = omega arith

pub mod_small : (x : ℕ) → x < 2 ^ 64 → x % 2 ^ 64 ≡ x
mod_small x h = omega (arith, h)

pub add_amount-ok : (a b : ℕ) {c : ℕ} → add_amount a b ≡ ok c → a + b ≡ c
add_amount-ok a b {c} e = by_test (ltb (a + b) (2 ^ 64)) e
  where
    by_test : (t : Bool) → (if t then ok (a + b) else panicked) ≡ ok c → a + b ≡ c
    by_test true k = ok_injective k
    by_test false k = cc

pub length-kickoffs :
    (n : ℕ) (x y z : ℕ × Bytes) → length (create_tx_outs (replicate n x ++ (y ∷ z ∷ []))) ≡ n + 2
unfolding create_tx_outs
length-kickoffs zero x y z = refl
length-kickoffs (suc n) x y z = ap suc (length-kickoffs n x y z) ∙ (omega arith)
