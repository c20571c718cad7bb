-- ===== src/Circuits/Env.antt =====
-- The trait `Environment` of circuits/src/env.rs as an interface, and the reading monad.
-- A read hands over the rest of the input; `none` is a panic.
use clementine.Prelude.{ℕ, ◌<◌, ◌^◌, ◌≡◌, refl, ap, Option, none, some, length, Bool, true, false}
use clementine.Prelude.Bytes.{Bytes}

abbrev pub M : Type 0 → Type 0 → Type 0
M S A = S → Option (A × S)

module _ {S : Type 0} where
  abbrev pub pure : {A : Type 0} → A → M S A
  pure a s = some (a, s)

  abbrev pub panic : {A : Type 0} → M S A
  panic s = none

  infixl 5 ◌>>=◌ ◌>>◌
  abbrev pub ◌>>=◌ : {A B : Type 0} → M S A → (A → M S B) → M S B
  ◌>>=◌ m f s = elim (m s) [ none ↦ none | some (a, s') ↦ f a s' ]

  abbrev pub ◌>>◌ : {A B : Type 0} → M S A → M S B → M S B
  m >> k = m >>= λ _. k

-- `assert!`
abbrev pub assert : {S : Type 0} → Bool → M S Unit
assert true s = some (tt, s)
assert false s = none

-- The guest only reads. An `i32` is its bit pattern, since it is only written to a hasher again.
-- The laws are what the return types of the trait say.
pub record Environment (S : Type 0) : Type 0 where
  pub read_32bytes : S → Option (Bytes × S)
  pub read_u32 : S → Option (ℕ × S)
  pub read_u64 : S → Option (ℕ × S)
  pub read_i32 : S → Option (ℕ × S)
  pub read_32bytes-length : (s s' : S) (b : Bytes) → read_32bytes s ≡ some (b, s') → length b ≡ 32
  pub read_u32-lt : (s s' : S) (n : ℕ) → read_u32 s ≡ some (n, s') → n < 2 ^ 32

-- A run that ends has run its first part to the end.
pub >>=-eq_some :
    {S A B : Type 0} (m : M S A) (f : A → M S B) (s : S) {r : B × S}
    → (m >>= f) s ≡ some r
    → (a : A) × (t : S) × (m s ≡ some (a, t)) × (f a t ≡ some r)
>>=-eq_some {S} {A} {B} m f s {r} h = split (m s) refl h
  where
    split :
        (o : Option (A × S))
        → m s ≡ o
        → elim o [ none ↦ none | some (a, t) ↦ f a t ] ≡ some r
        → (a : A) × (t : S) × (m s ≡ some (a, t)) × (f a t ≡ some r)
    split none e k = cc
    split (some (a, t)) e k = (a, t, e, k)

pub >>=-of_some :
    {S A B : Type 0} (m : M S A) (f : A → M S B) (s : S) {a : A} {t : S}
    → m s ≡ some (a, t)
    → (m >>= f) s ≡ f a t
>>=-of_some {S} {A} {B} m f s h =
    ap
      (λ (o : Option (A × S)). elim o as (λ _. Option (B × S)) [
        | none ↦ none
        | some (a, t) ↦ f a t
      ])
      h

pub some_pair-injective :
    {A S : Type 0} {a b : A} {s t : S}
    → ◌≡◌ {A = Option (A × S)} (some (a, s)) (some (b, t))
    → (a ≡ b) × (s ≡ t)
some_pair-injective e = (cc e, cc e)

-- An assertion that does not stop the run holds, and the run goes on.
pub assert-eq_some :
    {S B : Type 0} (b : Bool) (f : Unit → M S B) (s : S) {r : B × S}
    → (assert b >>= f) s ≡ some r
    → (b ≡ true) × (f tt s ≡ some r)
assert-eq_some true f s e = (refl, e)
assert-eq_some false f s e = cc

pub assert_last-eq_some :
    {S : Type 0} (b : Bool) (s s' : S) → assert b s ≡ some (tt, s') → (b ≡ true) × (s ≡ s')
assert_last-eq_some true s s' e = (refl, (some_pair-injective e).1)
assert_last-eq_some false s s' e = cc
