-- ===== src/Core/Database/Unused.antt =====
-- Which kickoffs a table of generator transactions has handed out, and what the `UPDATE` of
-- `get_unused_kickoff_utxo_and_increase_idx` does to them.
use clementine.Prelude.{
  ◌-◌, ◌<◌, ◌≡◌, refl, sym, ap, subst, ◌∙◌, ◌⊎◌, inl, inr, List, [], ◌∷◌, Option, none, some, Bool,
  true, false, ltb, ◌||◌, if◌then◌else◌, arith,
}
use clementine.Prelude.Bytes.{Bytes, bytes_eq, bytes_eq_refl}
use clementine.Circuits.Env.{some_pair-injective}
use clementine.Core.Types.{OutPoint}
use clementine.Core.Database.{GeneratorTx, increased, increase_idx, has_txid}

-- The output of a generator transaction below its index has been handed out.
abbrev pub Issued : List GeneratorTx → OutPoint → Type 0
Issued [] o = ⊥
Issued (g ∷ gs) o = ((o.txid ≡ g.txid) × (o.vout < g.cur_unused_kickoff_index)) ⊎ Issued gs o

abbrev pub DistinctTxids : List GeneratorTx → Type 0
DistinctTxids [] = Unit
DistinctTxids (g ∷ gs) = (has_txid gs g.txid ≡ false) × DistinctTxids gs

or-false : (a b : Bool) → (a || b) ≡ false → (a ≡ false) × (b ≡ false)
or-false true b e = cc
or-false false b e = (refl, e)

pub not-Issued :
    (gs : List GeneratorTx) (o : OutPoint) → has_txid gs o.txid ≡ false → Issued gs o → ⊥
not-Issued [] o e i = i
not-Issued (g ∷ gs) o e (inl (same, below)) =
    let here = (or-false (bytes_eq g.txid o.txid) (has_txid gs o.txid) e).0 in
    let equal : bytes_eq g.txid o.txid ≡ true = ap (bytes_eq g.txid) same ∙ bytes_eq_refl g.txid in
    cc
not-Issued (g ∷ gs) o e (inr i) =
    not-Issued gs o (or-false (bytes_eq g.txid o.txid) (has_txid gs o.txid) e).1 i

-- What the `UPDATE` has done to the table `gs`, where it returned the row `h`.
pub record Taken (gs : List GeneratorTx) (h : GeneratorTx) (hs : List GeneratorTx) : Type 0 where
  pub was_unused :
      DistinctTxids gs
      → (o : OutPoint) → o.txid ≡ h.txid
      → o.vout ≡ h.cur_unused_kickoff_index - 1
      → Issued gs o
      → ⊥
  pub is_issued :
      (o : OutPoint) → o.txid ≡ h.txid → o.vout ≡ h.cur_unused_kickoff_index - 1 → Issued hs o
  pub stays_issued : (o : OutPoint) → Issued gs o → Issued hs o
  pub same_txids : (txid : Bytes) → has_txid hs txid ≡ has_txid gs txid
  pub distinct : DistinctTxids gs → DistinctTxids hs
  pub named : has_txid gs h.txid ≡ true

take_here :
    (g : GeneratorTx) (gs : List GeneratorTx) → Taken (g ∷ gs) (increased g) (increased g ∷ gs)
take_here g gs = record {
  was_unused = λ d o p q i. elim i [
    | inl below ↦ absurd (omega (arith, q, below.1))
    | inr later ↦ not-Issued gs o (ap (has_txid gs) p ∙ d.0) later
  ];
  is_issued = λ o p q. inl (p, omega (arith, q));
  stays_issued =
      λ o i. elim i [ inl below ↦ inl (below.0, omega (arith, below.1)) | inr later ↦ inr later ];
  same_txids = λ txid. refl;
  distinct = λ d. d;
  named = rw bytes_eq_refl refl;
}

take_below :
    (g h : GeneratorTx) (gs hs : List GeneratorTx) → Taken gs h hs → Taken (g ∷ gs) h (g ∷ hs)
take_below g h gs hs t = record {
  was_unused = λ d o p q i. elim i [
    | inl below ↦ absurd (true_is_false (sym t.named ∙ ap (has_txid gs) (sym p ∙ below.0) ∙ d.0))
    | inr later ↦ t.was_unused d.1 o p q later
  ];
  is_issued = λ o p q. inr (t.is_issued o p q);
  stays_issued = λ o i. elim i [ inl below ↦ inl below | inr later ↦ inr (t.stays_issued o later) ];
  same_txids = λ txid. ap (λ b. bytes_eq g.txid txid || b) (t.same_txids txid);
  distinct = λ d. (t.same_txids g.txid ∙ d.0, t.distinct d.1);
  named = rw t.named (or_true (bytes_eq g.txid h.txid));
}
  where
    true_is_false : true ≡ false → ⊥
    true_is_false e = cc

    or_true : (b : Bool) → (b || true) ≡ true
    or_true true = refl
    or_true false = refl

pub increase_idx-Taken :
    (gs : List GeneratorTx) (h : GeneratorTx) (hs : List GeneratorTx)
    → increase_idx gs ≡ some (h, hs)
    → Taken gs h hs
unfolding increase_idx
increase_idx-Taken [] h hs e = cc
increase_idx-Taken (g ∷ gs) h hs e =
    by_test (ltb g.cur_unused_kickoff_index g.num_kickoffs) (increase_idx gs)
      (λ h' hs' at. increase_idx-Taken gs h' hs' at) e
  where
    by_test :
        (t : Bool) (o : Option (GeneratorTx × List GeneratorTx))
        → ((h' : GeneratorTx) (hs' : List GeneratorTx) → o ≡ some (h', hs') → Taken gs h' hs')
        → (let rest : Option (GeneratorTx × List GeneratorTx) = elim o [
          | none ↦ none
          | some (h, hs) ↦ some (h, g ∷ hs)
        ] in
            if t then some (increased g, increased g ∷ gs) else rest)
          ≡ some (h, hs)
        → Taken (g ∷ gs) h hs
    by_test true o below k =
        let (same, table) = some_pair-injective k in
        subst (λ a. Taken (g ∷ gs) a hs) same
          (subst (Taken (g ∷ gs) (increased g)) table (take_here g gs))
    by_test false none below k = cc
    by_test false (some (h', hs')) below k =
        let (same, table) = some_pair-injective k in
        subst (λ a. Taken (g ∷ gs) a hs) same
          (subst (Taken (g ∷ gs) h') table (take_below g h' gs hs' (below h' hs' refl)))
