-- ===== src/Core/Verifier/Calls/OneDigest.antt =====
-- A nonce of a verifier of core/src/verifier.rs signs one digest.
use clementine.Prelude.{
  ℕ, ◌≡◌, refl, sym, ◌∙◌, List, [], ◌∷◌, some, Bool, true, false, ◌||◌, if◌then◌else◌,
}
use clementine.Prelude.Bytes.{Bytes}
use clementine.Core.Types.{OutPoint}
use clementine.Core.Libraries.{Libraries}
use clementine.Core.Nonces.{Nonces, has_key, contains_key}
use clementine.Core.Nonces.Once.{sighash_of, sighashes_saved, NonceStep-keeps}
use clementine.Core.Nonces.Recorded.{Recorded, Recorded-sighash_of}
use clementine.Core.Verifier.{Verifier, Tables}
use clementine.Core.Verifier.Calls.{Call, run}
use clementine.Core.Verifier.Calls.Sighashes.{run-keeps_sighash}

-- Only a row can have a sighash.
contains_key-sighash_of :
    (table : Nonces) (d : OutPoint) (i : ℕ) (h : Bytes)
    → sighash_of table d i ≡ some h
    → contains_key table d i ≡ true
contains_key-sighash_of [] d i h e = cc
contains_key-sighash_of (row ∷ rows) d i h e =
    by_key (has_key row d i) (contains_key-sighash_of rows d i h) e
  where
    by_key :
        (t : Bool)
        → (sighash_of rows d i ≡ some h → contains_key rows d i ≡ true)
        → (if t then row.sighash else sighash_of rows d i) ≡ some h
        → (t || contains_key rows d i) ≡ true
    by_key true later k = refl
    by_key false later k = later k

some_injective : {A : Type 0} {a b : A} → some a ≡ some b → a ≡ b
some_injective e = cc e

module _ {Network KeyAggContext : Type 0} (L : Libraries Network KeyAggContext)
    (V : Verifier Network) where
  -- When a verifier has recorded a digest for one of its nonces, and then, after any calls, failing or
  -- not, records a digest for the same nonce, the two digests are the same.
  pub run-one_digest :
      (calls : List Call) (before after : Nonces) (db : Tables) (d : OutPoint) (i : ℕ)
      (h h' : Bytes)
      → contains_key before d i ≡ true
      → Recorded d i h before db.nonces
      → Recorded d i h' (run L V calls db).nonces after
      → h ≡ h'
  run-one_digest calls before after db d i h h' c first second =
      let later = run-keeps_sighash L V calls db d i h (Recorded-sighash_of d i h _ _ first c) in
      let kept =
        NonceStep-keeps (run L V calls db).nonces after d i h
          (sighashes_saved d second.index second.sighashes second.pairs after second.answered)
          later in
      some_injective (
        sym kept
        ∙ Recorded-sighash_of d i h' _ _ second
            (contains_key-sighash_of (run L V calls db).nonces d i h later))
