-- ===== src/Core/NonceTests.antt =====
-- A concrete run of the queries on the verifier's nonces.
use clementine.Prelude.{ℕ, ◌≡◌, refl, Option, none, some, [], ◌∷◌}
use clementine.Prelude.Bytes.{Bytes, bytes_eq}
use clementine.Core.Types.{OutPoint}
use clementine.Core.Result.{ok}
use clementine.Core.Nonces.{
  NonceRow, Nonces, save_agg_nonces, prevent_sighash_update, update_sighashes,
  save_sighashes_and_get_nonces,
}
use clementine.Core.Nonces.Once.{
  sighash_of, agg_nonces_saved, sighashes_saved, NonceSteps, done, query, NonceSteps-keeps,
}

abbrev deposit : OutPoint
deposit = record { txid = 5 ∷ []; vout = 1 }

abbrev row_of : ℕ → Bytes → Option Bytes → NonceRow
row_of idx agg sighash = record {
  deposit_outpoint = deposit;
  internal_idx = idx;
  pub_nonce = 1 ∷ [];
  sec_nonce = 2 ∷ [];
  agg_nonce = some agg;
  sighash = sighash;
}

abbrev before : Nonces
before = row_of 0 (3 ∷ []) (some (7 ∷ [])) ∷ row_of 1 (3 ∷ []) none ∷ []

abbrev between : Nonces
between = row_of 0 (4 ∷ []) (some (7 ∷ [])) ∷ row_of 1 (4 ∷ []) none ∷ []

abbrev after : Nonces
after = row_of 0 (4 ∷ []) (some (7 ∷ [])) ∷ row_of 1 (4 ∷ []) (some (8 ∷ [])) ∷ []

aggregates : save_agg_nonces deposit ((4 ∷ []) ∷ (4 ∷ []) ∷ []) before ≡ ok between
unfolding save_agg_nonces bytes_eq
aggregates = refl

signs :
    save_sighashes_and_get_nonces deposit 0 ((7 ∷ []) ∷ (8 ∷ []) ∷ []) between
    ≡ ok ((2 ∷ [], 4 ∷ []) ∷ (2 ∷ [], 4 ∷ []) ∷ [], after)
unfolding save_sighashes_and_get_nonces update_sighashes prevent_sighash_update bytes_eq
signs = refl

steps : NonceSteps before after
steps =
    query _ _ _ (agg_nonces_saved deposit ((4 ∷ []) ∷ (4 ∷ []) ∷ []) between aggregates) (
      query _ _ _ (sighashes_saved deposit 0 ((7 ∷ []) ∷ (8 ∷ []) ∷ []) _ after signs) (done after))

has_sighash : sighash_of before deposit 0 ≡ some (7 ∷ [])
unfolding bytes_eq
has_sighash = refl

NonceSteps-keeps_example : sighash_of after deposit 0 ≡ some (7 ∷ [])
NonceSteps-keeps_example = NonceSteps-keeps before after deposit 0 (7 ∷ []) steps has_sighash
