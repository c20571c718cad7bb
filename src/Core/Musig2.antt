-- ===== src/Core/Musig2.antt =====
-- core/src/musig2.rs over the crate `musig2`. A key of the crate `secp256k1` and the same key of the
-- crate `musig2` have the same bytes, which stand for both.
use clementine.Prelude.{List, [], ◌∷◌, Option, none, some, Bool, true, false, if◌then◌else◌}
use clementine.Prelude.Bytes.{Bytes}
use clementine.Core.Types.{Keypair}
use clementine.Core.Result.{
  Result, ok, err, ◌>>=◌, or_panicked, ok_or, unwrap, vec_conversion_error, key_agg_context_error,
  key_agg_context_tweak_error, musig2_verify_error,
}

-- The functions of the crate `musig2`. A decoded nonce or signature stands as its bytes, and keys are
-- x-only where the crate core reads them.
pub record Musig2 (KeyAggContext : Type 0) : Type 0 where
  pub new_key_agg_context : List Bytes → Option KeyAggContext
  pub with_taproot_tweak : KeyAggContext → Bytes → Option KeyAggContext
  pub with_unspendable_taproot_tweak : KeyAggContext → Option KeyAggContext
  pub aggregated_pubkey : KeyAggContext → Bytes
  pub aggregated_pubkey_untweaked : KeyAggContext → Bytes
  pub pub_nonce_from_bytes : Bytes → Option Bytes
  pub agg_nonce_from_bytes : Bytes → Option Bytes
  pub sec_nonce_from_bytes : Bytes → Option Bytes
  pub partial_signature_from_slice : Bytes → Option Bytes
  pub sum : List Bytes → Bytes
  pub aggregate : KeyAggContext → Bytes → List Bytes → Bytes → Option Bytes
  pub build_sec_nonce : Bytes → Keypair → Bytes
  pub public_nonce : Bytes → Bytes
  pub sign_partial : KeyAggContext → Bytes → Bytes → Bytes → Bytes → Option Bytes

-- Every element is decoded, or none is.
abbrev pub traverse : {A B : Type 0} → (A → Option B) → List A → Option (List B)
traverse f [] = some []
traverse f (x ∷ xs) = elim (f x) [
  | none ↦ none
  | some y ↦ elim (traverse f xs) [ none ↦ none | some ys ↦ some (y ∷ ys) ]
]

module _ {KeyAggContext : Type 0} (M : Musig2 KeyAggContext) where
  -- The tweak of a context, when there is to be one.
  unfoldable pub tweaked : KeyAggContext → Option Bytes → Bool → Result KeyAggContext
  tweaked key_agg_ctx_raw (some scalar) true =
      ok_or key_agg_context_tweak_error (M.with_taproot_tweak key_agg_ctx_raw scalar)
  tweaked key_agg_ctx_raw none true =
      ok_or key_agg_context_tweak_error (M.with_unspendable_taproot_tweak key_agg_ctx_raw)
  tweaked key_agg_ctx_raw (some scalar) false = err vec_conversion_error
  tweaked key_agg_ctx_raw none false = ok key_agg_ctx_raw

  unfoldable pub create_key_agg_ctx : List Bytes → Option Bytes → Bool → Result KeyAggContext
  create_key_agg_ctx pks tweak tweak_flag =
      ok_or key_agg_context_error (M.new_key_agg_context pks)
      >>= (λ key_agg_ctx_raw. tweaked key_agg_ctx_raw tweak tweak_flag)

  unfoldable pub from_musig2_pks : List Bytes → Option Bytes → Bool → Result Bytes
  from_musig2_pks pks tweak tweak_flag =
      unwrap (create_key_agg_ctx pks tweak tweak_flag) >>= (λ key_agg_ctx. ok (
        if tweak_flag
        then M.aggregated_pubkey key_agg_ctx
        else M.aggregated_pubkey_untweaked key_agg_ctx))

  unfoldable pub aggregate_nonces : List Bytes → Result Bytes
  aggregate_nonces pub_nonces =
      or_panicked (traverse M.pub_nonce_from_bytes pub_nonces)
      >>= (λ musig_pub_nonces. ok (M.sum musig_pub_nonces))

  unfoldable pub aggregate_partial_signatures :
      List Bytes → Option Bytes → Bool → Bytes → List Bytes → Bytes → Result Bytes
  aggregate_partial_signatures pks tweak tweak_flag agg_nonce partial_sigs message =
      create_key_agg_ctx pks tweak tweak_flag >>= (λ key_agg_ctx.
        or_panicked (traverse M.partial_signature_from_slice partial_sigs)
        >>= (λ musig_partial_sigs.
            or_panicked (M.agg_nonce_from_bytes agg_nonce) >>= (λ musig_agg_nonce.
              ok_or musig2_verify_error
                (M.aggregate key_agg_ctx musig_agg_nonce musig_partial_sigs message))))

  -- The random bytes are an argument.
  unfoldable pub nonce_pair : Keypair → Bytes → Bytes × Bytes
  nonce_pair keypair rnd =
      let sec_nonce = M.build_sec_nonce rnd keypair in (sec_nonce, M.public_nonce sec_nonce)

  unfoldable pub partial_sign :
      List Bytes → Option Bytes → Bool → Bytes → Bytes → Keypair → Bytes → Result Bytes
  partial_sign pks tweak tweak_flag sec_nonce agg_nonce keypair sighash =
      unwrap (create_key_agg_ctx pks tweak tweak_flag) >>= (λ key_agg_ctx.
        or_panicked (M.sec_nonce_from_bytes sec_nonce) >>= (λ musig_sec_nonce.
          or_panicked (M.agg_nonce_from_bytes agg_nonce) >>= (λ musig_agg_nonce. or_panicked (
            M.sign_partial key_agg_ctx keypair.secret_key musig_sec_nonce musig_agg_nonce
              sighash))))
