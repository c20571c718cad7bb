-- ===== src/Core/Result.antt =====
-- Results of the fallible functions of the crate core. A failed `?` returns an error, and a failed
-- `assert!`, `unwrap`, index or subtraction of amounts panics.
use clementine.Prelude.{ℕ, Option, none, some, ◌≡◌, refl, ap}
use clementine.Prelude.Bytes.{Bytes}

-- `BridgeError` of core/src/errors.rs. Texts and the errors of libraries are left out.
pub data BridgeError : Type 0 where
  secp256k1_error : BridgeError
  bitcoin_sighash_taproot_error : BridgeError
  deposit_not_finalized : BridgeError
  invalid_deposit_utxo : BridgeError
  utxo_spent : BridgeError
  failed_to_get_presigns : BridgeError
  txid_not_found : BridgeError
  bitcoin_rpc_error : BridgeError
  no_confirmation_data : BridgeError
  vec_conversion_error : BridgeError
  try_from_slice_error : BridgeError
  bitcoin_consensus_encode_error : BridgeError
  tx_input_not_found : BridgeError
  preimage_not_found : BridgeError
  taproot_builder_error : BridgeError
  taproot_script_error : BridgeError
  control_block_error : BridgeError
  pk_sk_length_mismatch : BridgeError
  public_key_not_found : BridgeError
  invalid_operator_key : BridgeError
  already_initialized : BridgeError
  blockhash_not_found : BridgeError
  block_not_found : BridgeError
  merkle_block_error : BridgeError
  merkle_proof_error : BridgeError
  json_rpc_error : BridgeError
  config_error : BridgeError
  bitcoin_address_parse_error : BridgeError
  port_error : BridgeError
  database_error : BridgeError
  pg_database_error : BridgeError
  already_spent_withdrawal : BridgeError
  server_error : BridgeError
  operator_funding_utxo_not_found : Bytes → BridgeError
  operator_funding_utxo_amount_not_enough : Bytes → BridgeError
  operator_withdrawal_fee_not_set : BridgeError
  invalid_kickoff_utxo : BridgeError
  key_agg_context_error : BridgeError
  key_agg_context_tweak_error : BridgeError
  invalid_scalar_bytes : BridgeError
  nonces_not_found : BridgeError
  musig2_verify_error : BridgeError
  kickoff_outpoints_not_found : BridgeError
  deposit_info_not_found : BridgeError
  from_hex_error : BridgeError
  from_slice_error : BridgeError
  invalid_input_utxo : Bytes → Bytes → BridgeError
  invalid_operator_index : ℕ → ℕ → BridgeError
  invalid_deposit_outpoint_given : ℕ → ℕ → BridgeError
  not_enough_fee_for_operator : BridgeError
  kickoff_generator_tx_not_found : BridgeError
  kickoff_generator_txs_too_many_iterations : BridgeError
  operator_slash_or_take_sig_not_found : BridgeError
  operator_takes_sig_not_found : BridgeError
  musig2_error : BridgeError

pub data Result (A : Type 0) : Type 0 where
  ok : A → Result A
  err : BridgeError → Result A
  panicked : Result A

-- A function that may fail.
infixl 5 ◌>>=◌
abbrev pub ◌>>=◌ : {A B : Type 0} → Result A → (A → Result B) → Result B
r >>= f = elim r [ ok a ↦ f a | err e ↦ err e | panicked ↦ panicked ]

-- `unwrap`, or an index into a vector.
abbrev pub or_panicked : {A : Type 0} → Option A → Result A
or_panicked none = panicked
or_panicked (some a) = ok a

-- `ok_or(…)?`
abbrev pub ok_or : {A : Type 0} → BridgeError → Option A → Result A
ok_or e none = err e
ok_or e (some a) = ok a

-- `unwrap` of a result.
abbrev pub unwrap : {A : Type 0} → Result A → Result A
unwrap (ok a) = ok a
unwrap (err e) = panicked
unwrap panicked = panicked

pub >>=-eq_ok :
    {A B : Type 0} (r : Result A) (f : A → Result B) {b : B}
    → (r >>= f) ≡ ok b
    → (a : A) × (r ≡ ok a) × (f a ≡ ok b)
>>=-eq_ok (ok a) f e = (a, refl, e)
>>=-eq_ok (err x) f e = cc
>>=-eq_ok panicked f e = cc

pub ok_injective : {A : Type 0} {a b : A} → ok a ≡ ok b → a ≡ b
ok_injective e = cc e

pub >>=-of_ok :
    {A B : Type 0} (r : Result A) (f : A → Result B) {a : A} → r ≡ ok a → (r >>= f) ≡ f a
>>=-of_ok r f e = ap (λ x. x >>= f) e

pub ok_or-eq_ok :
    {A : Type 0} (e : BridgeError) (o : Option A) {a : A} → ok_or e o ≡ ok a → o ≡ some a
ok_or-eq_ok e none k = cc
ok_or-eq_ok e (some b) k = ap some (ok_injective k)

pub or_panicked-eq_ok : {A : Type 0} (o : Option A) {a : A} → or_panicked o ≡ ok a → o ≡ some a
or_panicked-eq_ok none k = cc
or_panicked-eq_ok (some b) k = ap some (ok_injective k)
