-- ===== src/Circuits/Sha256.antt =====
-- The hashing macros of circuits/src/hashes.rs. A hasher is the bytes that it has absorbed.
-- SHA-256 itself is the crate `sha2`: a parameter, known only to return 32 bytes.
use clementine.Prelude.{◌≡◌, List, [], ◌∷◌, ◌++◌, length}
use clementine.Prelude.Bytes.{Bytes}

pub record Sha256 : Type 0 where
  pub digest : Bytes → Bytes
  pub length-digest : (m : Bytes) → length (digest m) ≡ 32

abbrev pub Hasher : Type 0
Hasher = Bytes

abbrev pub update : Hasher → Bytes → Hasher
update hasher bytes = hasher ++ bytes

-- The arguments of a macro, one `update` for each.
abbrev pub update_all : Hasher → List Bytes → Hasher
update_all hasher [] = hasher
update_all hasher (b ∷ bs) = update_all (update hasher b) bs

module _ (H : Sha256) where
  -- `sha256_hash!`
  abbrev pub sha256_hash : List Bytes → Bytes
  sha256_hash args = H.digest (update_all [] args)

  -- `double_sha256_hash!`
  abbrev pub double_sha256_hash : List Bytes → Bytes
  double_sha256_hash args = H.digest (H.digest (update_all [] args))
