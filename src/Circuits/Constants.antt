-- ===== src/Circuits/Constants.antt =====
-- The constants of circuits/src/constants.rs that the circuits read.
use clementine.Prelude.{ℕ, zero, suc, ◌≡◌, refl, List, [], ◌∷◌, length}
use clementine.Prelude.Bytes.{Bytes}
use clementine.Circuits.Sha256.{Sha256, sha256_hash}

abbrev pub blockhash_merkle_tree_depth : ℕ
blockhash_merkle_tree_depth = 32

abbrev pub withdrawal_merkle_tree_depth : ℕ
withdrawal_merkle_tree_depth = 32

abbrev pub claim_merkle_tree_depth : ℕ
claim_merkle_tree_depth = 4

abbrev pub max_block_handle_ops : ℕ
max_block_handle_ops = 3

abbrev pub num_rounds : ℕ
num_rounds = 4

abbrev pub bridge_amount_sats : ℕ
bridge_amount_sats = 100_000_000

-- keccak256("CITREA")
pub emptydata : Bytes
emptydata =
    0xcb ∷ 0x0c ∷ 0x9f ∷ 0x42 ∷ 0x64 ∷ 0x54 ∷ 0x6b ∷ 0x15 ∷ 0xbe ∷ 0x98 ∷ 0x01 ∷ 0xec ∷ 0xb1 ∷ 0x1d
    ∷ 0xf7 ∷ 0xe4 ∷ 0x3b ∷ 0xfc ∷ 0x68 ∷ 0x41 ∷ 0x60 ∷ 0x9f ∷ 0xc1 ∷ 0xe4 ∷ 0xe9 ∷ 0xde ∷ 0x5b
    ∷ 0x3a ∷ 0x59 ∷ 0x73 ∷ 0xaf ∷ 0x38 ∷ []

pub length-emptydata : length emptydata ≡ 32
unfolding emptydata
length-emptydata = refl

module _ (H : Sha256) where
  -- `ZEROES[i]`, the root of an empty tree of height `i`. The array ends at index 32, which is also
  -- the depth of the deepest tree of the program.
  unfoldable pub zeroes : ℕ → Bytes
  zeroes zero = emptydata
  zeroes (suc i) = sha256_hash H (zeroes i ∷ zeroes i ∷ [])

  pub length-zeroes : (i : ℕ) → length (zeroes i) ≡ 32
  unfolding zeroes
  length-zeroes zero = length-emptydata
  length-zeroes (suc i) = H.length-digest _

abbrev pub period_claim_mt_roots : List Bytes
period_claim_mt_roots =
    (240 ∷ 46 ∷ 113 ∷ 222 ∷ 220 ∷ 199 ∷ 72 ∷ 92 ∷ 215 ∷ 201 ∷ 134 ∷ 161 ∷ 55 ∷ 159 ∷ 164 ∷ 12 ∷ 204
      ∷ 45 ∷ 18 ∷ 104 ∷ 6 ∷ 128 ∷ 245 ∷ 179 ∷ 50 ∷ 80 ∷ 93 ∷ 74 ∷ 246 ∷ 165 ∷ 14 ∷ 118 ∷ [])
    ∷ (239 ∷ 220 ∷ 20 ∷ 230 ∷ 23 ∷ 32 ∷ 160 ∷ 104 ∷ 119 ∷ 219 ∷ 5 ∷ 97 ∷ 146 ∷ 59 ∷ 85 ∷ 167 ∷ 94
        ∷ 55 ∷ 204 ∷ 28 ∷ 162 ∷ 62 ∷ 188 ∷ 18 ∷ 36 ∷ 214 ∷ 20 ∷ 142 ∷ 51 ∷ 46 ∷ 207 ∷ 114 ∷ [])
    ∷ (141 ∷ 123 ∷ 155 ∷ 230 ∷ 74 ∷ 20 ∷ 62 ∷ 246 ∷ 233 ∷ 108 ∷ 174 ∷ 133 ∷ 94 ∷ 36 ∷ 36 ∷ 183 ∷ 144
        ∷ 213 ∷ 183 ∷ 90 ∷ 207 ∷ 74 ∷ 237 ∷ 237 ∷ 202 ∷ 99 ∷ 231 ∷ 11 ∷ 94 ∷ 42 ∷ 133 ∷ 54 ∷ [])
    ∷ (84 ∷ 157 ∷ 96 ∷ 85 ∷ 221 ∷ 69 ∷ 198 ∷ 190 ∷ 169 ∷ 228 ∷ 62 ∷ 218 ∷ 157 ∷ 72 ∷ 19 ∷ 242 ∷ 96
        ∷ 134 ∷ 182 ∷ 183 ∷ 233 ∷ 25 ∷ 150 ∷ 14 ∷ 104 ∷ 65 ∷ 96 ∷ 98 ∷ 85 ∷ 89 ∷ 114 ∷ 191 ∷ [])
    ∷ []
