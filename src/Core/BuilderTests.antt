-- ===== src/Core/BuilderTests.antt =====
-- The tree of three scripts, and a number in its bytes.
use clementine.Prelude.{◌-◌, ◌^◌, ◌≤◌, max, ◌≡◌, refl, List, [], ◌∷◌, map, reverse, length, arith}
use clementine.Prelude.Bytes.{Bytes, from_le_bytes, to_le_bytes}
use clementine.Core.Utils.{ilog2, usize_to_var_len_bytes}
use clementine.Core.Utils.VarLen.{from_le_bytes-usize_to_var_len_bytes}
use clementine.Core.Builder.Address.{leaves_from, taproot_leaves}
use clementine.Core.Builder.Address.Tree.{FullTree, taproot_leaves-FullTree}

abbrev three : List Bytes
three = (7 ∷ []) ∷ (8 ∷ []) ∷ (9 ∷ []) ∷ []

depths_of_three : map (λ l. l.0) (taproot_leaves three) ≡ 2 ∷ 2 ∷ 1 ∷ []
unfolding taproot_leaves leaves_from ilog2
depths_of_three = refl

taproot_leaves-FullTree_example :
    FullTree 0 (map (λ l. l.0) (taproot_leaves three))
    × (map (λ l. l.1) (taproot_leaves three) ≡ three)
taproot_leaves-FullTree_example = taproot_leaves-FullTree three (omega arith) (omega arith)

two_bytes : usize_to_var_len_bytes 256 ≡ 1 ∷ 0 ∷ []
unfolding usize_to_var_len_bytes ilog2 to_le_bytes
two_bytes = refl

from_le_bytes-usize_to_var_len_bytes_example :
    (from_le_bytes (reverse (usize_to_var_len_bytes 256)) ≡ 256)
    × (length (usize_to_var_len_bytes 256) ≤ 8)
    × (256 ^ (length (usize_to_var_len_bytes 256) - 1) ≤ max 256 1)
from_le_bytes-usize_to_var_len_bytes_example =
    from_le_bytes-usize_to_var_len_bytes 256 (omega arith)
