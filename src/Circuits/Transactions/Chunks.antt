-- ===== src/Circuits/Transactions/Chunks.antt =====
-- Lengths and texts: the chunks that were written are read back (`read_chunks_and_update_hasher`).
use clementine.Prelude.{
  ℕ, zero, suc, ◌-◌, ◌*◌, ◌/◌, ◌%◌, ◌^◌, ◌<◌, ◌≤◌, ◌≡◌, refl, sym, ap, ◌∙◌, [], ◌∷◌, ◌++◌, lt→ltb,
  some, length, take, drop, replicate, append_assoc, append-nil, take-append, take-append-drop,
  length-drop, length-take, length-append, length-replicate, arith,
}
use clementine.Prelude.Bytes.{Bytes, to_le_bytes}
use clementine.Circuits.Sha256.{Hasher}
use clementine.Circuits.Env.{pure, >>=-of_some}
use clementine.Circuits.Tape.{Tape, tape, tape-bytes32}
use clementine.Circuits.Transactions.{
  update_hasher_with_varint, read_chunks, read_remaining, read_chunks_and_update_hasher,
}
use clementine.Circuits.Transactions.Format.{compact_size}
use clementine.Circuits.Transactions.Written.{pad, write_chunks, write_bytes}

pub update_hasher_with_varint_lem :
    (h : Hasher) (n : ℕ) → n < 2 ^ 32 → update_hasher_with_varint h n ≡ h ++ compact_size n
unfolding update_hasher_with_varint
update_hasher_with_varint_lem h n lt = ground (
  arith,
  append_assoc h (253 ∷ []) (to_le_bytes 2 n),
  append_assoc h (254 ∷ []) (to_le_bytes 4 n),
)

-- What whole chunks take of a text, and what they leave.
abbrev body : ℕ → Bytes → Bytes
body zero b = []
body (suc n) b = take 32 b ++ body n (drop 32 b)

abbrev left_over : ℕ → Bytes → Bytes
left_over zero b = b
left_over (suc n) b = left_over n (drop 32 b)

body-append-left_over : (n : ℕ) (b : Bytes) → body n b ++ left_over n b ≡ b
body-append-left_over zero b = refl
body-append-left_over (suc n) b =
    append_assoc (take 32 b) (body n (drop 32 b)) (left_over n (drop 32 b))
    ∙ ap (λ r. take 32 b ++ r) (body-append-left_over n (drop 32 b))
    ∙ take-append-drop 32 b

length-left_over : (n : ℕ) (b : Bytes) → length (left_over n b) ≡ length b - 32 * n
length-left_over zero b = omega arith
length-left_over (suc n) b = omega (arith, length-left_over n (drop 32 b), length-drop 32 b)

read_chunks-write :
    (n : ℕ) (b : Bytes) (h : Hasher) (rest : Tape)
    → 32 * n ≤ length b
    → read_chunks tape n h (write_chunks n b ++ rest)
      ≡ some (h ++ body n b, write_chunks zero (left_over n b) ++ rest)
unfolding read_chunks
read_chunks-write zero b h rest le = ap (λ x. some (x, _)) (sym (append-nil h))
read_chunks-write (suc n) b h rest le =
    >>=-of_some tape.read_32bytes (λ chunk. read_chunks tape n (h ++ chunk)) _
      (tape-bytes32 (take 32 b) _ (omega (arith, length-take 32 b)))
    ∙ read_chunks-write n (drop 32 b) (h ++ take 32 b) rest (omega (arith, length-drop 32 b))
    ∙ ap (λ x. some (x, write_chunks zero (left_over n (drop 32 b)) ++ rest))
        (append_assoc h (take 32 b) (body n (drop 32 b)))

length-pad : (b : Bytes) → length b ≤ 32 → length (pad b) ≡ 32
length-pad b le = omega (
  arith,
  length-append b (replicate {A = ℕ} (32 - length b) 0),
  length-replicate {A = ℕ} (32 - length b) 0,
)

read_remaining-write :
    (c : Bytes) (n : ℕ) (h : Hasher) (rest : Tape)
    → length c < 32
    → n ≡ length c
    → read_remaining tape n h (write_chunks zero c ++ rest) ≡ some (h ++ c, rest)
unfolding read_remaining
read_remaining-write [] n h rest lt e = rw e (ap (λ x. some (x, rest)) (sym (append-nil h)))
read_remaining-write (x ∷ c) n h rest lt e =
    rw (e, lt→ltb 0 (suc (length c)) (omega arith))
      (>>=-of_some tape.read_32bytes (λ chunk. pure (h ++ take (suc (length c)) chunk)) _
          (tape-bytes32 (pad (x ∷ c)) rest (length-pad (x ∷ c) (omega arith)))
        ∙ ap (λ r. some (h ++ r, rest)) (take-append (x ∷ c) (replicate (32 - suc (length c)) 0)))

pub read_chunks_and_update_hasher-write :
    (b : Bytes) (h : Hasher) (rest : Tape)
    → read_chunks_and_update_hasher tape h (length b) (write_bytes b ++ rest) ≡ some (h ++ b, rest)
unfolding read_chunks_and_update_hasher
read_chunks_and_update_hasher-write b h rest =
    let n = length b / 32 in
    >>=-of_some (read_chunks tape n h) (read_remaining tape (length b % 32)) _
      (read_chunks-write n b h rest (omega arith))
    ∙ read_remaining-write (left_over n b) (length b % 32) (h ++ body n b) rest
        (omega (arith, length-left_over n b)) (omega (arith, length-left_over n b))
    ∙ ap (λ r. some (r, rest))
        (append_assoc h (body n b) (left_over n b) ∙ ap (λ r. h ++ r) (body-append-left_over n b))
