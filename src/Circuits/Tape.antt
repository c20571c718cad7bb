-- ===== src/Circuits/Tape.antt =====
-- An environment whose input is a list of typed values, in the order in which the host wrote them.
use clementine.Prelude.{
  ℕ, ◌<◌, ◌^◌, ◌≡◌, Option, none, some, List, [], ◌∷◌, ◌==◌, ltb, length, if◌then◌else◌, arith,
}
use clementine.Prelude.Bytes.{Bytes}
use clementine.Circuits.Env.{Environment}

pub data Word : Type 0 where
  bytes32 : Bytes → Word
  u32 u64 i32 : ℕ → Word

abbrev pub Tape : Type 0
Tape = List Word

-- A value of another type, or out of its type's range, is a panic.
unfoldable pub tape_32bytes : Tape → Option (Bytes × Tape)
tape_32bytes (bytes32 b ∷ s) = if length b == 32 then some (b, s) else none
tape_32bytes _ = none

unfoldable pub tape_u32 : Tape → Option (ℕ × Tape)
tape_u32 (u32 n ∷ s) = if ltb n (2 ^ 32) then some (n, s) else none
tape_u32 _ = none

unfoldable pub tape_u64 : Tape → Option (ℕ × Tape)
tape_u64 (u64 n ∷ s) = if ltb n (2 ^ 64) then some (n, s) else none
tape_u64 _ = none

unfoldable pub tape_i32 : Tape → Option (ℕ × Tape)
tape_i32 (i32 n ∷ s) = if ltb n (2 ^ 32) then some (n, s) else none
tape_i32 _ = none

pub tape_32bytes-length : (s s' : Tape) (b : Bytes) → tape_32bytes s ≡ some (b, s') → length b ≡ 32
unfolding tape_32bytes
tape_32bytes-length [] s' b e = cc
tape_32bytes-length (bytes32 c ∷ s) s' b e = ground arith
tape_32bytes-length (u32 n ∷ s) s' b e = cc
tape_32bytes-length (u64 n ∷ s) s' b e = cc
tape_32bytes-length (i32 n ∷ s) s' b e = cc

pub tape_u32-lt : (s s' : Tape) (n : ℕ) → tape_u32 s ≡ some (n, s') → n < 2 ^ 32
unfolding tape_u32
tape_u32-lt [] s' m e = cc
tape_u32-lt (bytes32 c ∷ s) s' m e = cc
tape_u32-lt (u32 n ∷ s) s' m e = ground arith
tape_u32-lt (u64 n ∷ s) s' m e = cc
tape_u32-lt (i32 n ∷ s) s' m e = cc

abbrev pub tape : Environment Tape
tape = record {
  read_32bytes = tape_32bytes;
  read_u32 = tape_u32;
  read_u64 = tape_u64;
  read_i32 = tape_i32;
  read_32bytes-length = tape_32bytes-length;
  read_u32-lt = tape_u32-lt;
}

pub tape-bytes32 :
    (b : Bytes) (s : Tape) → length b ≡ 32 → tape.read_32bytes (bytes32 b ∷ s) ≡ some (b, s)
unfolding tape_32bytes
tape-bytes32 b s h = ground arith

pub tape-u32 : (n : ℕ) (s : Tape) → n < 2 ^ 32 → tape.read_u32 (u32 n ∷ s) ≡ some (n, s)
unfolding tape_u32
tape-u32 n s h = ground arith

pub tape-u64 : (n : ℕ) (s : Tape) → n < 2 ^ 64 → tape.read_u64 (u64 n ∷ s) ≡ some (n, s)
unfolding tape_u64
tape-u64 n s h = ground arith

pub tape-i32 : (n : ℕ) (s : Tape) → n < 2 ^ 32 → tape.read_i32 (i32 n ∷ s) ≡ some (n, s)
unfolding tape_i32
tape-i32 n s h = ground arith
