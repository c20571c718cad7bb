-- ===== src/Circuits/Blocks/Chain.antt =====
-- What a run over block headers establishes, for any input.
use clementine.Prelude.{
  ℕ, zero, suc, ◌+◌, ◌^◌, ◌<◌, ◌≤◌, ◌≡◌, refl, sym, ap, subst, ◌∙◌, Option, none, some, List, [],
  ◌∷◌, ◌++◌, length, append_assoc, append-nil, length-append, arith, ◌==◌, ltb, take, replicate,
  ◌-◌, ◌%◌, if◌then◌else◌,
}
use clementine.Prelude.Bytes.{Bytes, to_le_bytes}
use clementine.Circuits.Sha256.{Sha256}
use clementine.Circuits.Env.{M, ◌>>=◌, Environment, >>=-eq_some, >>=-of_some, some_pair-injective}
use clementine.Circuits.IncrementalMerkle.{IncrementalMerkleTree, add}
use clementine.Circuits.IncrementalMerkle.Root.{Holds, add-Holds}
use clementine.Circuits.Work.{validate_threshold_and_add_work}
use clementine.Circuits.Blocks.{
  Header, Progress, or_panic, read_header_except_prev_blockhash, read_blocks_from,
  read_blocks_and_add_to_merkle_tree, read_work_from, read_blocks_and_calculate_work,
}
use clementine.Circuits.Blocks.Headers.{
  block_hash, next_hash_lem, chain_hashes, last_hash, chain_work, kept_from, kept_from_lem,
  HeaderRead, HeadersRead, header_read,
}

pub or_panic-eq_some :
    {S A : Type 0} (o : Option A) (s t : S) (a : A)
    → or_panic o s ≡ some (a, t)
    → (o ≡ some a) × (s ≡ t)
or_panic-eq_some none s t a e = cc
or_panic-eq_some (some b) s t a e = (cc, cc)

module _ (H : Sha256) where
  -- What a run from round `i` has done to the state `p`, for the headers that it has read.
  pub record Ran (d : ℕ) (leaves : List Bytes) (i k : ℕ) (headers : List Header) (p p' : Progress)
      : Type 0 where
    pub tree : Holds H d (leaves ++ chain_hashes H p.curr_prev_block_hash headers) p'.imt
    pub last : p'.curr_prev_block_hash ≡ last_hash H p.curr_prev_block_hash headers
    pub kept : p'.lc_block_hash ≡ kept_from H i k p.curr_prev_block_hash p.lc_block_hash headers
    pub work : chain_work H p.curr_prev_block_hash headers p.total_work ≡ some p'.total_work

  append_cons :
      (xs : List Bytes) (a : Bytes) (ys : List Bytes) → (xs ++ (a ∷ [])) ++ ys ≡ xs ++ (a ∷ ys)
  append_cons xs a ys = append_assoc xs (a ∷ []) ys

  chain_work-cons :
      (prev : Bytes) (h : Header) (hs : List Header) (w w' : ℕ)
      → validate_threshold_and_add_work (to_le_bytes 4 h.bits) (block_hash H prev h) w ≡ some w'
      → chain_work H prev (h ∷ hs) w ≡ chain_work H (block_hash H prev h) hs w'
  chain_work-cons prev h hs w w' e = rw (e, chain_work) refl

  module _ {S : Type 0} (E : Environment S) where
    -- A round behind its header, for the hash of the block.
    abbrev round_rest : ℕ → ℕ → ℕ → ℕ → Progress → Header → Bytes → M S Progress
    round_rest rounds i n m p header next = do
      work ←
          or_panic (validate_threshold_and_add_work (to_le_bytes 4 header.bits) next p.total_work)
      read_blocks_from H E rounds (i + 1) n m (record {
        imt = add H next p.imt;
        total_work = work;
        curr_prev_block_hash = next;
        lc_block_hash =
            if i == (n + 2 ^ 32 - m) % 2 ^ 32 then p.curr_prev_block_hash else p.lc_block_hash;
      })

    read_blocks_from-Ran :
        (d rounds i n m : ℕ) (leaves : List Bytes) (p p' : Progress) (s s' : S)
        → Holds H d leaves p.imt
        → length leaves + rounds ≤ 2 ^ d
        → length leaves + rounds < 2 ^ 32
        → read_blocks_from H E rounds i n m p s ≡ some (p', s')
        → (headers : List Header) × (length headers ≡ rounds)
          × HeadersRead E headers s s'
          × Ran d leaves i ((n + 2 ^ 32 - m) % 2 ^ 32) headers p p'
    unfolding read_blocks_from
    read_blocks_from-Ran d zero i n m leaves p p' s s' h room small e =
        let (same, ends) = some_pair-injective e in
        (
          [],
          refl,
          ends,
          record {
            tree = subst (λ q. Holds H d (leaves ++ []) q.imt) same (rw append-nil h);
            last = ap (λ q. q.curr_prev_block_hash) (sym same);
            kept = ap (λ q. q.lc_block_hash) (sym same);
            work = ap (λ q. some q.total_work) same;
          },
        )
    read_blocks_from-Ran d (suc rounds) i n m leaves p p' s s' h room small e =
        let (header, s₁, read, e₁) = >>=-eq_some (read_header_except_prev_blockhash H E) _ s e in
        let next = block_hash H p.curr_prev_block_hash header in
        let rest =
          subst (λ x. round_rest rounds i n m p header x s₁ ≡ some (p', s'))
            (next_hash_lem H p.curr_prev_block_hash header) e₁ in
        let (work, s₂, checked, e₂) =
          >>=-eq_some
            (or_panic
              (validate_threshold_and_add_work (to_le_bytes 4 header.bits) next p.total_work))
            _ s₁ rest in
        let (at_work, stays) = or_panic-eq_some _ s₁ s₂ work checked in
        let (headers, count, reads, ran) =
          read_blocks_from-Ran d rounds (i + 1) n m (leaves ++ (next ∷ [])) _ p' s₂ s'
            (add-Holds H d leaves next p.imt h (omega arith) (omega arith))
            (rw length-append (omega arith)) (rw length-append (omega arith)) e₂ in
        (
          header ∷ headers,
          ap suc count,
          (s₂, subst (HeaderRead E header s) stays (header_read E H header s s₁ read), reads),
          record {
            tree = subst (λ ls. Holds H d ls p'.imt) (append_cons leaves next _) ran.tree;
            last = ran.last;
            kept = ran.kept;
            work =
                chain_work-cons p.curr_prev_block_hash header headers p.total_work work at_work
                ∙ ran.work;
          },
        )

    -- If `read_blocks_and_add_to_merkle_tree` ends on a tree of depth `d` that has taken `leaves`, and
    -- the number `n` of blocks that it reads first fits in the tree and in the index, then the values of
    -- the input that it has taken behind the number are, field by field, `n` headers such that, where a
    -- block's hash is the double hash of its 80 bytes with the hash of the block before it, the tree has
    -- taken the hashes in order, the last one is returned, each block meets its own target, and the work
    -- is the sum of theirs. The light client's hash is that of the block before the last `m` that were
    -- read; when fewer were read, the difference wraps, and it is zero.
    pub read_blocks_and_add_to_merkle_tree-Ran :
        (d n m : ℕ) (leaves : List Bytes) (start : Bytes) (t : IncrementalMerkleTree)
        (p' : Progress) (s s₁ s' : S)
        → Holds H d leaves t
        → E.read_u32 s ≡ some (n, s₁)
        → length leaves + n ≤ 2 ^ d
        → length leaves + n < 2 ^ 32
        → read_blocks_and_add_to_merkle_tree H E start t m s ≡ some (p', s')
        → (headers : List Header) × (length headers ≡ n)
          × HeadersRead E headers s₁ s'
          × Holds H d (leaves ++ chain_hashes H start headers) p'.imt
          × (p'.curr_prev_block_hash ≡ last_hash H start headers)
          × (p'.lc_block_hash ≡ (
              if ltb ((n + 2 ^ 32 - m) % 2 ^ 32) n
              then last_hash H start (take ((n + 2 ^ 32 - m) % 2 ^ 32) headers)
              else replicate 32 0))
          × (chain_work H start headers 0 ≡ some p'.total_work)
    unfolding read_blocks_and_add_to_merkle_tree
    read_blocks_and_add_to_merkle_tree-Ran d n m leaves start t p' s s₁ s' h at_n room small e =
        let k = (n + 2 ^ 32 - m) % 2 ^ 32 in
        let (headers, count, reads, ran) =
          read_blocks_from-Ran d n 0 n m leaves _ p' s₁ s' h room small
            (sym (>>=-of_some E.read_u32 _ s at_n) ∙ e) in
        let kept = ran.kept ∙ kept_from_lem H k 0 k start (replicate 32 0) headers (omega arith) in
        (
          headers,
          count,
          reads,
          ran.tree,
          ran.last,
          subst
              (λ c.
                p'.lc_block_hash
                ≡ (if ltb k c then last_hash H start (take k headers) else replicate 32 0))
              count kept,
          ran.work,
        )

    -- A round of the other loop behind its header.
    abbrev work_rest : ℕ → ℕ → Header → Bytes → M S ℕ
    work_rest rounds work header next = do
      work' ← or_panic (validate_threshold_and_add_work (to_le_bytes 4 header.bits) next work)
      read_work_from H E rounds next work'

    read_work_from-chain :
        (rounds work work' : ℕ) (prev : Bytes) (s s' : S)
        → read_work_from H E rounds prev work s ≡ some (work', s')
        → (headers : List Header) × (length headers ≡ rounds)
          × HeadersRead E headers s s'
          × (chain_work H prev headers work ≡ some work')
    unfolding read_work_from
    read_work_from-chain zero work work' prev s s' e =
        let (same, ends) = some_pair-injective e in ([], refl, ends, ap some same)
    read_work_from-chain (suc rounds) work work' prev s s' e =
        let (header, s₁, read, e₁) = >>=-eq_some (read_header_except_prev_blockhash H E) _ s e in
        let next = block_hash H prev header in
        let rest =
          subst (λ x. work_rest rounds work header x s₁ ≡ some (work', s'))
            (next_hash_lem H prev header) e₁ in
        let (work₂, s₂, checked, e₂) =
          >>=-eq_some
            (or_panic (validate_threshold_and_add_work (to_le_bytes 4 header.bits) next work)) _ s₁
            rest in
        let (at_work, stays) = or_panic-eq_some _ s₁ s₂ work₂ checked in
        let (headers, len, reads, works) = read_work_from-chain rounds work₂ work' next s₂ s' e₂ in
        (
          header ∷ headers,
          ap suc len,
          (s₂, subst (HeaderRead E header s) stays (header_read E H header s s₁ read), reads),
          chain_work-cons prev header headers work work₂ at_work ∙ works,
        )

    pub read_blocks_and_calculate_work-chain :
        (work : ℕ) (prev : Bytes) (s s' : S)
        → read_blocks_and_calculate_work H E prev s ≡ some (work, s')
        → (headers : List Header) × (s₁ : S) × (E.read_u32 s ≡ some (length headers, s₁))
          × HeadersRead E headers s₁ s'
          × (chain_work H prev headers 0 ≡ some work)
    unfolding read_blocks_and_calculate_work
    read_blocks_and_calculate_work-chain work prev s s' e =
        let (n, s₁, at_n, k) = >>=-eq_some E.read_u32 _ s e in
        let (headers, count, reads, works) = read_work_from-chain n 0 work prev s₁ s' k in
        (headers, s₁, at_n ∙ ap (λ c. some (c, s₁)) (sym count), reads, works)
