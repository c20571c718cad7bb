-- ===== src/Circuits/Blocks/Headers.antt =====
-- A chain of block headers as the protocol has it, and as the input has it: what the loops of
-- circuits/src/bridge.rs over headers are compared with.
use clementine.Prelude.{
  ℕ, zero, suc, ◌+◌, ◌<◌, ◌≡◌, refl, ap, subst, ◌∙◌, Option, none, some, List, [], ◌∷◌, ◌++◌,
  length, arith, ◌==◌, ltb, take, if◌then◌else◌,
}
use clementine.Prelude.Bytes.{Bytes, to_le_bytes}
use clementine.Circuits.Sha256.{Sha256}
use clementine.Circuits.Env.{Environment, >>=-eq_some, some_pair-injective}
use clementine.Circuits.Work.{validate_threshold_and_add_work}
use clementine.Circuits.Blocks.{
  Header, calculate_next_block_hash, read_header_except_prev_blockhash,
  read_header_except_root_and_calculate_blockhash,
}

-- The serialization of a block header in the protocol, 80 bytes.
abbrev pub block_bytes : Bytes → Header → Bytes
block_bytes prev h =
    to_le_bytes 4 h.version
    ++ prev
    ++ h.merkle_root
    ++ to_le_bytes 4 h.time
    ++ to_le_bytes 4 h.bits
    ++ to_le_bytes 4 h.nonce

module _ (H : Sha256) where
  abbrev pub block_hash : Bytes → Header → Bytes
  block_hash prev h = H.digest (H.digest (block_bytes prev h))

  pub next_hash_lem :
      (prev : Bytes) (h : Header) → calculate_next_block_hash H prev h ≡ block_hash prev h
  unfolding calculate_next_block_hash
  next_hash_lem prev h = refl

  -- The hashes of a chain of headers that starts behind the block with the given hash.
  abbrev pub chain_hashes : Bytes → List Header → List Bytes
  chain_hashes prev [] = []
  chain_hashes prev (h ∷ hs) = let next = block_hash prev h in next ∷ chain_hashes next hs

  abbrev pub last_hash : Bytes → List Header → Bytes
  last_hash prev [] = prev
  last_hash prev (h ∷ hs) = last_hash (block_hash prev h) hs

  -- Every block meets its own target, and the works add up to the result.
  abbrev pub chain_work : Bytes → List Header → ℕ → Option ℕ
  chain_work prev [] work = some work
  chain_work prev (h ∷ hs) work =
      let next = block_hash prev h in
      elim (validate_threshold_and_add_work (to_le_bytes 4 h.bits) next work) [
        | none ↦ none
        | some work' ↦ chain_work next hs work'
      ]

  -- The hash that a run keeps: that of the block before round `k`, if there is such a round.
  abbrev pub kept_from : ℕ → ℕ → Bytes → Bytes → List Header → Bytes
  kept_from i k prev lc [] = lc
  kept_from i k prev lc (h ∷ hs) =
      kept_from (i + 1) k (block_hash prev h) (if i == k then prev else lc) hs

  kept_from_past :
      (i k : ℕ) (prev lc : Bytes) (hs : List Header) → k < i → kept_from i k prev lc hs ≡ lc
  kept_from_past i k prev lc [] h = refl
  kept_from_past i k prev lc (x ∷ hs) h =
      kept_from_past (i + 1) k (block_hash prev x) (if i == k then prev else lc) hs (omega arith)
      ∙ ground arith

  pub kept_from_lem :
      (k i j : ℕ) (prev lc : Bytes) (hs : List Header)
      → j ≡ k + i
      → kept_from i j prev lc hs ≡ (if ltb k (length hs) then last_hash prev (take k hs) else lc)
  kept_from_lem k i j prev lc [] at = ground arith
  kept_from_lem zero i j prev lc (x ∷ hs) at =
      kept_from_past (i + 1) j (block_hash prev x) (if i == j then prev else lc) hs (omega arith)
      ∙ ground arith
  kept_from_lem (suc k) i j prev lc (x ∷ hs) at =
      kept_from_lem k (i + 1) j (block_hash prev x) (if i == j then prev else lc) hs (omega arith)
      ∙ ground arith

-- The fields of a header are the next values of the input, in the order of the protocol.
module _ {S : Type 0} (E : Environment S) where
  abbrev pub HeaderRead : Header → S → S → Type 0
  HeaderRead h s s' =
      (s₁ : S) × (s₂ : S) × (s₃ : S) × (s₄ : S) × (E.read_i32 s ≡ some (h.version, s₁))
      × (E.read_32bytes s₁ ≡ some (h.merkle_root, s₂))
      × (E.read_u32 s₂ ≡ some (h.time, s₃))
      × (E.read_u32 s₃ ≡ some (h.bits, s₄))
      × (E.read_u32 s₄ ≡ some (h.nonce, s'))

  abbrev pub HeadersRead : List Header → S → S → Type 0
  HeadersRead [] s s' = s ≡ s'
  HeadersRead (h ∷ hs) s s' = (t : S) × HeaderRead h s t × HeadersRead hs t s'

  pub header_read :
      (H : Sha256) (h : Header) (s s' : S)
      → read_header_except_prev_blockhash H E s ≡ some (h, s')
      → HeaderRead h s s'
  unfolding read_header_except_prev_blockhash
  header_read H h s s' e =
      let (version, s₁, e₁, k₁) = >>=-eq_some E.read_i32 _ s e in
      let (root, s₂, e₂, k₂) = >>=-eq_some E.read_32bytes _ s₁ k₁ in
      let (time, s₃, e₃, k₃) = >>=-eq_some E.read_u32 _ s₂ k₂ in
      let (bits, s₄, e₄, k₄) = >>=-eq_some E.read_u32 _ s₃ k₃ in
      let (nonce, s₅, e₅, k₅) = >>=-eq_some E.read_u32 _ s₄ k₄ in
      let (same, ends) = some_pair-injective k₅ in
      subst (λ x. HeaderRead x s s') same
        (s₁, s₂, s₃, s₄, e₁, e₂, e₃, e₄, e₅ ∙ ap (λ z. some (nonce, z)) ends)

  -- The input holds a header but for its root, and the block hash is that of the header with the root.
  pub record BlockShown (H : Sha256) (root hash : Bytes) (s s' : S) : Type 0 where
    pub header : Header
    pub prev : Bytes
    pub s₁ : S
    pub s₂ : S
    pub s₃ : S
    pub s₄ : S
    pub version_read : E.read_i32 s ≡ some (header.version, s₁)
    pub prev_read : E.read_32bytes s₁ ≡ some (prev, s₂)
    pub time_read : E.read_u32 s₂ ≡ some (header.time, s₃)
    pub bits_read : E.read_u32 s₃ ≡ some (header.bits, s₄)
    pub nonce_read : E.read_u32 s₄ ≡ some (header.nonce, s')
    pub has_root : header.merkle_root ≡ root
    pub hash_of_header : block_hash H prev header ≡ hash

  pub blockhash-BlockShown :
      (H : Sha256) (root hash : Bytes) (s s' : S)
      → read_header_except_root_and_calculate_blockhash H E root s ≡ some (hash, s')
      → BlockShown H root hash s s'
  unfolding read_header_except_root_and_calculate_blockhash
  blockhash-BlockShown H root hash s s' e =
      let (version, s₁, e₁, k₁) = >>=-eq_some E.read_i32 _ s e in
      let (prev, s₂, e₂, k₂) = >>=-eq_some E.read_32bytes _ s₁ k₁ in
      let (time, s₃, e₃, k₃) = >>=-eq_some E.read_u32 _ s₂ k₂ in
      let (bits, s₄, e₄, k₄) = >>=-eq_some E.read_u32 _ s₃ k₃ in
      let (nonce, s₅, e₅, k₅) = >>=-eq_some E.read_u32 _ s₄ k₄ in
      let (same, ends) = some_pair-injective k₅ in
      record {
        header = record {
          version = version;
          merkle_root = root;
          time = time;
          bits = bits;
          nonce = nonce;
        };
        prev = prev;
        s₁ = s₁;
        s₂ = s₂;
        s₃ = s₃;
        s₄ = s₄;
        version_read = e₁;
        prev_read = e₂;
        time_read = e₃;
        bits_read = e₄;
        nonce_read = e₅ ∙ ap (λ z. some (nonce, z)) ends;
        has_root = refl;
        hash_of_header = same;
      }
