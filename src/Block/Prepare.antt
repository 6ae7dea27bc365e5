-- ===== src/Block/Prepare.antt =====
-- What `LotusBlock::prepare` of bitcoinsuite-core/src/block.rs leaves in the header.
use bitcoinsuite.Base.{
  some_injective, and_then-eq-some, ℕ, ◌+◌, ◌%◌, ◌^◌, ◌≡◌, refl, sym, ◌∙◌, ap, subst, List, [],
  Bool, true, Option, none, some, zero, suc, length, length-append, Bool-cases, inl, inr,
}
use bitcoinsuite.Base.Int.{ℤ}
use bitcoinsuite.Bytes.{Bytes, put_slice}
use bitcoinsuite.Bytes.Endian.{to_le_bytes, to_pattern, length-to_le_bytes}
use bitcoinsuite.Code.{
  ser, array_code, array_ser_to, uint_code, uint_ser_to, int_code, int_ser_to, vec_ser_to,
}
use bitcoinsuite.Hash.{Digests, sha256d}
use bitcoinsuite.Merkle.{lotus}
use bitcoinsuite.Tx.{Layout}
use bitcoinsuite.Block.{
  LotusHeader, LotusBlock, timestamp_code, timestamp_ser_to, size_code, size_ser_to,
  metadata_field_code, lotus_block_ser_to, lotus_calc_hash,
}
use bitcoinsuite.Block.RoundTrip.{lotus_header_body}
use bitcoinsuite.Block.WithTxs.{lotus_block_body, lotus_block_ser_to-append}
use bitcoinsuite.Block.Mining.{
  is_solved, solve_loop, set_found, lotus_with_nonce, lotus_solves, lotus_solve,
}
use bitcoinsuite.Block.Update.{
  merkle_root_of, lotus_leaves, update_merkle_root, update_extended_metadata_hash, update_size,
  finish_prepare, prepare,
}

length-uint : (w n : ℕ) → length (ser (uint_code w) n) ≡ w
unfolding ser uint_ser_to put_slice
length-uint w n = length-to_le_bytes w n

length-int : (w : ℕ) (z : ℤ) → length (ser (int_code w) z) ≡ w
unfolding ser int_ser_to put_slice
length-int w z = length-to_le_bytes w (to_pattern w z)

length-array : (n : ℕ) (bs : Bytes) → length (ser (array_code n) bs) ≡ length bs
unfolding ser array_ser_to put_slice
length-array n bs = refl

length-timestamp : (t : ℤ) → length (ser timestamp_code t) ≡ 6
unfolding ser timestamp_ser_to array_ser_to put_slice to_le_bytes
length-timestamp t = refl

length-size : (n : ℕ) → length (ser size_code n) ≡ 7
unfolding ser size_ser_to array_ser_to put_slice to_le_bytes
length-size n = refl

-- All fields but the hashes have a fixed width.
length-lotus_header_body :
    (h : LotusHeader)
    → length (lotus_header_body h)
      ≡ length h.prev_block
        + (4
            + (6
                + (2
                    + (8
                        + (1
                            + (7
                                + (4
                                    + (length h.epoch_hash
                                        + (length h.merkle_root
                                            + length h.extended_metadata_hash)))))))))
unfolding lotus_header_body
length-lotus_header_body h =
    simp (length-append, length-array, length-uint, length-timestamp, length-size, length-int)

-- The size of a block does not depend on the size and the nonce in its header.
length-block_body :
    (d : Digests) (layout : Layout) (b : LotusBlock) (size nonce : ℕ)
    → length (
        lotus_block_body d layout
          (record b { header = record b.header { size = size; nonce = nonce } }))
      ≡ length (lotus_block_body d layout b)
unfolding lotus_block_body
length-block_body d layout b size nonce = simp (length-append, length-lotus_header_body)

length-lotus_block :
    (d : Digests) (layout : Layout) (b : LotusBlock) (size nonce : ℕ)
    → length (lotus_block_ser_to d layout b [])
      ≡ length (
          lotus_block_ser_to d layout
            (record b { header = record b.header { size = size; nonce = nonce } })
            [])
length-lotus_block d layout b size nonce =
    ap length (lotus_block_ser_to-append d layout b [])
    ∙ sym (length-block_body d layout b size nonce)
    ∙ ap length (
        sym (
          lotus_block_ser_to-append d layout
            (record b { header = record b.header { size = size; nonce = nonce } }) []))

solve_loop-solves :
    (limit : ℕ) (solves : ℕ → Bool) (fuel nonce found : ℕ)
    → solve_loop limit solves fuel nonce ≡ some found
    → solves found ≡ true
unfolding solve_loop
solve_loop-solves limit solves zero nonce found e = cc
solve_loop-solves limit solves (suc fuel) nonce found e = elim (Bool-cases (solves nonce)) [
  | inl solved ↦
      let e' = rw (solved, solve_loop) at e in
      let same : nonce ≡ found = cc in subst (λ n. solves n ≡ true) same solved
  | inr unsolved ↦
      solve_loop-solves limit solves fuel ((nonce + 1) % limit) found
        (rw (unsolved, solve_loop) at e)
]

found-eq-some :
    {H : Type 0} (header : ℕ → H) (o : Option ℕ) {result : H}
    → set_found header o ≡ some result
    → (nonce : ℕ) × (o ≡ some nonce) × (header nonce ≡ result)
found-eq-some header none e = cc
found-eq-some header (some nonce) e = (nonce, refl, cc)

module _ (d : Digests) (layout : Layout) where
  -- A block whose header belongs to its transactions and its metadata.
  pub record IsPrepared (b : LotusBlock) : Type 0 where
    pub leaves : List Bytes
    pub are_leaves : lotus_leaves d b.txs ≡ some leaves
    pub is_root : merkle_root_of d leaves lotus ≡ some b.header.merkle_root
    pub is_metadata_hash :
        b.header.extended_metadata_hash ≡ sha256d d (vec_ser_to metadata_field_code b.metadata [])
    pub is_size : b.header.size ≡ length (lotus_block_ser_to d layout b []) % 2 ^ 64
    pub is_solved : is_solved (lotus_calc_hash d b.header) ≡ true

  abbrev rooted : LotusBlock → Bytes → LotusBlock
  rooted b root = record b { header = record b.header { merkle_root = root } }

  -- The block before its size is measured.
  abbrev with_root : LotusBlock → Bytes → LotusBlock
  with_root b root = update_extended_metadata_hash d (rooted b root)

  filled : LotusBlock → Bytes → LotusBlock
  filled b root = update_size d layout (with_root b root)

  filled-IsPrepared :
      (b : LotusBlock) (leaves : List Bytes) (root : Bytes) (nonce : ℕ)
      → lotus_leaves d b.txs ≡ some leaves
      → merkle_root_of d leaves lotus ≡ some root
      → lotus_solves d (filled b root).header nonce ≡ true
      → IsPrepared
          (record (filled b root) { header = lotus_with_nonce (filled b root).header nonce })
  unfolding filled update_size update_extended_metadata_hash
  filled-IsPrepared b leaves root nonce are_leaves is_root solved = record {
    leaves = leaves;
    are_leaves = are_leaves;
    is_root = is_root;
    is_metadata_hash = refl;
    is_size =
        ap (λ n. n % 2 ^ 64)
          (length-lotus_block d layout (with_root b root)
            (length (lotus_block_ser_to d layout (with_root b root) []) % 2 ^ 64) nonce);
    is_solved = solved;
  }

  filled_txs : (b : LotusBlock) (root : Bytes) → (filled b root).txs ≡ b.txs
  unfolding filled update_size update_extended_metadata_hash
  filled_txs b root = refl

  filled_metadata : (b : LotusBlock) (root : Bytes) → (filled b root).metadata ≡ b.metadata
  unfolding filled update_size update_extended_metadata_hash
  filled_metadata b root = refl

  abbrev with_header : LotusBlock → Bytes → LotusHeader → LotusBlock
  with_header b root header = record (filled b root) { header = header }

  Prepares : LotusBlock → LotusBlock → Type 0
  Prepares b b' = IsPrepared b' × (b'.txs ≡ b.txs) × (b'.metadata ≡ b.metadata)

  finish_prepare-Prepares :
      (fuel : ℕ) (b b' : LotusBlock) (leaves : List Bytes) (root : Bytes)
      → lotus_leaves d b.txs ≡ some leaves
      → merkle_root_of d leaves lotus ≡ some root
      → finish_prepare d layout fuel (rooted b root) ≡ some b'
      → Prepares b b'
  unfolding finish_prepare lotus_solve Prepares filled
  finish_prepare-Prepares fuel b b' leaves root are_leaves is_root e =
      let (header, solved, done) =
        and_then-eq-some (lotus_solve d fuel (filled b root).header) _ e in
      let (nonce, loop, is_header) =
        found-eq-some (lotus_with_nonce (filled b root).header) _ solved in
      let final : with_header b root header ≡ b' = some_injective done in
      subst (Prepares b) (ap (with_header b root) is_header ∙ final) (
        filled-IsPrepared b leaves root nonce are_leaves is_root (
            solve_loop-solves (2 ^ 64) (lotus_solves d (filled b root).header) fuel
              (filled b root).header.nonce nonce loop),
        filled_txs b root,
        filled_metadata b root,
      )

  update_merkle_root-eq-some :
      (b r : LotusBlock)
      → update_merkle_root d b ≡ some r
      → (leaves : List Bytes) × (root : Bytes) × (lotus_leaves d b.txs ≡ some leaves)
        × (merkle_root_of d leaves lotus ≡ some root)
        × (rooted b root ≡ r)
  unfolding update_merkle_root
  update_merkle_root-eq-some b r e =
      let (leaves, are_leaves, hashes) = and_then-eq-some (lotus_leaves d b.txs) _ e in
      let (root, is_root, done) = and_then-eq-some (merkle_root_of d leaves lotus) _ hashes in
      (leaves, root, are_leaves, is_root, some_injective done)

  -- A block that `prepare` returns has the transactions and metadata it had, and its header belongs to
  -- them: the Merkle root is that of its transactions' leaves, the metadata hash is that of its metadata,
  -- the size is the length of the finished block, modulo 2^64, and the finished header's hash is solved.
  pub prepare-IsPrepared :
      (fuel : ℕ) (b b' : LotusBlock)
      → prepare d layout fuel b ≡ some b'
      → IsPrepared b' × (b'.txs ≡ b.txs) × (b'.metadata ≡ b.metadata)
  unfolding prepare Prepares
  prepare-IsPrepared fuel b b' e =
      let (r, roots, finishes) = and_then-eq-some (update_merkle_root d b) _ e in
      let (leaves, root, are_leaves, is_root, is_rooted) = update_merkle_root-eq-some b r roots in
      finish_prepare-Prepares fuel b b' leaves root are_leaves is_root
        (ap (finish_prepare d layout fuel) is_rooted ∙ finishes)
