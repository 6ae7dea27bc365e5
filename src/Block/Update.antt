-- ===== src/Block/Update.antt =====
-- How a block fills in its header (bitcoinsuite-core/src/block.rs): the Merkle root, the hash of the
-- metadata and the size. `none` is a Merkle loop out of fuel, or a `solve` out of fuel.
use bitcoinsuite.Base.{ℕ, ◌%◌, ◌^◌, List, [], ◌∷◌, Option, some, and_then, length, map}
use bitcoinsuite.Bytes.{Bytes, put_slice}
use bitcoinsuite.Code.{vec_ser_to}
use bitcoinsuite.Hash.{Digests, sha256d}
use bitcoinsuite.Merkle.{MerkleMode, bitcoin, lotus, get_merkle_root_and_height}
use bitcoinsuite.Tx.{Tx, Layout}
use bitcoinsuite.Tx.TxId.{sha256d_hashed, lotus_txid}
use bitcoinsuite.Block.{BitcoinBlock, LotusBlock, metadata_field_code, lotus_block_ser_to}
use bitcoinsuite.Block.Mining.{lotus_solve}

module _ (d : Digests) where
  -- `get_merkle_root`
  unfoldable pub merkle_root_of : List Bytes → MerkleMode → Option Bytes
  merkle_root_of leaves mode =
      and_then (get_merkle_root_and_height (sha256d_hashed d) leaves mode) (λ r. some r.0)

  unfoldable pub update_bitcoin_merkle_root : BitcoinBlock → Option BitcoinBlock
  update_bitcoin_merkle_root b =
      and_then (merkle_root_of (map (λ tx. tx.hash) b.txs) bitcoin)
        (λ root. some (record b { header = record b.header { merkle_root = root } }))

  -- A leaf is the hash of the transaction hash and the transaction id.
  unfoldable pub lotus_leaf : Tx → Option Bytes
  unfolding put_slice
  lotus_leaf tx =
      and_then (lotus_txid d tx.unhashed_tx)
        (λ txid. some (sha256d d (put_slice (put_slice [] tx.hash) txid)))

  unfoldable pub lotus_leaves : List Tx → Option (List Bytes)
  lotus_leaves [] = some []
  lotus_leaves (tx ∷ txs) =
      and_then (lotus_leaf tx)
        (λ leaf. and_then (lotus_leaves txs) (λ leaves. some (leaf ∷ leaves)))

  unfoldable pub update_merkle_root : LotusBlock → Option LotusBlock
  update_merkle_root b = and_then (lotus_leaves b.txs) (λ leaves.
      and_then (merkle_root_of leaves lotus)
        (λ root. some (record b { header = record b.header { merkle_root = root } })))

  unfoldable pub update_extended_metadata_hash : LotusBlock → LotusBlock
  update_extended_metadata_hash b = record b {
    header = record b.header {
      extended_metadata_hash = sha256d d (vec_ser_to metadata_field_code b.metadata []);
    };
  }

  module _ (layout : Layout) where
    unfoldable pub update_size : LotusBlock → LotusBlock
    update_size b = record b {
      header = record b.header { size = length (lotus_block_ser_to d layout b []) % 2 ^ 64 };
    }

    -- What `prepare` does once the Merkle root is there. The fuel is that of the search for a nonce.
    unfoldable pub finish_prepare : ℕ → LotusBlock → Option LotusBlock
    finish_prepare fuel b =
        let b = update_size (update_extended_metadata_hash b) in
        and_then (lotus_solve d fuel b.header) (λ header. some (record b { header = header }))

    unfoldable pub prepare : ℕ → LotusBlock → Option LotusBlock
    prepare fuel b = and_then (update_merkle_root b) (finish_prepare fuel)
