-- ===== src/BuildBlock.antt =====
-- bitcoinsuite-core/src/build_block.rs: coinbase transactions, and blocks for regression tests. The sort
-- of the standard library is a parameter, and `none` is a panic or a search out of fuel.
pub mod Coinbase
use bitcoinsuite.Base.{
  ℕ, ◌+◌, ◌-◌, ◌/◌, ◌%◌, ◌^◌, ◌<◌, ◌≡◌, ◌≢◌, refl, ap, subst, ◌∙◌, List, [], ◌∷◌, ◌++◌, Bool, true,
  false, ◌&&◌, Option, none, some, and_then, if◌then◌else◌, ◌==◌, leb, length, replicate, arith,
  Bool-cases, inl, inr,
}
use bitcoinsuite.Base.Int.{ℤ, pos, negsuc, ◌-ℤ◌}
use bitcoinsuite.Bytes.{Bytes, put_slice}
use bitcoinsuite.Bytes.Endian.{to_pattern}
use bitcoinsuite.Hash.{Digests, null_hash}
use bitcoinsuite.Opcode.{op_return}
use bitcoinsuite.Script.{Script, mk_script, opreturn, opreturn_loop, opreturn_item, is_opreturn}
use bitcoinsuite.ScriptNum.{ser_script_num}
use bitcoinsuite.Sign.TxBuilder.{quot}
use bitcoinsuite.Tx.{TxInput, TxOutput, UnhashedTx, Tx, Layout, finalized}
use bitcoinsuite.Block.{BitcoinHeader, BitcoinBlock, LotusHeader, LotusMetadataField, LotusBlock}
use bitcoinsuite.Block.Mining.{bitcoin_solve}
use bitcoinsuite.Block.Update.{update_bitcoin_merkle_root, prepare}
use bitcoinsuite.Block.Prepare.{IsPrepared, prepare-IsPrepared}

-- The input of a coinbase, and the transaction.
abbrev pub coinbase_input : Script → TxInput
coinbase_input script = record {
  prev_out = record { txid = null_hash 32; out_idx = 0xffff_ffff };
  script = script;
  sequence = finalized;
  sign_data = none;
}

abbrev pub coinbase_tx : Script → List TxOutput → UnhashedTx
coinbase_tx script outputs = record {
  version = pos 1;
  inputs = coinbase_input script ∷ [];
  outputs = outputs;
  lock_time = 0;
}

abbrev pub mk_output : ℤ → Script → TxOutput
mk_output value script = record { value = value; script = script }

-- `50_000_000_00i64 >> (height / 150)`, where the shift is taken modulo 64.
abbrev pub subsidy : ℤ → ℕ
subsidy height = 5000000000 / 2 ^ (to_pattern 4 (quot height 150) % 64)

-- The second arm of the `match` on the height.
abbrev pub height_script : ℤ → Option Script
height_script height =
    and_then (ser_script_num height)
      (λ num. some (mk_script (put_slice (put_slice [] ((length num % 2 ^ 8) ∷ [])) num)))

unfoldable pub coinbase_script : ℤ → Option Script
coinbase_script (pos n) =
    let script = height_script (pos n) in
    if leb n 127 then some (mk_script (0xff ∷ n ∷ [])) else script
coinbase_script (negsuc n) = height_script (negsuc n)

unfoldable pub build_bitcoin_coinbase : ℤ → Script → Option UnhashedTx
unfolding coinbase_script
build_bitcoin_coinbase height script = and_then (coinbase_script height) (λ script_sig. some (
    coinbase_tx script_sig (
      mk_output (pos (subsidy height)) script
      ∷ mk_output (pos 0) (opreturn (replicate 100 0 ∷ []))
      ∷ [])))

-- "logos"
abbrev pub logos : Bytes
logos = 108 ∷ 111 ∷ 103 ∷ 111 ∷ 115 ∷ []

abbrev pub logos_script : ℤ → Option Script
logos_script height = and_then (ser_script_num height) (λ num. some (opreturn (logos ∷ num ∷ [])))

unfoldable pub lotus_opreturn : ℤ → Option Script
lotus_opreturn (pos n) =
    let script = logos_script (pos n) in
    if n == 0
    then some (mk_script (5 ∷ (logos ++ (0 ∷ []))))
    else if leb 1 n && leb n 16
    then some (mk_script ((op_return ∷ []) ++ ((5 ∷ logos) ++ ((n + 0x50) ∷ []))))
    else script
lotus_opreturn (negsuc n) = logos_script (negsuc n)

unfoldable pub build_lotus_coinbase : ℤ → Script → Option UnhashedTx
unfolding lotus_opreturn
build_lotus_coinbase height script = and_then (lotus_opreturn height) (λ opreturn. some (
    coinbase_tx (mk_script (replicate 80 0))
      (mk_output (pos 0) opreturn ∷ mk_output (pos 260000000) script ∷ [])))

module _ (d : Digests) (sort_txs : List Tx → List Tx) where
  unfoldable pub build_bitcoin_block : ℕ → Bytes → ℕ → Tx → List Tx → Option BitcoinBlock
  build_bitcoin_block fuel prev_block timestamp coinbase txs =
      and_then
        (update_bitcoin_merkle_root d (record {
          header = record {
            version = pos 2;
            prev_block = prev_block;
            merkle_root = null_hash 32;
            timestamp = timestamp;
            bits = 0x207fffff;
            nonce = 0;
          };
          txs = coinbase ∷ sort_txs txs;
        }))
        (λ block.
          and_then (bitcoin_solve d fuel block.header)
            (λ header. some (record block { header = header })))

  unfoldable pub build_lotus_block :
      Layout
      → ℕ
      → Bytes
      → ℤ
      → ℤ
      → Tx
      → List Tx
      → Bytes
      → List LotusMetadataField
      → Option LotusBlock
  build_lotus_block layout fuel prev_block timestamp height coinbase txs epoch_hash metadata =
      prepare d layout fuel (record {
        header = record {
          prev_block = prev_block;
          bits = 0x207fffff;
          timestamp = timestamp;
          reserved = 0;
          nonce = 0;
          version = 1;
          size = 0;
          height = height;
          epoch_hash = epoch_hash;
          merkle_root = null_hash 32;
          extended_metadata_hash = null_hash 32;
        };
        metadata = metadata;
        txs = coinbase ∷ sort_txs txs;
      })

  -- A block that is built starts with the coinbase, the other transactions follow in the order of the
  -- sort, and its header belongs to them and to the metadata.
  pub build_lotus_block-IsPrepared :
      (layout : Layout) (fuel : ℕ) (prev_block : Bytes) (timestamp height : ℤ) (coinbase : Tx)
      (txs : List Tx) (epoch_hash : Bytes) (metadata : List LotusMetadataField) (block : LotusBlock)
      → build_lotus_block layout fuel prev_block timestamp height coinbase txs epoch_hash metadata
        ≡ some block
      → IsPrepared d layout block
        × (block.txs ≡ coinbase ∷ sort_txs txs)
        × (block.metadata ≡ metadata)
  unfolding build_lotus_block
  build_lotus_block-IsPrepared layout fuel prev_block timestamp height coinbase txs epoch_hash
        metadata block e =
      prepare-IsPrepared d layout fuel _ block e
