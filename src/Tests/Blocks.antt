-- ===== src/Tests/Blocks.antt =====
-- Concrete inputs for the theorems about blocks, script numbers and compressed scripts.
use bitcoinsuite.Base.{
  ℕ, ◌^◌, ◌<◌, ◌≡◌, ◌≢◌, refl, [], ◌∷◌, ◌++◌, true, some, ok, replicate, length-replicate, arith,
  not, ◌+◌, ◌%◌, get_or, take, drop,
}
use bitcoinsuite.Base.Int.{pos, negsuc}
use bitcoinsuite.Bytes.{Bytes, put_slice}
use bitcoinsuite.Code.Lawful.{IsLawful}
use bitcoinsuite.Hash.{sha256d}
use bitcoinsuite.Tx.{hashed}
use bitcoinsuite.Op.{Op, code}
use bitcoinsuite.Script.{Script, mk_script, p2pkh_variant, p2pk_legacy, is_opreturn}
use bitcoinsuite.Script.Ops.{ops}
use bitcoinsuite.Script.Codesep.{cut_out_codesep, rest_script, after_codesep, cut_out_codesep-after}
use bitcoinsuite.Script.Variants.{script_of, IsVariant}
use bitcoinsuite.Block.{
  BitcoinHeader, LotusHeader, LotusBlock, lotus_block_code, bitcoin_calc_hash, lotus_calc_hash,
}
use bitcoinsuite.Block.WithTxs.{IsLotusBlock, lotus_block_code-IsLawful}
use bitcoinsuite.Block.Mining.{is_solved, with_nonce, bitcoin_solve, bitcoin_solve-is_solved}
use bitcoinsuite.Block.Update.{prepare}
use bitcoinsuite.Block.Prepare.{IsPrepared, prepare-IsPrepared}
use bitcoinsuite.ScriptNum.{is_zero}
use bitcoinsuite.ScriptNum.Push.{
  is_code, has_opcode, push_script_num, pushed_num, push_script_num-pushed_num,
}
use bitcoinsuite.BuildBlock.{lotus_opreturn, logos, coinbase_tx, mk_output, build_lotus_coinbase}
use bitcoinsuite.BuildBlock.Coinbase.{build_lotus_coinbase-is_opreturn}
use bitcoinsuite.Op.{deser_op, deser_operand, ser_op}
use bitcoinsuite.Bytes.{split_to, split_to_array}
use bitcoinsuite.Script.Parse.{parse_variant, strip_prefix}
use bitcoinsuite.Script.Ops.{from_ops}
use bitcoinsuite.Script.{script_ser_to}
use bitcoinsuite.Compression.Scripts.{decompress_head, decompress_p2pk_legacy}
use bitcoinsuite.Compression.VarInt.{read_var_int}
use bitcoinsuite.Code.{vec_ser_to, ser_parts, int_ser_to, uint_ser_to, array_ser_to, bytes_ser_to}
use bitcoinsuite.Encoding.{write_compact_size}
use bitcoinsuite.Bytes.Endian.{to_le_bytes, to_pattern}
use bitcoinsuite.Tx.{
  UnhashedTx, tx_ser_to, unhashed_tx_ser_to, tx_input_ser_to, tx_output_ser_to, sequence_ser_to,
  out_point_ser_to,
}
use bitcoinsuite.Tx.TxId.{lotus_txid, lotus_tx_inputs_merkle_root, lotus_tx_outputs_merkle_root}
use bitcoinsuite.Merkle.{get_merkle_root_and_height, merkle_loop}
use bitcoinsuite.Block.{lotus_block_ser_to, lotus_header_ser_to, timestamp_ser_to, size_ser_to}
use bitcoinsuite.Block.Mining.{lotus_solve, solve_loop}
use bitcoinsuite.Block.Update.{
  finish_prepare, update_merkle_root, update_extended_metadata_hash, update_size, lotus_leaves,
  lotus_leaf, merkle_root_of,
}
use bitcoinsuite.Ecc.{dummy_ecc}
use bitcoinsuite.Compression.Scripts.{compress_script, decompress_script}
use bitcoinsuite.Compression.Coins.{Stores, read_coin-Stores}
use bitcoinsuite.Compression.Legacy.{key_alone, decompress-compress_script-lost}
use bitcoinsuite.Tests.Core.{flat_digests, layout64}
use bitcoinsuite.Tests.Signing.{one_tx}

lotus_block_code-IsLawful_example :
    IsLawful (lotus_block_code flat_digests layout64) (IsLotusBlock flat_digests layout64)
lotus_block_code-IsLawful_example = lotus_block_code-IsLawful flat_digests layout64

abbrev one_header : BitcoinHeader
one_header = record {
  version = pos 1;
  prev_block = replicate 32 9;
  merkle_root = replicate 32 8;
  timestamp = 1231006505;
  bits = 0x1d00ffff;
  nonce = 5;
}

is_solution : is_solved (bitcoin_calc_hash flat_digests (with_nonce one_header 3)) ≡ true
unfolding bitcoin_calc_hash sha256d
is_solution = refl

bitcoin_solve-is_solved_example :
    (nonce : ℕ) × (bitcoin_solve flat_digests (2 ^ 32) one_header
      ≡ some (with_nonce one_header nonce))
    × (is_solved (bitcoin_calc_hash flat_digests (with_nonce one_header nonce)) ≡ true)
    × (nonce < 2 ^ 32)
bitcoin_solve-is_solved_example =
    bitcoin_solve-is_solved flat_digests one_header 3 (omega arith) (omega arith) is_solution

five_ops :
    ops (mk_script (0x51 ∷ 0xab ∷ 0xac ∷ 0xab ∷ 0x87 ∷ []))
    ≡ ok (code 0x51 ∷ code 0xab ∷ code 0xac ∷ code 0xab ∷ code 0x87 ∷ [])
unfolding ops deser_op deser_operand split_to
five_ops = refl

cut_out_codesep-after_example :
    cut_out_codesep (mk_script (0x51 ∷ 0xab ∷ 0xac ∷ 0xab ∷ 0x87 ∷ [])) (some 1)
    ≡ rest_script 1
        (after_codesep 1 (code 0x51 ∷ code 0xab ∷ code 0xac ∷ code 0xab ∷ code 0x87 ∷ []))
cut_out_codesep-after_example =
    cut_out_codesep-after (mk_script (0x51 ∷ 0xab ∷ 0xac ∷ 0xab ∷ 0x87 ∷ [])) 1
      (code 0x51 ∷ code 0xab ∷ code 0xac ∷ code 0xab ∷ code 0x87 ∷ [])
      (omega arith, (omega arith, (omega arith, (omega arith, (omega arith, tt))))) five_ops

push_script_num-pushed_num_example :
    (op : Op) × (push_script_num (negsuc 255) ≡ some op)
    × (pushed_num op ≡ some (negsuc 255))
    × (is_code op ≡ has_opcode (negsuc 255))
push_script_num-pushed_num_example = push_script_num-pushed_num (negsuc 255) (omega arith)

genesis_script : lotus_opreturn (pos 0) ≡ some (mk_script (5 ∷ (logos ++ (0 ∷ []))))
unfolding lotus_opreturn
genesis_script = refl

-- The coinbase at height 0.
abbrev genesis_coinbase : UnhashedTx
genesis_coinbase = coinbase_tx (mk_script (replicate 80 0)) (
    mk_output (pos 0) (mk_script (5 ∷ (logos ++ (0 ∷ []))))
    ∷ mk_output (pos 260000000) (mk_script (0x51 ∷ []))
    ∷ [])

genesis_built : build_lotus_coinbase (pos 0) (mk_script (0x51 ∷ [])) ≡ some genesis_coinbase
unfolding build_lotus_coinbase
genesis_built = refl

build_lotus_coinbase-is_opreturn_example :
    (first : Script) × (genesis_coinbase.outputs
      ≡ mk_output (pos 0) first ∷ mk_output (pos 260000000) (mk_script (0x51 ∷ [])) ∷ [])
    × (is_opreturn first ≡ not (is_zero (pos 0)))
build_lotus_coinbase-is_opreturn_example =
    build_lotus_coinbase-is_opreturn (pos 0) (mk_script (0x51 ∷ [])) genesis_coinbase genesis_built

read_coin-Stores_example :
    Stores dummy_ecc 700000 true 625000000 (script_of (p2pkh_variant (replicate 20 7)))
unfolding IsVariant
read_coin-Stores_example =
    read_coin-Stores dummy_ecc 700000 true 625000000 (p2pkh_variant (replicate 20 7)) (omega arith)
      (omega arith) refl tt

abbrev legacy_key : Bytes
legacy_key = replicate 65 4

compressed_key : compress_script (p2pk_legacy legacy_key) ≡ some (4 ∷ replicate 32 4)
unfolding compress_script p2pk_legacy put_slice parse_variant strip_prefix
compressed_key = refl

abbrev lone_push : Bytes
lone_push = 65 ∷ replicate 65 0

decompressed_key :
    decompress_script dummy_ecc ((4 ∷ replicate 32 4) ++ []) ≡ ok (mk_script lone_push, [])
unfolding decompress_script decompress_head decompress_p2pk_legacy read_var_int split_to_array
    from_ops ser_op
decompressed_key = refl

decompress-compress_script-lost_example :
    (pubkey : Bytes) × (dummy_ecc.pubkey_from_array
        ((0x02 + get_or legacy_key 64 0 % 2) ∷ take 32 (drop 1 legacy_key))
      ≡ ok pubkey)
    × (mk_script lone_push ≡ key_alone dummy_ecc pubkey)
    × ((◌≡◌ {A = Bytes}) [] [])
    × (mk_script lone_push ≢ p2pk_legacy legacy_key)
decompress-compress_script-lost_example =
    decompress-compress_script-lost dummy_ecc legacy_key (4 ∷ replicate 32 4) [] []
      (mk_script lone_push) refl (λ pubkey. length-replicate {A = ℕ} 65 0) compressed_key
      decompressed_key

abbrev one_lotus_header : LotusHeader
one_lotus_header = record {
  prev_block = replicate 32 1;
  bits = 0x1c100000;
  timestamp = pos 1624246260;
  reserved = 0;
  nonce = 0;
  version = 1;
  size = 0;
  height = pos 0;
  epoch_hash = replicate 32 0;
  merkle_root = replicate 32 0;
  extended_metadata_hash = replicate 32 0;
}

abbrev one_block : LotusBlock
one_block = record {
  header = one_lotus_header;
  metadata = [];
  txs = hashed flat_digests one_tx ∷ [];
}

abbrev prepared_block : LotusBlock
prepared_block = record one_block {
  header = record one_lotus_header {
    size = 222;
    merkle_root = replicate 32 32;
    extended_metadata_hash = replicate 32 32;
  };
}

prepared : prepare flat_digests layout64 1 one_block ≡ some prepared_block
unfolding prepare finish_prepare update_merkle_root update_extended_metadata_hash update_size
    lotus_leaves lotus_leaf lotus_txid lotus_tx_inputs_merkle_root lotus_tx_outputs_merkle_root
    merkle_root_of get_merkle_root_and_height merkle_loop lotus_solve solve_loop sha256d
    lotus_calc_hash lotus_block_ser_to lotus_header_ser_to vec_ser_to ser_parts tx_ser_to
    unhashed_tx_ser_to tx_input_ser_to tx_output_ser_to sequence_ser_to script_ser_to
    out_point_ser_to int_ser_to uint_ser_to array_ser_to bytes_ser_to timestamp_ser_to size_ser_to
    put_slice write_compact_size to_le_bytes to_pattern hashed
prepared = refl

prepare-IsPrepared_example :
    IsPrepared flat_digests layout64 prepared_block
    × (prepared_block.txs ≡ one_block.txs)
    × (prepared_block.metadata ≡ one_block.metadata)
prepare-IsPrepared_example =
    prepare-IsPrepared flat_digests layout64 1 one_block prepared_block prepared
