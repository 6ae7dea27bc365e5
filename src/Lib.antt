-- ===== src/Lib.antt =====
-- A model of bitcoinsuite: the crates bitcoinsuite-core (scripts, transactions and their bytes) and
-- bitcoinsuite-slp (tokens of the Simple Ledger Protocol). Paths are from the root of the repository.
--
-- Bytes flow upwards: `Bytes` and `Encoding` read and write the pieces, `Code` is the interface of
-- whatever has an encoding, and `Op`, `Script` and `Tx` use it for operations, scripts and transactions.
-- `Hash` and `Merkle` turn those into ids and roots. `Slp` builds on scripts and transactions: it reads
-- the first output, and settles which tokens the transaction moves. `Sign` builds the bytes that an input
-- signs from scripts and transactions, and `Block` puts transactions and roots into blocks.
--
-- Base          shared types and lemmas: numbers, lists, integers, and the outcome of a Rust call, which
--               is `ok`, `err` or `panic`
-- Errors        bitcoinsuite-core/src/error.rs, bytes.rs, sign/error.rs, ecc/mod.rs: error types
-- Bytes         bitcoinsuite-core/src/bytes.rs, bytes_mut.rs, byte_array.rs; the child Endian has
--               to_le_bytes, to_be_bytes and their inverses
-- Encoding      bitcoinsuite-core/src/encoding.rs: read_compact_size, write_compact_size
-- Code          bitcoinsuite-core/src/bitcoin_code.rs: the trait BitcoinCode as a record, and its
--               instances; Lawful states what a codec promises
-- Opcode, Op    bitcoinsuite-core/src/opcode.rs, op.rs: Op::deser_op, Op::ser_op, Op::push_bytes
-- ScriptNum     bitcoinsuite-core/src/build_block.rs: ser_script_num; the child Push has
--               Op::push_script_num of op.rs
-- Script        bitcoinsuite-core/src/script.rs: Script::ops, from_ops, parse_variant and the builders of
--               the standard scripts; Codesep has cut_out_codesep and parse_p2pkh_spend
-- Compression   bitcoinsuite-core/src/compression.rs: amounts, variable-length integers, and in Scripts
--               the compressed scripts and coins
-- Hash, Merkle  bitcoinsuite-core/src/hash.rs, with the order of hashes in Order, and merkle.rs
-- SigHashType   bitcoinsuite-core/src/sighashtype.rs
-- SignData      bitcoinsuite-core/src/sign/sign_data.rs
-- Ecc           bitcoinsuite-core/src/ecc/mod.rs: the trait Ecc as a record, and DummyEcc
-- Sign          bitcoinsuite-core/src/sign: UnsignedTx has sighash_preimage of unsigned_tx.rs, Bip143 what
--               it is compared with, Signatory the signer of signatory.rs, TxBuilder the function sign of
--               tx_builder.rs (sign_tx here)
-- Tx            bitcoinsuite-core/src/tx.rs, sequence.rs, utxo.rs
-- Block         bitcoinsuite-core/src/block.rs: headers and blocks; Mining has solve, Update the functions
--               update_merkle_root, update_extended_metadata_hash, update_size and prepare
-- BuildBlock    bitcoinsuite-core/src/build_block.rs: coinbases and blocks for tests
-- Slp           bitcoinsuite-slp/src: Amount (Decimals reads its text) and Types the data, Fields, Parse
--               and ParseTx the parser
--               parse_slp_tx (NoPanic is about its panics), Build the builders of build.rs, Validate
--               the function validate_slp_tx. SlpTx has SlpTx::new and its views of slp_tx.rs, and
--               RichTx those of rich_tx.rs
-- Slpv2         bitcoinsuite-slpv2/src: the builders of build.rs; Encoding and Injective describe what they
--               write
-- Network       bitcoinsuite-core/src/network.rs
-- Address       bitcoinsuite-core/src/address: Base32 and Cash have cashaddress.rs (_convert_bits and the
--               others without their underscore; ConvertBits, PolyMod and Checksum are about them), Lotus
--               has lotusaddress.rs
-- Nng           bitcoinsuite-bitcoind-nng/src: structs.rs and map_from_fbs.rs; Tables has what they read of
--               the generated tables, Publish parse_msg of pub_interface.rs
-- Tests         runs at concrete inputs
--
-- A byte is a number and a byte string a list of them; what is below 256 is a hypothesis where it
-- matters. Conversions to narrower integers keep their remainder, and signed integers are read through
-- two's complement. `&mut Bytes` and `BytesMut` are passed along. The digests of the crates sha2 and
-- ripemd are a parameter, `Digests`, of which only the sizes of the results are assumed; the sizes of
-- structures in memory are the parameter `Layout`. The curve is the parameter `Ecc`, a signatory is any
-- function of the transaction and the index of its input, and the sort of a block's transactions is a
-- function of the standard library that `BuildBlock` takes. The text of an address is ASCII, and the crate
-- bs58 is the parameter `Base58`, of which it is assumed that it decodes what it encodes. The reader of tables, of the crate
-- flatbuffers, is the parameter `Flatbuffers`.
--
-- Loops are structural where they can be. `Script.ops` runs on one round more than there are bytes, and
-- each operation takes a byte at least; the loop of a merkle root runs on as many rounds as there are
-- leaves, and each round halves them. The search for a nonce takes as many rounds as it is given, and there
-- are 2^32 nonces in a Bitcoin header and 2^64 in one of Lotus. A script number takes four rounds, one for
-- each byte of an i32. The loop that cuts bits into groups takes a round for each
-- group, and no more than there are bits.
--
-- Not modelled: hexadecimal and assembly text and serde, the curve itself (an interface to secp256k1),
-- sockets and the calls to a node and to chronik, the layout of generated tables, and the crates for
-- errors.
pub mod Address
pub mod Base
pub mod SigHashType
pub mod Errors
pub mod Bytes
pub mod Ecc
pub mod Encoding
pub mod Code
pub mod Opcode
pub mod Op
pub mod Script
pub mod Compression
pub mod Hash
pub mod Merkle
pub mod Network
pub mod Nng
pub mod Sign
pub mod SignData
pub mod Tx
pub mod Block
pub mod ScriptNum
pub mod BuildBlock
pub mod Slp
pub mod Slpv2
pub mod Tests
