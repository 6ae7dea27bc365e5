-- ===== src/Tests/Core.antt =====
-- Concrete inputs for the theorems about bitcoinsuite-core.
use bitcoinsuite.Base.{
  ℕ, ◌+◌, ◌%◌, ◌≡◌, ◌↔◌, refl, List, [], ◌∷◌, some, ok, err, arith, length, replicate,
  length-replicate, All, inl, inr,
}
use bitcoinsuite.Errors.{invalid_split}
use bitcoinsuite.Bytes.{Bytes, split_to}
use bitcoinsuite.Bytes.Endian.{to_le_bytes, from_le_bytes}
use bitcoinsuite.Encoding.{write_compact_size}
use bitcoinsuite.Code.Lawful.{IsLawful}
use bitcoinsuite.Op.{Op, code, push, deser_op, deser_operand, deser_push}
use bitcoinsuite.Op.RoundTrip.{IsOp}
use bitcoinsuite.Script.{mk_script, p2pkh_variant}
use bitcoinsuite.Script.Ops.{ops, ops_loop, next, from_ops, ops-eq-ok}
use bitcoinsuite.Script.Parse.{parse_variant}
use bitcoinsuite.Script.Variants.{script_of, IsVariant, parse_variant-eq}
use bitcoinsuite.SigHashType.{SigHashType, fixed, all, bip143}
use bitcoinsuite.SigHashType.Flags.{from_u32}
use bitcoinsuite.Hash.{Digests}
use bitcoinsuite.Merkle.{Hashed, bitcoin, get_merkle_root_and_height}
use bitcoinsuite.Merkle.Height.{get_merkle_root-IsHeight, IsHeight}
use bitcoinsuite.Tx.{Layout, tx_code}
use bitcoinsuite.Tx.RoundTrip.{tx_code-IsLawful, IsTx}

abbrev pub flat_digests : Digests
flat_digests = record {
  sha256 = λ bs. replicate 32 (length bs % 256);
  ripemd160 = λ bs. replicate 20 (length bs % 256);
  sha256_size = λ bs. length-replicate 32 (length bs % 256);
  ripemd160_size = λ bs. length-replicate 20 (length bs % 256);
}

abbrev pub layout64 : Layout
layout64 = record {
  tx_input_size = 104;
  tx_output_size = 40;
  tx_size = 128;
  metadata_field_size = 32;
}

-- A hash of numbers: the leaves are numbers, and a pair is hashed to a number that shows both.
abbrev number_hash : Hashed ℕ
number_hash = record {
  digest = λ bs. from_le_bytes bs + 1;
  as_slice = λ n. to_le_bytes 2 n;
  default = 0;
}

abbrev dup_push_add : Bytes
dup_push_add = 0x76 ∷ 0x02 ∷ 7 ∷ 8 ∷ 0x93 ∷ []

abbrev dup_push_add_ops : List Op
dup_push_add_ops = code 0x76 ∷ push 2 (7 ∷ 8 ∷ []) ∷ code 0x93 ∷ []

ops_run : ops (mk_script dup_push_add) ≡ ok dup_push_add_ops
unfolding ops ops_loop next deser_op deser_operand deser_push split_to
ops_run = refl

ops_cut : ops (mk_script (0x02 ∷ 7 ∷ [])) ≡ err (invalid_split 2 1)
unfolding ops ops_loop next deser_op deser_operand deser_push split_to
ops_cut = refl

ops-eq-ok_example :
    (ops (mk_script dup_push_add) ≡ ok dup_push_add_ops)
    ↔ (All IsOp dup_push_add_ops × (from_ops dup_push_add_ops ≡ ok (mk_script dup_push_add)))
ops-eq-ok_example = ops-eq-ok (mk_script dup_push_add) dup_push_add_ops (omega arith)

dup_push_add-IsOp : All IsOp dup_push_add_ops
unfolding IsOp
dup_push_add-IsOp = (inr (omega arith), (inl (omega arith), (inr (omega arith), tt)))

write_compact_size_run : write_compact_size [] 0x1234 ≡ 0xfd ∷ 0x34 ∷ 0x12 ∷ []
unfolding write_compact_size to_le_bytes
write_compact_size_run = refl

parse_variant-eq_example :
    (parse_variant (mk_script dup_push_add) ≡ p2pkh_variant (replicate 20 7))
    ↔ (mk_script dup_push_add ≡ script_of (p2pkh_variant (replicate 20 7)))
parse_variant-eq_example =
    parse_variant-eq (mk_script dup_push_add) (p2pkh_variant (replicate 20 7))
      (unfold IsVariant in refl)

abbrev all_bip143 : SigHashType
all_bip143 = record { variant = bip143; input_type = fixed; output_type = all }

flags_run : from_u32 0x41 ≡ some all_bip143
unfolding from_u32
flags_run = refl

get_merkle_root-IsHeight_example :
    (root : ℕ) × (height : ℕ) × (get_merkle_root_and_height number_hash (1 ∷ 2 ∷ 3 ∷ []) bitcoin
      ≡ some (root, height))
    × IsHeight 3 height
get_merkle_root-IsHeight_example = get_merkle_root-IsHeight number_hash (1 ∷ 2 ∷ 3 ∷ []) bitcoin

tx_code-IsLawful_example : IsLawful (tx_code flat_digests layout64) (IsTx layout64 flat_digests)
tx_code-IsLawful_example = tx_code-IsLawful layout64 flat_digests
