-- ===== src/Slp/Fields.antt =====
-- The pushes of an OP_RETURN output, as bitcoinsuite-slp/src/parse.rs takes them one by one.
use Prim.Native.String.{String}
use bitcoinsuite.Base.{
  ℕ, zero, suc, List, [], ◌∷◌, ◌&&◌, ◌||◌, Option, none, some, Result, ok, err, panic, ◌>>=◌, ◌>>◌,
  ltb, leb, if◌then◌else◌, ◌==◌, length,
}
use bitcoinsuite.Base.Int.{pos}
use bitcoinsuite.Bytes.{Bytes}
use bitcoinsuite.Bytes.Endian.{from_be_bytes}
use bitcoinsuite.Opcode.{op_0, op_1negate, op_16, op_pushdata4, op_return}
use bitcoinsuite.Op.{Op, code, push}
use bitcoinsuite.Bytes.{eq_bytes}
use bitcoinsuite.Slp.Amount.{SlpAmount, mk_amount}
use bitcoinsuite.Slp.Types.{
  SlpError, missing_op_return, no_opcodes, non_push_op, disallowed_push, invalid_field_size,
  invalid_lokad_id, slp_lokad_id, SlpTokenType, fungible, nft1_group, nft1_child, slp_token_type_v1,
  slp_token_type_v1_nft1_group, slp_token_type_v1_nft1_child,
}

abbrev pub opcode_of : Op → ℕ
opcode_of (code opcode) = opcode
opcode_of (push opcode pushed) = opcode

-- The operation at index 0.
abbrev pub check_op_return : Op → Result SlpError (Unit {0})
check_op_return (code opcode) =
    if opcode == op_return then ok tt else err (missing_op_return opcode)
check_op_return (push opcode pushed) = err (missing_op_return opcode)

-- The push of a later operation.
unfoldable pub push_of : ℕ → Op → Result SlpError Bytes
push_of op_idx (code opcode) =
    if (opcode == 0) || (leb op_1negate opcode && leb opcode op_16)
    then err (disallowed_push opcode op_idx)
    else err (non_push_op opcode op_idx)
push_of op_idx (push opcode pushed) =
    if (opcode == op_0) || ltb op_pushdata4 opcode
    then err (disallowed_push opcode op_idx)
    else ok pushed

-- The rounds of `parse_opreturn_ops` from index `op_idx` on.
unfoldable pub parse_pushes : ℕ → List Op → Result SlpError (List Bytes)
parse_pushes op_idx [] = ok []
parse_pushes zero (op ∷ ops) = do check_op_return op; parse_pushes 1 ops
parse_pushes (suc i) (op ∷ ops) = do
  pushed ← push_of (suc i) op
  pushes ← parse_pushes (suc (suc i)) ops
  ok (pushed ∷ pushes)

unfoldable pub parse_opreturn_ops : List Op → Result SlpError (List Bytes)
unfolding parse_pushes push_of
parse_opreturn_ops ops = parse_pushes 0 ops

-- The operation at index 1, which may be missing.
abbrev pub check_lokad_id : List Op → Result SlpError (Unit {0})
check_lokad_id [] = err (invalid_lokad_id [])
check_lokad_id (code opcode ∷ ops) = err (invalid_lokad_id (opcode ∷ []))
check_lokad_id (push opcode pushed ∷ ops) =
    if eq_bytes pushed slp_lokad_id then ok tt else err (invalid_lokad_id pushed)

unfoldable pub parse_lokad_id : List Op → Result SlpError (Unit {0})
parse_lokad_id [] = err no_opcodes
parse_lokad_id (op ∷ ops) = do check_op_return op; check_lokad_id ops

unfoldable pub parse_token_type : Bytes → Option SlpTokenType
parse_token_type bs =
    if eq_bytes bs slp_token_type_v1
    then some fungible
    else if eq_bytes bs slp_token_type_v1_nft1_group
    then some nft1_group
    else if eq_bytes bs slp_token_type_v1_nft1_child
    then some nft1_child
    else none

-- `SlpAmount::from_u64_be`
unfoldable pub from_u64_be : Bytes → String → Result SlpError SlpAmount
from_u64_be slice field_name =
    if length slice == 8
    then ok (mk_amount (pos (from_be_bytes slice)))
    else err (invalid_field_size field_name (8 ∷ []) (length slice))

-- `data_iter.next().unwrap()`
abbrev pub next_field : List Bytes → Result SlpError (Bytes × List Bytes)
next_field [] = panic
next_field (field ∷ fields) = ok (field, fields)
