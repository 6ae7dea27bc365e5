-- ===== src/Op.antt =====
-- bitcoinsuite-core/src/op.rs: one operation of a script, an opcode or a push of bytes.
-- `Op::push_script_num` is in `ScriptNum.Push`.
pub mod RoundTrip
use bitcoinsuite.Base.{
  ℕ, ◌%◌, ◌^◌, List, [], ◌∷◌, ◌&&◌, Option, none, some, Result, ok, err, ◌>>=◌, leb, if◌then◌else◌,
  ◌==◌, length,
}
use bitcoinsuite.Errors.{BytesError, BitcoinSuiteError, inconsistent_op_push}
use bitcoinsuite.Bytes.{Bytes, split_to, read_le, put_slice}
use bitcoinsuite.Bytes.Endian.{to_le_bytes}
use bitcoinsuite.Encoding.{first}
use bitcoinsuite.Opcode.{op_0, op_pushdata1, op_pushdata2, op_pushdata4}

pub data Op : Type 0 where
  code : ℕ → Op
  push : ℕ → Bytes → Op

-- `none` is the panic "Bytes way too large".
unfoldable pub push_bytes : Bytes → Option Op
push_bytes bs =
    if length bs == 0
    then some (code op_0)
    else if leb (length bs) 0x4b
    then some (push (length bs % 2 ^ 8) bs)
    else if leb (length bs) 0xff
    then some (push op_pushdata1 bs)
    else if leb (length bs) 0xffff
    then some (push op_pushdata2 bs)
    else if leb (length bs) 0xffff_ffff
    then some (push op_pushdata4 bs)
    else none

-- `Op::Push(opcode, data.split_to(size)?)`
unfoldable pub deser_push : ℕ → ℕ → Bytes → Result BytesError (Op × Bytes)
deser_push opcode size bs = do (pushed, bs) ← split_to bs size; ok (push opcode pushed, bs)

-- The `match opcode` of `deser_op`.
unfoldable pub deser_operand : ℕ → Bytes → Result BytesError (Op × Bytes)
unfolding deser_push
deser_operand opcode bs =
    if leb 1 opcode && leb opcode 0x4b
    then deser_push opcode opcode bs
    else if opcode == op_pushdata1
    then (do (size, bs) ← split_to bs 1; deser_push opcode (first size) bs)
    else if opcode == op_pushdata2
    then (do (size, bs) ← read_le 2 bs; deser_push opcode size bs)
    else if opcode == op_pushdata4
    then (do (size, bs) ← read_le 4 bs; deser_push opcode size bs)
    else ok (code opcode, bs)

unfoldable pub deser_op : Bytes → Result BytesError (Op × Bytes)
unfolding deser_operand
deser_op bs = do (opcode, bs) ← split_to bs 1; deser_operand (first opcode) bs

-- The result is the buffer with the operation behind what it held.
unfoldable pub ser_op : Op → Bytes → Result BitcoinSuiteError Bytes
unfolding put_slice
ser_op (code opcode) bs = ok (put_slice bs (opcode ∷ []))
ser_op (push opcode pushed) bs =
    let bs' = put_slice bs (opcode ∷ []) in
    if leb 1 opcode && leb opcode 0x4b
    then ok (put_slice bs' pushed)
    else if opcode == op_pushdata1
    then ok (put_slice (put_slice bs' ((length pushed % 2 ^ 8) ∷ [])) pushed)
    else if opcode == op_pushdata2
    then ok (put_slice (put_slice bs' (to_le_bytes 2 (length pushed % 2 ^ 16))) pushed)
    else if opcode == op_pushdata4
    then ok (put_slice (put_slice bs' (to_le_bytes 4 (length pushed % 2 ^ 32))) pushed)
    else err (inconsistent_op_push opcode)
