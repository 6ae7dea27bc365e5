-- ===== src/ScriptNum/Push.antt =====
-- `Op::push_script_num` of bitcoinsuite-core/src/op.rs.
use bitcoinsuite.Base.{
  ◌+◌, ◌-◌, ◌%◌, ◌^◌, ◌≡◌, refl, ap, ◌&&◌, Bool, true, false, sym, ◌∙◌, Option, none, some,
  and_then, if◌then◌else◌, ◌==◌, leb, length, arith, ==_refl, Bool-cases, inl, inr,
}
use bitcoinsuite.Base.Int.{ℤ, pos, negsuc}
use bitcoinsuite.Bytes.{Bytes}
use bitcoinsuite.Opcode.{op_0, op_1negate, op_1}
use bitcoinsuite.Op.{Op, code, push}
use bitcoinsuite.ScriptNum.{
  ser_script_num, read_script_num, IsNegatable, read-ser_script_num, ser_script_num-length,
}

abbrev pub push_num : Bytes → Option Op
push_num bytes = some (push (length bytes % 2 ^ 8) bytes)

-- `none` is the panic of `ser_script_num`.
unfoldable pub push_script_num : ℤ → Option Op
push_script_num (pos n) =
    let bytes = and_then (ser_script_num (pos n)) push_num in
    if n == 0
    then some (code op_0)
    else if leb 1 n && leb n 16
    then some (code (n + op_1 - 1))
    else bytes
push_script_num (negsuc n) =
    let bytes = and_then (ser_script_num (negsuc n)) push_num in
    if n == 0 then some (code op_1negate) else bytes

-- The number that an operation pushes, if it pushes one: OP_0, OP_1NEGATE and OP_1 to OP_16 have no bytes
-- behind them, and the opcode of a short push is the number of its bytes.
abbrev pub pushed_num : Op → Option ℤ
pushed_num (code opcode) =
    if opcode == 0x00
    then some (pos 0)
    else if opcode == 0x4f
    then some (negsuc 0)
    else if leb 0x51 opcode && leb opcode 0x60
    then some (pos (opcode - 0x50))
    else none
pushed_num (push opcode bytes) =
    if opcode == length bytes then some (read_script_num bytes) else none

abbrev pub is_code : Op → Bool
is_code (code opcode) = true
is_code (push opcode bytes) = false

-- -1 to 16
abbrev pub has_opcode : ℤ → Bool
has_opcode (pos n) = leb n 16
has_opcode (negsuc n) = n == 0

pushed_bytes :
    (value : ℤ)
    → IsNegatable value
    → (op : Op) × (and_then (ser_script_num value) push_num ≡ some op)
      × (pushed_num op ≡ some value)
      × (is_code op ≡ false)
pushed_bytes value h =
    let (num, serializes, reads) = read-ser_script_num value h in
    let few = ser_script_num-length value num serializes in
    let size : length num % 2 ^ 8 ≡ length num = omega (arith, few) in
    (
      push (length num % 2 ^ 8) num,
      ap (λ o. and_then o push_num) serializes,
      rw (size, ==_refl (length num)) (ap some reads),
      refl,
    )

-- Every i32 but the least one has an operation that pushes it: an opcode without bytes behind it for -1 to
-- 16, and otherwise a push whose opcode is the number of its bytes.
pub push_script_num-pushed_num :
    (value : ℤ)
    → IsNegatable value
    → (op : Op) × (push_script_num value ≡ some op)
      × (pushed_num op ≡ some value)
      × (is_code op ≡ has_opcode value)
unfolding push_script_num
push_script_num-pushed_num (pos n) h = elim (Bool-cases (n == 0)) [
  | inl nil ↦ (code op_0, rw (nil, push_script_num) refl, ground (arith, nil), ground (arith, nil))
  | inr filled ↦ elim (Bool-cases (leb 1 n && leb n 16)) [
    | inl small ↦ (
      code (n + op_1 - 1),
      rw (filled, small, push_script_num) refl,
      ground (arith, small),
      ground (arith, small),
    )
    | inr large ↦
        let (op, pushes, is_num, is_push) = pushed_bytes (pos n) h in
        (
          op,
          rw (filled, large, push_script_num) pushes,
          is_num,
          is_push ∙ ground (arith, filled, large),
        )
  ]
]
push_script_num-pushed_num (negsuc n) h = elim (Bool-cases (n == 0)) [
  | inl one ↦
      (code op_1negate, rw (one, push_script_num) refl, ground (arith, one), ground (arith, one))
  | inr more ↦
      let (op, pushes, is_num, is_push) = pushed_bytes (negsuc n) h in
      (op, rw (more, push_script_num) pushes, is_num, is_push ∙ sym more)
]
