-- ===== src/Op/RoundTrip.antt =====
-- Writing and reading operations (bitcoinsuite-core/src/op.rs).
use bitcoinsuite.Base.{
  ℕ, ◌^◌, ◌<◌, ◌≤◌, ◌≡◌, refl, sym, ap, [], ◌∷◌, ◌++◌, ◌&&◌, ◌⊎◌, inl, inr, ok, ◌>>=◌, >>=-eq-ok,
  leb, if◌then◌else◌, ◌==◌, ==_iff, Bool-cases, length, arith, append_assoc,
}
use bitcoinsuite.Bytes.{
  Bytes, IsByte, IsBytes, split_to, split_to-one, split_to-append, split_to_parts, read_le_parts,
  read_le, read_le-to_le_bytes,
}
use bitcoinsuite.Bytes.Endian.{to_le_bytes}
use bitcoinsuite.Opcode.{op_pushdata1, op_pushdata2, op_pushdata4}
use bitcoinsuite.Encoding.{first}
use bitcoinsuite.Op.{Op, code, push, deser_op, deser_operand, deser_push, ser_op}

-- The bytes between the opcode of a push and what it pushes.
unfoldable pub length_bytes : ℕ → ℕ → Bytes
length_bytes opcode size =
    if opcode == op_pushdata1
    then size ∷ []
    else if opcode == op_pushdata2
    then to_le_bytes 2 size
    else if opcode == op_pushdata4
    then to_le_bytes 4 size
    else []

-- An operation that has an encoding: an opcode that announces no push, or a push whose opcode
-- agrees with the number of bytes pushed.
unfoldable pub IsOp : Op → Type 0
IsOp (code opcode) = (opcode ≡ 0) ⊎ (op_pushdata4 < opcode)
IsOp (push opcode pushed) =
    (0 < opcode) × (opcode ≤ 0x4b) × (length pushed ≡ opcode)
    ⊎ (opcode ≡ op_pushdata1) × (length pushed < 2 ^ 8)
    ⊎ (opcode ≡ op_pushdata2) × (length pushed < 2 ^ 16)
    ⊎ (opcode ≡ op_pushdata4) × (length pushed < 2 ^ 32)

unfoldable pub op_bytes : Op → Bytes
op_bytes (code opcode) = opcode ∷ []
op_bytes (push opcode pushed) = opcode ∷ (length_bytes opcode (length pushed) ++ pushed)

behind :
    (bs : Bytes) (b : ℕ) (front back : Bytes)
    → ((bs ++ (b ∷ [])) ++ front) ++ back ≡ bs ++ (b ∷ (front ++ back))
behind bs b front back =
    rw (append_assoc (bs ++ (b ∷ [])) front back) (append_assoc bs (b ∷ []) (front ++ back))

pub ser_op-op_bytes : (op : Op) (bs : Bytes) → IsOp op → ser_op op bs ≡ ok (bs ++ op_bytes op)
unfolding ser_op op_bytes length_bytes IsOp
ser_op-op_bytes (code opcode) bs h = refl
ser_op-op_bytes (push opcode pushed) bs h = ground (
  arith,
  append_assoc bs (opcode ∷ []) pushed,
  behind bs opcode (length pushed ∷ []) pushed,
  behind bs opcode (to_le_bytes 2 (length pushed)) pushed,
  behind bs opcode (to_le_bytes 4 (length pushed)) pushed,
)

deser_push-append :
    (opcode : ℕ) (pushed rest : Bytes)
    → deser_push opcode (length pushed) (pushed ++ rest) ≡ ok (push opcode pushed, rest)
unfolding deser_push
deser_push-append opcode pushed rest = rw (split_to-append (length pushed) pushed rest refl)

pub deser_op-op_bytes :
    (op : Op) (rest : Bytes) → IsOp op → deser_op (op_bytes op ++ rest) ≡ ok (op, rest)
unfolding deser_op deser_operand op_bytes length_bytes IsOp
deser_op-op_bytes (code opcode) rest h = ground (arith, split_to-one opcode rest)
deser_op-op_bytes (push opcode pushed) rest h = ground (
  arith,
  split_to-one opcode (length_bytes opcode (length pushed) ++ (pushed ++ rest)),
  append_assoc (length_bytes opcode (length pushed)) pushed rest,
  split_to-one (length pushed) (pushed ++ rest),
  read_le-to_le_bytes 2 (length pushed) (pushed ++ rest),
  read_le-to_le_bytes 4 (length pushed) (pushed ++ rest),
  deser_push-append opcode pushed rest,
)

deser_push_parts :
    (opcode size : ℕ) (bs : Bytes) (op : Op) (rest : Bytes)
    → deser_push opcode size bs ≡ ok (op, rest)
    → (pushed : Bytes) × (op ≡ push opcode pushed) × (length pushed ≡ size) × (bs ≡ pushed ++ rest)
unfolding deser_push
deser_push_parts opcode size bs op rest h =
    let (taken, split, done) = >>=-eq-ok (split_to bs size) _ h in
    let (whole, measured) = split_to_parts bs size taken.0 taken.1 split in
    (taken.0, ground arith, measured, ground arith)

-- `announced` are the bytes behind the opcode from which the size was read.
push_read :
    (opcode size : ℕ) (announced bs : Bytes) (op : Op) (rest : Bytes)
    → deser_push opcode size bs ≡ ok (op, rest)
    → ((pushed : Bytes)
        → length pushed ≡ size
        → IsOp (push opcode pushed) × (length_bytes opcode size ≡ announced))
    → IsOp op × (opcode ∷ (announced ++ bs) ≡ op_bytes op ++ rest)
unfolding op_bytes
push_read opcode size announced bs op rest h fits =
    let (pushed, is_push, measured, whole) = deser_push_parts opcode size bs op rest h in
    let (is_op, announces) = fits pushed measured in
    (
      rw is_push is_op,
      rw (is_push, whole, ← announces, measured)
          (ap (λ (t : Bytes). opcode ∷ t)
            (sym (append_assoc (length_bytes opcode size) pushed rest))),
    )

-- A length of one byte.
split_one_parts :
    (bs front back : Bytes)
    → IsBytes bs
    → split_to bs 1 ≡ ok (front, back)
    → (bs ≡ first front ∷ back) × (first front < 2 ^ 8)
split_one_parts [] front back h e = unfold split_to in ground arith
split_one_parts (b ∷ bs) front back h e = ground (arith, split_to-one b bs, h.0)

one_parts :
    (bs : Bytes) (op : Op) (rest : Bytes)
    → IsBytes bs
    → (split_to bs 1 >>= (λ x. deser_push op_pushdata1 (first x.0) x.1)) ≡ ok (op, rest)
    → IsOp op × (op_pushdata1 ∷ bs ≡ op_bytes op ++ rest)
one_parts bs op rest h e =
    let (taken, split, done) = >>=-eq-ok (split_to bs 1) _ e in
    let (whole, is_byte) = split_one_parts bs taken.0 taken.1 h split in
    rw whole (
      push_read op_pushdata1 (first taken.0) (first taken.0 ∷ []) taken.1 op rest done
        (λ pushed measured. unfold IsOp length_bytes in ground arith))

number_parts :
    (opcode w : ℕ) (bs : Bytes) (op : Op) (rest : Bytes)
    → (opcode ≡ op_pushdata2) × (w ≡ 2) ⊎ (opcode ≡ op_pushdata4) × (w ≡ 4)
    → IsBytes bs
    → (read_le w bs >>= (λ x. deser_push opcode x.0 x.1)) ≡ ok (op, rest)
    → IsOp op × (opcode ∷ bs ≡ op_bytes op ++ rest)
number_parts opcode w bs op rest which h e =
    let (taken, read, done) = >>=-eq-ok (read_le w bs) _ e in
    let (whole, fits) = read_le_parts w bs taken.0 taken.1 h read in
    rw whole (
      push_read opcode taken.0 (to_le_bytes w taken.0) taken.1 op rest done
        (λ pushed measured. unfold IsOp length_bytes in ground arith))

operand_parts :
    (opcode : ℕ) (bs : Bytes) (op : Op) (rest : Bytes)
    → IsByte opcode
    → IsBytes bs
    → deser_operand opcode bs ≡ ok (op, rest)
    → IsOp op × (opcode ∷ bs ≡ op_bytes op ++ rest)
unfolding deser_operand
operand_parts opcode bs op rest hb h e = elim (Bool-cases (leb 1 opcode && leb opcode 0x4b)) [
  | inl short ↦
      push_read opcode opcode [] bs op rest (rw short at e)
        (λ pushed measured. unfold IsOp length_bytes in ground arith)
  | inr not_short ↦ elim (Bool-cases (opcode == op_pushdata1)) [
    | inl one ↦
        let is_one = (==_iff opcode op_pushdata1).0 one in
        rw is_one (one_parts bs op rest h (rw is_one at e))
    | inr not_one ↦ elim (Bool-cases (opcode == op_pushdata2)) [
      | inl two ↦
          number_parts opcode 2 bs op rest (inl ((==_iff opcode op_pushdata2).0 two, refl)) h
            (rw (not_short, not_one, two) at e)
      | inr not_two ↦ elim (Bool-cases (opcode == op_pushdata4)) [
        | inl four ↦
            number_parts opcode 4 bs op rest (inr ((==_iff opcode op_pushdata4).0 four, refl)) h
              (rw (not_short, not_one, not_two, four) at e)
        | inr not_four ↦ unfold IsOp op_bytes in ground arith
      ]
    ]
  ]
]

-- What is read from a byte string has an encoding, which is what was taken from the front.
pub deser_op_parts :
    (bs : Bytes) (op : Op) (rest : Bytes)
    → IsBytes bs
    → deser_op bs ≡ ok (op, rest)
    → IsOp op × (bs ≡ op_bytes op ++ rest)
unfolding deser_op
deser_op_parts [] op rest h e = unfold split_to in ground arith
deser_op_parts (b ∷ bs) op rest h e =
    operand_parts b bs op rest h.0 h.1 (rw (split_to-one b bs) at e)
