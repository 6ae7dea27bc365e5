-- ===== src/Script/Ops.antt =====
-- `Script::from_ops`, `Script::ops` and `ScriptOpIter::next` of bitcoinsuite-core/src/script.rs: the
-- operations of a script, and their round trips.
use bitcoinsuite.Base.{
  ℕ, zero, suc, ◌<◌, ◌≡◌, ◌↔◌, ok_injective, ◌≢◌, refl, sym, ap, ◌∙◌, List, [], ◌∷◌, ◌++◌, Option,
  none, some, Result, ok, panic, ◌>>=◌, >>=-eq-ok, length, arith, append_assoc, append-nil, All,
  length-append, All-append_right, Result-cases, subst, inl, inr,
}
use bitcoinsuite.Errors.{BytesError, BitcoinSuiteError}
use bitcoinsuite.Bytes.{Bytes, IsByte, IsBytes, split_to, split_to_array, read_le}
use bitcoinsuite.Op.{Op, code, push, deser_op, deser_operand, deser_push, ser_op}
use bitcoinsuite.Op.RoundTrip.{IsOp, op_bytes, ser_op-op_bytes, deser_op-op_bytes, deser_op_parts}
use bitcoinsuite.Script.{Script, mk_script}

-- for op in ops_iter { op.ser_op(&mut bytecode)?; }
unfoldable pub from_ops_loop : Bytes → List Op → Result BitcoinSuiteError Bytes
from_ops_loop bs [] = ok bs
from_ops_loop bs (op ∷ ops) = do bs' ← ser_op op bs; from_ops_loop bs' ops

unfoldable pub from_ops : List Op → Result BitcoinSuiteError Script
unfolding from_ops_loop
from_ops ops = do bs ← from_ops_loop [] ops; ok (mk_script bs)

-- `ScriptOpIter::next`: no item at the end of the bytecode.
unfoldable pub next : Bytes → Option (Result BytesError (Op × Bytes))
next [] = none
next (b ∷ bs) = some (deser_op (b ∷ bs))

-- `ops().collect::<Result<Vec<_>, _>>()`. The fuel is the number of rounds; `panic` stands for a
-- loop that ran out of it.
unfoldable pub ops_loop : ℕ → Bytes → Result BytesError (List Op)
ops_loop zero bs = panic
ops_loop (suc fuel) bs = elim (next bs) [
  | none ↦ ok []
  | some item ↦ do (op, rest) ← item; ops ← ops_loop fuel rest; ok (op ∷ ops)
]

unfoldable pub ops : Script → Result BytesError (List Op)
unfolding ops_loop next
ops s = ops_loop (suc (length s.bytecode)) s.bytecode

-- The encodings of the operations, one after the other.
unfoldable pub ops_bytes : List Op → Bytes
ops_bytes [] = []
ops_bytes (op ∷ ops) = op_bytes op ++ ops_bytes ops

pub from_ops_loop-ops_bytes :
    (ops : List Op) (bs : Bytes) → All IsOp ops → from_ops_loop bs ops ≡ ok (bs ++ ops_bytes ops)
unfolding from_ops_loop ops_bytes
from_ops_loop-ops_bytes [] bs h = rw (append-nil bs)
from_ops_loop-ops_bytes (op ∷ more) bs h =
    rw (ser_op-op_bytes op bs h.0, from_ops_loop-ops_bytes more (bs ++ op_bytes op) h.1)
      (ap ok (append_assoc bs (op_bytes op) (ops_bytes more)))

pub from_ops-ops_bytes :
    (ops : List Op) → All IsOp ops → from_ops ops ≡ ok (mk_script (ops_bytes ops))
unfolding from_ops
from_ops-ops_bytes ops h = rw (from_ops_loop-ops_bytes ops [] h)

pub op_bytes-cons : (op : Op) → (b : ℕ) × (r : Bytes) × (op_bytes op ≡ b ∷ r)
unfolding op_bytes
op_bytes-cons (code opcode) = (opcode, [], refl)
op_bytes-cons (push opcode pushed) = (opcode, _, refl)

pub next-op_bytes :
    (op : Op) (rest : Bytes) → IsOp op → next (op_bytes op ++ rest) ≡ some (ok (op, rest))
unfolding next
next-op_bytes op rest h =
    let (b, r, e) = op_bytes-cons op in
    rw e
      (ap some (ap deser_op (ap (λ (t : Bytes). t ++ rest) (sym e)) ∙ deser_op-op_bytes op rest h))

pub ops_loop-ops_bytes :
    (fuel : ℕ) (ops : List Op)
    → All IsOp ops
    → length (ops_bytes ops) < fuel
    → ops_loop fuel (ops_bytes ops) ≡ ok ops
unfolding ops_loop ops_bytes
ops_loop-ops_bytes zero ops h fits = elim fits [ ]
ops_loop-ops_bytes (suc fuel) [] h fits = unfold next in refl
ops_loop-ops_bytes (suc fuel) (op ∷ more) h fits =
    let (b, r, e) = op_bytes-cons op in
    rw (next-op_bytes op (ops_bytes more) h.0, ops_loop)
      (rw (
        ops_loop-ops_bytes fuel more h.1
          (omega (arith, length-append (op_bytes op) (ops_bytes more), ap length e))))

pub ops-ops_bytes : (os : List Op) → All IsOp os → ops (mk_script (ops_bytes os)) ≡ ok os
unfolding ops
ops-ops_bytes os h = ops_loop-ops_bytes (suc (length (ops_bytes os))) os h (omega arith)

ops-from_ops : (os : List Op) → All IsOp os → (s : Script) × (from_ops os ≡ ok s) × (ops s ≡ ok os)
ops-from_ops os h = (mk_script (ops_bytes os), from_ops-ops_bytes os h, ops-ops_bytes os h)

-- What the operations of a byte string show of it: each has an encoding, and the encodings are it.
record Reads (bs : Bytes) (os : List Op) : Type 0 where
  valid : All IsOp os
  whole : bs ≡ ops_bytes os

Reads-nil : Reads [] []
unfolding ops_bytes
Reads-nil = record { valid = tt; whole = refl }

Reads-cons :
    (bs rest : Bytes) (op : Op) (more : List Op)
    → IsOp op
    → bs ≡ op_bytes op ++ rest
    → Reads rest more
    → Reads bs (op ∷ more)
unfolding ops_bytes
Reads-cons bs rest op more is_op eq r = record {
  valid = (is_op, r.valid);
  whole = eq ∙ ap (λ (t : Bytes). op_bytes op ++ t) r.whole;
}

ops_loop-Reads :
    (fuel : ℕ) (bs : Bytes) (os : List Op) → IsBytes bs → ops_loop fuel bs ≡ ok os → Reads bs os
unfolding ops_loop next
ops_loop-Reads zero bs os h e = cc
ops_loop-Reads (suc fuel) [] os h e =
    let none_left : os ≡ [] = ground arith in rw none_left Reads-nil
ops_loop-Reads (suc fuel) (b ∷ bs) os h e =
    let (one, read, rest_read) = >>=-eq-ok (deser_op (b ∷ bs)) _ e in
    let (more, loop, done) = >>=-eq-ok (ops_loop fuel one.1) _ rest_read in
    let (is_op, eq) = deser_op_parts (b ∷ bs) one.0 one.1 h read in
    let left : IsBytes one.1 =
      All-append_right IsByte (op_bytes one.0) one.1 (subst IsBytes eq h) in
    let ih = ops_loop-Reads fuel one.1 more left loop in
    let items : os ≡ one.0 ∷ more = cc done in
    rw items (Reads-cons (b ∷ bs) one.1 one.0 more is_op eq ih)

pub from_ops-ops :
    (s : Script) (os : List Op)
    → IsBytes s.bytecode
    → ops s ≡ ok os
    → All IsOp os × (from_ops os ≡ ok s)
unfolding ops
from_ops-ops s os h e =
    let reads = ops_loop-Reads (suc (length s.bytecode)) s.bytecode os h e in
    (reads.valid, from_ops-ops_bytes os reads.valid ∙ ap ok (ap mk_script (sym reads.whole)))

-- A script of bytes shows some operations exactly when these have an encoding and it is built from them.
pub ops-eq-ok :
    (s : Script) (os : List Op)
    → IsBytes s.bytecode
    → (ops s ≡ ok os) ↔ (All IsOp os × (from_ops os ≡ ok s))
ops-eq-ok s os h = (
  from_ops-ops s os h,
  λ (valid, built).
      let (s', built', shown) = ops-from_ops os valid in
      ap ops (ok_injective (sym built ∙ built')) ∙ shown,
)

pub deser_op-ne-panic : (bs : Bytes) → deser_op bs ≢ panic
unfolding deser_op deser_operand deser_push read_le split_to split_to_array
deser_op-ne-panic bs = ground arith

ops_loop-ne-panic :
    (fuel : ℕ) (bs : Bytes) → IsBytes bs → length bs < fuel → ops_loop fuel bs ≢ panic
unfolding ops_loop next
ops_loop-ne-panic zero bs h fits = elim fits [ ]
ops_loop-ne-panic (suc fuel) [] h fits = λ e. cc
ops_loop-ne-panic (suc fuel) (b ∷ bs) h fits = elim (Result-cases (deser_op (b ∷ bs))) [
  | inl (one, read) ↦
      let (is_op, eq) = deser_op_parts (b ∷ bs) one.0 one.1 h read in
      let (c, r, head) = op_bytes-cons one.0 in
      let shorter : length one.1 < fuel =
        omega (arith, ap length eq, ap length head, length-append (op_bytes one.0) one.1) in
      let left : IsBytes one.1 =
        All-append_right IsByte (op_bytes one.0) one.1 (subst IsBytes eq h) in
      rw read (ground (arith, ops_loop-ne-panic fuel one.1 left shorter))
  | inr (inl (e, failed)) ↦ rw failed (λ p. cc)
  | inr (inr panicked) ↦ absurd (deser_op-ne-panic (b ∷ bs) panicked)
]

-- Reading the operations of a script ends on every byte string, with a list or an error.
pub ops-ne-panic : (s : Script) → IsBytes s.bytecode → ops s ≢ panic
unfolding ops
ops-ne-panic s h = ops_loop-ne-panic (suc (length s.bytecode)) s.bytecode h (omega arith)
