-- ===== src/Script/Codesep.antt =====
-- `Script::cut_out_codesep` and `Script::parse_p2pkh_spend` of bitcoinsuite-core/src/script.rs.
use bitcoinsuite.Base.{
  ℕ, zero, suc, ◌+◌, ◌<◌, ◌≡◌, refl, ap, ◌∙◌, List, [], ◌∷◌, ◌++◌, Bool, true, false, ◌&&◌, Option,
  none, some, Result, ok, err, panic, ◌>>=◌, ltb, if◌then◌else◌, ◌==◌, length, arith, All,
  Bool-cases, inl, inr, length-append, Result-cases, and_then, lt→ltb, ◌≤◌, ◌-◌, append-nil,
  append_assoc, ◌%◌, subst, All-append_right,
}
use bitcoinsuite.Errors.{BitcoinSuiteError, from_bytes_error, codesep_not_found}
use bitcoinsuite.Bytes.{Bytes, IsByte, IsBytes, IsArray, put_slice}
use bitcoinsuite.Opcode.{op_codeseparator, op_pushdata1}
use bitcoinsuite.Op.{Op, code, push, deser_op}
use bitcoinsuite.Op.RoundTrip.{IsOp, op_bytes, length_bytes, deser_op_parts}
use bitcoinsuite.Script.{Script, mk_script, pubkey_length, p2pkh_spend}
use bitcoinsuite.Script.Ops.{
  next, ops, ops_bytes, deser_op-ne-panic, next-op_bytes, op_bytes-cons, from_ops-ops,
  from_ops-ops_bytes,
}

abbrev pub is_codesep : Op → Bool
is_codesep (code opcode) = opcode == op_codeseparator
is_codesep (push opcode pushed) = false

-- The rounds of the `while` loop, with the number of separators so far. The fuel is the number of
-- rounds, and `panic` stands for a loop that ran out of it.
unfoldable pub codesep_loop : ℕ → ℕ → ℕ → Bytes → Result BitcoinSuiteError Script
codesep_loop zero n_codesep n_found bs = panic
codesep_loop (suc fuel) n_codesep n_found bs = elim (next bs) [
  | none ↦ err (codesep_not_found n_codesep)
  | some item ↦ do
    (op, remaining) ← from_bytes_error item
    let more =
        codesep_loop fuel n_codesep (if is_codesep op then n_found + 1 else n_found) remaining
    if is_codesep op && (n_codesep == n_found) then ok (mk_script remaining) else more
]

unfoldable pub cut_out_codesep : Script → Option ℕ → Result BitcoinSuiteError Script
unfolding codesep_loop next
cut_out_codesep s none = ok s
cut_out_codesep s (some n_codesep) = codesep_loop (suc (length s.bytecode)) n_codesep 0 s.bytecode

-- `ops.next()?.ok()?`
unfoldable pub next_ok : Bytes → Option (Op × Bytes)
unfolding next
next_ok bs = elim (next bs) [
  | none ↦ none
  | some item ↦ elim item [ ok r ↦ some r | err e ↦ none | panic ↦ none ]
]

abbrev pub spend_sig : Op → Option Bytes
spend_sig (code opcode) = none
spend_sig (push push_op pushed) = if ltb push_op op_pushdata1 then some pushed else none

abbrev pub spend_pubkey : Op → Option Bytes
spend_pubkey (code opcode) = none
spend_pubkey (push push_op pushed) =
    if (length pushed == pubkey_length) && (push_op == pubkey_length) then some pushed else none

-- The public key and the signature.
unfoldable pub parse_p2pkh_spend : Script → Option (Bytes × Bytes)
unfolding next_ok
parse_p2pkh_spend s = and_then (next_ok s.bytecode) (λ first. and_then (spend_sig first.0) (λ sig.
    and_then (next_ok first.1)
      (λ second. and_then (spend_pubkey second.0) (λ pubkey. some (pubkey, sig)))))

next_ok-op_bytes :
    (op : Op) (rest : Bytes) → IsOp op → next_ok (op_bytes op ++ rest) ≡ some (op, rest)
unfolding next_ok
next_ok-op_bytes op rest h = rw (next-op_bytes op rest h, next_ok) refl

-- The two pushes of a spend.
abbrev sig_op : Bytes → Op
sig_op sig = push (length sig) sig

push-IsOp : (bs : Bytes) → 0 < length bs → length bs < op_pushdata1 → IsOp (sig_op bs)
unfolding IsOp
push-IsOp bs long short = inl (long, omega arith, refl)

op_bytes-sig_op : (bs : Bytes) → length bs < op_pushdata1 → op_bytes (sig_op bs) ≡ length bs ∷ bs
unfolding op_bytes length_bytes
op_bytes-sig_op bs short = ground arith

p2pkh_spend-ops :
    (pubkey sig : Bytes)
    → IsArray pubkey_length pubkey
    → length sig < op_pushdata1
    → p2pkh_spend pubkey sig ≡ mk_script (op_bytes (sig_op sig) ++ (op_bytes (sig_op pubkey) ++ []))
unfolding p2pkh_spend put_slice
p2pkh_spend-ops pubkey sig h short =
    let small : length sig % 256 ≡ length sig = omega arith in
    rw
      (
        op_bytes-sig_op sig short,
        op_bytes-sig_op pubkey (omega arith),
        h,
        append-nil pubkey,
        small,
        append_assoc sig (pubkey_length ∷ []) pubkey,
      )
      refl

-- The signature and the public key of a P2PKH spend are read back, for a signature of 1 to 75 bytes.
pub parse_p2pkh_spend-p2pkh_spend :
    (pubkey sig : Bytes)
    → IsArray pubkey_length pubkey
    → 0 < length sig
    → length sig < op_pushdata1
    → parse_p2pkh_spend (p2pkh_spend pubkey sig) ≡ some (pubkey, sig)
unfolding parse_p2pkh_spend
parse_p2pkh_spend-p2pkh_spend pubkey sig h long short =
    let sig_ok =
      next_ok-op_bytes (sig_op sig) (op_bytes (sig_op pubkey) ++ []) (push-IsOp sig long short) in
    let pubkey_ok =
      next_ok-op_bytes (sig_op pubkey) [] (push-IsOp pubkey (omega arith) (omega arith)) in
    rw
      (
        p2pkh_spend-ops pubkey sig h short,
        sig_ok,
        lt→ltb (length sig) op_pushdata1 short,
        pubkey_ok,
        h,
      )
      refl

-- The bytecode behind the separator with a number, in a list of operations.
abbrev pub after_codesep : ℕ → List Op → Option (List Op)
after_codesep n [] = none
after_codesep n (op ∷ rest) =
    if is_codesep op
    then (if n == 0 then some rest else after_codesep (n - 1) rest)
    else after_codesep n rest

-- What the script code is, given what the separator leaves.
abbrev pub rest_script : ℕ → Option (List Op) → Result BitcoinSuiteError Script
rest_script n none = err (codesep_not_found n)
rest_script n (some rest) = ok (mk_script (ops_bytes rest))

codesep_loop-after :
    (fuel n found : ℕ) (os : List Op)
    → All IsOp os
    → length (ops_bytes os) < fuel
    → found ≤ n
    → codesep_loop fuel n found (ops_bytes os) ≡ rest_script n (after_codesep (n - found) os)
unfolding codesep_loop ops_bytes
codesep_loop-after zero n found os h fits low = elim fits [ ]
codesep_loop-after (suc fuel) n found [] h fits low = unfold next in refl
codesep_loop-after (suc fuel) n found (op ∷ os) h fits low =
    let (b, r, e) = op_bytes-cons op in
    let fits' : length (ops_bytes os) < fuel =
      omega (arith, length-append (op_bytes op) (ops_bytes os), ap length e) in
    let ih : (k : ℕ)
        → k ≤ n
        → codesep_loop fuel n k (ops_bytes os) ≡ rest_script n (after_codesep (n - k) os) =
      λ k le. codesep_loop-after fuel n k os h.1 fits' le in
    rw (next-op_bytes op (ops_bytes os) h.0, codesep_loop)
      (elim (Bool-cases (is_codesep op)) [
        | inl sep ↦ elim (Bool-cases (n == found)) [
          | inl here ↦ rw (sep, codesep_loop) (ground arith)
          | inr more ↦
              let index : n - found - 1 ≡ n - (found + 1) = omega arith in
              rw (sep, codesep_loop, index) (ground (arith, ih (found + 1)))
        ]
        | inr plain ↦ rw (plain, codesep_loop) (ih found low)
      ])

-- The separator with number `n` is cut out as a list of operations shows it: the script code is the
-- operations behind that separator, and `CodesepNotFound(n)` says that the script has too few.
pub cut_out_codesep-after :
    (s : Script) (n : ℕ) (os : List Op)
    → IsBytes s.bytecode
    → ops s ≡ ok os
    → cut_out_codesep s (some n) ≡ rest_script n (after_codesep n os)
unfolding cut_out_codesep
cut_out_codesep-after s n os h e =
    let (valid, built) = from_ops-ops s os h e in
    let is_script : s ≡ mk_script (ops_bytes os) = let parts = from_ops-ops_bytes os valid in cc in
    let all_of : n - 0 ≡ n = omega arith in
    let loop =
      codesep_loop-after (suc (length (ops_bytes os))) n 0 os valid (omega arith) (omega arith) in
    rw is_script (loop ∙ ap (λ k. rest_script n (after_codesep k os)) all_of)

-- The outcomes that the caller of `cut_out_codesep` expects.
abbrev pub IsCut : Result BitcoinSuiteError Script → Type 0
IsCut (ok s) = Unit
IsCut (err (BitcoinSuiteError.bytes e)) = Unit
IsCut (err (BitcoinSuiteError.codesep_not_found n)) = Unit
IsCut r = ⊥

if-IsCut :
    (test : Bool) (r q : Result BitcoinSuiteError Script)
    → IsCut r
    → IsCut q
    → IsCut (if test then r else q)
if-IsCut true r q hr hq = hr
if-IsCut false r q hr hq = hq

codesep_loop-IsCut :
    (fuel n found : ℕ) (bs : Bytes)
    → IsBytes bs
    → length bs < fuel
    → IsCut (codesep_loop fuel n found bs)
unfolding codesep_loop next
codesep_loop-IsCut zero n found bs h fits = elim fits [ ]
codesep_loop-IsCut (suc fuel) n found [] h fits = tt
codesep_loop-IsCut (suc fuel) n found (b ∷ bs) h fits = elim (Result-cases (deser_op (b ∷ bs))) [
  | inl (one, read) ↦
      let (is_op, eq) = deser_op_parts (b ∷ bs) one.0 one.1 h read in
      let (c, r, head) = op_bytes-cons one.0 in
      let shorter : length one.1 < fuel =
        omega (arith, ap length eq, ap length head, length-append (op_bytes one.0) one.1) in
      let left : IsBytes one.1 =
        All-append_right IsByte (op_bytes one.0) one.1 (subst IsBytes eq h) in
      let ih : (k : ℕ) → IsCut (codesep_loop fuel n k one.1) =
        λ k. codesep_loop-IsCut fuel n k one.1 left shorter in
      rw (read, codesep_loop)
        (if-IsCut (is_codesep one.0 && n == found) (ok (mk_script one.1)) _ tt (ih _))
  | inr (inl (e, failed)) ↦ rw (failed, codesep_loop) tt
  | inr (inr panicked) ↦ absurd (deser_op-ne-panic (b ∷ bs) panicked)
]

-- Cutting out a separator ends on every script, and the error is one of two: the encoding of an
-- operation, or a separator that is not there.
pub cut_out_codesep-IsCut :
    (s : Script) (codesep_idx : Option ℕ)
    → IsBytes s.bytecode
    → IsCut (cut_out_codesep s codesep_idx)
unfolding cut_out_codesep
cut_out_codesep-IsCut s none h = tt
cut_out_codesep-IsCut s (some n) h =
    codesep_loop-IsCut (suc (length s.bytecode)) n 0 s.bytecode h (omega arith)
