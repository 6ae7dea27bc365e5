-- ===== src/Sign/TxBuilder/Outputs.antt =====
-- The outputs that `TxBuilder::sign` of bitcoinsuite-core/src/sign/tx_builder.rs starts from, and
-- that signing leaves alone.
use bitcoinsuite.Base.{
  ok_injective, ℕ, zero, suc, ◌+◌, ◌≡◌, refl, sym, ◌∙◌, ap, subst, List, [], ◌∷◌, ◌++◌, Option,
  none, some, ok, >>=-eq-ok, arith, All, length, get_elem?, length-append, map_err,
}
use bitcoinsuite.Base.Int.{ℤ, pos, ◌+ℤ◌, int_laws, +ℤ_assoc, +ℤ_comm}
use bitcoinsuite.Errors.{BitcoinSuiteError, sign}
use bitcoinsuite.Hash.{Digests}
use bitcoinsuite.Script.{Script}
use bitcoinsuite.Ecc.{Ecc}
use bitcoinsuite.Tx.{TxOutput}
use bitcoinsuite.Sign.UnsignedTx.{UnsignedTx, sighash_preimage, set_input_script, at_index}
use bitcoinsuite.Sign.Signatory.{Signatory, P2pkhSignatory, p2pkh_sign_input, p2pkh_signatory}
use bitcoinsuite.Sign.TxBuilder.{
  TxBuilderOutput, fixed, leftover, wrap_i64, prepare_loop, prepare_outputs, sign_loop,
}
use bitcoinsuite.Sign.TxBuilder.Fees.{sum_values, IsSmall, wrap_i64-eq}

-- The sums of the fixed outputs, from the left, stay far from the bounds of an i64.
abbrev pub StaysSmall : ℤ → List TxBuilderOutput → Type 0
StaysSmall sum [] = IsSmall sum
StaysSmall sum (fixed o ∷ rest) = IsSmall sum × StaysSmall (sum +ℤ o.value) rest
StaysSmall sum (leftover script ∷ rest) = StaysSmall sum rest

head-IsSmall : (sum : ℤ) (rest : List TxBuilderOutput) → StaysSmall sum rest → IsSmall sum
head-IsSmall sum [] h = h
head-IsSmall sum (fixed o ∷ rest) h = h.0
head-IsSmall sum (leftover script ∷ rest) h = head-IsSmall sum rest h

-- A place among outputs that has no value.
abbrev pub IsLeftover : List TxOutput → Option ℕ → Type 0
IsLeftover outputs none = Unit
IsLeftover outputs (some idx) =
    (o : TxOutput) × (get_elem? outputs idx ≡ some o) × (o.value ≡ pos 0)

get_elem?-append :
    {A : Type 0} (xs ys : List A) (i : ℕ) (x : A)
    → get_elem? xs i ≡ some x
    → get_elem? (xs ++ ys) i ≡ some x
get_elem?-append [] ys i x e = cc
get_elem?-append (y ∷ xs) ys zero x e = e
get_elem?-append (y ∷ xs) ys (suc i) x e = get_elem?-append xs ys i x e

get_elem?-last :
    {A : Type 0} (xs : List A) (x : A) → get_elem? (xs ++ (x ∷ [])) (length xs) ≡ some x
get_elem?-last [] x = refl
get_elem?-last (y ∷ xs) x = get_elem?-last xs x

sum_values-last :
    (outputs : List TxOutput) (o : TxOutput)
    → sum_values (outputs ++ (o ∷ [])) ≡ sum_values outputs +ℤ o.value
sum_values-last [] o = +ℤ_comm o.value (pos 0)
sum_values-last (x ∷ outputs) o =
    ap (λ z. x.value +ℤ z) (sum_values-last outputs o)
    ∙ sym (+ℤ_assoc x.value (sum_values outputs) o.value)

plus_zero : (z : ℤ) → z ≡ z +ℤ pos 0
plus_zero z = omega int_laws

IsLeftover-append :
    (xs ys : List TxOutput) (idx : Option ℕ) → IsLeftover xs idx → IsLeftover (xs ++ ys) idx
IsLeftover-append xs ys none h = tt
IsLeftover-append xs ys (some idx) h = (h.0, get_elem?-append xs ys idx h.0 h.1, h.2)

-- What the loop of `prepare_outputs` keeps: its index, its sum, and its leftover output.
record Prepares (k : ℕ) (sum : ℤ) (idx : Option ℕ) (outputs : List TxOutput) : Type 0 where
  is_count : length outputs ≡ k
  is_sum : sum ≡ sum_values outputs
  is_leftover : IsLeftover outputs idx

prepare_loop-Prepares :
    (rest : List TxBuilderOutput) (k : ℕ) (sum : ℤ) (idx : Option ℕ) (outputs : List TxOutput)
    (sum' : ℤ) (idx' : Option ℕ) (outputs' : List TxOutput)
    → StaysSmall sum rest
    → Prepares k sum idx outputs
    → prepare_loop k sum idx outputs rest ≡ ok (sum', idx', outputs')
    → (k' : ℕ) × Prepares k' sum' idx' outputs'
unfolding prepare_loop
prepare_loop-Prepares [] k sum idx outputs sum' idx' outputs' h p e =
    let same : Path (ℤ × Option ℕ × List TxOutput) (sum, idx, outputs) (sum', idx', outputs') =
      cc in
    (k, subst (λ (t : ℤ × Option ℕ × List TxOutput). Prepares k t.0 t.1 t.2) same p)
prepare_loop-Prepares (fixed o ∷ rest) k sum idx outputs sum' idx' outputs' h p e =
    let exact : wrap_i64 (sum +ℤ o.value) ≡ sum +ℤ o.value =
      wrap_i64-eq (sum +ℤ o.value)
        (let s = head-IsSmall (sum +ℤ o.value) rest h.1 in omega arith) in
    prepare_loop-Prepares rest (k + 1) (wrap_i64 (sum +ℤ o.value)) idx (outputs ++ (o ∷ [])) sum'
      idx' outputs' (subst (λ z. StaysSmall z rest) (sym exact) h.1)
      (record {
        is_count = omega (arith, length-append outputs (o ∷ []), p.is_count);
        is_sum = exact ∙ ap (λ z. z +ℤ o.value) p.is_sum ∙ sym (sum_values-last outputs o);
        is_leftover = IsLeftover-append outputs (o ∷ []) idx p.is_leftover;
      })
      e
prepare_loop-Prepares (leftover script ∷ rest) k sum (some idx) outputs sum' idx' outputs' h p e =
    cc
prepare_loop-Prepares (leftover script ∷ rest) k sum none outputs sum' idx' outputs' h p e =
    let o : TxOutput = record { value = pos 0; script = script } in
    prepare_loop-Prepares rest (k + 1) sum (some k) (outputs ++ (o ∷ [])) sum' idx' outputs' h
      (record {
        is_count = omega (arith, length-append outputs (o ∷ []), p.is_count);
        is_sum = p.is_sum ∙ plus_zero (sum_values outputs) ∙ sym (sum_values-last outputs o);
        is_leftover = (
          o,
          ap (λ i. get_elem? (outputs ++ (o ∷ [])) i) (sym p.is_count) ∙ get_elem?-last outputs o,
          refl,
        );
      })
      e

pub prepare_outputs-IsLeftover :
    (builder_outputs : List TxBuilderOutput) (sum : ℤ) (idx : Option ℕ) (outputs : List TxOutput)
    → StaysSmall (pos 0) builder_outputs
    → prepare_outputs builder_outputs ≡ ok (sum, idx, outputs)
    → (sum ≡ sum_values outputs) × IsLeftover outputs idx
unfolding prepare_outputs
prepare_outputs-IsLeftover builder_outputs sum idx outputs h e =
    let (k, p) =
      prepare_loop-Prepares builder_outputs 0 (pos 0) none [] sum idx outputs h
        (record { is_count = refl; is_sum = refl; is_leftover = tt }) e in
    (p.is_sum, p.is_leftover)

-- A signatory that changes no output, as the view of an input that it gets lets it.
abbrev pub KeepsOutputs : Option Signatory → Type 0
KeepsOutputs none = Unit
KeepsOutputs (some signatory) =
    (ecc : Ecc) (u u' : UnsignedTx) (idx : ℕ)
    → signatory.sign_input ecc u idx ≡ ok u'
    → u'.tx.outputs ≡ u.tx.outputs

pub sign_loop-outputs :
    (ecc : Ecc) (signatories : List (Option Signatory)) (u u' : UnsignedTx) (idx : ℕ)
    → All KeepsOutputs signatories
    → sign_loop ecc u idx signatories ≡ ok u'
    → u'.tx.outputs ≡ u.tx.outputs
unfolding sign_loop
sign_loop-outputs ecc [] u u' idx h e =
    let same : u ≡ u' = cc in ap (λ (x : UnsignedTx). x.tx.outputs) (sym same)
sign_loop-outputs ecc (none ∷ signatories) u u' idx h e =
    sign_loop-outputs ecc signatories u u' (idx + 1) h.1 e
sign_loop-outputs ecc (some signatory ∷ signatories) u u' idx h e =
    let (next, signs, rest) = >>=-eq-ok (signatory.sign_input ecc u idx) _ e in
    sign_loop-outputs ecc signatories next u' (idx + 1) h.1 rest ∙ h.0 ecc u next idx signs

set_input_script-outputs :
    (u u' : UnsignedTx) (idx : ℕ) (script : Script)
    → set_input_script {E = BitcoinSuiteError} u idx script ≡ ok u'
    → u'.tx.outputs ≡ u.tx.outputs
unfolding set_input_script
set_input_script-outputs u u' idx script e =
    let (input, found, done) = >>=-eq-ok (at_index u.tx.inputs idx) _ e in
    let same = ok_injective done in ap (λ (x : UnsignedTx). x.tx.outputs) (sym same)

-- The signatory of P2PKH outputs is one.
pub p2pkh_signatory-KeepsOutputs :
    (d : Digests) (key : P2pkhSignatory) → KeepsOutputs (some (p2pkh_signatory d key))
unfolding p2pkh_sign_input
p2pkh_signatory-KeepsOutputs d key ecc u u' idx e =
    let (preimage, signs, done) =
      >>=-eq-ok (map_err sign (sighash_preimage d u idx key.sig_hash_type none)) _ e in
    set_input_script-outputs u u' idx _ done
