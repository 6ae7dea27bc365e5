-- ===== src/Sign/TxBuilder/Pays.antt =====
-- What `TxBuilder::sign` of bitcoinsuite-core/src/sign/tx_builder.rs returns when there is a leftover
-- output.
use bitcoinsuite.Base.{
  ok_injective, ℕ, zero, suc, ◌<◌, ◌≤◌, ◌^◌, ◌≡◌, sym, ◌∙◌, ap, subst, List, [], ◌∷◌, ◌++◌, ◌⊎◌,
  some, Result, ok, err, panic, >>=-eq-ok, >>=-ok, arith, All, length, get_elem?, length-append,
  map_err,
}
use bitcoinsuite.Base.Int.{ℤ, pos}
use bitcoinsuite.Errors.{SignError, sign}
use bitcoinsuite.Bytes.{Bytes, put_slice}
use bitcoinsuite.Code.{ser, ser_parts, vec_ser_to, uint_ser_to}
use bitcoinsuite.Hash.{Digests}
use bitcoinsuite.Ecc.{Ecc, dummy_ecc}
use bitcoinsuite.Tx.{TxOutput, UnhashedTx, tx_output_code, unhashed_tx_ser_to}
use bitcoinsuite.Tx.RoundTrip.{tx_output_code-IsLawful}
use bitcoinsuite.Sign.UnsignedTx.{UnsignedTx, new, new_dummy}
use bitcoinsuite.Sign.TxBuilder.{
  TxBuilder, input_sum, prepare_outputs, sign_loop, adjust, settle, sign_tx, builder_tx,
  signatories,
}
use bitcoinsuite.Sign.TxBuilder.Fees.{IsSmall, sum_values, Keeps, Drops, settle-Keeps_or_Drops}
use bitcoinsuite.Sign.TxBuilder.Outputs.{
  StaysSmall, KeepsOutputs, prepare_outputs-IsLeftover, sign_loop-outputs,
}

parts-length :
    (outputs : List TxOutput) (bs : Bytes)
    → length bs ≤ length (ser_parts tx_output_code outputs bs)
unfolding ser_parts
parts-length [] bs = omega arith
parts-length (o ∷ outputs) bs =
    let appended = ap length (tx_output_code-IsLawful.appends o bs) in
    omega (
      arith,
      appended,
      length-append bs (ser tx_output_code o),
      parts-length outputs (tx_output_code.ser_to o bs),
    )

part-length :
    (outputs : List TxOutput) (bs : Bytes) (i : ℕ) (o : TxOutput)
    → get_elem? outputs i ≡ some o
    → length (ser tx_output_code o) ≤ length (ser_parts tx_output_code outputs bs)
unfolding ser_parts
part-length [] bs i o e = cc
part-length (x ∷ outputs) bs zero o e =
    let same : x ≡ o = cc in
    let appended = ap length (tx_output_code-IsLawful.appends x bs) in
    subst
      (λ y.
        length (ser tx_output_code y)
        ≤ length (ser_parts tx_output_code outputs (tx_output_code.ser_to x bs)))
      same
      (omega (
        arith,
        appended,
        length-append bs (ser tx_output_code x),
        parts-length outputs (tx_output_code.ser_to x bs),
      ))
part-length (x ∷ outputs) bs (suc i) o e = part-length outputs (tx_output_code.ser_to x bs) i o e

longer : (n : ℕ) (xs ys : Bytes) → n ≤ length xs → n ≤ length (xs ++ ys)
longer n xs ys h = omega (arith, length-append xs ys)

-- An output is no longer than its transaction.
output-length :
    (t : UnhashedTx) (i : ℕ) (o : TxOutput)
    → get_elem? t.outputs i ≡ some o
    → length (ser tx_output_code o) ≤ length (unhashed_tx_ser_to t [])
unfolding unhashed_tx_ser_to vec_ser_to uint_ser_to put_slice
output-length t i o e = longer _ _ _ (part-length t.outputs _ i o e)

map_err-ok : {A : Type 0} {r : Result SignError A} {a : A} → map_err sign r ≡ ok a → r ≡ ok a
map_err-ok {r} e = go r e
  where
    go : {A : Type 0} (r : Result SignError A) {a : A} → map_err sign r ≡ ok a → r ≡ ok a
    go (ok x) e = let same = ok_injective e in ap ok same
    go (err x) e = cc
    go panic e = cc

module _ (d : Digests) (b : TxBuilder) (rate dust_limit : ℤ) where
  -- A builder with a leftover output, amounts far from the bounds of an i64, and
  -- signatories that change no output.
  pub record HasLeftover : Type 0 where
    pub sum : ℤ
    pub fixed_sum : ℤ
    pub idx : ℕ
    pub outputs : List TxOutput
    pub is_sum : input_sum b ≡ ok (some sum)
    pub is_prepared : prepare_outputs b.outputs ≡ ok (fixed_sum, some idx, outputs)
    pub small_sum : IsSmall sum
    pub small_outputs : StaysSmall (pos 0) b.outputs
    pub small_fixed : IsSmall fixed_sum
    pub keep : All KeepsOutputs (signatories b)

  -- How the signed transaction comes from a dummy whose size fixes the fee.
  pub record Balances (h : HasLeftover) (tx : UnhashedTx) : Type 0 where
    pub dummy : UnsignedTx
    pub is_dummy :
        sign_loop dummy_ecc (new_dummy (builder_tx b h.outputs)) 0 (signatories b) ≡ ok dummy
    pub o : TxOutput
    pub is_leftover : get_elem? h.outputs h.idx ≡ some o
    pub settled :
        Keeps h.sum rate dust_limit
          (length (unhashed_tx_ser_to dummy.tx []))
          h.idx
          o
          h.outputs
          tx.outputs
        ⊎ Drops h.sum rate dust_limit
            (length (unhashed_tx_ser_to dummy.tx []))
            h.idx
            o
            h.outputs
            tx.outputs

  -- A builder with a leftover output that `sign` succeeds for gives a transaction that pays its fee: the
  -- leftover output stays, is not dust, and inputs are the outputs and the fee of the dummy's size;
  -- or it is removed, and the inputs pay the other outputs and the fee of the size without it. The
  -- amounts are far from the bounds of an i64, and signatories change no output.
  pub sign_tx-Balances :
      (ecc : Ecc) (tx : UnhashedTx) (h : HasLeftover)
      → ((dummy : UnsignedTx)
          → sign_loop dummy_ecc (new_dummy (builder_tx b h.outputs)) 0 (signatories b) ≡ ok dummy
          → length (unhashed_tx_ser_to dummy.tx []) < 2 ^ 64)
      → sign_tx d b ecc rate dust_limit ≡ ok tx
      → Balances h tx
  unfolding sign_tx adjust new new_dummy
  sign_tx-Balances ecc tx h fits e =
      let prepared = sym (>>=-ok _ (ap (map_err sign) h.is_sum)) ∙ e in
      let adjusted = sym (>>=-ok _ (ap (map_err sign) h.is_prepared)) ∙ prepared in
      let (outs, adjusts, signs) =
        >>=-eq-ok (adjust d b rate dust_limit (some h.sum) h.fixed_sum (some h.idx) h.outputs) _
          adjusted in
      let (dummy, is_dummy, settles) =
        >>=-eq-ok (sign_loop dummy_ecc (new_dummy (builder_tx b h.outputs)) 0 (signatories b)) _
          adjusts in
      let (u, signed, done) =
        >>=-eq-ok (sign_loop ecc (new d (builder_tx b outs)) 0 (signatories b)) _ signs in
      let (is_total, (o, is_leftover, zero_value)) =
        prepare_outputs-IsLeftover b.outputs h.fixed_sum (some h.idx) h.outputs h.small_outputs
          h.is_prepared in
      let kept : dummy.tx.outputs ≡ h.outputs =
        sign_loop-outputs dummy_ecc (signatories b) (new_dummy (builder_tx b h.outputs)) dummy 0
          h.keep is_dummy in
      let final : outs ≡ tx.outputs =
        sym (sign_loop-outputs ecc (signatories b) (new d (builder_tx b outs)) u 0 h.keep signed)
        ∙ ap (λ (t : UnhashedTx). t.outputs) (ok_injective done) in
      let size = length (unhashed_tx_ser_to dummy.tx []) in
      let settled : settle h.sum (sum_values h.outputs) rate dust_limit h.idx size h.outputs
          ≡ ok tx.outputs =
        ap (λ z. settle h.sum z rate dust_limit h.idx size h.outputs) (sym is_total)
        ∙ ap (λ outputs. settle h.sum h.fixed_sum rate dust_limit h.idx size outputs) (sym kept)
        ∙ map_err-ok settles
        ∙ ap ok final in
      record {
        dummy = dummy;
        is_dummy = is_dummy;
        o = o;
        is_leftover = is_leftover;
        settled =
            settle-Keeps_or_Drops h.sum rate dust_limit size h.idx o h.outputs tx.outputs
              h.small_sum (subst IsSmall is_total h.small_fixed) is_leftover zero_value
              (fits dummy is_dummy)
              (output-length dummy.tx h.idx o
                (ap (λ outputs. get_elem? outputs h.idx) kept ∙ is_leftover))
              settled;
      }
