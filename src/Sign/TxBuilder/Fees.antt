-- ===== src/Sign/TxBuilder/Fees.antt =====
-- What the outputs of a transaction with a leftover output leave for the fee (the block of
-- `TxBuilder::sign` in bitcoinsuite-core/src/sign/tx_builder.rs that adjusts the outputs).
use bitcoinsuite.Base.{
  ℕ, zero, suc, ◌+◌, ◌-◌, ◌%◌, ◌^◌, ◌≤◌, ◌<◌, ◌≡◌, sym, ◌∙◌, ap, subst, List, [], ◌∷◌, ◌⊎◌, inl,
  inr, false, some, ok, get_elem?, >>=-eq-ok, >>=-ok, Bool-cases, arith, length, set,
}
use bitcoinsuite.Base.Int.{ℤ, pos, negsuc, pos_part, neg_part, ◌+ℤ◌, ◌-ℤ◌, ◌≤ℤ◌, ltb_ℤ, int_laws}
use bitcoinsuite.Bytes.Endian.{
  from_pattern, to_pattern, IsSigned, from_pattern-to_pattern, to_pattern-lt,
}
use bitcoinsuite.Code.{ser}
use bitcoinsuite.Tx.{TxOutput, tx_output_code}
use bitcoinsuite.Sign.UnsignedTx.{at_index-ok}
use bitcoinsuite.Sign.TxBuilder.{wrap_i64, quot, tx_fee, remove, check_fee, settle}

-- The exact sum of the values.
abbrev pub sum_values : List TxOutput → ℤ
sum_values [] = pos 0
sum_values (o ∷ outputs) = o.value +ℤ sum_values outputs

-- An amount far from the bounds of an i64.
abbrev pub IsSmall : ℤ → Type 0
IsSmall z = (pos_part z < 2 ^ 61) × (neg_part z < 2 ^ 61)

pub wrap_i64-eq : (z : ℤ) → IsSigned 8 z → wrap_i64 z ≡ z
unfolding wrap_i64
wrap_i64-eq z h = from_pattern-to_pattern 8 z h

from_pattern-IsSigned : (u : ℕ) → u < 256 ^ 8 → IsSigned 8 (from_pattern 8 u)
unfolding from_pattern
from_pattern-IsSigned u h = ground arith

wrap_i64-IsSigned : (z : ℤ) → IsSigned 8 (wrap_i64 z)
unfolding wrap_i64
wrap_i64-IsSigned z = from_pattern-IsSigned (to_pattern 8 z) (to_pattern-lt 8 z (omega arith))

quot-IsSmall : (z : ℤ) → IsSigned 8 z → IsSmall (quot z 1000)
unfolding ◌-ℤ◌
quot-IsSmall (pos n) h = ground arith
quot-IsSmall (negsuc n) h = ground arith

tx_fee-IsSmall : (size : ℕ) (rate : ℤ) → IsSmall (tx_fee size rate)
unfolding tx_fee
tx_fee-IsSmall size rate = quot-IsSmall (wrap_i64 _) (wrap_i64-IsSigned _)

sum_values-set :
    (outputs : List TxOutput) (i : ℕ) (o o' : TxOutput)
    → get_elem? outputs i ≡ some o
    → sum_values (set outputs i o') +ℤ o.value ≡ sum_values outputs +ℤ o'.value
sum_values-set [] i o o' e = cc
sum_values-set (x ∷ outputs) zero o o' e =
    let same : x ≡ o = cc in
    subst
      (λ (y : TxOutput).
        o'.value +ℤ sum_values outputs +ℤ y.value ≡ x.value +ℤ sum_values outputs +ℤ o'.value)
      same (omega int_laws)
sum_values-set (x ∷ outputs) (suc i) o o' e =
    let ih = sum_values-set outputs i o o' e in omega (int_laws, ap pos_part ih, ap neg_part ih)

sum_values-remove :
    (outputs rest : List TxOutput) (i : ℕ) (o : TxOutput)
    → remove outputs i ≡ ok (o, rest)
    → sum_values rest +ℤ o.value ≡ sum_values outputs
sum_values-remove [] rest i o e = cc
sum_values-remove (x ∷ outputs) rest zero o e =
    let same : x ≡ o = cc in
    let same_rest : outputs ≡ rest = cc in rw (← same, ← same_rest) (omega int_laws)
sum_values-remove (x ∷ outputs) rest (suc i) o e =
    let (r, removed, done) = >>=-eq-ok (remove outputs i) _ e in
    let ih = sum_values-remove outputs r.1 i r.0 removed in
    let same : r.0 ≡ o = cc in
    let same_rest : x ∷ r.1 ≡ rest = cc in
    rw (← same, ← same_rest) (omega (int_laws, ap pos_part ih, ap neg_part ih))

not_below : (a b : ℤ) → ltb_ℤ a b ≡ false → b ≤ℤ a
not_below a b h = ground arith

sum-IsSigned : (a b : ℤ) → IsSmall a → IsSmall b → IsSigned 8 (a +ℤ b)
unfolding ◌+ℤ◌
sum-IsSigned a b ha hb = ground arith

check_fee-ok :
    (input_sum fixed_sum fee : ℤ) (outputs outs : List TxOutput)
    → IsSmall fixed_sum
    → IsSmall fee
    → check_fee input_sum fixed_sum fee outputs ≡ ok outs
    → (outputs ≡ outs) × (fixed_sum +ℤ fee ≤ℤ input_sum)
check_fee-ok input_sum fixed_sum fee outputs outs small_sum small_fee h =
    let exact : wrap_i64 (fixed_sum +ℤ fee) ≡ fixed_sum +ℤ fee =
      wrap_i64-eq (fixed_sum +ℤ fee) (sum-IsSigned fixed_sum fee small_sum small_fee) in
    elim (Bool-cases (ltb_ℤ input_sum (wrap_i64 (fixed_sum +ℤ fee)))) [
      | inl low ↦ let h' = rw (low, check_fee) at h in cc
      | inr enough ↦
          let h' = rw (enough, check_fee) at h in
          (
            cc,
            subst (λ z. z ≤ℤ input_sum) exact
                (not_below input_sum (wrap_i64 (fixed_sum +ℤ fee)) enough),
          )
    ]

drop_size :
    (tx_size part : ℕ)
    → tx_size < 2 ^ 64
    → part ≤ tx_size
    → (tx_size + 2 ^ 64 - part) % 2 ^ 64 ≡ tx_size - part
drop_size tx_size part h k = omega arith

module _ (input_sum rate dust_limit : ℤ) (tx_size idx : ℕ) (o : TxOutput)
    (outputs : List TxOutput) where
  -- The leftover output stays with a value that is not dust, and inputs, outputs and fee balance.
  pub record Keeps (outs : List TxOutput) : Type 0 where
    pub leftover_value : ℤ
    pub is_set : outs ≡ set outputs idx (record o { value = leftover_value })
    pub no_dust : dust_limit ≤ℤ leftover_value
    pub balance : sum_values outs +ℤ tx_fee tx_size rate ≡ input_sum

  -- The leftover output is gone, and the others leave the fee of the smaller transaction.
  pub record Drops (outs : List TxOutput) : Type 0 where
    pub is_removed : remove outputs idx ≡ ok (o, outs)
    pub pays : sum_values outs +ℤ tx_fee (tx_size - length (ser tx_output_code o)) rate ≤ℤ input_sum

  keep_sum :
      (fee v : ℤ)
      → get_elem? outputs idx ≡ some o
      → o.value ≡ pos 0
      → v ≡ input_sum -ℤ (sum_values outputs +ℤ fee)
      → sum_values (set outputs idx (record o { value = v })) +ℤ fee ≡ input_sum
  keep_sum fee v here zero_value is_v =
      let moved = sum_values-set outputs idx o (record o { value = v }) here in
      omega (
        int_laws,
        ap pos_part moved,
        ap neg_part moved,
        ap pos_part is_v,
        ap neg_part is_v,
        ap pos_part zero_value,
        ap neg_part zero_value,
      )

  dropped_sum :
      (rest : List TxOutput)
      → remove outputs idx ≡ ok (o, rest)
      → o.value ≡ pos 0
      → sum_values rest ≡ sum_values outputs
  dropped_sum rest removed zero_value =
      let total = sum_values-remove outputs rest idx o removed in
      omega (
        int_laws,
        ap pos_part total,
        ap neg_part total,
        ap pos_part zero_value,
        ap neg_part zero_value,
      )

leftover-IsSigned : (a b c : ℤ) → IsSmall a → IsSmall b → IsSmall c → IsSigned 8 (a -ℤ (b +ℤ c))
unfolding ◌+ℤ◌ ◌-ℤ◌
leftover-IsSigned a b c ha hb hc = ground arith

remove-get :
    (outputs : List TxOutput) (i : ℕ) (o : TxOutput)
    → get_elem? outputs i ≡ some o
    → (rest : List TxOutput) × (remove outputs i ≡ ok (o, rest))
remove-get [] i o e = cc
remove-get (x ∷ outputs) zero o e =
    let same : x ≡ o = cc in (outputs, ap (λ (y : TxOutput). ok (y, outputs)) same)
remove-get (x ∷ outputs) (suc i) o e =
    let (rest, removed) = remove-get outputs i o e in (x ∷ rest, >>=-ok _ removed)

leftover_lem :
    (a b c : ℤ)
    → IsSmall a
    → IsSmall b
    → IsSmall c
    → wrap_i64 (a -ℤ wrap_i64 (b +ℤ c)) ≡ a -ℤ (b +ℤ c)
leftover_lem a b c ha hb hc =
    ap (λ z. wrap_i64 (a -ℤ z)) (wrap_i64-eq (b +ℤ c) (sum-IsSigned b c hb hc))
    ∙ wrap_i64-eq (a -ℤ (b +ℤ c)) (leftover-IsSigned a b c ha hb hc)

-- Settling the leftover output, for amounts far from the bounds of an i64: either it keeps a value that
-- is not dust, and inputs are the outputs and the fee of the measured size, or it is removed,
-- and the inputs pay the other outputs and the fee of the size without it.
pub settle-Keeps_or_Drops :
    (input_sum rate dust_limit : ℤ) (tx_size idx : ℕ) (o : TxOutput) (outputs outs : List TxOutput)
    → IsSmall input_sum
    → IsSmall (sum_values outputs)
    → get_elem? outputs idx ≡ some o
    → o.value ≡ pos 0
    → tx_size < 2 ^ 64
    → length (ser tx_output_code o) ≤ tx_size
    → settle input_sum (sum_values outputs) rate dust_limit idx tx_size outputs ≡ ok outs
    → Keeps input_sum rate dust_limit tx_size idx o outputs outs
      ⊎ Drops input_sum rate dust_limit tx_size idx o outputs outs
unfolding settle
settle-Keeps_or_Drops input_sum rate dust_limit tx_size idx o outputs outs ha hb here zero_value h64
      fits e =
    let fee = tx_fee tx_size rate in
    let v = wrap_i64 (input_sum -ℤ wrap_i64 (sum_values outputs +ℤ fee)) in
    let small_fee = tx_fee-IsSmall tx_size rate in
    let is_v : v ≡ input_sum -ℤ (sum_values outputs +ℤ fee) =
      leftover_lem input_sum (sum_values outputs) fee ha hb small_fee in
    elim (Bool-cases (ltb_ℤ v dust_limit)) [
      | inl dust ↦
          let (rest, removed) = remove-get outputs idx o here in
          let small_size = drop_size tx_size (length (ser tx_output_code o)) h64 fits in
          let e' = rw (dust, settle, removed, small_size) at e in
          let (same, enough) =
            check_fee-ok input_sum (sum_values outputs) _ rest outs hb (tx_fee-IsSmall _ rate) e' in
          inr (record {
            is_removed = subst (λ (r : List TxOutput). remove outputs idx ≡ ok (o, r)) same removed;
            pays =
                subst (λ z. z +ℤ tx_fee (tx_size - length (ser tx_output_code o)) rate ≤ℤ input_sum)
                  (sym (
                      dropped_sum input_sum rate dust_limit tx_size idx o outputs rest removed
                        zero_value)
                    ∙ ap sum_values same)
                  enough;
          })
      | inr keeps ↦
          let e' = rw (keeps, settle) at e in
          let (same, enough) =
            check_fee-ok input_sum (sum_values outputs) fee _ outs hb small_fee
              (sym (>>=-ok _ (at_index-ok outputs idx o here)) ∙ e') in
          inl (record {
            leftover_value = v;
            is_set = sym same;
            no_dust = not_below v dust_limit keeps;
            balance =
                subst (λ os. sum_values os +ℤ fee ≡ input_sum) same
                  (keep_sum input_sum rate dust_limit tx_size idx o outputs fee v here zero_value
                    is_v);
          })
    ]
