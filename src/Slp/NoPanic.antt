-- ===== src/Slp/NoPanic.antt =====
-- The panics of the parsers of the four tags in bitcoinsuite-slp/src/parse.rs. `Tx` has the rest.
pub mod Tx
use Prim.Native.String.{String}
use bitcoinsuite.Base.{
  ℕ, zero, suc, ◌+◌, ◌-◌, ◌<◌, ◌≤◌, ◌≡◌, ◌≢◌, refl, sym, ap, ◌∙◌, List, [], ◌∷◌, ◌&&◌, ◌||◌, Bool,
  true, false, not, Option, none, some, Result, ok, err, panic, ◌>>=◌, ◌>>◌, guard, assert, map_err,
  ltb, ltb→lt, lt→ltb, ◌^◌, ==_iff, ok_injective, if◌then◌else◌, ◌==◌, length, arith, All,
  get_elem?, Bool-cases, Result-cases, inl, inr,
}
use bitcoinsuite.Errors.{BytesError}
use bitcoinsuite.Bytes.{eq_bytes, Bytes, IsBytes}
use bitcoinsuite.Bytes.Endian.{
  length-reverse, reverse-IsByte, from_le_bytes, from_be_bytes, from_le_bytes-lt,
}
use mathlib.Core.List.{reverse}
use bitcoinsuite.Hash.{from_slice_be, from_slice, from_slice_optional}
use bitcoinsuite.Op.{Op, code, push}
use bitcoinsuite.Script.Ops.{ops, ops-ne-panic}
use bitcoinsuite.Tx.{UnhashedTx, TxOutput}
use bitcoinsuite.Slp.Amount.{SlpAmount}
use bitcoinsuite.Slp.Types.{
  SlpError, bytes_error, TokenId, SlpParseData, SlpTokenType, SlpTxType, genesis, send, mint, burn,
}
use bitcoinsuite.Slp.Fields.{
  check_op_return, push_of, parse_pushes, parse_opreturn_ops, check_lokad_id, parse_lokad_id,
  parse_token_type, from_u64_be, next_field,
}
use bitcoinsuite.Slp.Parse.{
  genesis_tag, mint_tag, send_tag, burn_tag, ParsedOpReturn, exactly, check_token_id,
  unwrap_token_id, check_nft1_child, check_genesis_sizes, check_baton_index, byte_0, unwrap_u64,
  parse_genesis_data, parse_mint_data, parse_send_data, parse_burn_data, parse_quantities,
  slp_output_quantity_field_names,
}
use bitcoinsuite.Base.Int.{ℤ, pos, negsuc}
use bitcoinsuite.Slp.Build.Send.{get_elem?-lt}
use bitcoinsuite.Slp.Validate.Lengths.{guard_lem}
use bitcoinsuite.Slp.ParseTx.{
  parse_slp_tx, parse_outputs, parse_fields, parse_known, parse_tagged, settle_token_id, index,
}

-- The token id is settled for what a tag gives.
abbrev pub Settles : ParsedOpReturn → Type 0
Settles r = (txid : Bytes) → settle_token_id txid r.slp_tx_type r.token_id ≢ panic

-- A parser that returns, and whose token id is settled when it succeeds.
abbrev pub Sound : Result SlpError ParsedOpReturn → Type 0
Sound (ok r) = Settles r
Sound (err e) = Unit {0}
Sound panic = ⊥

bind-Sound :
    {A : Type 0} (m : Result SlpError A) (f : A → Result SlpError ParsedOpReturn)
    → m ≢ panic
    → ((a : A) → m ≡ ok a → Sound (f a))
    → Sound (m >>= f)
bind-Sound (ok a) f h k = k a refl
bind-Sound (err e) f h k = tt
bind-Sound panic f h k = absurd (h refl)

pub bind-Returns {ℓ κ μ} :
    {E : Type ℓ} {A : Type κ} {B : Type μ} (m : Result E A) (f : A → Result E B)
    → m ≢ panic
    → ((a : A) → m ≡ ok a → f a ≢ panic)
    → (m >>= f) ≢ panic
bind-Returns (ok a) f h k = k a refl
bind-Returns (err e) f h k = λ p. cc
bind-Returns panic f h k = absurd (h refl)

push_of-ne-panic : (i : ℕ) (op : Op) → push_of i op ≢ panic
unfolding push_of
push_of-ne-panic i op = ground arith

pub parse_pushes-ne-panic : (i : ℕ) (os : List Op) → parse_pushes i os ≢ panic
unfolding parse_pushes
parse_pushes-ne-panic i [] = λ p. cc
parse_pushes-ne-panic zero (op ∷ os) = ground (arith, parse_pushes-ne-panic 1 os)
parse_pushes-ne-panic (suc i) (op ∷ os) =
    bind-Returns (push_of (suc i) op) _ (push_of-ne-panic (suc i) op) (λ p e.
      bind-Returns (parse_pushes (suc (suc i)) os) _ (parse_pushes-ne-panic (suc (suc i)) os)
        (λ ps e' q. cc))

pub parse_lokad_id-ne-panic : (os : List Op) → parse_lokad_id os ≢ panic
unfolding parse_lokad_id
parse_lokad_id-ne-panic os = ground arith

from_u64_be-ne-panic : (bs : Bytes) (name : String) → from_u64_be bs name ≢ panic
unfolding from_u64_be
from_u64_be-ne-panic bs name = ground arith

-- A field of 32 bytes is a token id.
unwrap_token_id-ne-panic : (bs : Bytes) → (length bs == 32) ≡ true → unwrap_token_id bs ≢ panic
unfolding from_slice_be from_slice from_slice_optional
unwrap_token_id-ne-panic bs h = ground (arith, length-reverse bs)

pub guard-Returns : (b : Bool) (e : SlpError) → guard b e ≢ panic
guard-Returns true e = λ p. cc
guard-Returns false e = λ p. cc

byte_0-ne-panic : (bs : Bytes) → length bs ≡ 1 → byte_0 bs ≢ panic
byte_0-ne-panic [] h = absurd (omega arith)
byte_0-ne-panic (b ∷ bs) h = λ q. cc

check_baton_index-ne-panic : (bs : Bytes) → check_baton_index bs ≢ panic
check_baton_index-ne-panic [] = λ q. cc
check_baton_index-ne-panic (b ∷ []) = guard-Returns _ _
check_baton_index-ne-panic (b ∷ c ∷ bs) = ground arith

-- Eight bytes are a number of 64 bits.
unwrap_u64-ne-panic :
    (bs : Bytes) (name : String) (amount : SlpAmount)
    → IsBytes bs
    → from_u64_be bs name ≡ ok amount
    → unwrap_u64 amount.base_amount ≢ panic
unfolding from_u64_be from_be_bytes
unwrap_u64-ne-panic bs name amount valid e = elim (Bool-cases (length bs == 8)) [
  | inl size ↦
      let e' = rw size at e in
      let n = from_le_bytes (reverse bs) in
      let read : pos n ≡ amount.base_amount =
        ap (λ (a : SlpAmount). a.base_amount) (ok_injective e') in
      let len : length (reverse bs) ≡ 8 = length-reverse bs ∙ (==_iff (length bs) 8).0 size in
      let fits = from_le_bytes-lt 8 (reverse bs) len (reverse-IsByte bs valid) in
      rw (sym read, lt→ltb n (2 ^ 64) (omega (arith, fits))) (λ q. cc)
  | inr other ↦ let e' = rw other at e in cc
]

exactly-length :
    (n : ℕ) (fields : List Bytes) (u : Unit {0}) → exactly n fields ≡ ok u → length fields ≡ n
exactly-length n fields u h = ground arith

exactly-ne-panic : (n : ℕ) (fields : List Bytes) → exactly n fields ≢ panic
exactly-ne-panic n fields = ground arith

-- The next field of a list that is long enough.
next-Sound :
    (n : ℕ) (fields : List Bytes) (f : Bytes × List Bytes → Result SlpError ParsedOpReturn)
    → length fields ≡ suc n
    → ((field : Bytes) (rest : List Bytes) → length rest ≡ n → Sound (f (field, rest)))
    → Sound (next_field fields >>= f)
next-Sound n [] f e k = absurd (omega arith)
next-Sound n (field ∷ rest) f e k = k field rest (omega arith)

-- The next field of a list of byte strings.
next_bytes-Sound :
    (n : ℕ) (fields : List Bytes) (f : Bytes × List Bytes → Result SlpError ParsedOpReturn)
    → length fields ≡ suc n
    → All IsBytes fields
    → ((field : Bytes) (rest : List Bytes)
        → length rest ≡ n
        → IsBytes field
        → All IsBytes rest
        → Sound (f (field, rest)))
    → Sound (next_field fields >>= f)
next_bytes-Sound n [] f e valid k = absurd (omega arith)
next_bytes-Sound n (field ∷ rest) f e valid k = k field rest (omega arith) valid.0 valid.1

-- Behind the test that there are as many fields as that.
exactly-Sound :
    (n : ℕ) (fields : List Bytes) (rest : Result SlpError ParsedOpReturn)
    → (length fields ≡ n → Sound rest)
    → Sound (exactly n fields >> rest)
exactly-Sound n fields rest k =
    bind-Sound (exactly n fields) _ (exactly-ne-panic n fields)
      (λ u eq. k (exactly-length n fields u eq))

guard-Sound :
    (b : Bool) (e : SlpError) (rest : Result SlpError ParsedOpReturn)
    → (b ≡ true → Sound rest)
    → Sound (guard b e >> rest)
guard-Sound true e rest k = k refl
guard-Sound false e rest k = tt

pub parse_mint_data-Sound : (fields : List Bytes) → Sound (parse_mint_data fields)
unfolding parse_mint_data
parse_mint_data-Sound fields = exactly-Sound 6 fields _ (λ e. next-Sound 5 fields _ e (λ _ xs e.
    next-Sound 4 xs _ e (λ _ xs e. next-Sound 3 xs _ e (λ _ xs e.
      next-Sound 2 xs _ e (λ token_id xs e. next-Sound 1 xs _ e (λ baton xs e.
        next-Sound 0 xs _ e (λ quantity xs e. rw e (
          guard-Sound (length token_id == 32) _ _ (λ is_id.
            guard-Sound (not (ltb 1 (length baton))) _ _ (λ size.
              bind-Sound (check_baton_index baton) _ (check_baton_index-ne-panic baton)
                (λ u checked.
                  bind-Sound (from_u64_be quantity "additional_quantity") _
                    (from_u64_be-ne-panic quantity "additional_quantity")
                    (λ amount read.
                      bind-Sound (unwrap_token_id token_id) _
                        (unwrap_token_id-ne-panic token_id is_id)
                        (λ id made. λ txid q. cc)))))))))))))

pub parse_burn_data-Sound :
    (fields : List Bytes) → All IsBytes fields → Sound (parse_burn_data fields)
unfolding parse_burn_data
parse_burn_data-Sound fields v = exactly-Sound 5 fields _ (λ e.
    next_bytes-Sound 4 fields _ e v (λ _ xs e _ v. next_bytes-Sound 3 xs _ e v (λ _ xs e _ v.
      next_bytes-Sound 2 xs _ e v (λ _ xs e _ v. next_bytes-Sound 1 xs _ e v (λ token_id xs e _ v.
        next_bytes-Sound 0 xs _ e v (λ quantity xs e are_bytes _.
          guard-Sound (length token_id == 32) _ _ (λ is_id.
            bind-Sound (from_u64_be quantity "token_burn_quantity") _
              (from_u64_be-ne-panic quantity "token_burn_quantity")
              (λ amount read.
                bind-Sound (unwrap_u64 amount.base_amount) _
                  (unwrap_u64-ne-panic quantity "token_burn_quantity" amount are_bytes read)
                  (λ burned fits.
                    bind-Sound (unwrap_token_id token_id) _
                      (unwrap_token_id-ne-panic token_id is_id) (λ id made. λ txid q. cc))))))))))

check_genesis_sizes-ne-panic :
    (document_hash decimals baton : Bytes)
    → check_genesis_sizes document_hash decimals baton ≢ panic
unfolding check_genesis_sizes
check_genesis_sizes-ne-panic document_hash decimals baton = ground arith

-- The sizes that pass the tests: one byte of decimals.
check_genesis_sizes-length :
    (document_hash decimals baton : Bytes) (u : Unit {0})
    → check_genesis_sizes document_hash decimals baton ≡ ok u
    → length decimals ≡ 1
unfolding check_genesis_sizes
check_genesis_sizes-length document_hash decimals baton u e = ground arith

check_nft1_child-ne-panic :
    (token_type : SlpTokenType) (baton : Bytes) (quantity : SlpAmount) (decimals : ℕ)
    → check_nft1_child token_type baton quantity decimals ≢ panic
unfolding check_nft1_child
check_nft1_child-ne-panic token_type baton quantity decimals = ground arith

pub parse_genesis_data-Sound :
    (fields : List Bytes) (token_type : SlpTokenType) → Sound (parse_genesis_data fields token_type)
unfolding parse_genesis_data
parse_genesis_data-Sound fields token_type = exactly-Sound 10 fields _ (λ e.
    next-Sound 9 fields _ e (λ _ xs e. next-Sound 8 xs _ e (λ _ xs e. next-Sound 7 xs _ e (λ _ xs e.
      next-Sound 6 xs _ e (λ ticker xs e. next-Sound 5 xs _ e (λ name xs e.
        next-Sound 4 xs _ e (λ url xs e. next-Sound 3 xs _ e (λ document_hash xs e.
          next-Sound 2 xs _ e (λ decimals xs e. next-Sound 1 xs _ e (λ baton xs e.
            next-Sound 0 xs _ e (λ quantity xs e. rw e (
              bind-Sound (check_genesis_sizes document_hash decimals baton) _
                (check_genesis_sizes-ne-panic document_hash decimals baton)
                (λ u sizes.
                  bind-Sound (from_u64_be quantity "initial_quantity") _
                    (from_u64_be-ne-panic quantity "initial_quantity")
                    (λ amount read.
                      bind-Sound (byte_0 decimals) _
                        (byte_0-ne-panic decimals
                          (check_genesis_sizes-length document_hash decimals baton u sizes))
                        (λ places is_place. guard-Sound (not (ltb 9 places)) _ _ (λ few.
                          bind-Sound (check_baton_index baton) _ (check_baton_index-ne-panic baton)
                            (λ v checked.
                              bind-Sound (check_nft1_child token_type baton amount places) _
                                (check_nft1_child-ne-panic token_type baton amount places)
                                (λ w child. λ txid q. cc))))))))))))))))))

parse_quantities-ne-panic :
    (idx : ℕ) (quantities : List Bytes)
    → idx + length quantities ≤ 19
    → parse_quantities idx quantities ≢ panic
unfolding parse_quantities
parse_quantities-ne-panic idx [] fits = λ p. cc
parse_quantities-ne-panic idx (quantity ∷ quantities) fits =
    let (name, found) = get_elem?-lt slp_output_quantity_field_names idx (omega arith) in
    rw found (
      bind-Returns (from_u64_be quantity name) _ (from_u64_be-ne-panic quantity name)
        (λ amount read.
          bind-Returns (parse_quantities (suc idx) quantities) _
            (parse_quantities-ne-panic (suc idx) quantities (omega arith)) (λ amounts rest q. cc)))

ltb_low : (n : ℕ) → not (ltb n 5) ≡ true → 5 ≤ n
ltb_low n h = ground arith

ltb_high : (n : ℕ) → not (ltb 23 n) ≡ true → n ≤ 23
ltb_high n h = ground arith

pub parse_send_data-Sound : (fields : List Bytes) → Sound (parse_send_data fields)
unfolding parse_send_data
parse_send_data-Sound fields = guard-Sound (not (ltb (length fields) 5)) _ _ (λ low.
    guard-Sound (not (ltb 23 (length fields))) _ _ (λ high.
      let many = ltb_low (length fields) low in
      let few = ltb_high (length fields) high in
      next-Sound (length fields - 1) fields _ (omega (arith, few, many)) (λ _ xs e.
        next-Sound (length fields - 2) xs _ (omega (arith, few, many)) (λ _ xs e.
          next-Sound (length fields - 3) xs _ (omega (arith, few, many)) (λ _ xs e.
            next-Sound (length fields - 4) xs _ (omega (arith, few, many)) (λ token_id quantities e.
              guard-Sound (length token_id == 32) _ _ (λ is_id.
                bind-Sound (parse_quantities 0 quantities) _
                  (parse_quantities-ne-panic 0 quantities (omega (arith, few, many)))
                  (λ amounts read.
                    bind-Sound (unwrap_token_id token_id) _
                      (unwrap_token_id-ne-panic token_id is_id) (λ id made. λ txid q. cc)))))))))
