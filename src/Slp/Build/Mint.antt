-- ===== src/Slp/Build/Mint.antt =====
-- Building and parsing a MINT script (bitcoinsuite-slp/src/build.rs and parse.rs).
use mathlib.Core.List.{reverse}
use bitcoinsuite.Base.{
  ℕ, zero, suc, ◌+◌, ◌^◌, ◌<◌, ◌≤◌, ◌≡◌, refl, ap, ◌∙◌, subst, List, [], ◌∷◌, Bool, true, false,
  Option, none, some, ok, >>=-eq-ok, ltb, if◌then◌else◌, ◌==◌, length, arith, ge→ltb, ltb→lt,
  Bool-cases, inl, inr, ==_refl,
}
use bitcoinsuite.Slp.Amount.{SlpAmount, zero_amount}
use bitcoinsuite.Slp.Amount.Sums.{mk_count}
use bitcoinsuite.Slp.Types.{
  new_token_id, SlpTokenType, mint, SlpToken, empty_token, SlpParseData, slp_lokad_id,
}
use bitcoinsuite.Slp.Parse.{
  mint_tokens, ParsedOpReturn, parse_mint_data, mint_tag, baton_index, check_baton_index,
}
use bitcoinsuite.Slp.ParseTx.{
  parse_slp_tx, parse_known, parse_tagged, assign_tokens, empty_tokens, set_baton, set_amount,
}
use bitcoinsuite.Slp.Build.{mint_opreturn, token_type_bytes, baton_bytes}
use bitcoinsuite.Slp.Build.Send.{
  from_u64_be-to_be_bytes, unwrap_token_id-reverse, check_token_id-reverse, be_bytes-IsItem,
  type_bytes-IsItem, hash-IsItem,
}
use bitcoinsuite.Bytes.{Bytes, IsBytes, IsArray}
use bitcoinsuite.Bytes.Endian.{to_be_bytes}
use bitcoinsuite.Script.{opreturn}
use bitcoinsuite.Tx.{UnhashedTx, TxOutput}
use bitcoinsuite.Slp.Build.Pushes.{IsItem, parse_slp_tx-items, parse_fields-known}

-- The output at an index has the mint baton.
abbrev pub is_at : ℕ → Option ℕ → Bool
is_at i none = false
is_at i (some baton) = i == baton

-- The tokens of the outputs from an index on: the output at index 1 gets the quantity, and the one at
-- the index of the baton gets the baton.
abbrev pub minted : ℕ → Option ℕ → SlpAmount → List TxOutput → List SlpToken
minted i baton quantity [] = []
minted i baton quantity (output ∷ outputs) =
    record { amount = if i == 1 then quantity else zero_amount; is_mint_baton = is_at i baton }
    ∷ minted (suc i) baton quantity outputs

abbrev batons : ℕ → Option ℕ → List TxOutput → List SlpToken
batons i baton [] = []
batons i baton (output ∷ outputs) =
    record { amount = zero_amount; is_mint_baton = is_at i baton } ∷ batons (suc i) baton outputs

empty-batons : (i : ℕ) (outputs : List TxOutput) → empty_tokens outputs ≡ batons i none outputs
empty-batons i [] = refl
empty-batons i (o ∷ outputs) =
    ap (λ (ts : List SlpToken). empty_token ∷ ts) (empty-batons (suc i) outputs)

not_at : (i b : ℕ) → b < i → (i == b) ≡ false
not_at i b h = ground arith

before : (i k : ℕ) → (i == (i + suc k)) ≡ false
before i k = ground arith

plus_zero : (i : ℕ) → i + 0 ≡ i
plus_zero i = omega arith

plus_suc : (i k : ℕ) → suc i + k ≡ i + suc k
plus_suc i k = omega arith

zero_plus : (b : ℕ) → 0 + b ≡ b
zero_plus b = omega arith

past-batons :
    (i b : ℕ) (outputs : List TxOutput) → b < i → empty_tokens outputs ≡ batons i (some b) outputs
past-batons i b [] h = refl
past-batons i b (o ∷ outputs) h =
    rw (not_at i b h)
      (ap (λ (ts : List SlpToken). empty_token ∷ ts) (past-batons (suc i) b outputs (omega arith)))

set_baton-batons :
    (i k : ℕ) (outputs : List TxOutput)
    → set_baton (empty_tokens outputs) k ≡ batons i (some (i + k)) outputs
unfolding set_baton
set_baton-batons i k [] = refl
set_baton-batons i zero (o ∷ outputs) =
    rw (plus_zero i, ==_refl i)
      (ap (λ (ts : List SlpToken). record { amount = zero_amount; is_mint_baton = true } ∷ ts)
        (past-batons (suc i) i outputs (omega arith)))
set_baton-batons i (suc k) (o ∷ outputs) = rw (before i k) (
    ap (λ (ts : List SlpToken). empty_token ∷ ts)
      (set_baton-batons (suc i) k outputs
        ∙ ap (λ n. batons (suc i) (some n) outputs) (plus_suc i k)))

late-minted :
    (i : ℕ) (baton : Option ℕ) (quantity : SlpAmount) (outputs : List TxOutput)
    → 1 < i
    → batons i baton outputs ≡ minted i baton quantity outputs
late-minted i baton quantity [] h = refl
late-minted i baton quantity (o ∷ outputs) h = rw (not_at i 1 h) (
    ap (λ (ts : List SlpToken). record { amount = zero_amount; is_mint_baton = is_at i baton } ∷ ts)
      (late-minted (suc i) baton quantity outputs (omega arith)))

set_amount-minted :
    (baton : Option ℕ) (quantity : SlpAmount) (outputs : List TxOutput)
    → set_amount (batons 0 baton outputs) 1 quantity ≡ minted 0 baton quantity outputs
unfolding set_amount
set_amount-minted baton quantity [] = refl
set_amount-minted baton quantity (a ∷ []) = refl
set_amount-minted baton quantity (a ∷ b ∷ outputs) =
    ap
      (λ (ts : List SlpToken).
        record { amount = zero_amount; is_mint_baton = is_at 0 baton }
        ∷ record { amount = quantity; is_mint_baton = is_at 1 baton }
        ∷ ts)
      (late-minted 2 baton quantity outputs (omega arith))

assign_tokens-minted :
    (outputs : List TxOutput) (baton : Option ℕ) (quantity : SlpAmount)
    → assign_tokens (empty_tokens outputs) (mint_tokens baton quantity)
      ≡ minted 0 baton quantity outputs
unfolding assign_tokens
assign_tokens-minted outputs none quantity =
    ap (λ (ts : List SlpToken). set_amount ts 1 quantity) (empty-batons 0 outputs)
    ∙ set_amount-minted none quantity outputs
assign_tokens-minted outputs (some b) quantity =
    ap (λ (ts : List SlpToken). set_amount ts 1 quantity)
      (set_baton-batons 0 b outputs ∙ ap (λ n. batons 0 (some n) outputs) (zero_plus b))
    ∙ set_amount-minted (some b) quantity outputs

-- The pushes of a MINT behind the LOKAD id.
abbrev mint_items : Bytes → Bytes → Bytes → ℕ → List Bytes
mint_items type_bytes hash baton quantity =
    type_bytes ∷ mint_tag ∷ reverse hash ∷ baton ∷ to_be_bytes 8 quantity ∷ []

-- A baton goes to an output from index 2 on.
abbrev pub IsBaton : Option ℕ → Type 0
IsBaton none = Unit {0}
IsBaton (some i) = 2 ≤ i

abbrev minting : Bytes → Option ℕ → ℕ → ParsedOpReturn
minting hash baton quantity = record {
  slp_tx_type = mint;
  outputs = mint_tokens baton (mk_count quantity);
  token_id = some (new_token_id hash);
}

-- The bytes of an index pass the tests, and stand for it.
abbrev Passes : Option ℕ → Bytes → Type 0
Passes baton bs =
    IsItem bs
    × (ltb 1 (length bs) ≡ false)
    × (check_baton_index bs ≡ ok tt)
    × (baton_index bs ≡ baton)

none-Passes : Passes none []
none-Passes = (omega arith, refl, refl, refl)

some-Passes : (i : ℕ) → 2 ≤ i → i < 256 → Passes (some i) (i ∷ [])
some-Passes i h k = (omega arith, refl, rw (ge→ltb i 2 h) refl, refl)

baton_bytes-Passes :
    (baton : Option ℕ) (bs : Bytes) → IsBaton baton → baton_bytes baton ≡ ok bs → Passes baton bs
baton_bytes-Passes none bs h e = let e' : [] ≡ bs = cc in subst (Passes none) e' none-Passes
baton_bytes-Passes (some i) bs h e = elim (Bool-cases (ltb i 256)) [
  | inl small ↦
      let read = rw small at e in
      let e' : i ∷ [] ≡ bs = cc in subst (Passes (some i)) e' (some-Passes i h (ltb→lt i 256 small))
  | inr big ↦ let read = rw big at e in cc
]

parse_mint_data-items :
    (hash type_bytes bs : Bytes) (baton : Option ℕ) (quantity : ℕ)
    → IsArray 32 hash
    → quantity < 256 ^ 8
    → Passes baton bs
    → parse_mint_data (slp_lokad_id ∷ mint_items type_bytes hash bs quantity)
      ≡ ok (minting hash baton quantity)
unfolding parse_mint_data
parse_mint_data-items hash type_bytes bs baton quantity h fits passes =
    let (item, short, checked, index) = passes in
    rw
      (
        check_token_id-reverse hash h,
        short,
        checked,
        from_u64_be-to_be_bytes quantity "additional_quantity" fits,
        unwrap_token_id-reverse hash h,
        index,
      )
      refl

mint_tag-IsItem : IsItem mint_tag
mint_tag-IsItem = omega arith

-- What is read of a MINT.
abbrev pub mint_data : SlpTokenType → Bytes → List SlpToken → SlpParseData
mint_data token_type hash tokens = record {
  output_tokens = tokens;
  slp_token_type = token_type;
  slp_tx_type = mint;
  token_id = new_token_id hash;
}

parse_known-mint :
    (txid : Bytes) (tx : UnhashedTx) (token_type : SlpTokenType) (hash type_bytes bs : Bytes)
    (baton : Option ℕ) (quantity : ℕ)
    → parse_mint_data (slp_lokad_id ∷ mint_items type_bytes hash bs quantity)
      ≡ ok (minting hash baton quantity)
    → parse_known txid tx (slp_lokad_id ∷ mint_items type_bytes hash bs quantity) token_type
      ≡ ok (mint_data token_type hash (minted 0 baton (mk_count quantity) tx.outputs))
unfolding parse_known parse_tagged
parse_known-mint txid tx token_type hash type_bytes bs baton quantity parsed = rw parsed (
    ap (λ (ts : List SlpToken). ok (mint_data token_type hash ts))
      (assign_tokens-minted tx.outputs baton (mk_count quantity)))

-- The script that `mint_opreturn` builds for a token id, a quantity of 64 bits, and a baton at no output or
-- at one from index 2 on, is parsed as the MINT of that quantity to the output at index 1 and of the
-- baton to its output, whatever else is in the transaction.
pub parse_slp_tx-mint_opreturn :
    (txid hash : Bytes) (tx : UnhashedTx) (output : TxOutput) (outputs : List TxOutput)
    (token_type : SlpTokenType) (baton : Option ℕ) (quantity : ℕ)
    → IsArray 32 hash
    → IsBytes hash
    → IsBaton baton
    → quantity < 256 ^ 8
    → tx.outputs ≡ output ∷ outputs
    → mint_opreturn (new_token_id hash) token_type baton quantity ≡ ok output.script
    → parse_slp_tx txid tx
      ≡ ok (mint_data token_type hash (minted 0 baton (mk_count quantity) tx.outputs))
unfolding mint_opreturn
parse_slp_tx-mint_opreturn txid hash tx output outputs token_type baton quantity h is_bytes is_baton
      fits first_output built =
    let (type_bytes, known, built') = >>=-eq-ok (token_type_bytes token_type) _ built in
    let (bs, index, script) = >>=-eq-ok (baton_bytes baton) _ built' in
    let passes = baton_bytes-Passes baton bs is_baton index in
    let script' : output.script ≡ opreturn (slp_lokad_id ∷ mint_items type_bytes hash bs quantity) =
      cc in
    parse_slp_tx-items txid tx output outputs (mint_items type_bytes hash bs quantity) first_output
      script'
      (
        type_bytes-IsItem token_type type_bytes known,
        (
          mint_tag-IsItem,
          (hash-IsItem hash h is_bytes, (passes.0, (be_bytes-IsItem quantity, tt))),
        ),
      )
    ∙ parse_fields-known txid tx token_type type_bytes mint_tag
        (reverse hash ∷ bs ∷ to_be_bytes 8 quantity ∷ []) known
    ∙ parse_known-mint txid tx token_type hash type_bytes bs baton quantity
        (parse_mint_data-items hash type_bytes bs baton quantity h fits passes)
