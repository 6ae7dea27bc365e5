-- ===== src/Slp/Build/Send.antt =====
-- Building and parsing a SEND script (bitcoinsuite-slp/src/build.rs and parse.rs).
use Prim.Native.String.{String}
use mathlib.Core.List.{reverse, reverse-reverse}
use bitcoinsuite.Base.{
  ℕ, zero, suc, ◌+◌, ◌-◌, ◌%◌, ◌^◌, ◌<◌, ◌≤◌, ◌≡◌, refl, sym, ap, ◌∙◌, List, [], ◌∷◌, some, ok,
  >>=-eq-ok, ge→ltb, length, arith, All, map, replicate, get_elem?, length-map, subst,
}
use bitcoinsuite.Bytes.{Bytes, IsBytes, IsArray}
use bitcoinsuite.Bytes.Endian.{
  to_be_bytes, length-to_be_bytes, from_be_bytes-to_be_bytes, length-reverse, to_pattern,
  to_be_bytes-IsByte, reverse-IsByte,
}
use bitcoinsuite.Hash.{from_slice_be, from_slice, from_slice_optional}
use bitcoinsuite.Script.{opreturn}
use bitcoinsuite.Tx.{UnhashedTx, TxOutput}
use bitcoinsuite.Slp.Amount.{SlpAmount}
use bitcoinsuite.Slp.Amount.Sums.{count, IsCount, mk_count, count_eq}
use bitcoinsuite.Slp.Types.{
  new_token_id, SlpTokenType, fungible, nft1_group, nft1_child, unknown_type, slp_token_type_v1,
  slp_token_type_v1_nft1_group, slp_token_type_v1_nft1_child, send, SlpToken, empty_token,
  amount_token, SlpParseData, slp_lokad_id,
}
use bitcoinsuite.Slp.Fields.{from_u64_be}
use bitcoinsuite.Slp.Parse.{
  send_amounts, ParsedOpReturn, parse_send_data, parse_quantities, unwrap_token_id, check_token_id,
  send_tag, slp_output_quantity_field_names,
}
use bitcoinsuite.Slp.ParseTx.{
  parse_slp_tx, parse_known, parse_tagged, assign_tokens, zip_amounts, resize, empty_tokens,
}
use bitcoinsuite.Slp.Build.{send_opreturn, amount_bytes, token_type_bytes}
use bitcoinsuite.Slp.Build.Pushes.{IsItem, parse_slp_tx-items, parse_fields-known}

-- An amount of 64 bits.
abbrev pub IsU64Amount : SlpAmount → Type 0
IsU64Amount a = IsCount a × (count a < 256 ^ 8)

in_range : (n : ℕ) → n < 256 ^ 8 → n % 256 ^ 16 % 2 ^ 64 ≡ n
in_range n h = omega arith

from_u64_be-mk_count :
    (n : ℕ) (name : String)
    → n < 256 ^ 8
    → from_u64_be (amount_bytes (mk_count n)) name ≡ ok (mk_count n)
unfolding from_u64_be to_pattern
from_u64_be-mk_count n name h =
    rw (in_range n h, length-to_be_bytes 8 n, from_be_bytes-to_be_bytes 8 n h) refl

pub from_u64_be-to_be_bytes :
    (n : ℕ) (name : String) → n < 256 ^ 8 → from_u64_be (to_be_bytes 8 n) name ≡ ok (mk_count n)
unfolding from_u64_be
from_u64_be-to_be_bytes n name h = rw (length-to_be_bytes 8 n, from_be_bytes-to_be_bytes 8 n h) refl

pub from_u64_be-amount_bytes :
    (a : SlpAmount) (name : String) → IsU64Amount a → from_u64_be (amount_bytes a) name ≡ ok a
from_u64_be-amount_bytes a name h =
    subst (λ x. from_u64_be (amount_bytes x) name ≡ ok x) (sym (count_eq a h.0))
      (from_u64_be-mk_count (count a) name h.1)

pub get_elem?-lt {ℓ} :
    {A : Type ℓ} (xs : List A) (i : ℕ) → i < length xs → (x : A) × (get_elem? xs i ≡ some x)
get_elem?-lt [] i h = absurd (omega arith)
get_elem?-lt (x ∷ xs) zero h = (x, refl)
get_elem?-lt (x ∷ xs) (suc i) h = get_elem?-lt xs i (omega arith)

parse_quantities-amount_bytes :
    (idx : ℕ) (amounts : List SlpAmount)
    → All IsU64Amount amounts
    → idx + length amounts ≤ 19
    → parse_quantities idx (map amount_bytes amounts) ≡ ok amounts
unfolding parse_quantities
parse_quantities-amount_bytes idx [] h fits = refl
parse_quantities-amount_bytes idx (a ∷ amounts) h fits =
    let (name, found) = get_elem?-lt slp_output_quantity_field_names idx (omega arith) in
    rw
      (
        found,
        from_u64_be-amount_bytes a name h.0,
        parse_quantities-amount_bytes (suc idx) amounts h.1 (omega arith),
      )
      refl

from_slice-ok : (hash : Bytes) → IsArray 32 hash → from_slice 32 hash ≡ ok hash
unfolding from_slice from_slice_optional
from_slice-ok hash h = rw h refl

from_slice_be-reverse : (hash : Bytes) → IsArray 32 hash → from_slice_be 32 (reverse hash) ≡ ok hash
unfolding from_slice_be
from_slice_be-reverse hash h = ap (from_slice 32) (reverse-reverse hash) ∙ from_slice-ok hash h

pub unwrap_token_id-reverse :
    (hash : Bytes) → IsArray 32 hash → unwrap_token_id (reverse hash) ≡ ok (new_token_id hash)
unwrap_token_id-reverse hash h = rw (from_slice_be-reverse hash h, unwrap_token_id) refl

pub check_token_id-reverse :
    (hash : Bytes) → IsArray 32 hash → check_token_id (reverse hash) ≡ ok tt
check_token_id-reverse hash h = rw (length-reverse hash, h) refl

minus_suc : (a b : ℕ) → suc a - suc b ≡ a - b
minus_suc a b = omega arith

none_left : (a : ℕ) → 0 - a ≡ 0
none_left a = omega arith

all_left : (a : ℕ) → a - 0 ≡ a
all_left a = omega arith

resize-empty :
    (outputs : List TxOutput) (n : ℕ) → resize (empty_tokens outputs) n ≡ replicate n empty_token
resize-empty [] zero = refl
resize-empty [] (suc n) = rw (all_left (suc n)) refl
resize-empty (o ∷ outputs) zero = rw (none_left (suc (length (empty_tokens outputs)))) refl
resize-empty (o ∷ outputs) (suc n) =
    rw (minus_suc n (length (empty_tokens outputs)))
      (ap (λ (ts : List SlpToken). empty_token ∷ ts) (resize-empty outputs n))

add_one : (n : ℕ) → n + 1 ≡ suc n
add_one n = omega arith

zip_amounts-replicate :
    (amounts : List SlpAmount)
    → zip_amounts (replicate (length amounts) empty_token) amounts ≡ map amount_token amounts
unfolding zip_amounts
zip_amounts-replicate [] = refl
zip_amounts-replicate (a ∷ amounts) =
    ap (λ (ts : List SlpToken). amount_token a ∷ ts) (zip_amounts-replicate amounts)

-- The pushes of the script behind the LOKAD id.
abbrev send_items : Bytes → Bytes → List SlpAmount → List Bytes
send_items type_bytes hash amounts = type_bytes ∷ send_tag ∷ reverse hash ∷ map amount_bytes amounts

abbrev sent : Bytes → List SlpAmount → ParsedOpReturn
sent hash amounts = record {
  slp_tx_type = send;
  outputs = send_amounts amounts;
  token_id = some (new_token_id hash);
}

parse_send_data-items :
    (hash type_bytes : Bytes) (amounts : List SlpAmount)
    → IsArray 32 hash
    → All IsU64Amount amounts
    → 1 ≤ length amounts
    → length amounts ≤ 19
    → parse_send_data (slp_lokad_id ∷ send_items type_bytes hash amounts) ≡ ok (sent hash amounts)
unfolding parse_send_data
parse_send_data-items hash type_bytes amounts h counted some_amount fits =
    let items : List Bytes = slp_lokad_id ∷ send_items type_bytes hash amounts in
    let n = length-map amounts amount_bytes in
    let low = ge→ltb (length items) 5 (omega arith) in
    let high = ge→ltb 23 (length items) (omega arith) in
    rw
      (
        low,
        high,
        check_token_id-reverse hash h,
        parse_quantities-amount_bytes 0 amounts counted (omega arith),
        unwrap_token_id-reverse hash h,
      )
      refl

assign_tokens-send :
    (output : TxOutput) (outputs : List TxOutput) (amounts : List SlpAmount)
    → assign_tokens (empty_tokens (output ∷ outputs)) (send_amounts amounts)
      ≡ empty_token ∷ map amount_token amounts
unfolding assign_tokens
assign_tokens-send output outputs amounts =
    rw (resize-empty (output ∷ outputs) (length amounts + 1), add_one (length amounts))
      (ap (λ (ts : List SlpToken). empty_token ∷ ts) (zip_amounts-replicate amounts))

pub be_bytes-IsItem : (n : ℕ) → IsItem (to_be_bytes 8 n)
be_bytes-IsItem n = (omega (arith, length-to_be_bytes 8 n), to_be_bytes-IsByte 8 n)

amount_bytes-IsItem : (amounts : List SlpAmount) → All IsItem (map amount_bytes amounts)
amount_bytes-IsItem [] = tt
amount_bytes-IsItem (a ∷ amounts) =
    (be_bytes-IsItem (to_pattern 16 a.base_amount % 2 ^ 64), amount_bytes-IsItem amounts)

pub type_bytes-IsItem :
    (token_type : SlpTokenType) (type_bytes : Bytes)
    → token_type_bytes token_type ≡ ok type_bytes
    → IsItem type_bytes
unfolding token_type_bytes
type_bytes-IsItem fungible type_bytes e =
    let e' : slp_token_type_v1 ≡ type_bytes = cc in subst IsItem e' (omega arith)
type_bytes-IsItem nft1_group type_bytes e =
    let e' : slp_token_type_v1_nft1_group ≡ type_bytes = cc in subst IsItem e' (omega arith)
type_bytes-IsItem nft1_child type_bytes e =
    let e' : slp_token_type_v1_nft1_child ≡ type_bytes = cc in subst IsItem e' (omega arith)
type_bytes-IsItem unknown_type type_bytes e = cc

send_tag-IsItem : IsItem send_tag
send_tag-IsItem = omega arith

pub hash-IsItem : (hash : Bytes) → IsArray 32 hash → IsBytes hash → IsItem (reverse hash)
hash-IsItem hash h bs = (omega (arith, length-reverse hash), reverse-IsByte hash bs)

send_items-IsItem :
    (token_type : SlpTokenType) (hash type_bytes : Bytes) (amounts : List SlpAmount)
    → IsArray 32 hash
    → IsBytes hash
    → token_type_bytes token_type ≡ ok type_bytes
    → All IsItem (send_items type_bytes hash amounts)
send_items-IsItem token_type hash type_bytes amounts h bs e = (
  type_bytes-IsItem token_type type_bytes e,
  (send_tag-IsItem, (hash-IsItem hash h bs, amount_bytes-IsItem amounts)),
)

-- What is read of a SEND.
abbrev pub send_data : SlpTokenType → Bytes → List SlpToken → SlpParseData
send_data token_type hash tokens = record {
  output_tokens = tokens;
  slp_token_type = token_type;
  slp_tx_type = send;
  token_id = new_token_id hash;
}

parse_known-send :
    (txid : Bytes) (tx : UnhashedTx) (output : TxOutput) (outputs : List TxOutput)
    (token_type : SlpTokenType) (hash type_bytes : Bytes) (amounts : List SlpAmount)
    → tx.outputs ≡ output ∷ outputs
    → parse_send_data (slp_lokad_id ∷ send_items type_bytes hash amounts) ≡ ok (sent hash amounts)
    → parse_known txid tx (slp_lokad_id ∷ send_items type_bytes hash amounts) token_type
      ≡ ok (send_data token_type hash (empty_token ∷ map amount_token amounts))
unfolding parse_known parse_tagged
parse_known-send txid tx output outputs token_type hash type_bytes amounts first_output parsed =
    rw parsed (
      ap (λ ts. ok (send_data token_type hash ts))
        (ap (λ (os : List TxOutput). assign_tokens (empty_tokens os) (send_amounts amounts))
            first_output
          ∙ assign_tokens-send output outputs amounts))

-- The script that `send_opreturn` builds for a token id and for 1 to 19 amounts of 64 bits is parsed as
-- the SEND of those amounts to the outputs behind the first, whatever else is in the transaction.
pub parse_slp_tx-send_opreturn :
    (txid hash : Bytes) (tx : UnhashedTx) (output : TxOutput) (outputs : List TxOutput)
    (token_type : SlpTokenType) (amounts : List SlpAmount)
    → IsArray 32 hash
    → IsBytes hash
    → All IsU64Amount amounts
    → 1 ≤ length amounts
    → length amounts ≤ 19
    → tx.outputs ≡ output ∷ outputs
    → send_opreturn (new_token_id hash) token_type amounts ≡ ok output.script
    → parse_slp_tx txid tx ≡ ok (send_data token_type hash (empty_token ∷ map amount_token amounts))
unfolding send_opreturn
parse_slp_tx-send_opreturn txid hash tx output outputs token_type amounts h bs counted some_amount
      fits first_output built =
    let (type_bytes, known, script) = >>=-eq-ok (token_type_bytes token_type) _ built in
    let script' : output.script ≡ opreturn (slp_lokad_id ∷ send_items type_bytes hash amounts) =
      cc in
    let items = send_items-IsItem token_type hash type_bytes amounts h bs known in
    parse_slp_tx-items txid tx output outputs (send_items type_bytes hash amounts) first_output
      script' items
    ∙ parse_fields-known txid tx token_type type_bytes send_tag
        (reverse hash ∷ map amount_bytes amounts) known
    ∙ parse_known-send txid tx output outputs token_type hash type_bytes amounts first_output
        (parse_send_data-items hash type_bytes amounts h counted some_amount fits)
