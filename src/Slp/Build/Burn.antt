-- ===== src/Slp/Build/Burn.antt =====
-- Building and parsing a BURN script (bitcoinsuite-slp/src/build.rs and parse.rs).
use mathlib.Core.List.{reverse}
use bitcoinsuite.Base.{
  ◌%◌, ◌^◌, ◌<◌, lt→ltb, ◌≡◌, refl, ◌∙◌, List, [], ◌∷◌, some, ok, >>=-eq-ok, arith, All, map,
}
use bitcoinsuite.Base.Int.{ℤ, pos, negsuc, pos_part, neg_part}
use bitcoinsuite.Bytes.{Bytes, IsBytes, IsArray}
use bitcoinsuite.Bytes.Endian.{to_pattern}
use bitcoinsuite.Script.{opreturn}
use bitcoinsuite.Tx.{UnhashedTx, TxOutput}
use bitcoinsuite.Slp.Amount.{SlpAmount}
use bitcoinsuite.Slp.Amount.Sums.{count}
use bitcoinsuite.Slp.Types.{
  new_token_id, SlpTokenType, burn, SlpToken, empty_token, SlpParseData, slp_lokad_id,
}
use bitcoinsuite.Slp.Parse.{burn_outputs, ParsedOpReturn, parse_burn_data, burn_tag, unwrap_u64}
use bitcoinsuite.Slp.ParseTx.{parse_slp_tx, parse_known, parse_tagged, assign_tokens}
use bitcoinsuite.Slp.Build.{burn_opreturn, amount_bytes, token_type_bytes}
use bitcoinsuite.Slp.Build.Pushes.{IsItem, parse_slp_tx-items, parse_fields-known}
use bitcoinsuite.Slp.Build.Send.{
  IsU64Amount, from_u64_be-amount_bytes, unwrap_token_id-reverse, check_token_id-reverse,
  be_bytes-IsItem, type_bytes-IsItem, hash-IsItem,
}

-- The pushes of a BURN behind the LOKAD id.
abbrev burn_items : Bytes → Bytes → SlpAmount → List Bytes
burn_items type_bytes hash amount = type_bytes ∷ burn_tag ∷ reverse hash ∷ amount_bytes amount ∷ []

abbrev burned : Bytes → SlpAmount → ParsedOpReturn
burned hash amount = record {
  slp_tx_type = burn (count amount);
  outputs = burn_outputs;
  token_id = some (new_token_id hash);
}

unwrap_u64-pos_part :
    (z : ℤ) → neg_part z ≡ 0 → pos_part z < 2 ^ 64 → unwrap_u64 z ≡ ok (pos_part z)
unwrap_u64-pos_part (pos n) h k = rw (lt→ltb n (2 ^ 64) k) refl
unwrap_u64-pos_part (negsuc n) h k = absurd (omega arith)

parse_burn_data-items :
    (hash type_bytes : Bytes) (amount : SlpAmount)
    → IsArray 32 hash
    → IsU64Amount amount
    → parse_burn_data (slp_lokad_id ∷ burn_items type_bytes hash amount) ≡ ok (burned hash amount)
unfolding parse_burn_data
parse_burn_data-items hash type_bytes amount h counted =
    rw
      (
        check_token_id-reverse hash h,
        from_u64_be-amount_bytes amount "token_burn_quantity" counted,
        unwrap_u64-pos_part amount.base_amount counted.0 counted.1,
        unwrap_token_id-reverse hash h,
      )
      refl

burn_tag-IsItem : IsItem burn_tag
burn_tag-IsItem = omega arith

burn_items-IsItem :
    (token_type : SlpTokenType) (hash type_bytes : Bytes) (amount : SlpAmount)
    → IsArray 32 hash
    → IsBytes hash
    → token_type_bytes token_type ≡ ok type_bytes
    → All IsItem (burn_items type_bytes hash amount)
burn_items-IsItem token_type hash type_bytes amount h bs e = (
  type_bytes-IsItem token_type type_bytes e,
  (
    burn_tag-IsItem,
    (hash-IsItem hash h bs, (be_bytes-IsItem (to_pattern 16 amount.base_amount % 2 ^ 64), tt)),
  ),
)

-- What is read of a BURN.
abbrev pub burn_data : SlpTokenType → Bytes → SlpAmount → List SlpToken → SlpParseData
burn_data token_type hash amount tokens = record {
  output_tokens = tokens;
  slp_token_type = token_type;
  slp_tx_type = burn (count amount);
  token_id = new_token_id hash;
}

parse_known-burn :
    (txid : Bytes) (tx : UnhashedTx) (token_type : SlpTokenType) (hash type_bytes : Bytes)
    (amount : SlpAmount)
    → IsArray 32 hash
    → IsU64Amount amount
    → parse_known txid tx (slp_lokad_id ∷ burn_items type_bytes hash amount) token_type
      ≡ ok (burn_data token_type hash amount (map (λ _. empty_token) tx.outputs))
unfolding parse_known parse_tagged assign_tokens
parse_known-burn txid tx token_type hash type_bytes amount h counted =
    rw (parse_burn_data-items hash type_bytes amount h counted) refl

-- The script that `burn_opreturn` builds for a token id and an amount of 64 bits is parsed as the BURN of
-- that amount, which gives no token to any output, whatever else is in the transaction.
pub parse_slp_tx-burn_opreturn :
    (txid hash : Bytes) (tx : UnhashedTx) (output : TxOutput) (outputs : List TxOutput)
    (token_type : SlpTokenType) (amount : SlpAmount)
    → IsArray 32 hash
    → IsBytes hash
    → IsU64Amount amount
    → tx.outputs ≡ output ∷ outputs
    → burn_opreturn (new_token_id hash) token_type amount ≡ ok output.script
    → parse_slp_tx txid tx
      ≡ ok (burn_data token_type hash amount (map (λ _. empty_token) tx.outputs))
unfolding burn_opreturn
parse_slp_tx-burn_opreturn txid hash tx output outputs token_type amount h bs counted first_output
      built =
    let (type_bytes, known, script) = >>=-eq-ok (token_type_bytes token_type) _ built in
    let items = burn_items type_bytes hash amount in
    let script' : output.script ≡ opreturn (slp_lokad_id ∷ burn_items type_bytes hash amount) =
      cc in
    parse_slp_tx-items txid tx output outputs items first_output script'
      (burn_items-IsItem token_type hash type_bytes amount h bs known)
    ∙ parse_fields-known txid tx token_type type_bytes burn_tag
        (reverse hash ∷ amount_bytes amount ∷ []) known
    ∙ parse_known-burn txid tx token_type hash type_bytes amount h counted
