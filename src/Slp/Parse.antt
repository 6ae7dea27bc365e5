-- ===== src/Slp/Parse.antt =====
-- bitcoinsuite-slp/src/parse.rs: what the OP_RETURN output of a transaction says of its tokens.
use Prim.Native.String.{String}
use bitcoinsuite.Base.{
  ℕ, suc, List, [], ◌∷◌, ◌||◌, not, Option, none, some, Result, ok, err, panic, ◌>>=◌, ◌>>◌, guard,
  assert, ltb, if◌then◌else◌, ◌==◌, length, get_elem?, ◌^◌,
}
use bitcoinsuite.Base.Int.{ℤ, pos, negsuc}
use bitcoinsuite.Bytes.{Bytes}
use bitcoinsuite.Hash.{from_slice_optional, from_slice_be}
use bitcoinsuite.Slp.Amount.{SlpAmount, mk_amount, eq_amount}
use bitcoinsuite.Slp.Types.{
  SlpError, too_few_pushes, too_few_pushes_exact, superfluous_pushes, invalid_field_size,
  invalid_decimals, invalid_mint_baton_idx, nft1_child_cannot_have_mint_baton,
  nft1_child_invalid_initial_quantity, nft1_child_invalid_decimals, TokenId, new_token_id,
  SlpTokenType, nft1_child, eq_token_type, SlpTxType, genesis, send, mint, burn,
}
use bitcoinsuite.Slp.Fields.{from_u64_be, next_field}

-- The fields of `mint_tokens` are `baton_out_idx` and `mint_quantity`.
pub data ParsedOutputs : Type 0 where
  mint_tokens : Option ℕ → SlpAmount → ParsedOutputs
  send_amounts : List SlpAmount → ParsedOutputs
  burn_outputs : ParsedOutputs

pub record ParsedOpReturn : Type 0 where
  pub slp_tx_type : SlpTxType
  pub outputs : ParsedOutputs
  pub token_id : Option TokenId

-- b"GENESIS", b"MINT", b"SEND" and b"BURN"
abbrev pub genesis_tag : Bytes
genesis_tag = 0x47 ∷ 0x45 ∷ 0x4e ∷ 0x45 ∷ 0x53 ∷ 0x49 ∷ 0x53 ∷ []

abbrev pub mint_tag : Bytes
mint_tag = 0x4d ∷ 0x49 ∷ 0x4e ∷ 0x54 ∷ []

abbrev pub send_tag : Bytes
send_tag = 0x53 ∷ 0x45 ∷ 0x4e ∷ 0x44 ∷ []

abbrev pub burn_tag : Bytes
burn_tag = 0x42 ∷ 0x55 ∷ 0x52 ∷ 0x4e ∷ []

-- The two tests of the number of pushes.
abbrev pub exactly : ℕ → List Bytes → Result SlpError (Unit {0})
exactly expected pushes = do
  guard (not (ltb (length pushes) expected)) (too_few_pushes_exact expected (length pushes))
  guard (not (ltb expected (length pushes))) (superfluous_pushes expected (length pushes))

-- `bs[0]`, which panics out of range.
abbrev pub byte_0 : Bytes → Result SlpError ℕ
byte_0 [] = panic
byte_0 (b ∷ bs) = ok b

-- `n.try_into().unwrap()`, from i128 to u64
abbrev pub unwrap_u64 : ℤ → Result SlpError ℕ
unwrap_u64 (pos n) = if ltb n (2 ^ 64) then ok n else panic
unwrap_u64 (negsuc n) = panic

-- `mint_baton_out_idx.first().map(|&i| i as usize)`
abbrev pub baton_index : Bytes → Option ℕ
baton_index [] = none
baton_index (i ∷ is) = some i

-- A field of 32 bytes.
abbrev pub check_token_id : Bytes → Result SlpError (Unit {0})
check_token_id token_id =
    guard (length token_id == 32) (invalid_field_size "token_id" (32 ∷ []) (length token_id))

-- `TokenId::from_slice_be(&token_id).unwrap()`
abbrev pub unwrap_token_id : Bytes → Result SlpError TokenId
unwrap_token_id token_id = elim (from_slice_be 32 token_id) [
  | ok hash ↦ ok (new_token_id hash)
  | err e ↦ panic
  | panic ↦ panic
]

-- The rules for the genesis of an NFT child.
unfoldable pub check_nft1_child : SlpTokenType → Bytes → SlpAmount → ℕ → Result SlpError (Unit {0})
unfolding eq_amount
check_nft1_child slp_token_type mint_baton_out_idx initial_quantity decimals =
    if eq_token_type slp_token_type nft1_child
    then (do
      guard (length mint_baton_out_idx == 0) nft1_child_cannot_have_mint_baton
      guard (eq_amount initial_quantity (mk_amount (pos 1)))
          (nft1_child_invalid_initial_quantity initial_quantity)
      guard (decimals == 0) (nft1_child_invalid_decimals decimals))
    else ok tt

unfoldable pub check_genesis_sizes : Bytes → Bytes → Bytes → Result SlpError (Unit {0})
check_genesis_sizes token_document_hash decimals mint_baton_out_idx = do
  guard ((length token_document_hash == 0) || (length token_document_hash == 32))
      (invalid_field_size "token_document_hash" (0 ∷ 32 ∷ []) (length token_document_hash))
  guard (length decimals == 1) (invalid_field_size "decimals" (1 ∷ []) (length decimals))
  guard ((length mint_baton_out_idx == 0) || (length mint_baton_out_idx == 1))
      (invalid_field_size "mint_baton_out_idx" (0 ∷ 1 ∷ []) (length mint_baton_out_idx))

abbrev pub check_baton_index : Bytes → Result SlpError (Unit {0})
check_baton_index mint_baton_out_idx =
    let checked =
      byte_0 mint_baton_out_idx >>= λ idx. guard (not (ltb idx 2)) (invalid_mint_baton_idx idx) in
    if length mint_baton_out_idx == 1 then checked else ok tt

unfoldable pub parse_genesis_data : List Bytes → SlpTokenType → Result SlpError ParsedOpReturn
unfolding check_nft1_child check_genesis_sizes from_u64_be from_slice_optional
parse_genesis_data opreturn_data slp_token_type = do
  exactly 10 opreturn_data
  (lokad_id, data_iter) ← next_field opreturn_data
  (token_type, data_iter) ← next_field data_iter
  (tx_type, data_iter) ← next_field data_iter
  (token_ticker, data_iter) ← next_field data_iter
  (token_name, data_iter) ← next_field data_iter
  (token_document_url, data_iter) ← next_field data_iter
  (token_document_hash, data_iter) ← next_field data_iter
  (decimals, data_iter) ← next_field data_iter
  (mint_baton_out_idx, data_iter) ← next_field data_iter
  (initial_quantity, data_iter) ← next_field data_iter
  assert (length data_iter == 0)
  check_genesis_sizes token_document_hash decimals mint_baton_out_idx
  initial_quantity ← from_u64_be initial_quantity "initial_quantity"
  decimals ← byte_0 decimals
  guard (not (ltb 9 decimals)) (invalid_decimals decimals)
  check_baton_index mint_baton_out_idx
  check_nft1_child slp_token_type mint_baton_out_idx initial_quantity decimals
  ok (record {
    slp_tx_type = genesis (record {
      token_ticker = token_ticker;
      token_name = token_name;
      token_document_url = token_document_url;
      token_document_hash = from_slice_optional 32 token_document_hash;
      decimals = decimals;
    });
    outputs = mint_tokens (baton_index mint_baton_out_idx) initial_quantity;
    token_id = none;
  })

unfoldable pub parse_mint_data : List Bytes → Result SlpError ParsedOpReturn
unfolding from_u64_be from_slice_be
parse_mint_data opreturn_data = do
  exactly 6 opreturn_data
  (lokad_id, data_iter) ← next_field opreturn_data
  (token_type, data_iter) ← next_field data_iter
  (tx_type, data_iter) ← next_field data_iter
  (token_id, data_iter) ← next_field data_iter
  (mint_baton_out_idx, data_iter) ← next_field data_iter
  (additional_quantity, data_iter) ← next_field data_iter
  assert (length data_iter == 0)
  check_token_id token_id
  guard (not (ltb 1 (length mint_baton_out_idx)))
      (invalid_field_size "mint_baton_out_idx" (0 ∷ 1 ∷ []) (length mint_baton_out_idx))
  check_baton_index mint_baton_out_idx
  additional_quantity ← from_u64_be additional_quantity "additional_quantity"
  token_id ← unwrap_token_id token_id
  ok (record {
    slp_tx_type = mint;
    outputs = mint_tokens (baton_index mint_baton_out_idx) additional_quantity;
    token_id = some token_id;
  })

-- `SLP_OUTPUT_QUANTITY_FIELD_NAMES`
abbrev pub slp_output_quantity_field_names : List String
slp_output_quantity_field_names =
    "output_quantity1" ∷ "output_quantity2" ∷ "output_quantity3" ∷ "output_quantity4"
    ∷ "output_quantity5" ∷ "output_quantity6" ∷ "output_quantity7" ∷ "output_quantity8"
    ∷ "output_quantity9" ∷ "output_quantity10" ∷ "output_quantity11" ∷ "output_quantity12"
    ∷ "output_quantity13" ∷ "output_quantity14" ∷ "output_quantity15" ∷ "output_quantity16"
    ∷ "output_quantity17" ∷ "output_quantity18" ∷ "output_quantity19" ∷ []

-- The quantities from the index `idx` on; an index that has no name panics.
unfoldable pub parse_quantities : ℕ → List Bytes → Result SlpError (List SlpAmount)
parse_quantities idx [] = ok []
parse_quantities idx (quantity ∷ quantities) = do
  amount ← elim (get_elem? slp_output_quantity_field_names idx) [
    | none ↦ panic
    | some field_name ↦ from_u64_be quantity field_name
  ]
  amounts ← parse_quantities (suc idx) quantities
  ok (amount ∷ amounts)

unfoldable pub parse_send_data : List Bytes → Result SlpError ParsedOpReturn
unfolding parse_quantities from_slice_be
parse_send_data opreturn_data = do
  guard (not (ltb (length opreturn_data) 5)) (too_few_pushes 5 (length opreturn_data))
  guard (not (ltb 23 (length opreturn_data))) (superfluous_pushes 23 (length opreturn_data))
  (lokad_id, data_iter) ← next_field opreturn_data
  (token_type, data_iter) ← next_field data_iter
  (tx_type, data_iter) ← next_field data_iter
  (token_id, output_quantities) ← next_field data_iter
  check_token_id token_id
  output_quantities ← parse_quantities 0 output_quantities
  token_id ← unwrap_token_id token_id
  ok (record {
    slp_tx_type = send;
    outputs = send_amounts output_quantities;
    token_id = some token_id;
  })

unfoldable pub parse_burn_data : List Bytes → Result SlpError ParsedOpReturn
unfolding from_u64_be from_slice_be
parse_burn_data opreturn_data = do
  exactly 5 opreturn_data
  (lokad_id, data_iter) ← next_field opreturn_data
  (token_type, data_iter) ← next_field data_iter
  (tx_type, data_iter) ← next_field data_iter
  (token_id, data_iter) ← next_field data_iter
  (token_burn_quantity, data_iter) ← next_field data_iter
  check_token_id token_id
  token_burn_quantity ← from_u64_be token_burn_quantity "token_burn_quantity"
  quantity ← unwrap_u64 token_burn_quantity.base_amount
  token_id ← unwrap_token_id token_id
  ok (record { slp_tx_type = burn quantity; outputs = burn_outputs; token_id = some token_id })
