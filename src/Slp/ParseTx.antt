-- ===== src/Slp/ParseTx.antt =====
-- `parse_slp_tx` of bitcoinsuite-slp/src/parse.rs.
use bitcoinsuite.Base.{
  ℕ, zero, suc, ◌+◌, ◌-◌, List, [], ◌∷◌, ◌++◌, ◌||◌, true, not, Option, none, some, Result, ok, err,
  panic, ◌>>=◌, ◌>>◌, guard, map_err, ltb, if◌then◌else◌, ◌==◌, length, take, replicate, map,
  get_elem?,
}
use bitcoinsuite.Bytes.{Bytes, eq_bytes}
use bitcoinsuite.Hash.{null_hash}
use bitcoinsuite.Script.Ops.{ops}
use bitcoinsuite.Tx.{UnhashedTx, TxOutput}
use bitcoinsuite.Slp.Amount.{SlpAmount}
use bitcoinsuite.Slp.Types.{
  SlpError, no_outputs, too_few_pushes, invalid_token_type, invalid_tx_type, bytes_error, TokenId,
  new_token_id, SlpTokenType, unknown_type, SlpTxType, genesis, send, mint, burn, unknown_tx,
  SlpToken, empty_token, SlpParseData,
}
use bitcoinsuite.Slp.Fields.{parse_opreturn_ops, parse_lokad_id, parse_token_type}
use bitcoinsuite.Slp.Parse.{
  ParsedOutputs, mint_tokens, send_amounts, burn_outputs, ParsedOpReturn, genesis_tag, mint_tag,
  send_tag, burn_tag, parse_genesis_data, parse_mint_data, parse_send_data, parse_burn_data,
}

-- `if let Some(token) = tokens.get_mut(i) { token.is_mint_baton = true; }`
unfoldable pub set_baton : List SlpToken → ℕ → List SlpToken
set_baton [] i = []
set_baton (t ∷ tokens) zero = record { amount = t.amount; is_mint_baton = true } ∷ tokens
set_baton (t ∷ tokens) (suc i) = t ∷ set_baton tokens i

-- `if let Some(token) = tokens.get_mut(i) { token.amount = amount; }`
unfoldable pub set_amount : List SlpToken → ℕ → SlpAmount → List SlpToken
set_amount [] i amount = []
set_amount (t ∷ tokens) zero amount =
    record { amount = amount; is_mint_baton = t.is_mint_baton } ∷ tokens
set_amount (t ∷ tokens) (suc i) amount = t ∷ set_amount tokens i amount

-- The loop over `output_tokens.iter_mut().zip(amounts)`.
unfoldable pub zip_amounts : List SlpToken → List SlpAmount → List SlpToken
zip_amounts [] amounts = []
zip_amounts (t ∷ tokens) [] = t ∷ tokens
zip_amounts (t ∷ tokens) (a ∷ amounts) =
    record { amount = a; is_mint_baton = t.is_mint_baton } ∷ zip_amounts tokens amounts

-- The same with `.skip(1)`.
abbrev pub zip_amounts_skip : List SlpToken → List SlpAmount → List SlpToken
zip_amounts_skip [] amounts = []
zip_amounts_skip (t ∷ tokens) amounts = t ∷ zip_amounts tokens amounts

-- `tokens.resize(n, SlpToken::EMPTY)`
abbrev pub resize : List SlpToken → ℕ → List SlpToken
resize tokens n = take n tokens ++ replicate (n - length tokens) empty_token

-- What the pushes say of the output tokens, which are empty before.
unfoldable pub assign_tokens : List SlpToken → ParsedOutputs → List SlpToken
unfolding set_baton set_amount zip_amounts
assign_tokens output_tokens (mint_tokens none mint_quantity) =
    set_amount output_tokens 1 mint_quantity
assign_tokens output_tokens (mint_tokens (some baton_out_idx) mint_quantity) =
    set_amount (set_baton output_tokens baton_out_idx) 1 mint_quantity
assign_tokens output_tokens (send_amounts amounts) =
    zip_amounts_skip (resize output_tokens (length amounts + 1)) amounts
assign_tokens output_tokens burn_outputs = output_tokens

-- The transaction's own hash at its genesis; the last clause is `unreachable!()`.
abbrev pub settle_token_id : Bytes → SlpTxType → Option TokenId → Result SlpError TokenId
settle_token_id txid (genesis info) none = ok (new_token_id txid)
settle_token_id txid mint (some expected_token_id) = ok expected_token_id
settle_token_id txid send (some expected_token_id) = ok expected_token_id
settle_token_id txid (burn quantity) (some expected_token_id) = ok expected_token_id
settle_token_id txid slp_tx_type token_id = panic

-- `match opreturn_data[2]`
unfoldable pub parse_tagged : Bytes → List Bytes → SlpTokenType → Result SlpError ParsedOpReturn
parse_tagged tag opreturn_data slp_token_type =
    if eq_bytes tag genesis_tag
    then parse_genesis_data opreturn_data slp_token_type
    else if eq_bytes tag mint_tag
    then parse_mint_data opreturn_data
    else if eq_bytes tag send_tag
    then parse_send_data opreturn_data
    else if eq_bytes tag burn_tag
    then parse_burn_data opreturn_data
    else err (invalid_tx_type tag)

-- `opreturn_data[i]`, which panics out of range.
abbrev pub index : List Bytes → ℕ → Result SlpError Bytes
index opreturn_data i = elim (get_elem? opreturn_data i) [ none ↦ panic | some field ↦ ok field ]

abbrev pub empty_tokens : List TxOutput → List SlpToken
empty_tokens outputs = map (λ _. empty_token) outputs

-- The rest of the function once the token type is known.
unfoldable pub parse_known :
    Bytes → UnhashedTx → List Bytes → SlpTokenType → Result SlpError SlpParseData
unfolding parse_tagged assign_tokens
parse_known txid tx opreturn_data slp_token_type = do
  tag ← index opreturn_data 2
  parsed_opreturn ← parse_tagged tag opreturn_data slp_token_type
  token_id ← settle_token_id txid parsed_opreturn.slp_tx_type parsed_opreturn.token_id
  ok (record {
    output_tokens = assign_tokens (empty_tokens tx.outputs) parsed_opreturn.outputs;
    slp_token_type = slp_token_type;
    slp_tx_type = parsed_opreturn.slp_tx_type;
    token_id = token_id;
  })

-- The part of the function behind the test of the LOKAD id.
unfoldable pub parse_fields : Bytes → UnhashedTx → List Bytes → Result SlpError SlpParseData
parse_fields txid tx opreturn_data = do
  guard (not (ltb (length opreturn_data) 3)) (too_few_pushes 3 (length opreturn_data))
  token_type ← index opreturn_data 1
  guard (not ((length token_type == 0) || ltb 2 (length token_type)))
      (invalid_token_type token_type)
  elim (parse_token_type token_type) [
    | some slp_token_type ↦ parse_known txid tx opreturn_data slp_token_type
    | none ↦ ok (record {
      output_tokens = empty_tokens tx.outputs;
      slp_token_type = unknown_type;
      slp_tx_type = unknown_tx;
      token_id = new_token_id (null_hash 32);
    })
  ]

-- The function, by the outputs of the transaction.
unfoldable pub parse_outputs : Bytes → UnhashedTx → List TxOutput → Result SlpError SlpParseData
parse_outputs txid tx [] = err no_outputs
parse_outputs txid tx (output ∷ outputs) = do
  ops ← map_err bytes_error (ops output.script)
  parse_lokad_id ops
  opreturn_data ← parse_opreturn_ops ops
  parse_fields txid tx opreturn_data

unfoldable pub parse_slp_tx : Bytes → UnhashedTx → Result SlpError SlpParseData
unfolding parse_outputs
parse_slp_tx txid tx = parse_outputs txid tx tx.outputs
