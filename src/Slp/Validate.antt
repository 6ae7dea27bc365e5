-- ===== src/Slp/Validate.antt =====
-- bitcoinsuite-slp/src/validate.rs: which of the tokens that a transaction spends it moves, and which
-- it burns. A loop returns what it pushes to `input_tokens` and to `slp_burns`, first item first.
pub mod Conserves
pub mod Lengths
pub mod Mints
pub mod Children
use bitcoinsuite.Base.{
  ℕ, List, [], ◌∷◌, ◌&&◌, ◌||◌, Bool, true, false, not, Option, none, some, Result, ok, err, panic,
  ◌>>=◌, ◌>>◌, guard, if◌then◌else◌, map, set,
}
use bitcoinsuite.Base.Int.{pos}
use bitcoinsuite.Slp.Amount.{SlpAmount, mk_amount, zero_amount, add, sub, lt_amount, eq_amount, sum}
use bitcoinsuite.Slp.Types.{
  SlpError, output_sum_exceed_input_sum, has_no_nft1_group, has_no_mint_baton, wrong_burn_token_id,
  wrong_burn_mint_baton, wrong_burn_invalid_amount, TokenId, eq_token_id, SlpTokenType, nft1_group,
  nft1_child, eq_token_type, SlpTxType, genesis, send, mint, burn, unknown_tx, SlpToken,
  empty_token, amount_token, eq_token, SlpBurn, SlpTxData, SlpParseData, SlpValidTxData,
  SlpSpentOutput,
}

-- What each loop collects for the inputs.
pub record Tally : Type 0 where
  pub input_tokens : List SlpToken
  pub slp_burns : List (Option SlpBurn)

abbrev pub no_inputs : Tally
no_inputs = record { input_tokens = []; slp_burns = [] }

-- The two pushes of one round.
abbrev pub push_input : SlpToken → Option SlpBurn → Tally → Tally
push_input token slp_burn t = record {
  input_tokens = token ∷ t.input_tokens;
  slp_burns = slp_burn ∷ t.slp_burns;
}

-- Some(Box::new(SlpBurn { token, token_id }))
abbrev pub burn_of : SlpSpentOutput → Option SlpBurn
burn_of s = some (record { token = s.token; token_id = s.token_id })

-- The loop of GENESIS and of an unknown type: every token is burnt.
unfoldable pub burn_all : List (Option SlpSpentOutput) → Tally
burn_all [] = no_inputs
burn_all (some s ∷ spent) = push_input empty_token (burn_of s) (burn_all spent)
burn_all (none ∷ spent) = push_input empty_token none (burn_all spent)

-- The group token that the genesis of an NFT child consumes.
unfoldable pub find_group : List (Option SlpSpentOutput) → Result SlpError SlpSpentOutput
find_group [] = err has_no_nft1_group
find_group (none ∷ spent) = err has_no_nft1_group
find_group (some s ∷ spent) =
    if not (eq_token_type s.token_type nft1_group) || eq_amount s.token.amount zero_amount
    then err has_no_nft1_group
    else ok s

abbrev pub finish :
    SlpParseData → List SlpToken → List (Option SlpBurn) → Option TokenId → SlpValidTxData
finish p tokens burns group = record {
  slp_tx_data = record {
    input_tokens = tokens;
    output_tokens = p.output_tokens;
    slp_token_type = p.slp_token_type;
    slp_tx_type = p.slp_tx_type;
    token_id = p.token_id;
    group_token_id = group;
  };
  slp_burns = burns;
}

-- The branch of GENESIS.
unfoldable pub validate_genesis :
    SlpParseData → List (Option SlpSpentOutput) → Result SlpError SlpValidTxData
unfolding burn_all find_group
validate_genesis p spent =
    let t = burn_all spent in
    if eq_token_type p.slp_token_type nft1_child
    then (do
      s ← find_group spent
      ok (finish p (set t.input_tokens 0 s.token) (set t.slp_burns 0 none) (some s.token_id)))
    else ok (finish p t.input_tokens t.slp_burns none)

-- `parse_data.token_id == spent.token_id && parse_data.slp_token_type == spent.token_type`
abbrev pub same_token : SlpParseData → SlpSpentOutput → Bool
same_token p s = eq_token_id p.token_id s.token_id && eq_token_type p.slp_token_type s.token_type

-- The loop of MINT, with its flag `has_mint_baton`.
unfoldable pub mint_loop : SlpParseData → Bool → List (Option SlpSpentOutput) → Tally × Bool
mint_loop p has_mint_baton [] = (no_inputs, has_mint_baton)
mint_loop p has_mint_baton (none ∷ spent) =
    let (t, found) = mint_loop p has_mint_baton spent in (push_input empty_token none t, found)
mint_loop p has_mint_baton (some s ∷ spent) =
    let valid = same_token p s && s.token.is_mint_baton in
    let (t, found) = mint_loop p (if valid then true else has_mint_baton) spent in
    (if valid then push_input s.token none t else push_input empty_token (burn_of s) t, found)

-- The branch of MINT.
unfoldable pub validate_mint :
    SlpParseData → List (Option SlpSpentOutput) → Result SlpError SlpValidTxData
unfolding mint_loop
validate_mint p spent =
    let (t, has_mint_baton) = mint_loop p false spent in
    do guard has_mint_baton has_no_mint_baton; ok (finish p t.input_tokens t.slp_burns none)

-- The burn of a valid input of SEND, when `input_sum` counts it already.
unfoldable pub excess_burn : SlpAmount → SlpAmount → SlpSpentOutput → Option SlpBurn
excess_burn output_sum input_sum s =
    let total_burned = sub input_sum output_sum in
    let burned_amount =
      if lt_amount total_burned s.token.amount then total_burned else s.token.amount in
    if lt_amount output_sum input_sum
    then some (record { token = amount_token burned_amount; token_id = s.token_id })
    else none

abbrev pub or_else : Option TokenId → Option TokenId → Option TokenId
or_else none other = other
or_else (some id) other = some id

-- What the loop of SEND ends with.
pub record SendTally : Type 0 where
  pub tally : Tally
  pub input_sum : SlpAmount
  pub group_token_id : Option TokenId

abbrev pub push_send : SlpToken → Option SlpBurn → SendTally → SendTally
push_send token slp_burn r = record {
  tally = push_input token slp_burn r.tally;
  input_sum = r.input_sum;
  group_token_id = r.group_token_id;
}

-- The loop of SEND, with `input_sum` and `group_token_id` so far.
unfoldable pub send_loop :
    SlpParseData → SlpAmount → SlpAmount → Option TokenId → List (Option SlpSpentOutput) → SendTally
send_loop p output_sum input_sum group [] = record {
  tally = no_inputs;
  input_sum = input_sum;
  group_token_id = group;
}
send_loop p output_sum input_sum group (none ∷ spent) =
    push_send empty_token none (send_loop p output_sum input_sum group spent)
send_loop p output_sum input_sum group (some s ∷ spent) =
    let valid = same_token p s && not s.token.is_mint_baton in
    let input_sum' = if valid then add input_sum s.token.amount else input_sum in
    let group' = if valid then or_else group s.group_token_id else group in
    let rest = send_loop p output_sum input_sum' group' spent in
    if valid
    then push_send s.token (excess_burn output_sum input_sum' s) rest
    else push_send empty_token (burn_of s) rest

abbrev pub token_amounts : List SlpToken → List SlpAmount
token_amounts tokens = map (λ (t : SlpToken). t.amount) tokens

-- The branch of SEND.
unfoldable pub validate_send :
    SlpParseData → List (Option SlpSpentOutput) → Result SlpError SlpValidTxData
unfolding send_loop
validate_send p spent =
    let output_sum = sum (token_amounts p.output_tokens) in
    let r = send_loop p output_sum zero_amount none spent in
    do
      guard (not (lt_amount r.input_sum output_sum))
          (output_sum_exceed_input_sum output_sum r.input_sum)
      ok (finish p r.tally.input_tokens r.tally.slp_burns r.group_token_id)

-- The loop of BURN: the tally and `actual`.
unfoldable pub burn_loop :
    SlpParseData → SlpAmount → List (Option SlpSpentOutput) → Result SlpError (Tally × SlpAmount)
burn_loop p actual [] = ok (no_inputs, actual)
burn_loop p actual (none ∷ spent) = do
  (t, total) ← burn_loop p actual spent
  ok (record { input_tokens = t.input_tokens; slp_burns = none ∷ t.slp_burns }, total)
burn_loop p actual (some s ∷ spent) =
    let skipped = eq_token s.token empty_token in
    let rest = burn_loop p (if skipped then actual else add actual s.token.amount) spent in
    if skipped
    then (do
      (t, total) ← rest
      ok (record { input_tokens = t.input_tokens; slp_burns = none ∷ t.slp_burns }, total))
    else (do
      guard (eq_token_id s.token_id p.token_id) wrong_burn_token_id
      guard (not s.token.is_mint_baton) wrong_burn_mint_baton
      (t, total) ← rest
      ok (push_input s.token none t, total))

-- The branch of BURN.
unfoldable pub validate_burn :
    SlpParseData → ℕ → List (Option SlpSpentOutput) → Result SlpError SlpValidTxData
unfolding burn_loop
validate_burn p expected_burn spent = do
  (t, actual) ← burn_loop p zero_amount spent
  guard (eq_amount (mk_amount (pos expected_burn)) actual)
      (wrong_burn_invalid_amount (mk_amount (pos expected_burn)) actual)
  ok (finish p t.input_tokens t.slp_burns none)

-- `match &parse_data.slp_tx_type`
unfoldable pub validate_as :
    SlpTxType → SlpParseData → List (Option SlpSpentOutput) → Result SlpError SlpValidTxData
unfolding validate_genesis validate_mint validate_send validate_burn burn_all
validate_as (genesis info) p spent = validate_genesis p spent
validate_as mint p spent = validate_mint p spent
validate_as send p spent = validate_send p spent
validate_as unknown_tx p spent =
    let t = burn_all spent in ok (finish p t.input_tokens t.slp_burns none)
validate_as (burn expected_burn) p spent = validate_burn p expected_burn spent

unfoldable pub validate_slp_tx :
    SlpParseData → List (Option SlpSpentOutput) → Result SlpError SlpValidTxData
unfolding validate_as
validate_slp_tx p spent = validate_as p.slp_tx_type p spent
