-- ===== src/Tests/Slp.antt =====
-- Runs of `validate_slp_tx` at concrete transactions.
use bitcoinsuite.Base.{
  ◌+◌, ◌≡◌, ◌↔◌, refl, List, [], ◌∷◌, true, Option, none, some, ok, err, arith, replicate,
}
use bitcoinsuite.Base.Int.{◌+ℤ◌}
use bitcoinsuite.Bytes.{Bytes}
use bitcoinsuite.Bytes.Endian.{to_pattern, from_pattern}
use bitcoinsuite.Slp.Amount.{eq_amount, add, wrap}
use bitcoinsuite.Slp.Amount.Sums.{mk_count, total}
use bitcoinsuite.Slp.Types.{
  SlpGenesisInfo, nft1_child, nft1_group, genesis, new_token_id, fungible, SlpTxType, send, mint,
  burn, SlpToken, amount_token, empty_token, SlpParseData, SlpSpentOutput, SlpValidTxData, eq_token,
  eq_token_id, output_sum_exceed_input_sum,
}
use bitcoinsuite.Slp.Validate.Children.{validate_slp_tx-child, IsGroup}
use bitcoinsuite.Slp.Validate.{burn_all, validate_slp_tx, token_amounts}
use bitcoinsuite.Slp.Validate.Conserves.{
  validate_slp_tx-conserves, validate_slp_tx-refuses, moved, excess,
}
use bitcoinsuite.Slp.Validate.Lengths.{validate_slp_tx-burns, held}
use bitcoinsuite.Slp.Validate.Mints.{validate_slp_tx-mints, has_baton}

abbrev hash : Bytes
hash = 1 ∷ replicate 31 7

abbrev coin : SlpToken → Option SlpSpentOutput
coin t = some (record {
  token_id = new_token_id hash;
  token_type = fungible;
  token = t;
  group_token_id = none;
})

abbrev of_type : SlpTxType → List SlpToken → SlpParseData
of_type tx_type tokens = record {
  output_tokens = tokens;
  slp_token_type = fungible;
  slp_tx_type = tx_type;
  token_id = new_token_id hash;
}

-- An output of 5, and inputs of 4 and 3.
abbrev payment : SlpParseData
payment = of_type send (empty_token ∷ amount_token (mk_count 5) ∷ [])

abbrev two_coins : List (Option SlpSpentOutput)
two_coins = coin (amount_token (mk_count 4)) ∷ none ∷ coin (amount_token (mk_count 3)) ∷ []

abbrev one_coin : List (Option SlpSpentOutput)
one_coin = coin (amount_token (mk_count 4)) ∷ []

validate_slp_tx-conserves_example :
    (d : SlpValidTxData) × (validate_slp_tx payment two_coins ≡ ok d)
    × (moved payment two_coins
        ≡ total (token_amounts payment.output_tokens) + excess payment two_coins d.slp_burns)
unfolding eq_token_id
validate_slp_tx-conserves_example =
    validate_slp_tx-conserves payment two_coins refl (refl, (tt, (refl, tt))) (refl, (refl, tt))
      (omega arith) (omega arith)

validate_slp_tx-refuses_example :
    validate_slp_tx payment one_coin ≡ err (output_sum_exceed_input_sum (mk_count 5) (mk_count 4))
unfolding eq_token_id
validate_slp_tx-refuses_example =
    validate_slp_tx-refuses payment one_coin refl (refl, tt) (refl, (refl, tt)) (omega arith)
      (omega arith)

abbrev burning : SlpParseData
burning = of_type (burn 4) (empty_token ∷ [])

abbrev burnt_coin : SlpValidTxData
burnt_coin = record {
  slp_tx_data = record {
    input_tokens = amount_token (mk_count 4) ∷ [];
    output_tokens = empty_token ∷ [];
    slp_token_type = fungible;
    slp_tx_type = burn 4;
    token_id = new_token_id hash;
    group_token_id = none;
  };
  slp_burns = none ∷ none ∷ [];
}

burn_run : validate_slp_tx burning (none ∷ one_coin) ≡ ok burnt_coin
unfolding validate_slp_tx eq_token eq_token_id add wrap from_pattern to_pattern ◌+ℤ◌
burn_run = refl

validate_slp_tx-burns_example :
    (burnt_coin.slp_tx_data.input_tokens ≡ held (none ∷ one_coin))
    × (total (token_amounts (held (none ∷ one_coin))) ≡ 4)
unfolding eq_token
validate_slp_tx-burns_example =
    validate_slp_tx-burns burning 4 (none ∷ one_coin) burnt_coin refl (refl, tt) (omega arith)
      burn_run

validate_slp_tx-mints_example :
    ((d : SlpValidTxData) × (validate_slp_tx (of_type mint []) one_coin ≡ ok d))
    ↔ (has_baton (of_type mint []) one_coin ≡ true)
validate_slp_tx-mints_example = validate_slp_tx-mints (of_type mint []) one_coin refl

abbrev child_info : SlpGenesisInfo
child_info = record {
  token_ticker = 0x41 ∷ [];
  token_name = [];
  token_document_url = [];
  token_document_hash = none;
  decimals = 0;
}

abbrev child : SlpParseData
child = record {
  output_tokens = empty_token ∷ amount_token (mk_count 1) ∷ [];
  slp_token_type = nft1_child;
  slp_tx_type = genesis child_info;
  token_id = new_token_id hash;
}

abbrev group_coin : SlpSpentOutput
group_coin = record {
  token_id = new_token_id (replicate 32 5);
  token_type = nft1_group;
  token = amount_token (mk_count 2);
  group_token_id = none;
}

abbrev child_data : SlpValidTxData
child_data = record {
  slp_tx_data = record {
    input_tokens = amount_token (mk_count 2) ∷ empty_token ∷ [];
    output_tokens = child.output_tokens;
    slp_token_type = nft1_child;
    slp_tx_type = genesis child_info;
    token_id = new_token_id hash;
    group_token_id = some (new_token_id (replicate 32 5));
  };
  slp_burns = none ∷ none ∷ [];
}

child_run : validate_slp_tx child (some group_coin ∷ none ∷ []) ≡ ok child_data
unfolding validate_slp_tx eq_amount
child_run = refl

validate_slp_tx-child_example :
    (s : SlpSpentOutput) × (rest : List (Option SlpSpentOutput)) × (some group_coin ∷ none ∷ []
      ≡ some s ∷ rest)
    × IsGroup s
    × (child_data.slp_tx_data.input_tokens ≡ s.token ∷ (burn_all rest).input_tokens)
    × (child_data.slp_burns ≡ none ∷ (burn_all rest).slp_burns)
    × (child_data.slp_tx_data.group_token_id ≡ some s.token_id)
validate_slp_tx-child_example =
    validate_slp_tx-child child child_info (some group_coin ∷ none ∷ []) child_data refl refl
      child_run
