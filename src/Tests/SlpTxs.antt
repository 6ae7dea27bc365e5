-- ===== src/Tests/SlpTxs.antt =====
-- Transactions with their tokens at concrete inputs.
use bitcoinsuite.Base.{◌≡◌, refl, [], ◌∷◌, List, none, some, Option, ok, panic, replicate}
use bitcoinsuite.Base.Int.{pos, ◌+ℤ◌}
use bitcoinsuite.Bytes.{Bytes}
use bitcoinsuite.Bytes.Endian.{to_pattern, from_pattern}
use bitcoinsuite.Network.{xec}
use bitcoinsuite.Script.{mk_script}
use bitcoinsuite.Tx.{TxInput, TxOutput, UnhashedTx, finalized}
use bitcoinsuite.Slp.Amount.{add, wrap}
use bitcoinsuite.Slp.Amount.Sums.{mk_count}
use bitcoinsuite.Slp.Types.{
  fungible, new_token_id, burn, amount_token, empty_token, SlpParseData, SlpSpentOutput, SlpTxData,
  SlpValidTxData, eq_token, eq_token_id,
}
use bitcoinsuite.Slp.Validate.{validate_slp_tx}
use bitcoinsuite.Slp.SlpTx.{new_slp_tx}
use bitcoinsuite.Slp.SlpTx.Validated.{new_slp_tx-validate_slp_tx, Outcome, covers}
use bitcoinsuite.Slp.SlpTx.RichTx.{RichTx}
use bitcoinsuite.Slp.SlpTx.RichTx.Views.{rich_inputs-Fits, ListsInputs, ListsOutputs}

abbrev hash : Bytes
hash = 1 ∷ replicate 31 7

abbrev spend : TxInput
spend = record {
  prev_out = record { txid = hash; out_idx = 1 };
  script = mk_script [];
  sequence = finalized;
  sign_data = none;
}

abbrev pay : TxOutput
pay = record { value = pos 546; script = mk_script [] }

-- A BURN of 4 with an input behind that holds no token.
abbrev burn_tx : UnhashedTx
burn_tx = record { version = pos 1; inputs = spend ∷ spend ∷ []; outputs = pay ∷ []; lock_time = 0 }

abbrev burning : SlpParseData
burning = record {
  output_tokens = empty_token ∷ [];
  slp_token_type = fungible;
  slp_tx_type = burn 4;
  token_id = new_token_id hash;
}

abbrev spent : List (Option SlpSpentOutput)
spent =
    some (record {
      token_id = new_token_id hash;
      token_type = fungible;
      token = amount_token (mk_count 4);
      group_token_id = none;
    })
    ∷ none
    ∷ []

abbrev burnt_data : SlpTxData
burnt_data = record {
  input_tokens = amount_token (mk_count 4) ∷ [];
  output_tokens = empty_token ∷ [];
  slp_token_type = fungible;
  slp_tx_type = burn 4;
  token_id = new_token_id hash;
  group_token_id = none;
}

abbrev burnt : SlpValidTxData
burnt = record { slp_tx_data = burnt_data; slp_burns = none ∷ none ∷ [] }

burnt_run : validate_slp_tx burning spent ≡ ok burnt
unfolding validate_slp_tx eq_token eq_token_id add wrap from_pattern to_pattern ◌+ℤ◌
burnt_run = refl

new_slp_tx-validate_slp_tx_example : Outcome burn_tx burnt (covers (burn 4) spent)
new_slp_tx-validate_slp_tx_example =
    new_slp_tx-validate_slp_tx burn_tx burning spent burnt refl burnt_run

-- The source panics there.
burn_panics : new_slp_tx burn_tx (some burnt_data) (none ∷ none ∷ []) ≡ panic
unfolding eq_token
burn_panics = new_slp_tx-validate_slp_tx burn_tx burning spent burnt refl burnt_run

abbrev rich_burn : RichTx
rich_burn = record {
  tx = record { unhashed_tx = burn_tx; hash = hash; raw = [] };
  txid = hash;
  block = none;
  slp_tx_data = some burnt_data;
  spent_coins = none;
  spends = none ∷ [];
  slp_burns = none ∷ none ∷ [];
  slp_error_msg = none;
  time_first_seen = pos 0;
  network = xec;
}

rich_inputs-Fits_example : ListsInputs rich_burn × ListsOutputs rich_burn
rich_inputs-Fits_example = rich_inputs-Fits rich_burn (refl, refl, refl)
