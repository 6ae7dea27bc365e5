-- ===== src/Slp/SlpTx/RichTx.antt =====
-- bitcoinsuite-slp/src/rich_tx.rs: what a client sees of a transaction, input by input.
-- An index out of range panics.
pub mod Collect
pub mod Views
use Prim.Native.String.{String}
use bitcoinsuite.Base.{
  ℕ, zero, suc, List, [], ◌∷◌, Option, none, some, Result, ok, panic, ◌>>=◌, length, get_elem?,
  get_or,
}
use bitcoinsuite.Base.Int.{ℤ, pos, negsuc}
use bitcoinsuite.Bytes.{Bytes}
use bitcoinsuite.Network.{Network}
use bitcoinsuite.Slp.Types.{SlpToken, SlpBurn, SlpTxData, SlpError, empty_token}
use bitcoinsuite.Slp.SlpTx.{input_tokens_of, output_tokens_of}
use bitcoinsuite.Tx.{Coin, OutPoint, Tx, TxInput, TxOutput}

pub record RichTxBlock : Type 0 where
  pub height : ℤ
  pub hash : Bytes
  pub timestamp : ℤ

pub record RichTx : Type 0 where
  pub tx : Tx
  pub txid : Bytes
  pub block : Option RichTxBlock
  pub slp_tx_data : Option SlpTxData
  pub spent_coins : Option (List Coin)
  pub spends : List (Option OutPoint)
  pub slp_burns : List (Option SlpBurn)
  pub slp_error_msg : Option String
  pub time_first_seen : ℤ
  pub network : Network

pub record RichTxInput : Type 0 where
  pub tx_input : TxInput
  pub slp_burn : Option SlpBurn
  pub slp_token : SlpToken
  pub spent_coin : Option Coin

pub record RichTxOutput : Type 0 where
  pub tx_output : TxOutput
  pub slp_token : SlpToken
  pub spent_by : Option OutPoint

-- `xs[idx]`
abbrev pub at {ℓ} : {A : Type ℓ} → List A → ℕ → Result SlpError A
at xs idx = elim (get_elem? xs idx) [ none ↦ panic | some x ↦ ok x ]

-- `self.spent_coins.as_ref().map(|spent_coins| &spent_coins[idx])`
unfoldable pub spent_coin_at : Option (List Coin) → ℕ → Result SlpError (Option Coin)
spent_coin_at none idx = ok none
spent_coin_at (some spent_coins) idx = at spent_coins idx >>= λ coin. ok (some coin)

-- `(idx..idx + count).map(f)`, collected.
unfoldable pub collect {ℓ} :
    {A : Type ℓ} → (ℕ → Result SlpError A) → ℕ → ℕ → Result SlpError (List A)
collect f zero idx = ok []
collect f (suc count) idx = f idx >>= λ x. collect f count (suc idx) >>= λ xs. ok (x ∷ xs)

-- The item with number `idx`: `get(idx).cloned()` and `unwrap_or_default()` are `get_or`.
unfoldable pub rich_input : RichTx → ℕ → Result SlpError RichTxInput
unfolding spent_coin_at
rich_input r idx = do
  input ← at r.tx.unhashed_tx.inputs idx
  burn ← at r.slp_burns idx
  coin ← spent_coin_at r.spent_coins idx
  ok (record {
    tx_input = input;
    slp_burn = burn;
    slp_token = get_or (input_tokens_of r.slp_tx_data) idx empty_token;
    spent_coin = coin;
  })

unfoldable pub rich_output : RichTx → ℕ → Result SlpError RichTxOutput
rich_output r idx = do
  output ← at r.tx.unhashed_tx.outputs idx
  spent_by ← at r.spends idx
  ok (record {
    tx_output = output;
    slp_token = get_or (output_tokens_of r.slp_tx_data) idx empty_token;
    spent_by = spent_by;
  })

-- `RichTx::inputs`
unfoldable pub rich_inputs : RichTx → Result SlpError (List RichTxInput)
unfolding collect rich_input
rich_inputs r = collect (rich_input r) (length r.tx.unhashed_tx.inputs) 0

-- `RichTx::outputs`
unfoldable pub rich_outputs : RichTx → Result SlpError (List RichTxOutput)
unfolding collect rich_output
rich_outputs r = collect (rich_output r) (length r.tx.unhashed_tx.outputs) 0

abbrev block_timestamp : Option RichTxBlock → ℤ
block_timestamp none = pos 0
block_timestamp (some block) = block.timestamp

-- `RichTx::timestamp`, by `time_first_seen`.
abbrev seen_or : ℤ → Option RichTxBlock → ℤ
seen_or (pos zero) block = block_timestamp block
seen_or (pos (suc n)) block = pos (suc n)
seen_or (negsuc n) block = negsuc n

unfoldable pub rich_timestamp : RichTx → ℤ
rich_timestamp r = seen_or r.time_first_seen r.block
