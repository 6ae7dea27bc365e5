-- ===== src/Slp/SlpTx.antt =====
-- bitcoinsuite-slp/src/slp_tx.rs: a transaction together with what validation found of its tokens.
-- `RichTx` is about the views of rich_tx.rs.
pub mod Validated
pub mod RichTx
use Prim.Native.String.{String}
use bitcoinsuite.Base.{
  ℕ, List, [], ◌∷◌, true, Option, none, some, Result, ok, panic, if◌then◌else◌, ◌==◌, length,
}
use bitcoinsuite.Slp.Amount.{zero_amount}
use bitcoinsuite.Slp.Types.{
  SlpTokenType, fungible, nft1_group, nft1_child, unknown_type, SlpTxType, genesis, send, mint,
  burn, unknown_tx, SlpToken, SlpBurn, SlpTxData, SlpError,
}
use bitcoinsuite.Tx.{TxInput, TxOutput, UnhashedTx}

pub data SlpTxTypeVariant : Type 0 where
  genesis_variant send_variant mint_variant burn_variant unknown_variant : SlpTxTypeVariant

unfoldable pub tx_type_variant : SlpTxType → SlpTxTypeVariant
tx_type_variant (genesis info) = genesis_variant
tx_type_variant send = send_variant
tx_type_variant mint = mint_variant
tx_type_variant (burn quantity) = burn_variant
tx_type_variant unknown_tx = unknown_variant

unfoldable pub type_str : SlpTxType → String
type_str (genesis info) = "GENESIS"
type_str mint = "MINT"
type_str send = "SEND"
type_str (burn quantity) = "BURN"
type_str unknown_tx = "UNKNOWN"

-- The first bytes of `SLP_TOKEN_TYPE_V1` and of the two other tags.
unfoldable pub to_u16 : SlpTokenType → Option ℕ
to_u16 fungible = some 1
to_u16 nft1_group = some 0x81
to_u16 nft1_child = some 0x41
to_u16 unknown_type = none

abbrev pub mint_baton : SlpToken
mint_baton = record { amount = zero_amount; is_mint_baton = true }

pub record SlpTx : Type 0 where
  pub tx : UnhashedTx
  pub slp_tx_data : Option SlpTxData
  pub slp_burns : List (Option SlpBurn)

pub record SlpTxInput : Type 0 where
  pub token : SlpToken
  pub input : TxInput

pub record SlpTxOutput : Type 0 where
  pub token : SlpToken
  pub output : TxOutput

abbrev pub slp_tx_of : UnhashedTx → Option SlpTxData → List (Option SlpBurn) → SlpTx
slp_tx_of tx slp_tx_data slp_burns = record {
  tx = tx;
  slp_tx_data = slp_tx_data;
  slp_burns = slp_burns;
}

-- `SlpTx::new`
unfoldable pub new_slp_tx :
    UnhashedTx → Option SlpTxData → List (Option SlpBurn) → Result SlpError SlpTx
new_slp_tx tx none slp_burns = ok (slp_tx_of tx none slp_burns)
new_slp_tx tx (some data') slp_burns =
    if length data'.input_tokens == length tx.inputs
    then ok (slp_tx_of tx (some data') slp_burns)
    else panic

-- `inputs.iter().zip(input_tokens)` stops with the shorter list.
unfoldable pub zip_inputs : List TxInput → List SlpToken → List SlpTxInput
zip_inputs [] tokens = []
zip_inputs (i ∷ inputs) [] = []
zip_inputs (i ∷ inputs) (t ∷ tokens) = record { token = t; input = i } ∷ zip_inputs inputs tokens

unfoldable pub zip_outputs : List TxOutput → List SlpToken → List SlpTxOutput
zip_outputs [] tokens = []
zip_outputs (o ∷ outputs) [] = []
zip_outputs (o ∷ outputs) (t ∷ tokens) =
    record { token = t; output = o } ∷ zip_outputs outputs tokens

abbrev pub input_tokens_of : Option SlpTxData → List SlpToken
input_tokens_of none = []
input_tokens_of (some data') = data'.input_tokens

abbrev pub output_tokens_of : Option SlpTxData → List SlpToken
output_tokens_of none = []
output_tokens_of (some data') = data'.output_tokens

-- `SlpTx::inputs`
unfoldable pub slp_tx_inputs : SlpTx → List SlpTxInput
unfolding zip_inputs
slp_tx_inputs t = zip_inputs t.tx.inputs (input_tokens_of t.slp_tx_data)

-- `SlpTx::outputs`
unfoldable pub slp_tx_outputs : SlpTx → List SlpTxOutput
unfolding zip_outputs
slp_tx_outputs t = zip_outputs t.tx.outputs (output_tokens_of t.slp_tx_data)
