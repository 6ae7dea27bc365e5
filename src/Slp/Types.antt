-- ===== src/Slp/Types.antt =====
-- The data of bitcoinsuite-slp: src/consts.rs, token_id.rs, slp_tx.rs, error.rs, and the types of
-- parse.rs and validate.rs. `Box` leaves no trace. The errors of hexadecimal text and of networks are
-- left out.
use Prim.Native.String.{String}
use mathlib.Core.List.{reverse}
use bitcoinsuite.Base.{ℕ, List, [], ◌∷◌, Bool, true, false, not, ◌&&◌, Option}
use bitcoinsuite.Errors.{BytesError}
use bitcoinsuite.Bytes.{Bytes, eq_bytes}
use bitcoinsuite.Slp.Amount.{SlpAmount, zero_amount, eq_amount}

-- `SLP_LOKAD_ID` is b"SLP\0".
abbrev pub slp_lokad_id : Bytes
slp_lokad_id = 0x53 ∷ 0x4c ∷ 0x50 ∷ 0x00 ∷ []

abbrev pub slp_token_type_v1 : Bytes
slp_token_type_v1 = 1 ∷ []

abbrev pub slp_token_type_v1_nft1_group : Bytes
slp_token_type_v1_nft1_group = 0x81 ∷ []

abbrev pub slp_token_type_v1_nft1_child : Bytes
slp_token_type_v1_nft1_child = 0x41 ∷ []

pub record TokenId : Type 0 where
  pub txid : Bytes
  pub token_id_be : Bytes

-- `TokenId::new`
abbrev pub new_token_id : Bytes → TokenId
new_token_id token_hash = record { txid = token_hash; token_id_be = reverse token_hash }

unfoldable pub eq_token_id : TokenId → TokenId → Bool
eq_token_id a b = eq_bytes a.txid b.txid && eq_bytes a.token_id_be b.token_id_be

pub data SlpTokenType : Type 0 where
  fungible nft1_group nft1_child unknown_type : SlpTokenType

-- The derived tests for equality.
abbrev pub eq_bool : Bool → Bool → Bool
eq_bool true b = b
eq_bool false b = not b

abbrev pub eq_token_type : SlpTokenType → SlpTokenType → Bool
eq_token_type fungible fungible = true
eq_token_type nft1_group nft1_group = true
eq_token_type nft1_child nft1_child = true
eq_token_type unknown_type unknown_type = true
eq_token_type a b = false

pub record SlpGenesisInfo : Type 0 where
  pub token_ticker : Bytes
  pub token_name : Bytes
  pub token_document_url : Bytes
  pub token_document_hash : Option Bytes
  pub decimals : ℕ

pub data SlpTxType : Type 0 where
  genesis : SlpGenesisInfo → SlpTxType
  send mint : SlpTxType
  burn : ℕ → SlpTxType
  unknown_tx : SlpTxType

pub record SlpToken : Type 0 where
  pub amount : SlpAmount
  pub is_mint_baton : Bool

abbrev pub empty_token : SlpToken
empty_token = record { amount = zero_amount; is_mint_baton = false }

-- `SlpToken::amount`, and the assignment `token.amount = amount`.
abbrev pub amount_token : SlpAmount → SlpToken
amount_token a = record { amount = a; is_mint_baton = false }

unfoldable pub eq_token : SlpToken → SlpToken → Bool
unfolding eq_amount
eq_token s t = eq_amount s.amount t.amount && eq_bool s.is_mint_baton t.is_mint_baton

pub record SlpBurn : Type 0 where
  pub token : SlpToken
  pub token_id : TokenId

pub record SlpTxData : Type 0 where
  pub input_tokens : List SlpToken
  pub output_tokens : List SlpToken
  pub slp_token_type : SlpTokenType
  pub slp_tx_type : SlpTxType
  pub token_id : TokenId
  pub group_token_id : Option TokenId

pub record SlpParseData : Type 0 where
  pub output_tokens : List SlpToken
  pub slp_token_type : SlpTokenType
  pub slp_tx_type : SlpTxType
  pub token_id : TokenId

pub record SlpValidTxData : Type 0 where
  pub slp_tx_data : SlpTxData
  pub slp_burns : List (Option SlpBurn)

pub record SlpSpentOutput : Type 0 where
  pub token_id : TokenId
  pub token_type : SlpTokenType
  pub token : SlpToken
  pub group_token_id : Option TokenId

-- The fields stand in the order of the source.
pub data SlpError : Type 0 where
  missing_op_return : ℕ → SlpError
  no_opcodes no_outputs : SlpError
  non_push_op disallowed_push : ℕ → ℕ → SlpError
  invalid_field_size : String → List ℕ → ℕ → SlpError
  invalid_decimals invalid_mint_baton_idx : ℕ → SlpError
  nft1_child_cannot_have_mint_baton : SlpError
  nft1_child_invalid_initial_quantity : SlpAmount → SlpError
  nft1_child_invalid_decimals : ℕ → SlpError
  too_few_pushes too_few_pushes_exact superfluous_pushes : ℕ → ℕ → SlpError
  invalid_lokad_id invalid_token_type invalid_tx_type : Bytes → SlpError
  output_sum_exceed_input_sum : SlpAmount → SlpAmount → SlpError
  has_no_nft1_group has_no_mint_baton wrong_burn_token_id wrong_burn_mint_baton : SlpError
  wrong_burn_invalid_amount : SlpAmount → SlpAmount → SlpError
  found_orphan_tx : SlpError
  bytes_error : BytesError → SlpError
