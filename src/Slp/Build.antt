-- ===== src/Slp/Build.antt =====
-- bitcoinsuite-slp/src/build.rs: the OP_RETURN scripts of the transaction types. A conversion to `u8`
-- that fails panics.
pub mod Pushes
pub mod Send
pub mod Burn
pub mod Mint
use bitcoinsuite.Base.{
  ℕ, ◌%◌, ◌^◌, List, [], ◌∷◌, ◌++◌, Option, none, some, Result, ok, panic, ◌>>=◌, ltb,
  if◌then◌else◌, map,
}
use bitcoinsuite.Bytes.{Bytes}
use bitcoinsuite.Bytes.Endian.{to_be_bytes, to_pattern}
use bitcoinsuite.Script.{Script, opreturn}
use bitcoinsuite.Slp.Amount.{SlpAmount}
use bitcoinsuite.Slp.Types.{
  SlpError, TokenId, SlpTokenType, fungible, nft1_group, nft1_child, unknown_type, SlpGenesisInfo,
  slp_lokad_id, slp_token_type_v1, slp_token_type_v1_nft1_group, slp_token_type_v1_nft1_child,
}
use bitcoinsuite.Slp.Parse.{genesis_tag, mint_tag, send_tag, burn_tag}

-- A panic, or the result; no function here returns an error.
abbrev pub Panics : Type 0 → Type 0
Panics A = Result SlpError A

unfoldable pub token_type_bytes : SlpTokenType → Panics Bytes
token_type_bytes fungible = ok slp_token_type_v1
token_type_bytes nft1_group = ok slp_token_type_v1_nft1_group
token_type_bytes nft1_child = ok slp_token_type_v1_nft1_child
token_type_bytes unknown_type = panic

-- `n.try_into().unwrap()` for a `u8`
abbrev pub to_u8 : ℕ → Panics ℕ
to_u8 n = if ltb n 256 then ok n else panic

abbrev pub baton_bytes : Option ℕ → Panics Bytes
baton_bytes none = ok []
baton_bytes (some out_idx) = do b ← to_u8 out_idx; ok (b ∷ [])

abbrev pub hash_bytes : Option Bytes → Bytes
hash_bytes none = []
hash_bytes (some hash) = hash

unfoldable pub genesis_opreturn : SlpGenesisInfo → SlpTokenType → Option ℕ → ℕ → Panics Script
unfolding token_type_bytes
genesis_opreturn genesis_info token_type mint_baton_out_idx initial_quantity = do
  type_bytes ← token_type_bytes token_type
  decimals ← to_u8 genesis_info.decimals
  baton ← baton_bytes mint_baton_out_idx
  ok (
      opreturn (
        slp_lokad_id
        ∷ type_bytes
        ∷ genesis_tag
        ∷ genesis_info.token_ticker
        ∷ genesis_info.token_name
        ∷ genesis_info.token_document_url
        ∷ hash_bytes genesis_info.token_document_hash
        ∷ (decimals ∷ [])
        ∷ baton
        ∷ to_be_bytes 8 initial_quantity
        ∷ []))

unfoldable pub mint_opreturn : TokenId → SlpTokenType → Option ℕ → ℕ → Panics Script
unfolding token_type_bytes
mint_opreturn token_id token_type mint_baton_out_idx additional_quantity = do
  type_bytes ← token_type_bytes token_type
  baton ← baton_bytes mint_baton_out_idx
  ok (
      opreturn (
        slp_lokad_id
        ∷ type_bytes
        ∷ mint_tag
        ∷ token_id.token_id_be
        ∷ baton
        ∷ to_be_bytes 8 additional_quantity
        ∷ []))

-- `amount.base_amount() as u64`, in bytes.
abbrev pub amount_bytes : SlpAmount → Bytes
amount_bytes amount = to_be_bytes 8 (to_pattern 16 amount.base_amount % 2 ^ 64)

unfoldable pub send_opreturn : TokenId → SlpTokenType → List SlpAmount → Panics Script
unfolding token_type_bytes
send_opreturn token_id token_type send_amounts = do
  type_bytes ← token_type_bytes token_type
  ok (
      opreturn (
        (slp_lokad_id ∷ type_bytes ∷ send_tag ∷ token_id.token_id_be ∷ [])
        ++ map amount_bytes send_amounts))

unfoldable pub burn_opreturn : TokenId → SlpTokenType → SlpAmount → Panics Script
unfolding token_type_bytes
burn_opreturn token_id token_type burn_amount = do
  type_bytes ← token_type_bytes token_type
  ok (
      opreturn (
        slp_lokad_id
        ∷ type_bytes
        ∷ burn_tag
        ∷ token_id.token_id_be
        ∷ amount_bytes burn_amount
        ∷ []))
