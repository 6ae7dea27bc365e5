-- ===== src/Tests/SlpBuild.antt =====
-- Runs of `parse_slp_tx` at scripts that are built.
use bitcoinsuite.Base.{◌≢◌, panic, ◌≡◌, refl, [], ◌∷◌, true, some, ok, arith, replicate}
use bitcoinsuite.Base.Int.{pos}
use bitcoinsuite.Bytes.{Bytes, put_slice}
use bitcoinsuite.Bytes.Endian.{to_be_bytes, to_pattern}
use bitcoinsuite.Tx.{UnhashedTx, TxOutput}
use bitcoinsuite.Slp.Amount.{zero_amount}
use bitcoinsuite.Slp.Amount.Sums.{mk_count}
use bitcoinsuite.Slp.Types.{nft1_group, new_token_id, fungible, amount_token, empty_token}
use bitcoinsuite.Slp.Build.Mint.{parse_slp_tx-mint_opreturn, mint_data}
use bitcoinsuite.Slp.Build.{mint_opreturn, send_opreturn, burn_opreturn}
use bitcoinsuite.Slp.Build.Burn.{parse_slp_tx-burn_opreturn, burn_data}
use bitcoinsuite.Slp.Build.Send.{parse_slp_tx-send_opreturn, send_data}
use bitcoinsuite.Slp.ParseTx.{parse_slp_tx}
use bitcoinsuite.Slp.NoPanic.Tx.{parse_slp_tx-ne-panic}
use bitcoinsuite.Script.{opreturn}

abbrev hash : Bytes
hash = 1 ∷ replicate 31 7

abbrev send_output : TxOutput
send_output = record {
  value = pos 0;
  script = opreturn (
      (0x53 ∷ 0x4c ∷ 0x50 ∷ 0x00 ∷ [])
      ∷ (1 ∷ [])
      ∷ (0x53 ∷ 0x45 ∷ 0x4e ∷ 0x44 ∷ [])
      ∷ (new_token_id hash).token_id_be
      ∷ (0 ∷ 0 ∷ 0 ∷ 0 ∷ 0 ∷ 0 ∷ 0 ∷ 9 ∷ [])
      ∷ []);
}

abbrev send_tx : UnhashedTx
send_tx = record { version = pos 2; inputs = []; outputs = send_output ∷ []; lock_time = 0 }

send_run : send_opreturn (new_token_id hash) fungible (mk_count 9 ∷ []) ≡ ok send_output.script
unfolding send_opreturn to_be_bytes to_pattern
send_run = refl

parse_slp_tx-send_opreturn_example :
    parse_slp_tx hash send_tx
    ≡ ok (send_data fungible hash (empty_token ∷ amount_token (mk_count 9) ∷ []))
parse_slp_tx-send_opreturn_example =
    parse_slp_tx-send_opreturn hash hash send_tx send_output [] fungible (mk_count 9 ∷ []) refl
      (omega arith) ((refl, omega arith), tt) (omega arith) (omega arith) refl send_run

parse_slp_tx-ne-panic_example : parse_slp_tx hash send_tx ≢ panic
unfolding opreturn put_slice
parse_slp_tx-ne-panic_example = parse_slp_tx-ne-panic hash send_tx (omega arith)

abbrev burn_output : TxOutput
burn_output = record {
  value = pos 0;
  script = opreturn (
      (0x53 ∷ 0x4c ∷ 0x50 ∷ 0x00 ∷ [])
      ∷ (0x81 ∷ [])
      ∷ (0x42 ∷ 0x55 ∷ 0x52 ∷ 0x4e ∷ [])
      ∷ (new_token_id hash).token_id_be
      ∷ (0 ∷ 0 ∷ 0 ∷ 0 ∷ 0 ∷ 0 ∷ 1 ∷ 0 ∷ [])
      ∷ []);
}

abbrev burn_tx : UnhashedTx
burn_tx = record {
  version = pos 2;
  inputs = [];
  outputs = burn_output ∷ send_output ∷ [];
  lock_time = 0;
}

burn_script : burn_opreturn (new_token_id hash) nft1_group (mk_count 256) ≡ ok burn_output.script
unfolding burn_opreturn to_be_bytes to_pattern
burn_script = refl

parse_slp_tx-burn_opreturn_example :
    parse_slp_tx hash burn_tx
    ≡ ok (burn_data nft1_group hash (mk_count 256) (empty_token ∷ empty_token ∷ []))
parse_slp_tx-burn_opreturn_example =
    parse_slp_tx-burn_opreturn hash hash burn_tx burn_output (send_output ∷ []) nft1_group
      (mk_count 256) refl (omega arith) (refl, omega arith) refl burn_script

abbrev mint_output : TxOutput
mint_output = record {
  value = pos 0;
  script = opreturn (
      (0x53 ∷ 0x4c ∷ 0x50 ∷ 0x00 ∷ [])
      ∷ (1 ∷ [])
      ∷ (0x4d ∷ 0x49 ∷ 0x4e ∷ 0x54 ∷ [])
      ∷ (new_token_id hash).token_id_be
      ∷ (2 ∷ [])
      ∷ (0 ∷ 0 ∷ 0 ∷ 0 ∷ 0 ∷ 0 ∷ 0 ∷ 231 ∷ [])
      ∷ []);
}

abbrev mint_tx : UnhashedTx
mint_tx = record {
  version = pos 2;
  inputs = [];
  outputs = mint_output ∷ send_output ∷ send_output ∷ [];
  lock_time = 0;
}

mint_script : mint_opreturn (new_token_id hash) fungible (some 2) 231 ≡ ok mint_output.script
unfolding mint_opreturn to_be_bytes
mint_script = refl

parse_slp_tx-mint_opreturn_example :
    parse_slp_tx hash mint_tx
    ≡ ok (
        mint_data fungible hash (
          empty_token
          ∷ amount_token (mk_count 231)
          ∷ record { amount = zero_amount; is_mint_baton = true }
          ∷ []))
parse_slp_tx-mint_opreturn_example =
    parse_slp_tx-mint_opreturn hash hash mint_tx mint_output (send_output ∷ send_output ∷ [])
      fungible (some 2) 231 refl (omega arith) (omega arith) (omega arith) refl mint_script
