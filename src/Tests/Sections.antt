-- ===== src/Tests/Sections.antt =====
-- Sections of the second token protocol at concrete values.
use bitcoinsuite.Base.{◌≡◌, ◌≤◌, refl, List, [], ◌∷◌, ◌++◌, some, arith, length, replicate, All}
use bitcoinsuite.Base.Int.{pos}
use bitcoinsuite.Bytes.{Bytes, put_slice}
use bitcoinsuite.Bytes.Endian.{to_le_bytes, to_pattern}
use bitcoinsuite.Script.{Script}
use bitcoinsuite.Slpv2.{MintData, GenesisInfo, sections_opreturn, burn_section, standard}
use bitcoinsuite.Slpv2.Injective.{
  SectionCall, genesis_call, send_call, burn_call, section_of, IsCall,
}
use bitcoinsuite.Slpv2.Sizes.{length-section_of}
use bitcoinsuite.Slpv2.OpReturn.{Shows, sections_opreturn-Shows, sections_opreturn-injective}

abbrev id : Bytes
id = replicate 32 7

abbrev coin_info : GenesisInfo
coin_info = record {
  token_ticker = 0x41 ∷ [];
  token_name = [];
  url = [];
  data' = [];
  auth_pubkey = replicate 33 2;
  decimals = 4;
}

abbrev minted : MintData
minted = record { amounts = pos 1000 ∷ []; num_batons = 1 }

abbrev calls : List SectionCall
calls =
    genesis_call coin_info minted ∷ send_call id (pos 3 ∷ pos 4 ∷ []) ∷ burn_call id (pos 5) ∷ []

calls-IsCall : All IsCall calls
calls-IsCall = omega arith

burn_run :
    burn_section id standard (pos 258)
    ≡ (0x53 ∷ 0x4c ∷ 0x50 ∷ 0x32 ∷ 0 ∷ 4 ∷ 0x42 ∷ 0x55 ∷ 0x52 ∷ 0x4e ∷ [])
      ++ id
      ++ (2 ∷ 1 ∷ 0 ∷ 0 ∷ 0 ∷ 0 ∷ [])
unfolding burn_section put_slice to_le_bytes to_pattern
burn_run = refl

length-section_of_example :
    (length (section_of (genesis_call coin_info minted)) ≡ 61)
    × (16 ≤ length (section_of (genesis_call coin_info minted)))
    × (length (section_of (genesis_call coin_info minted)) ≤ 2826)
length-section_of_example = length-section_of (genesis_call coin_info minted) calls-IsCall.0

sections_opreturn-Shows_example :
    (script : Script) × (sections_opreturn (id ∷ [] ∷ []) ≡ some script)
    × Shows (id ∷ [] ∷ []) script
sections_opreturn-Shows_example = sections_opreturn-Shows (id ∷ [] ∷ []) (omega arith)

sections_opreturn-injective_example : calls ≡ calls
sections_opreturn-injective_example =
    sections_opreturn-injective calls calls calls-IsCall calls-IsCall refl
