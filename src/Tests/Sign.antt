-- ===== src/Tests/Sign.antt =====
-- A run of `find_script_code` on a P2SH output with its redeem script.
use bitcoinsuite.Base.{◌≡◌, refl, [], ◌∷◌, ok, replicate}
use bitcoinsuite.Base.Int.{pos}
use bitcoinsuite.Script.{mk_script, p2sh}
use bitcoinsuite.Script.Parse.{is_p2sh}
use bitcoinsuite.SignData.{output_script, redeem_script, value, SignData, find_script_code}
use bitcoinsuite.SignData.Lookup.{find_script_code-IsScriptCode, IsScriptCode}

abbrev spent : SignData
spent = record {
  fields =
      value (pos 1234)
      ∷ output_script (p2sh (replicate 20 7))
      ∷ redeem_script (mk_script (0x51 ∷ []))
      ∷ [];
}

found : find_script_code spent ≡ ok (mk_script (0x51 ∷ []))
unfolding find_script_code is_p2sh p2sh
found = refl

find_script_code-IsScriptCode_example : IsScriptCode spent.fields (mk_script (0x51 ∷ []))
find_script_code-IsScriptCode_example =
    find_script_code-IsScriptCode spent (mk_script (0x51 ∷ [])) found
