-- ===== src/SignData/Lookup.antt =====
-- What `find_script_code` of bitcoinsuite-core/src/sign/sign_data.rs returns.
use bitcoinsuite.Base.{
  ◌≡◌, ap, subst, List, [], ◌∷◌, Bool, true, false, ◌⊎◌, inl, inr, ok, Bool-cases,
}
use bitcoinsuite.Script.{Script}
use bitcoinsuite.Script.Parse.{is_p2sh}
use bitcoinsuite.SignData.{
  SignField, output_script, redeem_script, value, SignData, script_code_loop, find_script_code,
}

-- A field is among the fields.
abbrev pub Holds : List SignField → SignField → Type 0
Holds [] field = ⊥
Holds (x ∷ fields) field = (x ≡ field) ⊎ Holds fields field

-- Where a script code comes from.
abbrev pub IsScriptCode : List SignField → Script → Type 0
IsScriptCode fields s =
    Holds fields (redeem_script s) ⊎ (Holds fields (output_script s) × (is_p2sh s ≡ false))

later :
    (x : SignField) (fields : List SignField) (s : Script)
    → IsScriptCode fields s
    → IsScriptCode (x ∷ fields) s
later x fields s (inl h) = inl (inr h)
later x fields s (inr h) = inr (inr h.0, h.1)

script_code_loop-IsScriptCode :
    (p2sh : Bool) (fields : List SignField) (s : Script)
    → script_code_loop p2sh fields ≡ ok s
    → IsScriptCode fields s
unfolding script_code_loop
script_code_loop-IsScriptCode true [] s h = cc
script_code_loop-IsScriptCode false [] s h = cc
script_code_loop-IsScriptCode p2sh (output_script x ∷ fields) s h = elim (Bool-cases (is_p2sh x)) [
  | inl hashed ↦
      later (output_script x) fields s
        (script_code_loop-IsScriptCode true fields s (rw hashed at h))
  | inr plain ↦
      let h' = rw plain at h in
      let e : x ≡ s = cc in inr (inl (ap output_script e), subst (λ y. is_p2sh y ≡ false) e plain)
]
script_code_loop-IsScriptCode p2sh (redeem_script x ∷ fields) s h =
    let e : x ≡ s = cc in inl (inl (ap redeem_script e))
script_code_loop-IsScriptCode p2sh (value v ∷ fields) s h =
    later (value v) fields s (script_code_loop-IsScriptCode p2sh fields s h)

-- The script code that is found is a redeem script of the sign data, or an output script of it that is
-- not P2SH.
pub find_script_code-IsScriptCode :
    (d : SignData) (s : Script) → find_script_code d ≡ ok s → IsScriptCode d.fields s
unfolding find_script_code
find_script_code-IsScriptCode d s h = script_code_loop-IsScriptCode false d.fields s h
