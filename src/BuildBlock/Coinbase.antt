-- ===== src/BuildBlock/Coinbase.antt =====
-- The first output of `build_lotus_coinbase` of bitcoinsuite-core/src/build_block.rs.
use bitcoinsuite.Base.{
  ◌+◌, ◌≡◌, refl, sym, some_injective, ap, subst, List, [], ◌∷◌, ◌++◌, Bool, true, false, not, ◌&&◌,
  some, if◌then◌else◌, ◌==◌, ltb, leb, length, Bool-cases, Option-cases, inl, inr,
}
use bitcoinsuite.Base.Int.{ℤ, pos, negsuc}
use bitcoinsuite.Bytes.{Bytes, put_slice}
use bitcoinsuite.Opcode.{op_return, op_pushdata1}
use bitcoinsuite.Script.{Script, mk_script, opreturn, opreturn_loop, opreturn_item, is_opreturn}
use bitcoinsuite.ScriptNum.{ser_script_num, is_zero}
use bitcoinsuite.Tx.{UnhashedTx}
use bitcoinsuite.BuildBlock.{logos, logos_script, lotus_opreturn, mk_output, build_lotus_coinbase}

-- A script whose first byte is `OP_RETURN`.
abbrev Starts : Bytes → Type 0
Starts bs = (rest : Bytes) × (bs ≡ op_return ∷ rest)

put-Starts : (bs item : Bytes) → Starts bs → Starts (put_slice bs item)
unfolding put_slice
put-Starts bs item h = (h.0 ++ item, ap (λ (b : Bytes). b ++ item) h.1)

if-Starts :
    (test : Bool) (bs bs' : Bytes) → Starts bs → Starts bs' → Starts (if test then bs else bs')
if-Starts true bs bs' h h' = h
if-Starts false bs bs' h h' = h'

item-Starts : (bs item : Bytes) → Starts bs → Starts (opreturn_item bs item)
unfolding opreturn_item
item-Starts bs item h = if-Starts (length item == 0) _ _ (put-Starts bs _ h) (
    if-Starts (ltb (length item) op_pushdata1) _ _ (put-Starts _ item (put-Starts bs _ h))
      (put-Starts _ item (put-Starts _ _ (put-Starts bs _ h))))

loop-Starts : (items : List Bytes) (bs : Bytes) → Starts bs → Starts (opreturn_loop bs items)
unfolding opreturn_loop
loop-Starts [] bs h = h
loop-Starts (item ∷ items) bs h = loop-Starts items (opreturn_item bs item) (item-Starts bs item h)

-- The scripts that `opreturn` makes are recognised.
pub is_opreturn-opreturn : (items : List Bytes) → is_opreturn (opreturn items) ≡ true
unfolding is_opreturn opreturn put_slice
is_opreturn-opreturn items =
    let (rest, starts) = loop-Starts items (op_return ∷ []) ([], refl) in
    rw (starts, is_opreturn) refl

logos-is_opreturn : (height : ℤ) (s : Script) → logos_script height ≡ some s → is_opreturn s ≡ true
logos-is_opreturn height s e = elim (Option-cases (ser_script_num height)) [
  | inl panics ↦ let e' = rw (panics, logos_script) at e in cc
  | inr (num, serializes) ↦
      let e' = rw (serializes, logos_script) at e in
      let same : opreturn (logos ∷ num ∷ []) ≡ s = cc in
      subst (λ (x : Script). is_opreturn x ≡ true) same (is_opreturn-opreturn (logos ∷ num ∷ []))
]

-- The script is an `OP_RETURN` one at every height but 0.
pub lotus_opreturn-is_opreturn :
    (height : ℤ) (s : Script)
    → lotus_opreturn height ≡ some s
    → is_opreturn s ≡ not (is_zero height)
unfolding lotus_opreturn
lotus_opreturn-is_opreturn (negsuc n) s e = logos-is_opreturn (negsuc n) s e
lotus_opreturn-is_opreturn (pos n) s e = elim (Bool-cases (n == 0)) [
  | inl zero ↦
      let e' = rw (zero, lotus_opreturn) at e in
      let same : mk_script (5 ∷ (logos ++ (0 ∷ []))) ≡ s = cc in
      rw zero (subst (λ (x : Script). is_opreturn x ≡ false) same (unfold is_opreturn in refl))
  | inr filled ↦ elim (Bool-cases (leb 1 n && leb n 16)) [
    | inl small ↦
        let e' = rw (filled, small, lotus_opreturn) at e in
        let same : mk_script ((op_return ∷ []) ++ ((5 ∷ logos) ++ ((n + 0x50) ∷ []))) ≡ s = cc in
        rw filled (subst (λ (x : Script). is_opreturn x ≡ true) same (unfold is_opreturn in refl))
    | inr large ↦
        let e' = rw (filled, large, lotus_opreturn) at e in
        rw filled (logos-is_opreturn (pos n) s e')
  ]
]

-- A Lotus coinbase has two outputs. The first has no value, and it is an `OP_RETURN` output at every height
-- but 0, where its script has that opcode missing; the second pays 260 coins to the script that is given.
pub build_lotus_coinbase-is_opreturn :
    (height : ℤ) (script : Script) (tx : UnhashedTx)
    → build_lotus_coinbase height script ≡ some tx
    → (first : Script) × (tx.outputs
        ≡ mk_output (pos 0) first ∷ mk_output (pos 260000000) script ∷ [])
      × (is_opreturn first ≡ not (is_zero height))
unfolding build_lotus_coinbase
build_lotus_coinbase-is_opreturn height script tx e = elim (Option-cases (lotus_opreturn height)) [
  | inl panics ↦ let e' = rw (panics, build_lotus_coinbase) at e in cc
  | inr (first, made) ↦
      let e' = rw (made, build_lotus_coinbase) at e in
      (
        first,
        ap (λ (t : UnhashedTx). t.outputs) (sym (some_injective e')),
        lotus_opreturn-is_opreturn height first made,
      )
]
