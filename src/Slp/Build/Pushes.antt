-- ===== src/Slp/Build/Pushes.antt =====
-- What the operations of an OP_RETURN script are, and what bitcoinsuite-slp/src/parse.rs makes of them.
use bitcoinsuite.Base.{
  ℕ, suc, ◌%◌, ◌^◌, ◌<◌, ◌≡◌, refl, sym, ap, subst, ◌∙◌, List, [], ◌∷◌, ◌++◌, false, ok, ltb,
  ltb→lt, if◌then◌else◌, length, arith, All, map, append_assoc, append-nil, Bool-cases, inl, inr,
}
use bitcoinsuite.Bytes.{Bytes, IsBytes, put_slice}
use bitcoinsuite.Opcode.{op_return, op_pushdata1}
use bitcoinsuite.Op.{Op, code, push}
use bitcoinsuite.Op.RoundTrip.{IsOp, op_bytes, length_bytes}
use bitcoinsuite.Script.{mk_script, opreturn, opreturn_loop, opreturn_item}
use bitcoinsuite.Script.Ops.{ops, ops_bytes, ops-ops_bytes}
use bitcoinsuite.Tx.{UnhashedTx, TxOutput}
use bitcoinsuite.Slp.Types.{
  slp_lokad_id, SlpTokenType, fungible, nft1_group, nft1_child, unknown_type, slp_token_type_v1,
  slp_token_type_v1_nft1_group, slp_token_type_v1_nft1_child,
}
use bitcoinsuite.Slp.Build.{token_type_bytes}
use bitcoinsuite.Slp.ParseTx.{parse_slp_tx, parse_outputs, parse_fields, parse_known}
use bitcoinsuite.Slp.Fields.{
  parse_pushes, parse_opreturn_ops, push_of, parse_lokad_id, parse_token_type,
}

-- The push of an item.
abbrev pub item_op : Bytes → Op
item_op [] = push op_pushdata1 []
item_op (b ∷ item) =
    if ltb (length (b ∷ item)) op_pushdata1
    then push (length (b ∷ item)) (b ∷ item)
    else push op_pushdata1 (b ∷ item)

-- The items that `opreturn` writes as they are.
abbrev pub IsItem : Bytes → Type 0
IsItem item = (length item < 2 ^ 8) × IsBytes item

below_byte : (n : ℕ) → n < 256 → n % 256 ≡ n
below_byte n h = omega arith

lokad-IsItem : IsItem slp_lokad_id
lokad-IsItem = omega arith

opreturn_item_lem :
    (bs item : Bytes) → IsItem item → opreturn_item bs item ≡ bs ++ op_bytes (item_op item)
unfolding opreturn_item put_slice op_bytes length_bytes
opreturn_item_lem bs [] h = refl
opreturn_item_lem bs (b ∷ item) h = ground (
  arith,
  below_byte (length (b ∷ item)),
  append_assoc bs (length (b ∷ item) ∷ []) (b ∷ item),
  append_assoc bs (op_pushdata1 ∷ []) (length (b ∷ item) ∷ []),
  append_assoc bs (op_pushdata1 ∷ length (b ∷ item) ∷ []) (b ∷ item),
)

item_op-IsOp : (item : Bytes) → IsItem item → IsOp (item_op item)
unfolding IsOp
item_op-IsOp [] h = inr (inl (refl, omega arith))
item_op-IsOp (b ∷ item) h = elim (Bool-cases (ltb (length (b ∷ item)) op_pushdata1)) [
  | inl short ↦
      rw short
        (inl (omega arith, ground (arith, ltb→lt (length (b ∷ item)) op_pushdata1 short), refl))
  | inr long ↦ rw long (inr (inl (refl, h.0)))
]

item_op-push : (i : ℕ) (item : Bytes) → push_of (suc i) (item_op item) ≡ ok item
unfolding push_of
item_op-push i [] = refl
item_op-push i (b ∷ item) = ground arith

-- The operations of the script that `opreturn` builds.
abbrev pub opreturn_ops : List Bytes → List Op
opreturn_ops items = code op_return ∷ map item_op items

opreturn_loop_lem :
    (bs : Bytes) (items : List Bytes)
    → All IsItem items
    → opreturn_loop bs items ≡ bs ++ ops_bytes (map item_op items)
unfolding opreturn_loop ops_bytes
opreturn_loop_lem bs [] h = sym (append-nil bs)
opreturn_loop_lem bs (item ∷ items) h = rw (opreturn_item_lem bs item h.0) (
    opreturn_loop_lem (bs ++ op_bytes (item_op item)) items h.1
    ∙ append_assoc bs (op_bytes (item_op item)) (ops_bytes (map item_op items)))

items-IsOp : (items : List Bytes) → All IsItem items → All IsOp (map item_op items)
items-IsOp [] h = tt
items-IsOp (item ∷ items) h = (item_op-IsOp item h.0, items-IsOp items h.1)

code-IsOp : IsOp (code op_return)
unfolding IsOp
code-IsOp = inr (omega arith)

-- A script that `opreturn` builds from items of less than 256 bytes shows OP_RETURN and one push for
-- each item, the empty ones among them.
pub ops-opreturn :
    (items : List Bytes) → All IsItem items → ops (opreturn items) ≡ ok (opreturn_ops items)
unfolding opreturn put_slice ops_bytes op_bytes
ops-opreturn items h =
    ap (λ bs. ops (mk_script bs)) (opreturn_loop_lem (op_return ∷ []) items h)
    ∙ ops-ops_bytes (opreturn_ops items) (code-IsOp, items-IsOp items h)

parse_pushes-items :
    (i : ℕ) (items : List Bytes) → parse_pushes (suc i) (map item_op items) ≡ ok items
unfolding parse_pushes
parse_pushes-items i [] = refl
parse_pushes-items i (item ∷ items) =
    rw (item_op-push i item, parse_pushes-items (suc i) items) refl

-- The pushes that are read from such operations are the items.
pub parse_opreturn_ops-items :
    (items : List Bytes) → parse_opreturn_ops (opreturn_ops items) ≡ ok items
unfolding parse_opreturn_ops parse_pushes
parse_opreturn_ops-items items = parse_pushes-items 0 items

-- A transaction whose first output is such a script is read by its pushes.
pub parse_slp_tx-items :
    (txid : Bytes) (tx : UnhashedTx) (output : TxOutput) (outputs : List TxOutput)
    (items : List Bytes)
    → tx.outputs ≡ output ∷ outputs
    → output.script ≡ opreturn (slp_lokad_id ∷ items)
    → All IsItem items
    → parse_slp_tx txid tx ≡ parse_fields txid tx (slp_lokad_id ∷ items)
unfolding parse_slp_tx parse_outputs parse_lokad_id
parse_slp_tx-items txid tx output outputs items first_output script h =
    let shown : ops output.script ≡ ok (opreturn_ops (slp_lokad_id ∷ items)) =
      ap ops script ∙ ops-opreturn (slp_lokad_id ∷ items) (lokad-IsItem, h) in
    ap (parse_outputs txid tx) first_output
    ∙ rw (shown, parse_opreturn_ops-items (slp_lokad_id ∷ items)) refl

three_fields :
    (b c : Bytes) (items : List Bytes) → ltb (length (slp_lokad_id ∷ b ∷ c ∷ items)) 3 ≡ false
three_fields b c items = ground arith

abbrev Shown : Bytes → UnhashedTx → SlpTokenType → Bytes → Bytes → List Bytes → Type 0
Shown txid tx token_type type_bytes tag items =
    parse_fields txid tx (slp_lokad_id ∷ type_bytes ∷ tag ∷ items)
    ≡ parse_known txid tx (slp_lokad_id ∷ type_bytes ∷ tag ∷ items) token_type

-- The three token types that have a number.
pub parse_fields-known :
    (txid : Bytes) (tx : UnhashedTx) (token_type : SlpTokenType) (type_bytes tag : Bytes)
    (items : List Bytes)
    → token_type_bytes token_type ≡ ok type_bytes
    → parse_fields txid tx (slp_lokad_id ∷ type_bytes ∷ tag ∷ items)
      ≡ parse_known txid tx (slp_lokad_id ∷ type_bytes ∷ tag ∷ items) token_type
unfolding parse_fields token_type_bytes parse_token_type
parse_fields-known txid tx fungible type_bytes tag items h =
    let e : slp_token_type_v1 ≡ type_bytes = cc in
    subst (λ b. Shown txid tx fungible b tag items) e
      (rw (three_fields slp_token_type_v1 tag items) refl)
parse_fields-known txid tx nft1_group type_bytes tag items h =
    let e : slp_token_type_v1_nft1_group ≡ type_bytes = cc in
    subst (λ b. Shown txid tx nft1_group b tag items) e
      (rw (three_fields slp_token_type_v1_nft1_group tag items) refl)
parse_fields-known txid tx nft1_child type_bytes tag items h =
    let e : slp_token_type_v1_nft1_child ≡ type_bytes = cc in
    subst (λ b. Shown txid tx nft1_child b tag items) e
      (rw (three_fields slp_token_type_v1_nft1_child tag items) refl)
parse_fields-known txid tx unknown_type type_bytes tag items h = cc
