-- ===== src/Slp/NoPanic/Tx.antt =====
-- The panics of `parse_slp_tx` of bitcoinsuite-slp/src/parse.rs.
use bitcoinsuite.Base.{
  ℕ, zero, suc, ◌<◌, ◌^◌, ◌≡◌, ◌∙◌, sym, subst, ok_injective, >>=-eq-ok, map_err-eq-ok,
  All-append_left, All-append_right, Bool-cases, inl, inr, arith, ◌≢◌, refl, List, [], ◌∷◌, ◌||◌,
  Bool, true, false, not, Option, none, some, Result, ok, err, panic, ◌>>=◌, guard, map_err, ltb,
  if◌then◌else◌, ◌==◌, length, All,
}
use bitcoinsuite.Errors.{BytesError}
use bitcoinsuite.Bytes.{eq_bytes, Bytes, IsBytes}
use bitcoinsuite.Opcode.{op_0, op_pushdata4}
use bitcoinsuite.Op.{Op, code, push}
use bitcoinsuite.Op.RoundTrip.{op_bytes, length_bytes}
use bitcoinsuite.Script.{Script}
use bitcoinsuite.Script.Ops.{ops, ops-ne-panic, ops_bytes, from_ops-ops, from_ops-ops_bytes}
use bitcoinsuite.Tx.{UnhashedTx, TxOutput}
use bitcoinsuite.Slp.Types.{SlpError, bytes_error, TokenId, SlpParseData, SlpTokenType}
use bitcoinsuite.Slp.Fields.{
  parse_opreturn_ops, parse_pushes, push_of, check_op_return, parse_lokad_id, parse_token_type,
}
use bitcoinsuite.Slp.Parse.{genesis_tag, mint_tag, send_tag, burn_tag, ParsedOpReturn}
use bitcoinsuite.Slp.ParseTx.{
  parse_slp_tx, parse_outputs, parse_fields, parse_known, parse_tagged, settle_token_id,
}
use bitcoinsuite.Slp.NoPanic.{
  Sound, bind-Returns, parse_pushes-ne-panic, parse_lokad_id-ne-panic, guard-Returns,
  parse_mint_data-Sound, parse_burn_data-Sound, parse_genesis_data-Sound, parse_send_data-Sound,
}

if-Sound :
    (b : Bool) (x y : Result SlpError ParsedOpReturn)
    → Sound x
    → Sound y
    → Sound (if b then x else y)
if-Sound true x y h k = h
if-Sound false x y h k = k

parse_tagged-Sound :
    (tag : Bytes) (fields : List Bytes) (token_type : SlpTokenType)
    → All IsBytes fields
    → Sound (parse_tagged tag fields token_type)
unfolding parse_tagged
parse_tagged-Sound tag fields token_type valid =
    if-Sound (eq_bytes tag genesis_tag) _ _ (parse_genesis_data-Sound fields token_type) (
      if-Sound (eq_bytes tag mint_tag) _ _ (parse_mint_data-Sound fields) (
        if-Sound (eq_bytes tag send_tag) _ _ (parse_send_data-Sound fields)
          (if-Sound (eq_bytes tag burn_tag) _ _ (parse_burn_data-Sound fields valid) tt)))

-- The rest of the function behind a parser that is sound.
settled-ne-panic :
    (r : Result SlpError ParsedOpReturn) (txid : Bytes)
    (f : ParsedOpReturn → TokenId → Result SlpError SlpParseData)
    → Sound r
    → ((p : ParsedOpReturn) (id : TokenId) → f p id ≢ panic)
    → (r >>= λ p. settle_token_id txid p.slp_tx_type p.token_id >>= f p) ≢ panic
settled-ne-panic (ok p) txid f h k =
    bind-Returns (settle_token_id txid p.slp_tx_type p.token_id) _ (h txid) (λ id e. k p id)
settled-ne-panic (err e) txid f h k = λ q. cc
settled-ne-panic panic txid f h k = absurd h

parse_known-ne-panic :
    (txid : Bytes) (tx : UnhashedTx) (a b tag : Bytes) (fields : List Bytes)
    (token_type : SlpTokenType)
    → All IsBytes (a ∷ b ∷ tag ∷ fields)
    → parse_known txid tx (a ∷ b ∷ tag ∷ fields) token_type ≢ panic
unfolding parse_known
parse_known-ne-panic txid tx a b tag fields token_type valid =
    settled-ne-panic (parse_tagged tag (a ∷ b ∷ tag ∷ fields) token_type) txid _
      (parse_tagged-Sound tag (a ∷ b ∷ tag ∷ fields) token_type valid) (λ p id q. cc)

known_or_unknown :
    (o : Option SlpTokenType) (d : SlpParseData) (f : SlpTokenType → Result SlpError SlpParseData)
    → ((t : SlpTokenType) → f t ≢ panic)
    → elim o [ some t ↦ f t | none ↦ ok d ] ≢ panic
known_or_unknown (some t) d f h = h t
known_or_unknown none d f h = λ q. cc

map_err-ne-panic {κ} :
    {A : Type κ} (r : Result BytesError A) → r ≢ panic → map_err bytes_error r ≢ panic
map_err-ne-panic (ok a) h = λ q. cc
map_err-ne-panic (err e) h = λ q. cc
map_err-ne-panic panic h = absurd (h refl)

parse_fields-ne-panic :
    (txid : Bytes) (tx : UnhashedTx) (fields : List Bytes)
    → All IsBytes fields
    → parse_fields txid tx fields ≢ panic
unfolding parse_fields
parse_fields-ne-panic txid tx [] valid = λ q. cc
parse_fields-ne-panic txid tx (a ∷ []) valid = λ q. cc
parse_fields-ne-panic txid tx (a ∷ b ∷ []) valid = λ q. cc
parse_fields-ne-panic txid tx (a ∷ b ∷ tag ∷ fields) valid =
    bind-Returns (guard (not (ltb (length (a ∷ b ∷ tag ∷ fields)) 3)) _) _ (guard-Returns _ _)
      (λ u few.
        bind-Returns (guard (not ((length b == 0) || ltb 2 (length b))) _) _ (guard-Returns _ _)
          (λ v size.
            known_or_unknown (parse_token_type b) _ _
              (λ t. parse_known-ne-panic txid tx a b tag fields t valid)))

-- An operation pushes bytes.
abbrev PushesBytes : Op → Type 0
PushesBytes (code opcode) = Unit
PushesBytes (push opcode pushed) = IsBytes pushed

op_bytes-PushesBytes : (op : Op) → IsBytes (op_bytes op) → PushesBytes op
unfolding op_bytes
op_bytes-PushesBytes (code opcode) h = tt
op_bytes-PushesBytes (push opcode pushed) h =
    All-append_right (λ b. b < 2 ^ 8) (length_bytes opcode (length pushed)) pushed h.1

ops_bytes-PushesBytes : (os : List Op) → IsBytes (ops_bytes os) → All PushesBytes os
unfolding ops_bytes
ops_bytes-PushesBytes [] h = tt
ops_bytes-PushesBytes (op ∷ os) h = (
  op_bytes-PushesBytes op (All-append_left (λ b. b < 2 ^ 8) (op_bytes op) (ops_bytes os) h),
  ops_bytes-PushesBytes os (All-append_right (λ b. b < 2 ^ 8) (op_bytes op) (ops_bytes os) h),
)

-- The operations of a script of bytes push bytes.
ops-PushesBytes :
    (s : Script) (os : List Op) → IsBytes s.bytecode → ops s ≡ ok os → All PushesBytes os
ops-PushesBytes s os h e =
    let (valid, built) = from_ops-ops s os h e in
    let same = ok_injective (sym built ∙ from_ops-ops_bytes os valid) in
    ops_bytes-PushesBytes os (subst (λ (t : Script). IsBytes t.bytecode) same h)

push_of-IsBytes :
    (i : ℕ) (op : Op) (pushed : Bytes) → PushesBytes op → push_of i op ≡ ok pushed → IsBytes pushed
unfolding push_of
push_of-IsBytes i (code opcode) pushed h e = absurd (ground arith)
push_of-IsBytes i (push opcode bs) pushed h e =
    elim (Bool-cases ((opcode == op_0) || ltb op_pushdata4 opcode)) [
      | inl disallowed ↦ let e' = rw disallowed at e in cc
      | inr allowed ↦ let e' = rw allowed at e in subst IsBytes (ok_injective e') h
    ]

parse_pushes-IsBytes :
    (i : ℕ) (os : List Op) (fields : List Bytes)
    → All PushesBytes os
    → parse_pushes i os ≡ ok fields
    → All IsBytes fields
unfolding parse_pushes
parse_pushes-IsBytes i [] fields h e = subst (All IsBytes) (ok_injective e) tt
parse_pushes-IsBytes zero (op ∷ os) fields h e =
    let (u, returned, rest) = >>=-eq-ok (check_op_return op) _ e in
    parse_pushes-IsBytes 1 os fields h.1 rest
parse_pushes-IsBytes (suc i) (op ∷ os) fields h e =
    let (pushed, one, e') = >>=-eq-ok (push_of (suc i) op) _ e in
    let (pushes, more, both) = >>=-eq-ok (parse_pushes (suc (suc i)) os) _ e' in
    subst (All IsBytes) (ok_injective both) (
      push_of-IsBytes (suc i) op pushed h.0 one,
      parse_pushes-IsBytes (suc (suc i)) os pushes h.1 more,
    )

parse_outputs-ne-panic :
    (txid : Bytes) (tx : UnhashedTx) (outputs : List TxOutput)
    → All (λ (o : TxOutput). IsBytes o.script.bytecode) outputs
    → parse_outputs txid tx outputs ≢ panic
unfolding parse_outputs
parse_outputs-ne-panic txid tx [] h = λ q. cc
parse_outputs-ne-panic txid tx (output ∷ outputs) h =
    bind-Returns (map_err bytes_error (ops output.script)) _
      (map_err-ne-panic (ops output.script) (ops-ne-panic output.script h.0))
      (λ os shown.
        let shown' = map_err-eq-ok bytes_error (ops output.script) os shown in
        bind-Returns (parse_lokad_id os) _ (parse_lokad_id-ne-panic os) (λ u lokad.
          bind-Returns (parse_opreturn_ops os) _
            (unfold parse_opreturn_ops in parse_pushes-ne-panic 0 os)
            (λ fields pushes. parse_fields-ne-panic txid tx fields (
              parse_pushes-IsBytes 0 os fields (ops-PushesBytes output.script os h.0 shown')
                (unfold parse_opreturn_ops in pushes)))))

-- Parsing the tokens of a transaction whose scripts are bytes ends with data or an error: no `unwrap`,
-- index, assertion or `unreachable!()` of the parser panics.
pub parse_slp_tx-ne-panic :
    (txid : Bytes) (tx : UnhashedTx)
    → All (λ (o : TxOutput). IsBytes o.script.bytecode) tx.outputs
    → parse_slp_tx txid tx ≢ panic
unfolding parse_slp_tx
parse_slp_tx-ne-panic txid tx h = parse_outputs-ne-panic txid tx tx.outputs h
