-- ===== src/Slpv2/OpReturn.antt =====
-- `sections_opreturn` of bitcoinsuite-slpv2/src/build.rs, and the operations of the script.
use bitcoinsuite.Base.{
  suc, ◌%◌, ◌^◌, ◌<◌, ◌≡◌, refl, sym, ap, ◌∙◌, List, [], ◌∷◌, ◌++◌, false, Option, none, some,
  if◌then◌else◌, ok, and_then, some_injective, ok_injective, cons_injective, arith, length, All,
  map, leb, leb→le, le→leb, ◌==◌, Bool-cases, inl, inr,
}
use bitcoinsuite.Bytes.{Bytes}
use bitcoinsuite.Opcode.{op_pushdata1, op_pushdata2, op_pushdata4}
use bitcoinsuite.Op.{Op, code, push, push_bytes}
use bitcoinsuite.Op.RoundTrip.{IsOp}
use bitcoinsuite.Script.{Script, mk_script}
use bitcoinsuite.Script.Ops.{ops, ops_bytes, from_ops, from_ops-ops_bytes, ops-ops_bytes}
use bitcoinsuite.Slpv2.{push_sections, sections_opreturn, unwrap_script}
use bitcoinsuite.Slpv2.Injective.{SectionCall, section_of, IsCall, section_of-unambiguous}
use bitcoinsuite.Slpv2.Sizes.{length-section_of}

-- What an operation pushes: OP_0 pushes no bytes, and the other opcodes without bytes behind them are
-- not pushes of bytes.
abbrev pub pushed_by : Op → Option Bytes
pushed_by (code opcode) = if opcode == 0x00 then some [] else none
pushed_by (push opcode pushed) = some pushed

-- `push_bytes` returns an operation that can be encoded, and that pushes the bytes.
push_bytes-IsOp :
    (bs : Bytes)
    → length bs < 2 ^ 32
    → (op : Op) × (push_bytes bs ≡ some op) × IsOp op × (pushed_by op ≡ some bs)
unfolding push_bytes IsOp
push_bytes-IsOp [] h = (code 0, refl, inl refl, refl)
push_bytes-IsOp (b ∷ bs) h =
    let n = suc (length bs) in
    let full : (n == 0) ≡ false = ground arith in
    elim (Bool-cases (leb n 0x4b)) [
      | inl short ↦
          let low = leb→le n 0x4b short in
          (
            push (n % 2 ^ 8) (b ∷ bs),
            rw (full, short) refl,
            inl (omega (arith, low), omega (arith, low), omega (arith, low)),
            refl,
          )
      | inr a ↦ elim (Bool-cases (leb n 0xff)) [
        | inl byte ↦ (
          push op_pushdata1 (b ∷ bs),
          rw (full, a, byte) refl,
          inr (inl (refl, omega (arith, leb→le n 0xff byte))),
          refl,
        )
        | inr c ↦ elim (Bool-cases (leb n 0xffff)) [
          | inl two ↦ (
            push op_pushdata2 (b ∷ bs),
            rw (full, a, c, two) refl,
            inr (inr (inl (refl, omega (arith, leb→le n 0xffff two)))),
            refl,
          )
          | inr d ↦ (
            push op_pushdata4 (b ∷ bs),
            rw (full, a, c, d, le→leb n 0xffff_ffff (omega (arith, h))) refl,
            inr (inr (inr (refl, h))),
            refl,
          )
        ]
      ]
    ]

push_sections-IsOp :
    (sections : List Bytes)
    → All (λ s. length s < 2 ^ 32) sections
    → (os : List Op) × (push_sections sections ≡ some os)
      × All IsOp os
      × (map pushed_by os ≡ map some sections)
unfolding push_sections
push_sections-IsOp [] h = ([], refl, tt, refl)
push_sections-IsOp (s ∷ sections) h =
    let (op, e, valid, same) = push_bytes-IsOp s h.0 in
    let (os, es, valids, sames) = push_sections-IsOp sections h.1 in
    (
      op ∷ os,
      ap (λ o. and_then o (λ x. and_then (push_sections sections) (λ xs. some (x ∷ xs)))) e
          ∙ ap (λ o. and_then o (λ xs. some (op ∷ xs))) es,
      (valid, valids),
      ap (λ z. z ∷ map pushed_by os) same ∙ ap (λ zs. some s ∷ zs) sames,
    )

-- The script shows OP_RETURN, an opcode that marks the protocol, and one operation for each section.
abbrev pub Shows : List Bytes → Script → Type 0
Shows sections script =
    (os : List Op) × (ops script ≡ ok (code 0x6a ∷ code 0x50 ∷ os))
    × (map pushed_by os ≡ map some sections)

-- A script is built from any sections of less than 2^32 bytes, without a panic, and its operations are
-- `OP_RETURN`, an opcode for the protocol, and one for each section that pushes the bytes of that section,
-- which for an empty one is `OP_0`.
pub sections_opreturn-Shows :
    (sections : List Bytes)
    → All (λ s. length s < 2 ^ 32) sections
    → (script : Script) × (sections_opreturn sections ≡ some script) × Shows sections script
unfolding sections_opreturn
sections_opreturn-Shows sections h =
    let (os, pushes, valid, same) = push_sections-IsOp sections h in
    let all_os = code 0x6a ∷ code 0x50 ∷ os in
    let all_valid : All IsOp all_os =
      unfold IsOp in (inr (omega arith), (inr (omega arith), valid)) in
    let script = mk_script (ops_bytes all_os) in
    (
      script,
      ap (λ o. and_then o (λ xs. unwrap_script (from_ops (code 0x6a ∷ code 0x50 ∷ xs)))) pushes
          ∙ ap unwrap_script (from_ops-ops_bytes all_os all_valid),
      (os, ops-ops_bytes all_os all_valid, same),
    )

map_injective : (xs ys : List Bytes) → map some xs ≡ map some ys → xs ≡ ys
map_injective [] [] e = refl
map_injective [] (y ∷ ys) e = cc
map_injective (x ∷ xs) [] e = cc
map_injective (x ∷ xs) (y ∷ ys) e =
    let (head, tail) = cons_injective e in
    ap (λ z. z ∷ xs) (some_injective head) ∙ ap (λ zs. y ∷ zs) (map_injective xs ys tail)

small-section :
    (calls : List SectionCall)
    → All IsCall calls
    → All (λ s. length s < 2 ^ 32) (map section_of calls)
small-section [] h = tt
small-section (c ∷ calls) h =
    let (_, _, small) = length-section_of c h.0 in (omega (arith, small), small-section calls h.1)

map-section_of :
    (xs ys : List SectionCall)
    → All IsCall xs
    → All IsCall ys
    → map section_of xs ≡ map section_of ys
    → xs ≡ ys
map-section_of [] [] h k e = refl
map-section_of [] (y ∷ ys) h k e = cc
map-section_of (x ∷ xs) [] h k e = cc
map-section_of (x ∷ xs) (y ∷ ys) h k e =
    let (first, rest) = cons_injective e in
    let (same, _) =
      section_of-unambiguous x y [] [] h.0 k.0 (ap (λ (bs : Bytes). bs ++ []) first) in
    ap (λ z. z ∷ xs) same ∙ ap (λ zs. y ∷ zs) (map-section_of xs ys h.1 k.1 rest)

-- The script of some sections determines the calls that built them, in order. Their values fit the bytes that
-- they are given.
pub sections_opreturn-injective :
    (xs ys : List SectionCall)
    → All IsCall xs
    → All IsCall ys
    → sections_opreturn (map section_of xs) ≡ sections_opreturn (map section_of ys)
    → xs ≡ ys
sections_opreturn-injective xs ys h k e =
    let (s, built, (os, shown, same)) =
      sections_opreturn-Shows (map section_of xs) (small-section xs h) in
    let (t, built', (os', shown', same')) =
      sections_opreturn-Shows (map section_of ys) (small-section ys k) in
    let script = some_injective (sym built ∙ e ∙ built') in
    let all_os = ok_injective (sym shown ∙ ap ops script ∙ shown') in
    let os_eq = (cons_injective (cons_injective all_os).1).1 in
    let sections_eq =
      map_injective (map section_of xs) (map section_of ys)
        (sym same ∙ ap (map pushed_by) os_eq ∙ same') in
    map-section_of xs ys h k sections_eq
