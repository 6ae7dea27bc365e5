-- ===== src/Script/Variants.antt =====
-- Which bytecode `parse_variant` takes for which standard script.
use bitcoinsuite.Base.{
  ℕ, ◌≡◌, ◌↔◌, refl, sym, ap, ◌∙◌, [], ◌∷◌, ◌++◌, Option, none, some, leb, length, take, drop,
  arith, subst, append-nil, append_assoc, Bool-cases, Option-cases, ◌≢◌, inl, inr, take-append,
  drop-append, length-append, take-append-drop,
}
use bitcoinsuite.Bytes.{Bytes, IsArray}
use bitcoinsuite.Opcode.{
  op_checksig, op_dup, op_hash160, op_equalverify, op_equal, op_scripttype, op_1,
}
use bitcoinsuite.Script.{
  Script, mk_script, ScriptVariant, p2pk_variant, p2pk_legacy_variant, p2pkh_variant, p2sh_variant,
  p2tr_variant, other_variant, pubkey_length, p2pk, p2pk_legacy, p2pkh, p2sh, p2tr,
}
use bitcoinsuite.Script.Parse.{
  strip_prefix, middle, of_length, p2tr_rest, p2tr_arm, p2sh_arm, p2pkh_arm, p2pk_legacy_arm,
  parse_variant,
}
use bitcoinsuite.Script.Slices.{
  strip_prefix-append, strip_prefix_parts, guarded-append, guarded_parts, guarded_head,
}

-- The script that a variant stands for.
unfoldable pub script_of : ScriptVariant → Script
script_of (p2pk_variant k) = p2pk k
script_of (p2pk_legacy_variant k) = p2pk_legacy k
script_of (p2pkh_variant hash) = p2pkh hash
script_of (p2sh_variant hash) = p2sh hash
script_of (p2tr_variant commitment state) = p2tr commitment state
script_of (other_variant s) = s

-- The lengths that the types of the fields prescribe; `other_variant` holds what matches no pattern.
unfoldable pub IsVariant : ScriptVariant → Type 0
IsVariant (p2pk_variant k) = IsArray 33 k
IsVariant (p2pk_legacy_variant k) = IsArray 65 k
IsVariant (p2pkh_variant hash) = IsArray 20 hash
IsVariant (p2sh_variant hash) = IsArray 20 hash
IsVariant (p2tr_variant commitment none) = IsArray 33 commitment
IsVariant (p2tr_variant commitment (some state)) = IsArray 33 commitment × IsArray 32 state
IsVariant (other_variant s) = parse_variant s ≡ other_variant s

abbrev p2pkh_head : Bytes
p2pkh_head = op_dup ∷ op_hash160 ∷ 0x14 ∷ []

abbrev p2pkh_tail : Bytes
p2pkh_tail = op_equalverify ∷ op_checksig ∷ []

abbrev p2sh_head : Bytes
p2sh_head = op_hash160 ∷ 0x14 ∷ []

-- A script whose first byte begins neither pattern of a public key passes on to the third arm.
past_pubkeys :
    (b : ℕ) (bs : Bytes)
    → 0x21 ≢ b
    → 0x41 ≢ b
    → parse_variant (mk_script (b ∷ bs)) ≡ p2pkh_arm (mk_script (b ∷ bs))
unfolding parse_variant p2pk_legacy_arm
past_pubkeys b bs h k = ground (
  arith,
  guarded_head 33 0x21 b [] (op_checksig ∷ []) bs,
  guarded_head 65 0x41 b [] (op_checksig ∷ []) bs,
)

parse_variant-p2pkh : (m : Bytes) → IsArray 20 m → parse_variant (p2pkh m) ≡ p2pkh_variant m
unfolding p2pkh p2pkh_arm
parse_variant-p2pkh m h = ground (
  arith,
  past_pubkeys op_dup (op_hash160 ∷ 0x14 ∷ (m ++ p2pkh_tail)) (omega arith) (omega arith),
  guarded-append 20 p2pkh_head p2pkh_tail m h,
)

parse_variant-p2sh : (m : Bytes) → IsArray 20 m → parse_variant (p2sh m) ≡ p2sh_variant m
unfolding p2sh p2pkh_arm p2sh_arm
parse_variant-p2sh m h = ground (
  arith,
  past_pubkeys op_hash160 (0x14 ∷ (m ++ (op_equal ∷ []))) (omega arith) (omega arith),
  guarded_head 20 op_dup op_hash160 (op_hash160 ∷ 0x14 ∷ []) p2pkh_tail
      (0x14 ∷ (m ++ (op_equal ∷ []))) (omega arith),
  guarded-append 20 p2sh_head (op_equal ∷ []) m h,
)

to_p2tr_arm :
    (bs : Bytes)
    → parse_variant (mk_script (op_scripttype ∷ bs)) ≡ p2tr_arm (mk_script (op_scripttype ∷ bs))
unfolding p2pkh_arm p2sh_arm
to_p2tr_arm bs = ground (
  arith,
  past_pubkeys op_scripttype bs (omega arith) (omega arith),
  guarded_head 20 op_dup op_scripttype (op_hash160 ∷ 0x14 ∷ []) p2pkh_tail bs (omega arith),
  guarded_head 20 op_hash160 op_scripttype (0x14 ∷ []) (op_equal ∷ []) bs (omega arith),
)

p2tr_arm-append :
    (k rest : Bytes)
    → IsArray 33 k
    → (s : Script) → s.bytecode ≡ op_scripttype ∷ op_1 ∷ 0x21 ∷ (k ++ rest)
    → p2tr_arm s ≡ p2tr_rest s k rest
unfolding p2tr_arm
p2tr_arm-append k rest h s e =
    let front : take 33 (k ++ rest) ≡ k =
      subst (λ n. take n (k ++ rest) ≡ k) h (take-append k rest) in
    let back : drop 33 (k ++ rest) ≡ rest =
      subst (λ n. drop n (k ++ rest) ≡ rest) h (drop-append k rest) in
    ground (
      arith,
      front,
      back,
      length-append k rest,
      strip_prefix-append (op_scripttype ∷ op_1 ∷ 0x21 ∷ []) (k ++ rest),
    )

parse_variant-p2tr :
    (k : Bytes) (state : Option Bytes)
    → IsVariant (p2tr_variant k state)
    → parse_variant (p2tr k state) ≡ p2tr_variant k state
unfolding p2tr p2tr_rest IsVariant
parse_variant-p2tr k none h =
    to_p2tr_arm (op_1 ∷ 0x21 ∷ k)
    ∙ p2tr_arm-append k [] h _
        (ap (λ (t : Bytes). op_scripttype ∷ op_1 ∷ 0x21 ∷ t) (sym (append-nil k)))
parse_variant-p2tr k (some state) h =
    to_p2tr_arm (op_1 ∷ 0x21 ∷ ((k ++ (0x20 ∷ [])) ++ state))
    ∙ p2tr_arm-append k (0x20 ∷ state) h.0 _
        (ap (λ (t : Bytes). op_scripttype ∷ op_1 ∷ 0x21 ∷ t) (append_assoc k (0x20 ∷ []) state))
    ∙ unfold strip_prefix of_length in ground (arith, h.1)

-- Each standard script that is built from arrays of the right lengths is recognised.
pub parse_variant-script_of : (v : ScriptVariant) → IsVariant v → parse_variant (script_of v) ≡ v
unfolding script_of
parse_variant-script_of (p2pk_variant k) h =
    unfold parse_variant p2pk IsVariant in
    rw (guarded-append 33 (0x21 ∷ []) (op_checksig ∷ []) k h, parse_variant)
parse_variant-script_of (p2pk_legacy_variant k) h =
    unfold parse_variant p2pk_legacy_arm p2pk_legacy IsVariant in
    ground (
      arith,
      guarded_head 33 0x21 0x41 [] (op_checksig ∷ []) (k ++ (op_checksig ∷ [])),
      guarded-append 65 (0x41 ∷ []) (op_checksig ∷ []) k h,
    )
parse_variant-script_of (p2pkh_variant hash) h = parse_variant-p2pkh hash (unfold IsVariant in h)
parse_variant-script_of (p2sh_variant hash) h = parse_variant-p2sh hash (unfold IsVariant in h)
parse_variant-script_of (p2tr_variant commitment state) h = parse_variant-p2tr commitment state h
parse_variant-script_of (other_variant s) h = unfold IsVariant in h

p2tr_rest-script :
    (s : Script) (k rest : Bytes)
    → s.bytecode ≡ op_scripttype ∷ op_1 ∷ 0x21 ∷ (k ++ rest)
    → script_of (p2tr_rest s k rest) ≡ s
unfolding p2tr_rest
p2tr_rest-script s k [] e =
    unfold script_of p2tr in
    ap mk_script (ap (λ (t : Bytes). op_scripttype ∷ op_1 ∷ 0x21 ∷ t) (sym (append-nil k)) ∙ sym e)
p2tr_rest-script s k (b ∷ bs) e =
    elim (Option-cases (of_length 32 (strip_prefix (0x20 ∷ []) (b ∷ bs)))) [
      | inl absent ↦ rw (absent, p2tr_rest) (unfold script_of in refl)
      | inr (state, found) ↦
          let whole : b ∷ bs ≡ 0x20 ∷ state =
            unfold of_length strip_prefix in ground (arith, found) in
          rw (found, p2tr_rest)
            (unfold script_of p2tr in
              ap mk_script (
                ap (λ (t : Bytes). op_scripttype ∷ op_1 ∷ 0x21 ∷ t)
                  (append_assoc k (0x20 ∷ []) state ∙ ap (λ (t : Bytes). k ++ t) (sym whole))
                ∙ sym e))
    ]

p2tr_arm-script : (s : Script) → script_of (p2tr_arm s) ≡ s
unfolding p2tr_arm
p2tr_arm-script s =
    elim (Option-cases (strip_prefix (op_scripttype ∷ op_1 ∷ 0x21 ∷ []) s.bytecode)) [
      | inl absent ↦ rw (absent, p2tr_arm) (unfold script_of in refl)
      | inr (rest, found) ↦
          let whole = strip_prefix_parts (op_scripttype ∷ op_1 ∷ 0x21 ∷ []) s.bytecode rest found in
          elim (Bool-cases (leb pubkey_length (length rest))) [
            | inl long ↦
                rw (found, long, p2tr_arm)
                  (p2tr_rest-script s (take 33 rest) (drop 33 rest) (
                    whole
                    ∙ ap (λ (t : Bytes). op_scripttype ∷ op_1 ∷ 0x21 ∷ t)
                        (sym (take-append-drop 33 rest))))
            | inr short ↦ rw (found, short, p2tr_arm) (unfold script_of in refl)
          ]
    ]

p2sh_arm-script : (s : Script) → script_of (p2sh_arm s) ≡ s
unfolding p2sh_arm
p2sh_arm-script s =
    elim (Option-cases (of_length 20 (middle p2sh_head (op_equal ∷ []) s.bytecode))) [
      | inl absent ↦ rw (absent, p2sh_arm) (p2tr_arm-script s)
      | inr (m, found) ↦
          rw (found, p2sh_arm)
            (unfold script_of p2sh in
              ap mk_script (sym (guarded_parts 20 p2sh_head (op_equal ∷ []) s.bytecode m found).0))
    ]

p2pkh_arm-script : (s : Script) → script_of (p2pkh_arm s) ≡ s
unfolding p2pkh_arm
p2pkh_arm-script s = elim (Option-cases (of_length 20 (middle p2pkh_head p2pkh_tail s.bytecode))) [
  | inl absent ↦ rw (absent, p2pkh_arm) (p2sh_arm-script s)
  | inr (m, found) ↦
      rw (found, p2pkh_arm)
        (unfold script_of p2pkh in
          ap mk_script (sym (guarded_parts 20 p2pkh_head p2pkh_tail s.bytecode m found).0))
]

p2pk_legacy_arm-script : (s : Script) → script_of (p2pk_legacy_arm s) ≡ s
unfolding p2pk_legacy_arm
p2pk_legacy_arm-script s =
    elim (Option-cases (of_length 65 (middle (0x41 ∷ []) (op_checksig ∷ []) s.bytecode))) [
      | inl absent ↦ rw (absent, p2pk_legacy_arm) (p2pkh_arm-script s)
      | inr (m, found) ↦
          rw (found, p2pk_legacy_arm)
            (unfold script_of p2pk_legacy in
              ap mk_script
                (sym (guarded_parts 65 (0x41 ∷ []) (op_checksig ∷ []) s.bytecode m found).0))
    ]

pub script_of-parse_variant : (s : Script) → script_of (parse_variant s) ≡ s
unfolding parse_variant
script_of-parse_variant s =
    elim (Option-cases (of_length 33 (middle (0x21 ∷ []) (op_checksig ∷ []) s.bytecode))) [
      | inl absent ↦ rw (absent, parse_variant) (p2pk_legacy_arm-script s)
      | inr (m, found) ↦
          rw (found, parse_variant)
            (unfold script_of p2pk in
              ap mk_script
                (sym (guarded_parts 33 (0x21 ∷ []) (op_checksig ∷ []) s.bytecode m found).0))
    ]

-- For a variant with arrays of the right lengths, `parse_variant` returns it for its own script, and for no
-- other.
pub parse_variant-eq :
    (s : Script) (v : ScriptVariant) → IsVariant v → (parse_variant s ≡ v) ↔ (s ≡ script_of v)
parse_variant-eq s v h = (
  λ e. sym (script_of-parse_variant s) ∙ ap script_of e,
  λ e. ap parse_variant e ∙ parse_variant-script_of v h,
)
