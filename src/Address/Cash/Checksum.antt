-- ===== src/Address/Cash/Checksum.antt =====
-- The checksum of bitcoinsuite-core/src/address/cashaddress.rs, and what verifies.
use Prim.Native.Nat.{bit_xor}
use bitcoinsuite.Base.{
  ℕ, zero, suc, ◌+◌, ◌*◌, ◌%◌, ◌^◌, ◌<◌, ◌≡◌, ◌↔◌, refl, sym, ap, subst, ◌∙◌, List, [], ◌∷◌, ◌++◌,
  append_assoc, true, arith, length, map, All-append, ==_iff,
}
use bitcoinsuite.Base.Bits.{xor_comm, xor_assoc, xor_self, xor-zero, xor_cancel, xor-lt}
use bitcoinsuite.Bytes.{Bytes}
use bitcoinsuite.Address.Base32.{
  poly_loop, poly_mod, prefix_values, eight_zeros, groups, calculate_checksum, verify_checksum,
}
use bitcoinsuite.Address.Cash.ConvertBits.{IsGroups}
use bitcoinsuite.Address.Cash.PolyMod.{
  poly_loop-xor, poly_loop-lt, poly_loop-append, poly_step-small, blank,
}

-- The number that eight groups of five bits are.
abbrev joined : List ℕ → ℕ
joined (a ∷ b ∷ c ∷ d ∷ e ∷ f ∷ g ∷ h ∷ []) =
    ((((((a * 32 + b) * 32 + c) * 32 + d) * 32 + e) * 32 + f) * 32 + g) * 32 + h
joined values = 0

joined-groups : (p : ℕ) → p < 2 ^ 40 → joined (groups 8 p) ≡ p
unfolding groups
joined-groups p h = omega arith

read_small :
    (c v : ℕ) (values : List ℕ)
    → c < 2 ^ 35
    → v < 32
    → poly_loop c (v ∷ values) ≡ poly_loop (c * 32 + v) values
unfolding poly_loop
read_small c v values h k = ap (λ x. poly_loop x values) (poly_step-small c v h k)

-- Eight groups are read into an empty register as they stand.
poly_loop-joined :
    (values : List ℕ) → length values ≡ 8 → IsGroups 5 values → poly_loop 0 values ≡ joined values
unfolding poly_loop
poly_loop-joined (a ∷ b ∷ c ∷ d ∷ e ∷ f ∷ g ∷ h ∷ []) len valid =
    let (ha, (hb, (hc, (hd, (he, (hf, (hg, (hh, _)))))))) = valid in
    let n1 = 0 * 32 + a in
    let n2 = n1 * 32 + b in
    let n3 = n2 * 32 + c in
    let n4 = n3 * 32 + d in
    let n5 = n4 * 32 + e in
    let n6 = n5 * 32 + f in
    let n7 = n6 * 32 + g in
    read_small 0 a (b ∷ c ∷ d ∷ e ∷ f ∷ g ∷ h ∷ []) (omega arith) ha
    ∙ read_small n1 b (c ∷ d ∷ e ∷ f ∷ g ∷ h ∷ []) (omega arith) hb
    ∙ read_small n2 c (d ∷ e ∷ f ∷ g ∷ h ∷ []) (omega arith) hc
    ∙ read_small n3 d (e ∷ f ∷ g ∷ h ∷ []) (omega arith) hd
    ∙ read_small n4 e (f ∷ g ∷ h ∷ []) (omega arith) he
    ∙ read_small n5 f (g ∷ h ∷ []) (omega arith) hf
    ∙ read_small n6 g (h ∷ []) (omega arith) hg
    ∙ read_small n7 h [] (omega arith) hh
    ∙ omega arith
poly_loop-joined values len valid = absurd (omega arith)

cons_eq : {x y : ℕ} {xs ys : List ℕ} → x ≡ y → xs ≡ ys → Path (List ℕ) (x ∷ xs) (y ∷ ys)
cons_eq {x = x} {ys = ys} e es = ap (λ zs. x ∷ zs) es ∙ ap (λ z. z ∷ ys) e

groups-joined :
    (values : List ℕ) → length values ≡ 8 → IsGroups 5 values → groups 8 (joined values) ≡ values
unfolding groups
groups-joined (a ∷ b ∷ c ∷ d ∷ e ∷ f ∷ g ∷ h ∷ []) len valid =
    let (ha, (hb, (hc, (hd, (he, (hf, (hg, (hh, _)))))))) = valid in
    cons_eq (omega arith) (
      cons_eq (omega arith) (
        cons_eq (omega arith) (
          cons_eq (omega arith) (
            cons_eq (omega arith)
              (cons_eq (omega arith) (cons_eq (omega arith) (cons_eq (omega arith) refl)))))))
groups-joined values len valid = absurd (omega arith)

blank-eight : (values : List ℕ) → length values ≡ 8 → blank values ≡ eight_zeros
unfolding blank
blank-eight (a ∷ b ∷ c ∷ d ∷ e ∷ f ∷ g ∷ h ∷ []) len = refl
blank-eight values len = absurd (omega arith)

groups-IsGroups : (n p : ℕ) → IsGroups 5 (groups n p)
unfolding groups
groups-IsGroups zero p = tt
groups-IsGroups (suc n) p = (omega arith, groups-IsGroups n p)

length-groups : (n p : ℕ) → length (groups n p) ≡ n
unfolding groups
length-groups zero p = refl
length-groups (suc n) p = ap suc (length-groups n p)

calculate_checksum_lem :
    (prefix : Bytes) (payload : List ℕ)
    → calculate_checksum prefix payload
      ≡ groups 8 (poly_mod (prefix_values prefix ++ payload ++ eight_zeros))
unfolding calculate_checksum
calculate_checksum_lem prefix payload = refl

pub calculate_checksum-IsGroups :
    (prefix : Bytes) (payload : List ℕ)
    → IsGroups 5 (calculate_checksum prefix payload)
      × (length (calculate_checksum prefix payload) ≡ 8)
calculate_checksum-IsGroups prefix payload =
    let poly = poly_mod (prefix_values prefix ++ payload ++ eight_zeros) in
    subst (λ gs. IsGroups 5 gs × (length gs ≡ 8)) (sym (calculate_checksum_lem prefix payload))
      (groups-IsGroups 8 poly, length-groups 8 poly)

low_five : (bs : Bytes) → IsGroups 5 (map (λ x. x % 2 ^ 5) bs)
low_five [] = tt
low_five (b ∷ bs) = (omega arith, low_five bs)

xor-zero-eq : (a b : ℕ) → bit_xor a b ≡ 0 → a ≡ b
xor-zero-eq a b h = sym (xor_cancel a b) ∙ ap (λ x. bit_xor x b) h ∙ xor_comm 0 b ∙ xor-zero b

-- The register behind the prefix and the payload, and behind eight zeros more.
abbrev register : Bytes → List ℕ → ℕ
register prefix payload = poly_loop 1 (prefix_values prefix ++ payload)

register-lt :
    (prefix : Bytes) (payload : List ℕ) → IsGroups 5 payload → register prefix payload < 2 ^ 40
register-lt prefix payload valid = poly_loop-lt 1 (prefix_values prefix ++ payload) (omega arith) (
    All-append (λ v. v < 2 ^ 5) (prefix_values prefix) payload
      (All-append (λ v. v < 2 ^ 5) (map (λ x. x % 2 ^ 5) prefix) (0 ∷ []) (low_five prefix)
        (omega arith, tt))
      valid)

-- The number that the checksum spells.
abbrev expected : Bytes → List ℕ → ℕ
expected prefix payload = bit_xor (poly_loop (register prefix payload) eight_zeros) 1

expected-lt :
    (prefix : Bytes) (payload : List ℕ) → IsGroups 5 payload → expected prefix payload < 2 ^ 40
expected-lt prefix payload valid =
    xor-lt 40 (poly_loop (register prefix payload) eight_zeros) 1
      (poly_loop-lt (register prefix payload) eight_zeros (register-lt prefix payload valid)
        (omega arith))
      (omega arith)

calculate_checksum-expected :
    (prefix : Bytes) (payload : List ℕ)
    → calculate_checksum prefix payload ≡ groups 8 (expected prefix payload)
unfolding poly_mod
calculate_checksum-expected prefix payload =
    calculate_checksum_lem prefix payload
    ∙ ap (λ c. groups 8 (bit_xor c 1))
        (poly_loop-append 1 (prefix_values prefix ++ payload) eight_zeros)

poly_mod-expected :
    (prefix : Bytes) (payload checksum : List ℕ)
    → IsGroups 5 payload
    → length checksum ≡ 8
    → IsGroups 5 checksum
    → poly_mod (prefix_values prefix ++ (payload ++ checksum))
      ≡ bit_xor (expected prefix payload) (joined checksum)
unfolding poly_mod
poly_mod-expected prefix payload checksum valid len groups' =
    let c = register prefix payload in
    let z = poly_loop c eight_zeros in
    let j = joined checksum in
    let read : poly_loop 1 (prefix_values prefix ++ (payload ++ checksum)) ≡ bit_xor z j =
      ap (poly_loop 1) (sym (append_assoc (prefix_values prefix) payload checksum))
      ∙ poly_loop-append 1 (prefix_values prefix ++ payload) checksum
      ∙ ap (λ x. poly_loop x checksum) (sym (xor-zero c))
      ∙ poly_loop-xor c 0 checksum (register-lt prefix payload valid) (omega arith) groups'
      ∙ ap (λ x. bit_xor x (poly_loop 0 checksum)) (ap (poly_loop c) (blank-eight checksum len))
      ∙ ap (λ x. bit_xor z x) (poly_loop-joined checksum len groups') in
    ap (λ x. bit_xor x 1) read
    ∙ xor_assoc z j 1
    ∙ ap (λ x. bit_xor z x) (xor_comm j 1)
    ∙ sym (xor_assoc z 1 j)

-- Of all groups of 5 bits that eight can be, exactly the checksum of a prefix and a payload makes the payload
-- with it behind verify.
pub verify_checksum_iff :
    (prefix : Bytes) (payload checksum : List ℕ)
    → IsGroups 5 payload
    → length checksum ≡ 8
    → IsGroups 5 checksum
    → (verify_checksum prefix (payload ++ checksum) ≡ true)
      ↔ (checksum ≡ calculate_checksum prefix payload)
unfolding verify_checksum
verify_checksum_iff prefix payload checksum valid len groups' =
    let p = expected prefix payload in
    let poly = poly_mod-expected prefix payload checksum valid len groups' in
    let spelled = calculate_checksum-expected prefix payload in
    (
      λ h.
          let zero_sum = sym poly ∙ (==_iff _ 0).0 h in
          sym (groups-joined checksum len groups')
          ∙ ap (groups 8) (sym (xor-zero-eq p (joined checksum) zero_sum))
          ∙ sym spelled,
      λ e.
          let number : joined checksum ≡ p =
            ap joined (e ∙ spelled) ∙ joined-groups p (expected-lt prefix payload valid) in
          (==_iff _ 0).1 (poly ∙ ap (λ x. bit_xor p x) number ∙ xor_self p),
    )
