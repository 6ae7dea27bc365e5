-- ===== src/Address/Cash/PolyMod.antt =====
-- `_poly_mod` of bitcoinsuite-core/src/address/cashaddress.rs is linear over exclusive or.
use Prim.Native.Nat.{bit_and, bit_xor}
use bitcoinsuite.Base.{
  ℕ, ◌+◌, ◌*◌, ◌/◌, ◌%◌, ◌^◌, ◌<◌, ◌≡◌, refl, sym, ap, ◌∙◌, List, [], ◌∷◌, ◌++◌, Bool, true, arith,
  ◌==◌, ==_iff, Bool-cases, all_below, all_below_lem, inl, inr,
}
use bitcoinsuite.Base.Bits.{
  xor_comm, xor_assoc, xor-zero, xor_swap, xor_fields, xor-lt, xor-high, xor-low, xor-shift,
}
use bitcoinsuite.Address.Base32.{mix, poly_step, poly_loop}
use bitcoinsuite.Address.Cash.ConvertBits.{IsGroups}

-- What the five bits above a shift contribute.
unfoldable gen : ℕ → ℕ
unfolding mix
gen c0 = mix c0 0x10 0x1e_4f43_e470 (
    mix c0 0x08 0xae_2eab_e2a8
      (mix c0 0x04 0xf3_3e5f_b3c4 (mix c0 0x02 0x79_b76d_99e2 (mix c0 0x01 0x98_f2bc_8e61 0))))

mix-xor : (c0 mask g a b : ℕ) → mix c0 mask g (bit_xor a b) ≡ bit_xor a (mix c0 mask g b)
unfolding mix
mix-xor c0 mask g a b = elim (Bool-cases (bit_and c0 mask == 0)) [
  | inl clear ↦ rw clear refl
  | inr bit ↦ rw bit (xor_assoc a b g)
]

poly_step-gen :
    (c v : ℕ) → poly_step c v ≡ bit_xor (bit_xor (c % 2 ^ 35 * 2 ^ 5) v) (gen (c / 2 ^ 35 % 2 ^ 8))
unfolding poly_step gen
poly_step-gen c v =
    let c0 = c / 2 ^ 35 % 2 ^ 8 in
    let x = bit_xor (c % 2 ^ 35 * 2 ^ 5) v in
    let m1 = mix c0 0x01 0x98_f2bc_8e61 in
    let m2 = mix c0 0x02 0x79_b76d_99e2 in
    let m3 = mix c0 0x04 0xf3_3e5f_b3c4 in
    let m4 = mix c0 0x08 0xae_2eab_e2a8 in
    let m5 = mix c0 0x10 0x1e_4f43_e470 in
    ap (λ y. m5 (m4 (m3 (m2 (m1 y))))) (sym (xor-zero x))
    ∙ ap (λ y. m5 (m4 (m3 (m2 y)))) (mix-xor c0 0x01 0x98_f2bc_8e61 x 0)
    ∙ ap (λ y. m5 (m4 (m3 y))) (mix-xor c0 0x02 0x79_b76d_99e2 x (m1 0))
    ∙ ap (λ y. m5 (m4 y)) (mix-xor c0 0x04 0xf3_3e5f_b3c4 x (m2 (m1 0)))
    ∙ ap m5 (mix-xor c0 0x08 0xae_2eab_e2a8 x (m3 (m2 (m1 0))))
    ∙ mix-xor c0 0x10 0x1e_4f43_e470 x (m4 (m3 (m2 (m1 0))))

abbrev gen_agrees : ℕ → Bool
gen_agrees x = gen (bit_xor (x / 32) (x % 32)) == bit_xor (gen (x / 32)) (gen (x % 32))

gen_table : all_below 1024 gen_agrees ≡ true
unfolding all_below gen
gen_table = refl

gen-xor : (a b : ℕ) → a < 32 → b < 32 → gen (bit_xor a b) ≡ bit_xor (gen a) (gen b)
gen-xor a b h k =
    let high : (a * 32 + b) / 32 ≡ a = omega arith in
    let low : (a * 32 + b) % 32 ≡ b = omega arith in
    let test : gen (bit_xor ((a * 32 + b) / 32) ((a * 32 + b) % 32))
        ≡ bit_xor (gen ((a * 32 + b) / 32)) (gen ((a * 32 + b) % 32)) =
      (==_iff _ _).0 (all_below_lem 1024 (a * 32 + b) gen_agrees gen_table (omega arith)) in
    rw (high, low) at test

abbrev gen_fits : ℕ → Bool
gen_fits x = gen x / 2 ^ 40 == 0

gen_fits_table : all_below 32 gen_fits ≡ true
unfolding all_below gen
gen_fits_table = refl

gen-lt : (a : ℕ) → a < 32 → gen a < 2 ^ 40
gen-lt a h = let test = (==_iff _ 0).0 (all_below_lem 32 a gen_fits gen_fits_table h) in omega arith

abbrev top : ℕ → ℕ
top c = c / 2 ^ 35 % 2 ^ 8

top-lt : (c : ℕ) → c < 2 ^ 40 → (top c ≡ c / 2 ^ 35) × (top c < 32)
top-lt c h = omega arith

top-xor : (a b : ℕ) → a < 2 ^ 40 → b < 2 ^ 40 → top (bit_xor a b) ≡ bit_xor (top a) (top b)
top-xor a b h k =
    let (ea, la) = top-lt a h in
    let (eb, lb) = top-lt b k in
    let (e, l) = top-lt (bit_xor a b) (xor-lt 40 a b h k) in
    e
    ∙ xor-high 35 a b
    ∙ ap (λ x. bit_xor x (b / 2 ^ 35)) (sym ea)
    ∙ ap (λ x. bit_xor (top a) x) (sym eb)

abbrev shifted : ℕ → ℕ
shifted c = c % 2 ^ 35 * 2 ^ 5

shifted-xor : (a b : ℕ) → shifted (bit_xor a b) ≡ bit_xor (shifted a) (shifted b)
shifted-xor a b = ap (λ x. x * 2 ^ 5) (xor-low 35 a b) ∙ sym (xor-shift 5 (a % 2 ^ 35) (b % 2 ^ 35))

-- A round is linear, and stays within 40 bits.
poly_step-xor :
    (a b v : ℕ)
    → a < 2 ^ 40
    → b < 2 ^ 40
    → poly_step (bit_xor a b) v ≡ bit_xor (poly_step a 0) (poly_step b v)
poly_step-xor a b v h k =
    poly_step-gen (bit_xor a b) v
    ∙ ap (λ x. bit_xor (bit_xor x v) (gen (top (bit_xor a b)))) (shifted-xor a b)
    ∙ ap (λ x. bit_xor x (gen (top (bit_xor a b)))) (xor_assoc (shifted a) (shifted b) v)
    ∙ ap (λ x. bit_xor (bit_xor (shifted a) (bit_xor (shifted b) v)) x)
        (ap gen (top-xor a b h k) ∙ gen-xor (top a) (top b) (top-lt a h).1 (top-lt b k).1)
    ∙ xor_swap (shifted a) (bit_xor (shifted b) v) (gen (top a)) (gen (top b))
    ∙ ap (λ x. bit_xor (bit_xor x (gen (top a))) (bit_xor (bit_xor (shifted b) v) (gen (top b))))
        (sym (xor-zero (shifted a)))
    ∙ ap (λ x. bit_xor x (bit_xor (bit_xor (shifted b) v) (gen (top b)))) (sym (poly_step-gen a 0))
    ∙ ap (λ x. bit_xor (poly_step a 0) x) (sym (poly_step-gen b v))

poly_step-lt : (c v : ℕ) → c < 2 ^ 40 → v < 2 ^ 5 → poly_step c v < 2 ^ 40
poly_step-lt c v h k =
    let x = xor-lt 40 (shifted c) v (omega arith) (omega arith) in
    let y = xor-lt 40 (bit_xor (shifted c) v) (gen (top c)) x (gen-lt (top c) (top-lt c h).1) in
    omega (arith, poly_step-gen c v, y)

unfoldable pub blank : List ℕ → List ℕ
blank [] = []
blank (v ∷ values) = 0 ∷ blank values

-- The loop is linear in where it starts.
pub poly_loop-xor :
    (a b : ℕ) (values : List ℕ)
    → a < 2 ^ 40
    → b < 2 ^ 40
    → IsGroups 5 values
    → poly_loop (bit_xor a b) values ≡ bit_xor (poly_loop a (blank values)) (poly_loop b values)
unfolding poly_loop blank
poly_loop-xor a b [] h k valid = refl
poly_loop-xor a b (v ∷ values) h k valid =
    ap (λ c. poly_loop c values) (poly_step-xor a b v h k)
    ∙ poly_loop-xor (poly_step a 0) (poly_step b v) values (poly_step-lt a 0 h (omega arith))
        (poly_step-lt b v k valid.0) valid.1

pub poly_loop-lt :
    (c : ℕ) (values : List ℕ) → c < 2 ^ 40 → IsGroups 5 values → poly_loop c values < 2 ^ 40
unfolding poly_loop
poly_loop-lt c [] h valid = h
poly_loop-lt c (v ∷ values) h valid =
    poly_loop-lt (poly_step c v) values (poly_step-lt c v h valid.0) valid.1

pub poly_loop-append :
    (c : ℕ) (xs ys : List ℕ) → poly_loop c (xs ++ ys) ≡ poly_loop (poly_loop c xs) ys
unfolding poly_loop
poly_loop-append c [] ys = refl
poly_loop-append c (x ∷ xs) ys = poly_loop-append (poly_step c x) xs ys

xor-field : (c v : ℕ) → v < 32 → bit_xor (c * 2 ^ 5) v ≡ c * 32 + v
xor-field c v h =
    let left : c * 2 ^ 5 ≡ c * 2 ^ 5 + 0 = omega arith in
    let right : v ≡ 0 * 2 ^ 5 + v = omega arith in
    ap (λ x. bit_xor x v) left
    ∙ ap (λ x. bit_xor (c * 2 ^ 5 + 0) x) right
    ∙ xor_fields 5 c 0 0 v (omega arith) h
    ∙ omega (arith, xor-zero c, xor_comm 0 v, xor-zero v)

gen-zero : gen 0 ≡ 0
unfolding gen
gen-zero = refl

pub poly_step-small : (c v : ℕ) → c < 2 ^ 35 → v < 32 → poly_step c v ≡ c * 32 + v
poly_step-small c v h k =
    let low : shifted c ≡ c * 2 ^ 5 = omega arith in
    let high : top c ≡ 0 = omega arith in
    poly_step-gen c v
    ∙ ap (λ x. bit_xor (bit_xor x v) (gen (top c))) low
    ∙ ap (λ x. bit_xor (bit_xor (c * 2 ^ 5) v) x) (ap gen high ∙ gen-zero)
    ∙ xor-zero (bit_xor (c * 2 ^ 5) v)
    ∙ xor-field c v k
