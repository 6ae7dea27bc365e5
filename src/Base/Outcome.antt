-- ===== src/Base/Outcome.antt =====
-- What a Rust call does: it returns `Ok`, it returns `Err`, or it panics.
use mathlib.Core.Path.{◌≡◌, refl, ap}
use mathlib.Core.Logic.{◌≢◌, ◌⊎◌, inl, inr}
use mathlib.Core.Bool.{Bool, true, false}
use mathlib.Core.Option.{Option, none, some}

pub data Result {ℓ κ} (E : Type ℓ) (A : Type κ) : Type (ℓ ⊔ κ) where
  ok : A → Result E A
  err : E → Result E A
  panic : Result E A

-- The `?` operator.
infixl 5 ◌>>=◌ ◌>>◌
abbrev pub ◌>>=◌ {ℓ κ μ} :
    {E : Type ℓ} {A : Type κ} {B : Type μ} → Result E A → (A → Result E B) → Result E B
panic >>= next = panic
err failure >>= next = err failure
ok value >>= next = next value

-- `if !test { return Err(e); }`
abbrev pub guard {ℓ} : {E : Type ℓ} → Bool → E → Result E (Unit {0})
guard test failure = elim test [ false ↦ err failure | true ↦ ok tt ]

-- A statement whose value is not used.
abbrev pub ◌>>◌ {ℓ κ} : {E : Type ℓ} {B : Type κ} → Result E (Unit {0}) → Result E B → Result E B
first >> then' = first >>= λ _. then'

-- `assert!(test)`
abbrev pub assert {ℓ} : {E : Type ℓ} → Bool → Result E (Unit {0})
assert true = ok tt
assert false = panic

-- `result.map_err(f)`, and the conversion that `?` makes by `From`.
abbrev pub map_err {ℓ κ μ} :
    {E : Type ℓ} {F : Type κ} {A : Type μ} → (E → F) → Result E A → Result F A
map_err f (ok a) = ok a
map_err f (err e) = err (f e)
map_err f panic = panic

-- `option.ok_or(e)`
abbrev pub ok_or {ℓ κ} : {E : Type ℓ} {A : Type κ} → Option A → E → Result E A
ok_or (some a) e = ok a
ok_or none e = err e

-- `option.and_then(f)`, and the `?` operator on an option.
abbrev pub and_then {ℓ κ} : {A : Type ℓ} {B : Type κ} → Option A → (A → Option B) → Option B
and_then none f = none
and_then (some a) f = f a

-- What came before a chain that returns `Ok`.
pub >>=-eq-ok {ℓ κ μ} :
    {E : Type ℓ} {A : Type κ} {B : Type μ} (first : Result E A) (next : A → Result E B) {result : B}
    → (first >>= next) ≡ ok result
    → (value : A) × (first ≡ ok value) × (next value ≡ ok result)
>>=-eq-ok panic next ends = cc
>>=-eq-ok (err failure) next ends = cc
>>=-eq-ok (ok value) next ends = (value, refl, ends)

-- To split on an outcome and keep the equation.
pub Result-cases {ℓ κ} :
    {E : Type ℓ} {A : Type κ} (r : Result E A)
    → ((a : A) × (r ≡ ok a)) ⊎ ((e : E) × (r ≡ err e)) ⊎ (r ≡ panic)
Result-cases (ok a) = inl (a, refl)
Result-cases (err e) = inr (inl (e, refl))
Result-cases panic = inr (inr refl)

-- A chain does not panic if its first part and what follows each value of it do not.
pub bind-ne-panic {ℓ κ μ} :
    {E : Type ℓ} {A : Type κ} {B : Type μ} (first : Result E A) (next : A → Result E B)
    → first ≢ panic
    → ((a : A) → first ≡ ok a → next a ≢ panic)
    → (first >>= next) ≢ panic
bind-ne-panic panic next h k = absurd (h refl)
bind-ne-panic (err e) next h k = λ p. cc
bind-ne-panic (ok a) next h k = k a refl

-- A chain goes on with the value of its first part.
pub >>=-ok {ℓ κ μ} :
    {E : Type ℓ} {A : Type κ} {B : Type μ} {first : Result E A} {a : A} (next : A → Result E B)
    → first ≡ ok a
    → (first >>= next) ≡ next a
>>=-ok next e = ap (λ r. r >>= next) e

pub ok_injective {ℓ κ} :
    {E : Type ℓ} {A : Type κ} {x y : A} → Path (Result E A) (ok x) (ok y) → x ≡ y
ok_injective e = cc

pub some_injective {ℓ} : {A : Type ℓ} {x y : A} → Path (Option A) (some x) (some y) → x ≡ y
some_injective e = cc

-- What came before a chain of options that ends with a value.
pub and_then-eq-some {ℓ κ} :
    {A : Type ℓ} {B : Type κ} (o : Option A) (f : A → Option B) {result : B}
    → and_then o f ≡ some result
    → (a : A) × (o ≡ some a) × (f a ≡ some result)
and_then-eq-some none f e = cc
and_then-eq-some (some a) f e = (a, refl, e)

-- An `Ok` behind `map_err` was one before.
pub map_err-eq-ok {ℓ κ μ} :
    {E : Type ℓ} {F : Type κ} {A : Type μ} (f : E → F) (r : Result E A) (a : A)
    → map_err f r ≡ ok a
    → r ≡ ok a
map_err-eq-ok f (ok b) a e = ap ok (ok_injective e)
map_err-eq-ok f (err b) a e = cc
map_err-eq-ok f panic a e = cc
