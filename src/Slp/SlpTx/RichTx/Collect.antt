-- ===== src/Slp/SlpTx/RichTx/Collect.antt =====
-- Lists collected by index, and lists of tokens filled with empty ones, for rich_tx.rs.
use bitcoinsuite.Base.{
  ℕ, zero, suc, ◌+◌, ◌<◌, ◌≡◌, refl, sym, ap, ◌∙◌, List, [], ◌∷◌, some, Result, ok, >>=-ok,
  >>=-eq-ok, arith, length, get_elem?, get_or, drop, replicate, map, ok_injective, some_injective,
}
use bitcoinsuite.Slp.Types.{SlpToken, SlpError, empty_token}
use bitcoinsuite.Slp.SlpTx.RichTx.{at, collect}

module _ {ℓ} {A : Type ℓ} where
  drop-eq :
      (xs : List A) (i : ℕ) {x : A} → get_elem? xs i ≡ some x → drop i xs ≡ x ∷ drop (suc i) xs
  drop-eq [] i h = cc
  drop-eq (y ∷ xs) zero h = ap (λ z. z ∷ xs) (some_injective h)
  drop-eq (y ∷ xs) (suc i) h = drop-eq xs i h

  drop-length : (xs : List A) (i : ℕ) → i ≡ length xs → drop i xs ≡ []
  drop-length [] zero h = refl
  drop-length [] (suc i) h = absurd (omega arith)
  drop-length (x ∷ xs) zero h = absurd (omega arith)
  drop-length (x ∷ xs) (suc i) h = drop-length xs i (omega arith)

  -- An index in range.
  pub at-some : (xs : List A) (i : ℕ) → i < length xs → (x : A) × (at xs i ≡ ok x)
  at-some [] i h = absurd (omega arith)
  at-some (x ∷ xs) zero h = (x, refl)
  at-some (x ∷ xs) (suc i) h = at-some xs i (omega arith)

  pub at-get_elem? : (xs : List A) (i : ℕ) (x : A) → at xs i ≡ ok x → get_elem? xs i ≡ some x
  at-get_elem? [] i x h = cc
  at-get_elem? (y ∷ xs) zero x h = ap some (ok_injective h)
  at-get_elem? (y ∷ xs) (suc i) x h = at-get_elem? xs i x h

  pub get_elem?-replicate : (n i : ℕ) (a : A) → i < n → get_elem? (replicate n a) i ≡ some a
  get_elem?-replicate zero i a h = absurd (omega arith)
  get_elem?-replicate (suc n) zero a h = refl
  get_elem?-replicate (suc n) (suc i) a h = get_elem?-replicate n i a (omega arith)

module _ {ℓ} {A : Type ℓ} where
  -- Every item of a loop without a panic.
  pub collect-ok :
      (f : ℕ → Result SlpError A) (count idx : ℕ)
      → ((i : ℕ) → i < idx + count → (x : A) × (f i ≡ ok x))
      → (xs : List A) × (collect f count idx ≡ ok xs)
  unfolding collect
  collect-ok f zero idx h = ([], refl)
  collect-ok f (suc count) idx h =
      let (x, e) = h idx (omega arith) in
      let (xs, es) = collect-ok f count (suc idx) (λ i below. h i (omega arith)) in
      (x ∷ xs, >>=-ok _ e ∙ >>=-ok _ es)

  -- What a loop collects has the items of a list, if each of its items has.
  pub collect-map {κ} :
      {B : Type κ} (f : ℕ → Result SlpError A) (view : A → B) (bs : List B) (count idx : ℕ)
      (xs : List A)
      → ((i : ℕ) (x : A) → i < length bs → f i ≡ ok x → get_elem? bs i ≡ some (view x))
      → idx + count ≡ length bs
      → collect f count idx ≡ ok xs
      → map view xs ≡ drop idx bs
  unfolding collect
  collect-map f view bs zero idx xs h fits e =
      rw (sym (ok_injective e)) (sym (drop-length bs idx (omega arith)))
  collect-map f view bs (suc count) idx xs h fits e =
      let (x, first, e') = >>=-eq-ok (f idx) _ e in
      let (ys, others, last) = >>=-eq-ok (collect f count (suc idx)) _ e' in
      rw (sym (ok_injective last)) (
        ap (λ zs. view x ∷ zs) (collect-map f view bs count (suc idx) ys h (omega arith) others)
        ∙ sym (drop-eq bs idx (h idx x (omega arith) first)))

-- As many tokens as there are inputs or outputs: an input or output without one has the empty token.
abbrev pub padded : ℕ → List SlpToken → List SlpToken
padded zero tokens = []
padded (suc n) [] = empty_token ∷ padded n []
padded (suc n) (t ∷ tokens) = t ∷ padded n tokens

pub length-padded : (n : ℕ) (tokens : List SlpToken) → length (padded n tokens) ≡ n
length-padded zero tokens = refl
length-padded (suc n) [] = ap suc (length-padded n [])
length-padded (suc n) (t ∷ tokens) = ap suc (length-padded n tokens)

pub get_elem?-padded :
    (n i : ℕ) (tokens : List SlpToken)
    → i < n
    → get_elem? (padded n tokens) i ≡ some (get_or tokens i empty_token)
get_elem?-padded zero i tokens h = absurd (omega arith)
get_elem?-padded (suc n) zero [] h = refl
get_elem?-padded (suc n) (suc i) [] h = get_elem?-padded n i [] (omega arith)
get_elem?-padded (suc n) zero (t ∷ tokens) h = refl
get_elem?-padded (suc n) (suc i) (t ∷ tokens) h = get_elem?-padded n i tokens (omega arith)
