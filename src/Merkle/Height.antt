-- ===== src/Merkle/Height.antt =====
-- The number of layers of a tree, and what the padding does to it (bitcoinsuite-core/src/merkle.rs).
use mathlib.Core.Path.{ap₂}
use native.Mathlib.Nat.{pow-suc}
use bitcoinsuite.Base.{
  ℕ, zero, suc, ◌+◌, ◌/◌, ◌%◌, ◌^◌, ◌≤◌, ◌<◌, ◌≡◌, refl, sym, ap, ◌∙◌, true, false, List, [], ◌∷◌,
  ◌++◌, some, arith, ◌==◌, length, length-append, Bool-cases, inl, inr, ==_iff,
}
use bitcoinsuite.Merkle.{
  Hashed, MerkleMode, bitcoin, lotus, last_or, pad, next_layer, merkle_step, merkle_loop,
  get_merkle_root_and_height,
}

odd_test : (n : ℕ) → n % 2 ≡ 1 → ((n % 2 == 1) ≡ true)
odd_test n h = rw h

even_test : (n : ℕ) → n % 2 ≡ 0 → ((n % 2 == 1) ≡ false)
even_test n h = rw h

-- `r` is the logarithm of `n` to base two, rounded up.
abbrev pub IsLog : ℕ → ℕ → Type 0
IsLog n zero = n ≡ 1
IsLog n (suc r) = (2 ^ r < n) × (n ≤ 2 ^ suc r)

abbrev pub IsHeight : ℕ → ℕ → Type 0
IsHeight n zero = n ≡ 0
IsHeight n (suc r) = IsLog n r

IsLog-half : (n m r : ℕ) → m ≡ (n + 1) / 2 → 1 < n → IsLog m r → IsLog n (suc r)
IsLog-half n m zero e h log = omega arith
IsLog-half n m (suc r) e h log = omega (arith, pow-suc 2 r, pow-suc 2 (suc r))

module _ {H : Type 0} (hashed : Hashed H) where
  length-pad :
      (mode : MerkleMode) (leaves : List H) → length (pad hashed mode leaves) ≡ length leaves + 1
  unfolding pad
  length-pad bitcoin leaves = length-append leaves _
  length-pad lotus leaves = length-append leaves _

  length-next_layer : (leaves : List H) → length (next_layer hashed leaves) ≡ length leaves / 2
  unfolding next_layer
  length-next_layer [] = omega arith
  length-next_layer (x ∷ []) = omega arith
  length-next_layer (x ∷ y ∷ rest) = omega (arith, length-next_layer rest)

  -- A layer is half as long as the one below it, rounded up.
  pub length-merkle_step :
      (mode : MerkleMode) (leaves : List H)
      → length (merkle_step hashed mode leaves) ≡ (length leaves + 1) / 2
  unfolding merkle_step
  length-merkle_step mode leaves = elim (Bool-cases (length leaves % 2 == 1)) [
    | inl odd ↦ rw odd (
        omega (
          arith,
          (==_iff _ _).0 odd,
          length-pad mode leaves,
          length-next_layer (pad hashed mode leaves),
        ))
    | inr even ↦ rw even (ground (arith, even, length-next_layer leaves))
  ]

  -- The rounds that are left raise the height by the logarithm of the number of leaves.
  merkle_loop_height :
      (fuel : ℕ) (mode : MerkleMode) (leaves : List H) (height : ℕ)
      → 0 < length leaves
      → length leaves ≤ fuel + 1
      → (root : H) × (rounds : ℕ) × (merkle_loop hashed fuel mode leaves height
          ≡ some (root, height + rounds))
        × IsLog (length leaves) rounds
  unfolding merkle_loop
  merkle_loop_height fuel mode [] height some_leaf fits = absurd (omega arith)
  merkle_loop_height fuel mode (x ∷ []) height some_leaf fits = (x, 0, ground arith, refl)
  merkle_loop_height zero mode (x ∷ y ∷ rest) height some_leaf fits = absurd (omega arith)
  merkle_loop_height (suc fuel) mode (x ∷ y ∷ rest) height some_leaf fits =
      let shorter = length-merkle_step mode (x ∷ y ∷ rest) in
      let (root, rounds, runs, log) =
        merkle_loop_height fuel mode (merkle_step hashed mode (x ∷ y ∷ rest)) (height + 1)
          (omega arith) (omega arith) in
      (
        root,
        suc rounds,
        runs ∙ ap (λ (t : ℕ). some (root, t)) (omega arith),
        IsLog-half (length (x ∷ y ∷ rest)) _ rounds shorter (omega arith) log,
      )

  -- On any leaves the loop ends. Without leaves the height is 0, and otherwise it is one more than
  -- the logarithm to base two of the number of leaves, rounded up.
  pub get_merkle_root-IsHeight :
      (leaves : List H) (mode : MerkleMode)
      → (root : H) × (height : ℕ) × (get_merkle_root_and_height hashed leaves mode
          ≡ some (root, height))
        × IsHeight (length leaves) height
  unfolding get_merkle_root_and_height
  get_merkle_root-IsHeight [] mode = (hashed.default, 0, refl, refl)
  get_merkle_root-IsHeight (x ∷ xs) mode =
      let (root, rounds, runs, log) =
        merkle_loop_height (length xs) mode (x ∷ xs) 1 (omega arith) (omega arith) in
      (root, suc rounds, runs ∙ ap (λ (t : ℕ). some (root, t)) (omega arith), log)

  last_or-append : (d x : H) (xs : List H) → last_or hashed d (xs ++ (x ∷ [])) ≡ x
  unfolding last_or
  last_or-append d x [] = refl
  last_or-append d x (y ∷ ys) = last_or-append y x ys

  -- An odd layer and the layer with its padding have the same layer above them.
  merkle_step-pad :
      (mode : MerkleMode) (leaves : List H)
      → length leaves % 2 ≡ 1
      → merkle_step hashed mode (pad hashed mode leaves) ≡ merkle_step hashed mode leaves
  unfolding merkle_step
  merkle_step-pad mode leaves odd = rw (
    odd_test (length leaves) odd,
    even_test (length (pad hashed mode leaves)) (omega (arith, length-pad mode leaves)),
  )

  -- A loop that ends does so with more fuel too.
  merkle_loop-suc :
      (fuel : ℕ) (mode : MerkleMode) (leaves : List H) (height : ℕ) (r : H × ℕ)
      → merkle_loop hashed fuel mode leaves height ≡ some r
      → merkle_loop hashed (suc fuel) mode leaves height ≡ some r
  unfolding merkle_loop
  merkle_loop-suc fuel mode [] height r e = e
  merkle_loop-suc fuel mode (x ∷ []) height r e = e
  merkle_loop-suc zero mode (x ∷ y ∷ rest) height r e = cc
  merkle_loop-suc (suc fuel) mode (x ∷ y ∷ rest) height r e =
      merkle_loop-suc fuel mode (merkle_step hashed mode (x ∷ y ∷ rest)) (height + 1) r e

  merkle_loop_round :
      (fuel : ℕ) (mode : MerkleMode) (x y : H) (rest : List H) (height : ℕ)
      → merkle_loop hashed (suc fuel) mode (x ∷ y ∷ rest) height
        ≡ merkle_loop hashed fuel mode (merkle_step hashed mode (x ∷ y ∷ rest)) (height + 1)
  unfolding merkle_loop
  merkle_loop_round fuel mode x y rest height = refl

  -- One leaf more, and the same layer above the leaves.
  same_layer :
      (x y z : H) (rest : List H) (mode : MerkleMode)
      → merkle_step hashed mode (x ∷ y ∷ (rest ++ (z ∷ [])))
        ≡ merkle_step hashed mode (x ∷ y ∷ rest)
      → get_merkle_root_and_height hashed (x ∷ y ∷ (rest ++ (z ∷ []))) mode
        ≡ get_merkle_root_and_height hashed (x ∷ y ∷ rest) mode
  unfolding get_merkle_root_and_height
  same_layer x y z rest mode e =
      let one_more : length (rest ++ (z ∷ [])) ≡ suc (length rest) =
        omega (arith, length-append rest (z ∷ [])) in
      let shorter = length-merkle_step mode (x ∷ y ∷ rest) in
      let (root, rounds, runs, log) =
        merkle_loop_height (length rest) mode (merkle_step hashed mode (x ∷ y ∷ rest)) 2
          (omega arith) (omega arith) in
      merkle_loop_round (length (rest ++ (z ∷ []))) mode x y (rest ++ (z ∷ [])) 1
      ∙ ap₂ (λ (fuel : ℕ) (layer : List H). merkle_loop hashed fuel mode layer 2) one_more e
      ∙ merkle_loop-suc (length rest) mode (merkle_step hashed mode (x ∷ y ∷ rest)) 2
          (root, 2 + rounds) runs
      ∙ sym runs
      ∙ sym (merkle_loop_round (length rest) mode x y rest 1)

  -- With an odd number of leaves above one, adding the padding to the leaves (in the mode of Bitcoin
  -- the last leaf once more) changes neither the root nor the height: the root does not bind the
  -- list of leaves.
  pub get_merkle_root-pad :
      (x y : H) (rest : List H) (mode : MerkleMode)
      → length rest % 2 ≡ 1
      → get_merkle_root_and_height hashed (pad hashed mode (x ∷ y ∷ rest)) mode
        ≡ get_merkle_root_and_height hashed (x ∷ y ∷ rest) mode
  unfolding pad
  get_merkle_root-pad x y rest bitcoin odd =
      same_layer x y _ rest bitcoin (merkle_step-pad bitcoin (x ∷ y ∷ rest) (omega arith))
  get_merkle_root-pad x y rest lotus odd =
      same_layer x y _ rest lotus (merkle_step-pad lotus (x ∷ y ∷ rest) (omega arith))
