-- ===== src/Merkle.antt =====
-- bitcoinsuite-core/src/merkle.rs: the root of a tree of hashes, and the number of its layers.
pub mod Height
use bitcoinsuite.Base.{
  ℕ, zero, suc, ◌+◌, ◌%◌, List, [], ◌∷◌, ◌++◌, Option, none, some, if◌then◌else◌, ◌==◌, length,
  replicate,
}
use bitcoinsuite.Bytes.{Bytes, put_slice}

pub data MerkleMode : Type 0 where
  bitcoin lotus : MerkleMode

-- What the function uses of the trait `Hashed`: `digest`, `as_slice` and the default value.
pub record Hashed (H : Type 0) : Type 0 where
  pub digest : Bytes → H
  pub as_slice : H → Bytes
  pub default : H

module _ {H : Type 0} (hashed : Hashed H) where
  -- `leaves.last().unwrap()`, where there is a leaf
  unfoldable pub last_or : H → List H → H
  last_or d [] = d
  last_or d (x ∷ xs) = last_or x xs

  -- An odd layer gets one leaf more.
  unfoldable pub pad : MerkleMode → List H → List H
  unfolding last_or
  pad bitcoin leaves = leaves ++ (last_or hashed.default leaves ∷ [])
  pad lotus leaves = leaves ++ (hashed.default ∷ [])

  unfoldable pub pair_hash : H → H → H
  unfolding put_slice
  pair_hash left right =
      hashed.digest (put_slice (put_slice [] (hashed.as_slice left)) (hashed.as_slice right))

  -- for pair in leaves.chunks_exact(2)
  unfoldable pub next_layer : List H → List H
  unfolding pair_hash
  next_layer [] = []
  next_layer (x ∷ []) = []
  next_layer (x ∷ y ∷ rest) = pair_hash x y ∷ next_layer rest

  -- The body of the `while` loop.
  unfoldable pub merkle_step : MerkleMode → List H → List H
  unfolding pad next_layer
  merkle_step mode leaves = next_layer (if length leaves % 2 == 1 then pad mode leaves else leaves)

  -- while leaves.len() > 1, and then `leaves.remove(0)`. The fuel is the number of rounds, and `none`
  -- stands for a loop that ran out of it, which `Merkle.Height` rules out.
  unfoldable pub merkle_loop : ℕ → MerkleMode → List H → ℕ → Option (H × ℕ)
  merkle_loop fuel mode [] height = none
  merkle_loop fuel mode (x ∷ []) height = some (x, height)
  merkle_loop zero mode (x ∷ y ∷ rest) height = none
  merkle_loop (suc fuel) mode (x ∷ y ∷ rest) height =
      merkle_loop fuel mode (merkle_step mode (x ∷ y ∷ rest)) (height + 1)

  unfoldable pub get_merkle_root_and_height : List H → MerkleMode → Option (H × ℕ)
  get_merkle_root_and_height [] mode = some (hashed.default, 0)
  get_merkle_root_and_height (x ∷ xs) mode = merkle_loop (length xs) mode (x ∷ xs) 1
