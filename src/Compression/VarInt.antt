-- ===== src/Compression/VarInt.antt =====
-- `write_var_int` and `read_var_int` of bitcoinsuite-core/src/compression.rs: numbers in groups of seven
-- bits, the highest group first, where each group but the last stands for one more than it shows.
use mathlib.Core.List.{reverse, reverse-cons}
use bitcoinsuite.Base.{
  ℕ, zero, suc, ◌+◌, ◌-◌, ◌*◌, ◌/◌, ◌%◌, ◌^◌, ◌<◌, ◌≡◌, inl, inr, ◌∙◌, [], ◌∷◌, ◌++◌, Result, ok,
  err, ltb, leb, if◌then◌else◌, ◌==◌, arith, Option, some, none, Bool-cases, append_assoc,
}
use bitcoinsuite.Errors.{BitcoinSuiteError, bytes, invalid_split, invalid_var_int}
use bitcoinsuite.Bytes.{Bytes, put_slice}
use bitcoinsuite.Compression.Amount.{u64_mod}

abbrev pub u64_max : ℕ
u64_max = 2 ^ 64 - 1

-- The first loop fills `tmp` from index `len` on; `room` is what is left of its 10 places, and `none`
-- is the panic of an index that is out of range. `x & 0x7F` is `x % 2 ^ 7`, and the flag is added
-- since its bit is clear.
unfoldable pub var_int_groups : ℕ → ℕ → ℕ → Option Bytes
var_int_groups zero len n = none
var_int_groups (suc room) len n =
    let group = n % 2 ^ 7 + (if len == 0 then 0 else 0x80) in
    let rest = var_int_groups room (len + 1) (n / 2 ^ 7 - 1) in
    if leb n 0x7f
    then some (group ∷ [])
    else elim rest [ none ↦ none | some tmp ↦ some (group ∷ tmp) ]

-- The second loop writes `tmp` from its last place down to its first.
unfoldable pub write_var_int : Bytes → ℕ → Option Bytes
unfolding var_int_groups put_slice
write_var_int bs n = elim (var_int_groups 10 0 n) [
  | none ↦ none
  | some tmp ↦ some (put_slice bs (reverse tmp))
]

-- `n` is at most u64_max / 2 ^ 7 when it is shifted, so that the sum cannot wrap.
unfoldable pub read_var_int_loop : Bytes → ℕ → Result BitcoinSuiteError (ℕ × Bytes)
read_var_int_loop [] n = err (bytes (invalid_split 1 0))
read_var_int_loop (ch_data ∷ bs) n =
    let n' = n * 2 ^ 7 + ch_data % 2 ^ 7 in
    let rest = read_var_int_loop bs (n' + 1) in
    if ltb (u64_max / 2 ^ 7) n
    then err invalid_var_int
    else if ltb ch_data 0x80
    then ok (n', bs)
    else if n' == u64_max
    then err invalid_var_int
    else rest

unfoldable pub read_var_int : Bytes → Result BitcoinSuiteError (ℕ × Bytes)
unfolding read_var_int_loop
read_var_int bs = read_var_int_loop bs 0

-- A group with its flag set carries the number read so far to the next group.
flagged :
    (n acc : ℕ) (rest : Bytes)
    → n < u64_max
    → acc ≡ n / 128
    → read_var_int_loop ((n % 2 ^ 7 + 0x80) ∷ rest) acc ≡ read_var_int_loop rest (n + 1)
unfolding read_var_int_loop
flagged n acc rest h e = ground arith

-- The last group ends the number.
last_group :
    (n acc : ℕ) (rest : Bytes)
    → n < u64_mod
    → acc ≡ n / 128
    → read_var_int_loop ((n % 2 ^ 7 + 0) ∷ rest) acc ≡ ok (n, rest)
unfolding read_var_int_loop
last_group n acc rest h e = ground arith

-- Writing and reading the groups of `n` above the first: 128 ^ k bounds what k groups hold.
read_groups :
    (room len n : ℕ) (rest : Bytes)
    → n < 128 ^ suc room
    → n < u64_max
    → (tmp : Bytes) × (var_int_groups (suc room) (suc len) n ≡ some tmp)
      × (read_var_int_loop (reverse tmp ++ rest) 0 ≡ read_var_int_loop rest (n + 1))
unfolding var_int_groups
read_groups zero len n rest fits h =
    ((n % 2 ^ 7 + 0x80) ∷ [], ground arith, flagged n 0 rest h (omega arith))
read_groups (suc room) len n rest fits h = elim (Bool-cases (leb n 0x7f)) [
  | inl small ↦ ((n % 2 ^ 7 + 0x80) ∷ [], ground arith, flagged n 0 rest h (ground arith))
  | inr large ↦
      let (tmp, groups, read) =
        read_groups room (suc len) (n / 2 ^ 7 - 1) ((n % 2 ^ 7 + 0x80) ∷ rest) (ground arith)
          (omega arith) in
      (
        (n % 2 ^ 7 + 0x80) ∷ tmp,
        ground (arith, groups),
        rw
            (
              reverse-cons (n % 2 ^ 7 + 0x80) tmp,
              append_assoc (reverse tmp) ((n % 2 ^ 7 + 0x80) ∷ []) rest,
            )
            (read ∙ flagged n (n / 2 ^ 7 - 1 + 1) rest h (ground arith)),
      )
]

-- `write_var_int` writes every u64 without leaving its buffer of ten places, behind what the buffer
-- holds, and `read_var_int` reads the number back and leaves what follows.
pub read-write_var_int :
    (bs : Bytes) (n : ℕ) (rest : Bytes)
    → n < 2 ^ 64
    → (w : Bytes) × (write_var_int bs n ≡ some (bs ++ w))
      × (read_var_int (w ++ rest) ≡ ok (n, rest))
unfolding write_var_int read_var_int
read-write_var_int bs n rest h = elim (Bool-cases (leb n 0x7f)) [
  | inl small ↦ (
    (n % 2 ^ 7 + 0) ∷ [],
    unfold var_int_groups in ground arith,
    last_group n 0 rest h (ground arith),
  )
  | inr large ↦
      let (tmp, groups, read) =
        read_groups 8 0 (n / 2 ^ 7 - 1) ((n % 2 ^ 7 + 0) ∷ rest) (omega arith) (omega arith) in
      (
        reverse ((n % 2 ^ 7 + 0) ∷ tmp),
        unfold var_int_groups in ground (arith, groups),
        rw
            (
              reverse-cons (n % 2 ^ 7 + 0) tmp,
              append_assoc (reverse tmp) ((n % 2 ^ 7 + 0) ∷ []) rest,
            )
            (read ∙ last_group n (n / 2 ^ 7 - 1 + 1) rest h (ground arith)),
      )
]
