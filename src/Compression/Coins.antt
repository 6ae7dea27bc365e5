-- ===== src/Compression/Coins.antt =====
-- Reading a coin that a node stored: `read_coin` and `read_undo_coin` of
-- bitcoinsuite-core/src/compression.rs.
use bitcoinsuite.Base.{
  some_injective, ℕ, ◌+◌, ◌*◌, ◌/◌, ◌%◌, ◌^◌, ◌<◌, ◌≡◌, sym, ◌∙◌, ap, [], ◌++◌, Bool, true, false,
  not, some, ok, >>=-ok, ◌==◌, arith,
}
use bitcoinsuite.Base.Int.{ℤ, pos}
use bitcoinsuite.Bytes.{Bytes}
use bitcoinsuite.Bytes.Endian.{from_pattern}
use bitcoinsuite.Ecc.{Ecc}
use bitcoinsuite.Script.{Script, ScriptVariant}
use bitcoinsuite.Script.Variants.{script_of, IsVariant}
use bitcoinsuite.Tx.{Coin}
use bitcoinsuite.Compression.Amount.{compress_amount, compress_stripped, decompress-compress_amount}
use bitcoinsuite.Compression.VarInt.{write_var_int, read_var_int, read-write_var_int}
use bitcoinsuite.Compression.Scripts.{
  compress_script, read_coin_as, read_coin, IsKept, decompress-compress_script,
}

abbrev pub coinbase_bit : Bool → ℕ
coinbase_bit true = 1
coinbase_bit false = 0

abbrev raw_coin : ℤ → ℤ → Bool → Script → Coin
raw_coin value height is_coinbase script = record {
  tx_output = record { value = value; script = script };
  height = some height;
  is_coinbase = is_coinbase;
}

abbrev pub mk_coin : ℕ → Bool → ℕ → Script → Coin
mk_coin height is_coinbase amount script = record {
  tx_output = record { value = pos amount; script = script };
  height = some (pos height);
  is_coinbase = is_coinbase;
}

compress_amount-lt : (amount x : ℕ) → compress_amount amount ≡ some x → x < 2 ^ 64
unfolding compress_amount compress_stripped
compress_amount-lt amount x e = ground arith

amount_value : (amount : ℕ) → amount < 2 ^ 63 → from_pattern 8 amount ≡ pos amount
unfolding from_pattern
amount_value amount h = ground arith

height_value : (height : ℕ) → height < 2 ^ 31 → from_pattern 4 (height % 2 ^ 32) ≡ pos height
unfolding from_pattern
height_value height h = ground arith

height_half :
    (height : ℕ) (is_coinbase : Bool) → (height * 2 + coinbase_bit is_coinbase) / 2 ≡ height
height_half height true = omega arith
height_half height false = omega arith

height_bit :
    (height : ℕ) (is_coinbase : Bool)
    → not ((height * 2 + coinbase_bit is_coinbase) % 2 == 0) ≡ is_coinbase
height_bit height true = ground arith
height_bit height false = ground arith

bit-lt : (is_coinbase : Bool) → coinbase_bit is_coinbase < 2
bit-lt true = omega arith
bit-lt false = omega arith

-- What `write_var_int` writes is read back in front of anything.
read_at :
    (w : Bytes) (n : ℕ) (rest : Bytes)
    → n < 2 ^ 64
    → write_var_int [] n ≡ some w
    → read_var_int (w ++ rest) ≡ ok (n, rest)
read_at w n rest h e =
    let (w', writes, reads) = read-write_var_int [] n rest h in
    let same : w' ≡ w = some_injective (sym writes ∙ e) in
    ap (λ (b : Bytes). read_var_int (b ++ rest)) (sym same) ∙ reads

-- The three parts that a node stores of a coin, and what is read of them.
pub record Stores (curve : Ecc) (height : ℕ) (is_coinbase : Bool) (amount : ℕ) (script : Script)
    : Type 0 where
  pub head : Bytes
  pub compressed : ℕ
  pub amount_bytes : Bytes
  pub script_bytes : Bytes
  pub is_head : write_var_int [] (height * 2 + coinbase_bit is_coinbase) ≡ some head
  pub is_compressed : compress_amount amount ≡ some compressed
  pub is_amount : write_var_int [] compressed ≡ some amount_bytes
  pub is_script : compress_script script ≡ some script_bytes
  pub is_read :
      (rest : Bytes)
      → read_coin curve (head ++ (amount_bytes ++ (script_bytes ++ rest)))
        ≡ ok (mk_coin height is_coinbase amount script, rest)

-- A coin that is stored as a node does it, by the writers of this module, is read back: its height, whether
-- it is of a coinbase, its amount and its script, which is of a variant that the compression keeps. The
-- height is below 2^31, and ninefold the amount leaves room for 10 in a u64.
pub read_coin-Stores :
    (curve : Ecc) (height : ℕ) (is_coinbase : Bool) (amount : ℕ) (v : ScriptVariant)
    → height < 2 ^ 31
    → amount * 9 + 10 < 2 ^ 64
    → IsVariant v
    → IsKept curve v
    → Stores curve height is_coinbase amount (script_of v)
unfolding read_coin read_coin_as
read_coin-Stores curve height is_coinbase amount v small fits h k =
    let n = height * 2 + coinbase_bit is_coinbase in
    let (x, compresses, decompresses) = decompress-compress_amount amount fits in
    let (bs, is_script, reads_script) = decompress-compress_script curve v h k in
    let read_height = from_pattern 4 (n / 2 % 2 ^ 32) in
    let bit = not (n % 2 == 0) in
    let low : n < 2 ^ 64 = omega (arith, bit-lt is_coinbase) in
    let (w, writes, _) = read-write_var_int [] n [] low in
    let (u, writes_x, _) = read-write_var_int [] x [] (compress_amount-lt amount x compresses) in
    record {
      head = w;
      compressed = x;
      amount_bytes = u;
      script_bytes = bs;
      is_head = writes;
      is_compressed = compresses;
      is_amount = writes_x;
      is_script = is_script;
      is_read = λ rest.
          >>=-ok _ (read_at w n (u ++ (bs ++ rest)) low writes)
          ∙ >>=-ok _ (read_at u x (bs ++ rest) (compress_amount-lt amount x compresses) writes_x)
          ∙ >>=-ok _ (reads_script rest)
          ∙ ap (λ (value : ℤ). ok (raw_coin value read_height bit (script_of v), rest))
              (ap (from_pattern 8) decompresses ∙ amount_value amount (omega arith))
          ∙ ap (λ (z : ℤ). ok (raw_coin (pos amount) z bit (script_of v), rest))
              (ap (λ (half : ℕ). from_pattern 4 (half % 2 ^ 32)) (height_half height is_coinbase)
                ∙ height_value height small)
          ∙ ap (λ (b : Bool). ok (raw_coin (pos amount) (pos height) b (script_of v), rest))
              (height_bit height is_coinbase);
    }
