-- ===== src/Address/Lotus/RoundTrip.antt =====
-- An address of Lotus is read back: bitcoinsuite-core/src/address/lotusaddress.rs.
use bitcoinsuite.Base.{
  ℕ, suc, ◌+◌, ◌-◌, ◌≡◌, ◌≢◌, refl, ap, ◌∙◌, [], ◌∷◌, ◌++◌, Bool, true, false, not, some, ok, err,
  ◌>>=◌, ◌>>◌, >>=-ok, guard, ok_or, map_err, arith, length, length-append, length-take, get_elem?,
  take, drop, take-append, drop-append, All, le→leb, ◌==◌, ==_refl, if◌then◌else◌,
}
use bitcoinsuite.Bytes.{Bytes, eq_bytes}
use bitcoinsuite.Hash.{Digests}
use bitcoinsuite.Network.{Net, mainnet, regtest}
use bitcoinsuite.Script.{Script, mk_script}
use bitcoinsuite.Address.Lotus.{
  Base58, LotusAddress, missing_payload, missing_prefix, missing_net_char, invalid_base58, net_char,
  is_prefix_char, take_prefix, net_of, get_payload, checksum_end, calc_checksum, lotus_data,
  new_lotus_address, parse_data, parse_behind, parse_lotus_address, missing_checksum,
  invalid_checksum,
}

-- A prefix that can be read: small letters and digits, one at least.
abbrev pub IsLotusPrefix : Bytes → Type 0
IsLotusPrefix prefix = (length prefix ≢ 0) × All (λ c. is_prefix_char c ≡ true) prefix

net_char-ends : (net : Net) → is_prefix_char (net_char net) ≡ false
unfolding is_prefix_char
net_char-ends mainnet = refl
net_char-ends regtest = refl

net_of-net_char : (E : Type 0) (net : Net) → net_of {E = E} (net_char net) ≡ ok net
unfolding net_of
net_of-net_char E mainnet = refl
net_of-net_char E regtest = refl

take_prefix-append :
    (prefix rest : Bytes) (c : ℕ)
    → All (λ x. is_prefix_char x ≡ true) prefix
    → is_prefix_char c ≡ false
    → take_prefix (prefix ++ (c ∷ rest)) ≡ prefix
unfolding take_prefix
take_prefix-append [] rest c h e = rw e refl
take_prefix-append (x ∷ prefix) rest c h e =
    rw h.0 (ap (λ xs. x ∷ xs) (take_prefix-append prefix rest c h.1 e))

get_elem?-after :
    (xs : Bytes) (c : ℕ) (rest : Bytes) → get_elem? (xs ++ (c ∷ rest)) (length xs) ≡ some c
get_elem?-after [] c rest = refl
get_elem?-after (x ∷ xs) c rest = get_elem?-after xs c rest

drop-after :
    (xs : Bytes) (c n : ℕ) (rest : Bytes) → n ≡ suc (length xs) → drop n (xs ++ (c ∷ rest)) ≡ rest
drop-after [] c n rest h = ap (λ k. drop k (c ∷ rest)) h
drop-after (x ∷ xs) c n rest h =
    ap (λ k. drop k (x ∷ (xs ++ (c ∷ rest)))) h ∙ drop-after xs c (suc (length xs)) rest refl

eq_bytes_refl : (bs : Bytes) → eq_bytes bs bs ≡ true
eq_bytes_refl [] = refl
eq_bytes_refl (b ∷ bs) = rw (==_refl b) (eq_bytes_refl bs)

guarded :
    {E : Type 0} (b : Bool) (e : E) (s : Script) (f : Script → LotusAddress)
    → ((guard (not b) e >> ok s) >>= λ x. ok (f x)) ≡ (if b then err e else ok (f s))
guarded true e s f = refl
guarded false e s f = refl

abbrev address : Bytes → Net → Bytes → Script → LotusAddress
address prefix net text script = record {
  prefix = prefix;
  net = net;
  lotus_addr = text;
  script = script;
}

module _ (d : Digests) where
  length-calc_checksum :
      (prefix : Bytes) (c t : ℕ) (payload : Bytes) → length (calc_checksum d prefix c t payload) ≡ 4
  unfolding calc_checksum
  length-calc_checksum prefix c t payload =
      let bs = prefix ++ (c ∷ t ∷ []) ++ payload in
      omega (arith, length-take 4 (d.sha256 bs), d.sha256_size bs)

  -- What the data of an address are taken apart into.
  parse_data-lotus_data :
      (base58 : Base58) (prefix : Bytes) (net : Net) (script : Script)
      → parse_data d base58 prefix (net_char net) (lotus_data d prefix net script) ≡ (
          guard (not (length script.bytecode == 0)) missing_payload
          >> ok (mk_script script.bytecode))
  unfolding parse_data lotus_data
  parse_data-lotus_data base58 prefix net script =
      let s = script.bytecode in
      let checksum = calc_checksum d prefix (net_char net) 0 s in
      let data' = 0 ∷ (s ++ checksum) in
      let four = length-calc_checksum prefix (net_char net) 0 s in
      let size : length data' ≡ suc (length s) + 4 =
        omega (arith, four, length-append s checksum) in
      let n = length data' - 4 in
      let ends : checksum_end data' ≡ some n =
        rw (le→leb 4 (length data') (omega (arith, size))) refl in
      let count : n - 1 ≡ length s = omega (arith, size) in
      let whole : take (n - 1) (s ++ checksum) ≡ s =
        ap (λ k. take k (s ++ checksum)) count ∙ take-append s checksum in
      let payload : get_payload data' n ≡ some s =
        rw (le→leb 1 n (omega (arith, size))) (ap some whole) in
      let behind : n ≡ suc (length s) = omega (arith, size) in
      let last : drop n data' ≡ checksum = ap (λ k. drop k data') behind ∙ drop-append s checksum in
      let verified = ap (λ b. eq_bytes b checksum) last ∙ eq_bytes_refl checksum in
      >>=-ok _ (ap (λ o. ok_or o missing_checksum) ends)
      ∙ >>=-ok _ (ap (λ o. ok_or o missing_checksum) payload)
      ∙ ap (λ r. guard (not (length s == 0)) missing_payload >> r)
          (>>=-ok _ (ap (λ b. guard b (invalid_checksum (drop n data') checksum)) verified))

  -- Parsing the text of an address that is made of a prefix, a net and a script gives that address, and for
  -- an empty script it gives the error for that. The prefix has small letters and digits, one at least.
  pub parse-new_lotus_address :
      (base58 : Base58) (prefix : Bytes) (net : Net) (script : Script)
      → IsLotusPrefix prefix
      → parse_lotus_address d base58 (new_lotus_address d base58 prefix net script).lotus_addr ≡ (
          if length script.bytecode == 0
          then err missing_payload
          else ok (new_lotus_address d base58 prefix net script))
  unfolding parse_lotus_address parse_behind new_lotus_address
  parse-new_lotus_address base58 prefix net script (some', plain) =
      let c = net_char net in
      let data' = lotus_data d prefix net script in
      let text = prefix ++ (c ∷ base58.encode data') in
      let p = take_prefix-append prefix (base58.encode data') c plain (net_char-ends net) in
      let written = drop-after prefix c (length prefix + 1) (base58.encode data') (omega arith) in
      let decoded = ap base58.decode written ∙ base58.decode-encode data' in
      let full : (length prefix == 0) ≡ false = ground (arith, some') in
      ap (λ q. parse_behind d base58 q text) p
      ∙ >>=-ok _ (ap (λ b. guard (not b) missing_prefix) full)
      ∙ >>=-ok _
          (ap (λ o. ok_or o missing_net_char) (get_elem?-after prefix c (base58.encode data')))
      ∙ >>=-ok _ (net_of-net_char base58.Error net)
      ∙ >>=-ok _ (ap (map_err invalid_base58) decoded)
      ∙ ap (λ r. r >>= λ s. ok (address prefix net text s))
          (parse_data-lotus_data base58 prefix net script)
      ∙ guarded (length script.bytecode == 0) missing_payload (mk_script script.bytecode)
          (address prefix net text)
