-- ===== src/Packet/Bytes.antt =====
-- Reads from a packet, and the constants of common/constants.
use akvorado.Prelude.{
  refl, ◌⊎◌, inl, inr, Bool-cases, true, ℕ, zero, suc, ◌+◌, ◌-◌, ◌*◌, ◌/◌, ◌%◌, ◌^◌, ◌<◌, ◌≤◌, ◌≡◌,
  Option, none, some, List, [], ◌∷◌, length, get_elem?, take, drop, leb, ◌==◌, if◌then◌else◌, ◌>>=◌,
  arith, get_elem?_of_lt, Returns,
}
use akvorado.Net.{Addr, invalid, v4, v6, addr_to6}

abbrev pub etype_ipv4 : ℕ
etype_ipv4 = 0x0800

abbrev pub etype_ipv6 : ℕ
etype_ipv6 = 0x86dd

abbrev pub etype_mpls : ℕ
etype_mpls = 0x8847

abbrev pub etype_vlan : ℕ
etype_vlan = 0x8100

abbrev pub port_vxlan : ℕ
port_vxlan = 4789

abbrev pub proto_icmpv4 : ℕ
proto_icmpv4 = 1

abbrev pub proto_ipv4 : ℕ
proto_ipv4 = 4

abbrev pub proto_tcp : ℕ
proto_tcp = 6

abbrev pub proto_udp : ℕ
proto_udp = 17

abbrev pub proto_ipv6 : ℕ
proto_ipv6 = 41

abbrev pub proto_srh : ℕ
proto_srh = 43

abbrev pub proto_gre : ℕ
proto_gre = 47

abbrev pub proto_icmpv6 : ℕ
proto_icmpv6 = 58

-- The number that bytes stand for, most significant first.
unfoldable pub big_endian : List ℕ → ℕ
big_endian bytes = go 0 bytes
  where
    go : ℕ → List ℕ → ℕ
    go acc [] = acc
    go acc (b ∷ rest) = go (acc * 256 + b) rest

-- `s[i:j]`
unfoldable pub slice : List ℕ → ℕ → ℕ → Option (List ℕ)
slice bytes i j = if leb j (length bytes) then some (take (j - i) (drop i bytes)) else none

-- `s[n:]`
unfoldable pub slice_from : List ℕ → ℕ → Option (List ℕ)
slice_from bytes n = if leb n (length bytes) then some (drop n bytes) else none

-- `s[i]`
abbrev pub byte : List ℕ → ℕ → Option ℕ
byte = get_elem?

-- `binary.BigEndian.Uint16(s[i:i+2])`
unfoldable pub uint16 : List ℕ → ℕ → Option ℕ
uint16 bytes i = do hi ← byte bytes i; lo ← byte bytes (i + 1); some (hi * 256 + lo)

-- `binary.BigEndian.Uint32(s[i:i+4])`
unfoldable pub uint32 : List ℕ → ℕ → Option ℕ
uint32 bytes i = do hi ← uint16 bytes i; lo ← uint16 bytes (i + 2); some (hi * 2 ^ 16 + lo)

-- `DecodeIP`, with `netip.AddrFromSlice`: four bytes or sixteen.
unfoldable pub decode_ip : List ℕ → Addr
unfolding big_endian addr_to6
decode_ip bytes =
    if length bytes == 4
    then addr_to6 (v4 (big_endian bytes))
    else if length bytes == 16
    then addr_to6 (v6 (big_endian bytes))
    else invalid

-- `bits.OnesCount16`: the bits that are set among the first `n`.
unfoldable pub ones_count : ℕ → ℕ → ℕ
ones_count zero x = 0
ones_count (suc n) x = x % 2 + ones_count n (x / 2)

-- A read below the length of the packet does not fail.
module _ (bytes : List ℕ) (i : ℕ) where
  pub byte-Returns : i < length bytes → Returns (λ b. Unit {0}) (byte bytes i)
  byte-Returns h = let (b, e) = get_elem?_of_lt bytes i h in rw e tt

  pub uint16-Returns : i + 2 ≤ length bytes → Returns (λ n. Unit {0}) (uint16 bytes i)
  unfolding uint16
  uint16-Returns h =
      let (hi, e) = get_elem?_of_lt bytes i (omega arith) in
      let (lo, f) = get_elem?_of_lt bytes (i + 1) (omega arith) in rw (e, f) tt

pub uint32-Returns :
    (bytes : List ℕ) (i : ℕ) → i + 4 ≤ length bytes → Returns (λ n. Unit {0}) (uint32 bytes i)
unfolding uint32 uint16
uint32-Returns bytes i h =
    let (a, e) = get_elem?_of_lt bytes i (omega arith) in
    let (b, f) = get_elem?_of_lt bytes (i + 1) (omega arith) in
    let (c, g) = get_elem?_of_lt bytes (i + 2) (omega arith) in
    let (d, k) = get_elem?_of_lt bytes (i + 2 + 1) (omega arith) in rw (e, f, g, k) tt

pub slice-Returns :
    (bytes : List ℕ) (i j : ℕ) → j ≤ length bytes → Returns (λ n. Unit {0}) (slice bytes i j)
unfolding slice
slice-Returns bytes i j h = let e : leb j (length bytes) ≡ true = ground arith in rw e tt

pub slice_from_within :
    (bytes : List ℕ) (n : ℕ) → n ≤ length bytes → slice_from bytes n ≡ some (drop n bytes)
unfolding slice_from
slice_from_within bytes n h = let e : leb n (length bytes) ≡ true = ground arith in rw e refl

pub slice_from_cases :
    (bytes : List ℕ) (n : ℕ)
    → (slice_from bytes n ≡ none) ⊎ (slice_from bytes n ≡ some (drop n bytes))
unfolding slice_from
slice_from_cases bytes n = elim (Bool-cases (leb n (length bytes))) [
  | inl e ↦ inr (rw e refl)
  | inr e ↦ inl (rw e refl)
]
