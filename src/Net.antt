-- ===== src/Net.antt =====
-- Addresses of Go's net/netip, as far as the program uses them (a zone is not modelled), and
-- common/helpers/ipv6.go. An address is a number of 32 or of 128 bits.
use akvorado.Prelude.{ℕ, ◌+◌, ◌/◌, ◌%◌, ◌*◌, ◌^◌, Bool, true, false, ◌==◌, if◌then◌else◌}

pub data Addr : Type 0 where
  invalid : Addr
  v4 : ℕ → Addr
  v6 : ℕ → Addr

-- The prefix ::ffff:0:0/96 of the IPv4-mapped addresses.
abbrev pub mapped_prefix : ℕ
mapped_prefix = 0xffff

unfoldable pub is_valid : Addr → Bool
is_valid invalid = false
is_valid _ = true

-- `As16`: an IPv4 address as an IPv4-mapped one; the invalid address as zero.
unfoldable pub as16 : Addr → ℕ
as16 invalid = 0
as16 (v4 n) = mapped_prefix * 2 ^ 32 + n
as16 (v6 n) = n

unfoldable pub is_unspecified : Addr → Bool
is_unspecified invalid = false
is_unspecified (v4 n) = n == 0
is_unspecified (v6 n) = n == 0

-- `Unmap`
unfoldable pub unmap : Addr → Addr
unmap invalid = invalid
unmap (v4 n) = v4 n
unmap (v6 n) = if n / 2 ^ 32 == mapped_prefix then v4 (n % 2 ^ 32) else v6 n

-- `helpers.AddrTo6`
unfoldable pub addr_to6 : Addr → Addr
addr_to6 invalid = invalid
addr_to6 (v4 n) = v6 (mapped_prefix * 2 ^ 32 + n)
addr_to6 (v6 n) = v6 n
