-- ===== src/Ipam/Block.antt =====
-- An IPv4 block, as `ipaddress.ip_network(ipblock, strict=False)` gives it. An address is the number
-- that it stands for; its text is another spelling of that number.
use shakenfist.Prelude.{
  ℕ, ◌+◌, ◌-◌, ◌%◌, ◌^◌, Bool, ◌&&◌, Option, none, some, leb, ltb, if◌then◌else◌,
}

-- The address and the length of the prefix in the text of the block.
pub record Block : Type 0 where
  pub address : ℕ
  pub prefixlen : ℕ

abbrev max_prefixlen : ℕ
max_prefixlen = 32

-- num_addresses
unfoldable pub num_addresses : Block → ℕ
num_addresses b = 2 ^ (max_prefixlen - b.prefixlen)

-- network_address: `strict=False` clears the host bits
unfoldable pub network_address : Block → ℕ
network_address b = b.address - b.address % num_addresses b

-- broadcast_address
unfoldable pub broadcast_address : Block → ℕ
broadcast_address b = network_address b + num_addresses b - 1

-- get_address_at_index; past the end of the block it is an IndexError
unfoldable pub get_address_at_index : Block → ℕ → Option ℕ
get_address_at_index b idx =
    if ltb idx (num_addresses b) then some (network_address b + idx) else none

-- is_in_range
unfoldable pub is_in_range : Block → ℕ → Bool
is_in_range b address = leb (network_address b) address && leb address (broadcast_address b)

-- get_random_address, where `bits` is what the random generator has
unfoldable pub get_random_address : Block → ℕ → ℕ
get_random_address b bits = network_address b + bits % num_addresses b
