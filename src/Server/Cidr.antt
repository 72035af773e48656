-- ===== src/Server/Cidr.antt =====
-- `IpCidr` and the normal form of addresses (crates/north-server/src/public_abuse.rs).
pub mod Laws
use north.Common.{
  ℕ, ◌-◌, ◌*◌, ◌/◌, ◌%◌, ◌^◌, Bool, false, ◌&&◌, Option, none, some, List, Result, ok, err, ◌==◌,
  ltb, if◌then◌else◌,
}
use north.Common.Slices.{split_once}
use north.Common.Net.{IpAddr, v4, v6, ip_eq}
use north.Common.Net.Parse.{parse_ip, parse_unsigned}

pub data CidrParseError : Type 0 where
  cidr_parse_error : CidrParseError

pub record IpCidr : Type 0 where
  pub network : IpAddr
  pub prefix_len : ℕ

-- `address.segments()[i]`
abbrev pub segment : ℕ → ℕ → ℕ
segment i address = address / 2 ^ (16 * (7 - i)) % 65536

-- `to_ipv4` of a mapped address is its last 32 bits.
unfoldable pub mapped_ipv4 : ℕ → Option ℕ
mapped_ipv4 address =
    if segment 0 address == 0
      && segment 1 address == 0
      && segment 2 address == 0
      && segment 3 address == 0
      && segment 4 address == 0
      && segment 5 address == 0xffff
    then some (address % 2 ^ 32)
    else none

abbrev pub of_mapped : ℕ → Option ℕ → IpAddr
of_mapped address none = v6 address
of_mapped address (some mapped) = v4 mapped

unfoldable pub normalize_ip : IpAddr → IpAddr
unfolding mapped_ipv4
normalize_ip (v4 address) = v4 address
normalize_ip (v6 address) = of_mapped address (mapped_ipv4 address)

-- `bits & (MAX << (width - prefix_len))`: the low bits are cleared.
unfoldable pub mask_bits : ℕ → ℕ → ℕ → ℕ
mask_bits width bits prefix_len =
    if prefix_len == 0 then 0 else bits / 2 ^ (width - prefix_len) * 2 ^ (width - prefix_len)

unfoldable pub mask_ip : IpAddr → ℕ → IpAddr
mask_ip (v4 address) prefix_len = v4 (mask_bits 32 address prefix_len)
mask_ip (v6 address) prefix_len = v6 (mask_bits 128 address prefix_len)

abbrev pub max_prefix : IpAddr → ℕ
max_prefix (v4 _) = 32
max_prefix (v6 _) = 128

unfoldable pub new : IpAddr → ℕ → Result IpCidr CidrParseError
new network prefix_len =
    let address = normalize_ip network in
    if ltb (max_prefix address) prefix_len
    then err cidr_parse_error
    else ok (record { network = mask_ip address prefix_len; prefix_len = prefix_len })

-- The `match` on the network and the normal form of the address.
unfoldable pub contains_address : IpAddr → ℕ → IpAddr → Bool
contains_address (v4 network) prefix_len (v4 address) =
    ip_eq (mask_ip (v4 address) prefix_len) (v4 network)
contains_address (v6 network) prefix_len (v6 address) =
    ip_eq (mask_ip (v6 address) prefix_len) (v6 network)
contains_address _ prefix_len _ = false

unfoldable pub contains : IpCidr → IpAddr → Bool
contains cidr address = contains_address cidr.network cidr.prefix_len (normalize_ip address)

abbrev pub primary_prefix : IpAddr → ℕ
primary_prefix (v4 _) = 32
primary_prefix (v6 _) = 64

-- The error case is the `expect`, which panics.
unfoldable pub primary_key : IpAddr → Result IpCidr CidrParseError
primary_key address = let normal = normalize_ip address in new normal (primary_prefix normal)

-- The prefix of a mapped network counts the 96 bits in front of the IPv4 address.
from_parts : IpAddr → ℕ → Option ℕ → Result IpCidr CidrParseError
from_parts original prefix_len (some mapped) =
    if ltb prefix_len 96 then err cidr_parse_error else new (v4 mapped) (prefix_len - 96)
from_parts original prefix_len none = new original prefix_len

from_address : IpAddr → ℕ → Result IpCidr CidrParseError
from_address (v4 address) prefix_len = new (normalize_ip (v4 address)) prefix_len
from_address (v6 address) prefix_len = from_parts (v6 address) prefix_len (mapped_ipv4 address)

from_texts : Option IpAddr → Option ℕ → Result IpCidr CidrParseError
from_texts none _ = err cidr_parse_error
from_texts (some _) none = err cidr_parse_error
from_texts (some address) (some prefix_len) = from_address address prefix_len

from_split : Option (List ℕ × List ℕ) → Result IpCidr CidrParseError
from_split none = err cidr_parse_error
from_split (some (address, prefix)) = from_texts (parse_ip address) (parse_unsigned 255 prefix)

unfoldable pub from_str : List ℕ → Result IpCidr CidrParseError
unfolding from_split from_texts from_address from_parts
from_str value = from_split (split_once b'/' value)
