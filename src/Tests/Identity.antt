-- ===== src/Tests/Identity.antt =====
-- Networks and client identities at concrete addresses.
use north.Common.{◌+◌, ◌*◌, ◌^◌, ◌≡◌, refl, true, false, some, [], ◌∷◌, ok, err, ◌↔◌, arith}
use north.Common.Net.{IpAddr, v4, v6}
use north.Common.Net.Parse.{codes, parse_ip, parse_unsigned, read_ipv4_addr, read_ipv6_addr}
use north.Common.Slices.{split_once, split_at, trim}
use north.Server.Cidr.{
  IpCidr, cidr_parse_error, mapped_ipv4, normalize_ip, mask_bits, mask_ip, new, contains_address,
  contains, primary_key, from_str,
}
use north.Server.Cidr.Laws.{SharesPrefix, IsSameClient, contains_iff, primary_key_iff}
use north.Server.Identity.{
  ClientIdentity, HeaderMap, parse_token, push_tokens, push_values, parse_forwarded_chain,
  is_trusted, find_untrusted, effective_address, resolve_client_identity,
}
use north.Server.Identity.Trust.{IsChosen, resolve_client_identity-IsChosen, resolve_rightmost}

-- 192.0.2.7, and the same address mapped into IPv6
abbrev host : IpAddr
host = v4 3221225991

abbrev mapped_host : IpAddr
mapped_host = v6 (65535 * 2 ^ 32 + 3221225991)

-- 198.51.100.7
abbrev client : IpAddr
client = v4 3325256711

-- 192.0.2.0/24
abbrev lan : IpCidr
lan = record { network = v4 3221225984; prefix_len = 24 }

lan_made : new mapped_host 24 ≡ ok lan
unfolding new normalize_ip mapped_ipv4 mask_ip mask_bits
lan_made = refl

from_str_runs :
    (from_str (codes "192.0.2.7/24") ≡ ok lan)
    × (from_str (codes "::ffff:192.0.2.7/120") ≡ ok lan)
    × (from_str (codes "::ffff:192.0.2.7/24") ≡ err cidr_parse_error)
    × (from_str (codes "192.0.2.7") ≡ err cidr_parse_error)
    × (from_str (codes "192.0.2.7/33") ≡ err cidr_parse_error)
unfolding from_str split_once parse_ip parse_unsigned read_ipv4_addr read_ipv6_addr new normalize_ip
    mapped_ipv4 mask_ip mask_bits
from_str_runs = (refl, refl, refl, refl, refl)

contains_iff_example :
    (contains lan mapped_host ≡ true)
    ↔ SharesPrefix 24 (normalize_ip mapped_host) (normalize_ip mapped_host)
contains_iff_example =
    contains_iff mapped_host mapped_host 24 lan (omega arith) (omega arith) lan_made

primary_key_iff_example :
    (key : IpCidr) × (primary_key host ≡ ok key)
    × ((contains key mapped_host ≡ true)
        ↔ IsSameClient (normalize_ip host) (normalize_ip mapped_host))
primary_key_iff_example = primary_key_iff host mapped_host (omega arith) (omega arith)

-- A client wrote `10.0.0.1` in front of what the proxy added.
abbrev headers : HeaderMap
headers = some (codes "10.0.0.1, 198.51.100.7") ∷ some (codes " 192.0.2.9") ∷ []

abbrev spoofed : IpAddr
spoofed = v4 167772161

abbrev proxy : IpAddr
proxy = v4 3221225993

trusts :
    (is_trusted (lan ∷ []) (normalize_ip mapped_host) ≡ true)
    × (is_trusted (lan ∷ []) client ≡ false)
    × (is_trusted (lan ∷ []) proxy ≡ true)
    × (is_trusted [] (normalize_ip client) ≡ false)
unfolding is_trusted contains contains_address normalize_ip mapped_ipv4 mask_ip mask_bits
trusts = (refl, refl, refl, refl)

chain_of_headers : parse_forwarded_chain headers ≡ some (spoofed ∷ client ∷ proxy ∷ [])
unfolding parse_forwarded_chain push_values push_tokens parse_token trim split_at parse_ip
    read_ipv4_addr read_ipv6_addr normalize_ip mapped_ipv4
chain_of_headers = refl

resolve_rightmost_example :
    (identity : ClientIdentity) × (resolve_client_identity mapped_host headers (lan ∷ [])
      ≡ ok identity)
    × (identity.address ≡ client)
resolve_rightmost_example =
    resolve_rightmost mapped_host headers (lan ∷ []) (spoofed ∷ []) (proxy ∷ []) client trusts.0
      chain_of_headers trusts.1 (trusts.2, tt)

resolve_client_identity-IsChosen_example :
    (identity : ClientIdentity) × (resolve_client_identity client headers [] ≡ ok identity)
    × (primary_key identity.address ≡ ok identity.primary_key)
    × IsChosen client headers [] identity.address
resolve_client_identity-IsChosen_example = resolve_client_identity-IsChosen client headers []

abbrev client_identity : ClientIdentity
client_identity = record {
  address = client;
  primary_key = record { network = client; prefix_len = 32 };
}

resolved : resolve_client_identity mapped_host headers (lan ∷ []) ≡ ok client_identity
unfolding resolve_client_identity effective_address find_untrusted is_trusted contains
    contains_address primary_key new normalize_ip mapped_ipv4 mask_ip mask_bits
    parse_forwarded_chain push_values push_tokens parse_token trim split_at parse_ip read_ipv4_addr
    read_ipv6_addr
resolved = refl
