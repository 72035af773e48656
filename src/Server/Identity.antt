-- ===== src/Server/Identity.antt =====
-- `resolve_client_identity`: the client's address behind trusted proxies
-- (crates/north-server/src/public_abuse.rs).
pub mod Trust
use north.Common.{
  ℕ, Bool, Option, none, some, List, [], ◌∷◌, ◌++◌, any, is_empty, Result, ok, err, if◌then◌else◌,
}
use mathlib.Core.List.{reverse}
use north.Common.Slices.{split_at, trim}
use north.Common.Net.{IpAddr}
use north.Common.Net.Parse.{parse_ip, then_read}
use north.Server.Cidr.{IpCidr, CidrParseError, contains, normalize_ip, primary_key}

-- The key before it is printed.
pub record ClientIdentity : Type 0 where
  pub address : IpAddr
  pub primary_key : IpCidr

-- The values of the header `x-forwarded-for`, in order; `none` where `to_str` fails.
abbrev pub HeaderMap : Type 0
HeaderMap = List (Option (List ℕ))

unfoldable pub parse_token : List ℕ → Option IpAddr
parse_token token =
    let trimmed = trim token in
    if is_empty trimmed then none else then_read (parse_ip trimmed) (λ a. some (normalize_ip a))

-- The inner loop: the tokens of one value go to the end of `chain`.
unfoldable pub push_tokens : List IpAddr → List (List ℕ) → Option (List IpAddr)
push_tokens chain [] = some chain
push_tokens chain (token ∷ tokens) =
    then_read (parse_token token) (λ address. push_tokens (chain ++ (address ∷ [])) tokens)

-- The outer loop, over the values of the header.
unfoldable pub push_values : List IpAddr → HeaderMap → Option (List IpAddr)
push_values chain [] = some chain
push_values chain (none ∷ values) = none
push_values chain (some value ∷ values) =
    then_read (push_tokens chain (split_at b',' value)) (λ longer. push_values longer values)

abbrev non_empty_chain : List IpAddr → Option (List IpAddr)
non_empty_chain [] = none
non_empty_chain (a ∷ chain) = some (a ∷ chain)

-- Without a value the chain is empty, so the test of `found` is that of the chain.
unfoldable pub parse_forwarded_chain : HeaderMap → Option (List IpAddr)
parse_forwarded_chain headers = then_read (push_values [] headers) non_empty_chain

unfoldable pub is_trusted : List IpCidr → IpAddr → Bool
is_trusted trusted address = any (λ network. contains network address) trusted

-- `find` the first that is not trusted
unfoldable pub find_untrusted : List IpCidr → List IpAddr → Option IpAddr
find_untrusted trusted [] = none
find_untrusted trusted (a ∷ chain) =
    let later = find_untrusted trusted chain in if is_trusted trusted a then later else some a

abbrev or_peer : IpAddr → Option IpAddr → IpAddr
or_peer peer none = peer
or_peer peer (some a) = a

unfoldable pub effective_address : IpAddr → HeaderMap → List IpCidr → IpAddr
effective_address peer headers trusted =
    let immediate_peer = normalize_ip peer in
    if is_trusted trusted immediate_peer
    then or_peer immediate_peer (
        then_read (parse_forwarded_chain headers) (λ chain. find_untrusted trusted (reverse chain)))
    else immediate_peer

abbrev identity_of : IpAddr → Result IpCidr CidrParseError → Result ClientIdentity CidrParseError
identity_of a (ok key) = ok (record { address = a; primary_key = key })
identity_of a (err e) = err e

-- The error case is the panic of `IpCidr::primary_key`.
unfoldable pub resolve_client_identity :
    IpAddr → HeaderMap → List IpCidr → Result ClientIdentity CidrParseError
resolve_client_identity peer headers trusted =
    let a = effective_address peer headers trusted in identity_of a (primary_key a)
