-- ===== src/Common/Net.antt =====
-- What the program uses of Rust's `std::net`: addresses as numbers, and the parser of their texts.
pub mod Parse
use north.Common.{ℕ, Bool, false, ◌==◌}

-- `Ipv4Addr` is a number below 2 ^ 32, `Ipv6Addr` one below 2 ^ 128.
pub data IpAddr : Type 0 where
  v4 v6 : ℕ → IpAddr

-- The derived `PartialEq`.
abbrev pub ip_eq : IpAddr → IpAddr → Bool
ip_eq (v4 a) (v4 b) = a == b
ip_eq (v6 a) (v6 b) = a == b
ip_eq _ _ = false
