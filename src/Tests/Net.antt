-- ===== src/Tests/Net.antt =====
-- The address parser at concrete texts.
use north.Common.{◌+◌, ◌*◌, ◌^◌, ◌≡◌, refl, none, some}
use north.Common.Net.{v4, v6}
use north.Common.Net.Parse.{codes, parse_ip, read_ipv4_addr, read_ipv6_addr, parse_unsigned}

parses :
    (parse_ip (codes "192.0.2.1") ≡ some (v4 3221225985))
    × (parse_ip (codes "::1") ≡ some (v6 1))
    × (parse_ip (codes "::ffff:192.0.2.1") ≡ some (v6 (65535 * 2 ^ 32 + 3221225985)))
    × (parse_ip (codes "2001:db8::8:800:200c:417a") ≡ some (v6 0x20010db80000000000080800200c417a))
    × (parse_ip (codes "1:2:3:4:5:6:7:8") ≡ some (v6 0x00010002000300040005000600070008))
    × (parse_ip (codes "192.0.2.01") ≡ none)
    × (parse_ip (codes "192.0.2.256") ≡ none)
    × (parse_ip (codes "1::2::3") ≡ none)
    × (parse_ip (codes "::") ≡ some (v6 0))
    × (parse_ip (codes "1:2:3:4:5:6:7::") ≡ some (v6 0x00010002000300040005000600070000))
    × (parse_ip (codes "") ≡ none)
unfolding parse_ip read_ipv4_addr read_ipv6_addr
parses = (refl, refl, refl, refl, refl, refl, refl, refl, refl, refl, refl)

parses_unsigned :
    (parse_unsigned 255 (codes "+24") ≡ some 24)
    × (parse_unsigned 255 (codes "256") ≡ none)
    × (parse_unsigned 255 (codes "") ≡ none)
unfolding parse_unsigned
parses_unsigned = (refl, refl, refl)
