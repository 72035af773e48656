-- ===== src/Server/Cidr/Laws.antt =====
-- What a network contains, and which addresses share a limiter key.
use north.Common.{
  ℕ, zero, suc, ◌-◌, ◌*◌, ◌/◌, ◌^◌, ◌<◌, ◌≡◌, refl, sym, ap, ◌∙◌, ◌↔◌, true, false, ok, ◌==◌, ltb,
  if◌then◌else◌, arith, eq_of_==, subst,
}
use native.Mathlib.Nat.{sub-zero, pow-succ', mul-div_cancel, div-eq_of_lt}
use north.Common.Net.{IpAddr, v4, v6}
use north.Server.Cidr.{
  IpCidr, mapped_ipv4, normalize_ip, mask_bits, mask_ip, max_prefix, new, contains_address,
  contains, primary_prefix, primary_key,
}

-- Two addresses of one family agree in their first `prefix_len` bits.
abbrev pub SharesPrefix : ℕ → IpAddr → IpAddr → Type 0
SharesPrefix p (v4 a) (v4 b) = a / 2 ^ (32 - p) ≡ b / 2 ^ (32 - p)
SharesPrefix p (v6 a) (v6 b) = a / 2 ^ (128 - p) ≡ b / 2 ^ (128 - p)
SharesPrefix p _ _ = ⊥

-- An address is a number of its width.
abbrev pub IsAddress : IpAddr → Type 0
IsAddress (v4 a) = a < 2 ^ 32
IsAddress (v6 a) = a < 2 ^ 128

normalize_ip-normalize_ip : (a : IpAddr) → normalize_ip (normalize_ip a) ≡ normalize_ip a
unfolding normalize_ip
normalize_ip-normalize_ip (v4 a) = refl
normalize_ip-normalize_ip (v6 a) = ground arith

pow-pos : (k : ℕ) → 0 < 2 ^ k
pow-pos zero = omega arith
pow-pos (suc k) = let ih = pow-pos k in let e = pow-succ' 2 k in omega arith

-- Clearing the low bits of two numbers gives one number exactly if the other bits agree.
masked_iff : (d a b : ℕ) → 0 < d → (a / d * d ≡ b / d * d) ↔ (a / d ≡ b / d)
masked_iff d a b hd = (
  λ h. sym (mul-div_cancel (a / d) hd) ∙ ap (λ t. t / d) h ∙ mul-div_cancel (b / d) hd,
  λ h. ap (λ t. t * d) h,
)

suc_ne : (p : ℕ) → (suc p == 0) ≡ false
suc_ne p = ground arith

mask_bits-suc : (w p a : ℕ) → mask_bits w a (suc p) ≡ a / 2 ^ (w - suc p) * 2 ^ (w - suc p)
unfolding mask_bits
mask_bits-suc w p a = ap (λ t. if t then 0 else a / 2 ^ (w - suc p) * 2 ^ (w - suc p)) (suc_ne p)

mask_bits_iff :
    (w p a b : ℕ)
    → a < 2 ^ w
    → b < 2 ^ w
    → (mask_bits w a p ≡ mask_bits w b p) ↔ (a / 2 ^ (w - p) ≡ b / 2 ^ (w - p))
unfolding mask_bits
mask_bits_iff w zero a b ha hb =
    let top = λ (x : ℕ) (h : x < 2 ^ w). ap (λ t. x / 2 ^ t) (sub-zero w) ∙ div-eq_of_lt h in
    (λ _. top a ha ∙ sym (top b hb), λ _. refl)
mask_bits_iff w (suc p) a b ha hb =
    let same = masked_iff (2 ^ (w - suc p)) a b (pow-pos (w - suc p)) in
    (
      λ h. same.0 (sym (mask_bits-suc w p a) ∙ h ∙ mask_bits-suc w p b),
      λ h. mask_bits-suc w p a ∙ same.1 h ∙ sym (mask_bits-suc w p b),
    )

mask_test_iff :
    (w p a b : ℕ)
    → a < 2 ^ w
    → b < 2 ^ w
    → ((mask_bits w b p == mask_bits w a p) ≡ true) ↔ (a / 2 ^ (w - p) ≡ b / 2 ^ (w - p))
mask_test_iff w p a b ha hb =
    let same = mask_bits_iff w p a b ha hb in
    (
      λ h. same.0 (sym (eq_of_== (mask_bits w b p) (mask_bits w a p) h)),
      λ h. let e = same.1 h in ground arith,
    )

contains_address_iff :
    (p : ℕ) (n a : IpAddr)
    → IsAddress n
    → IsAddress a
    → (contains_address (mask_ip n p) p a ≡ true) ↔ SharesPrefix p n a
unfolding contains_address mask_ip
contains_address_iff p (v4 n) (v4 a) hn ha = mask_test_iff 32 p n a hn ha
contains_address_iff p (v6 n) (v6 a) hn ha = mask_test_iff 128 p n a hn ha
contains_address_iff p (v4 n) (v6 a) hn ha = (λ h. absurd (cc h), λ h. absurd h)
contains_address_iff p (v6 n) (v4 a) hn ha = (λ h. absurd (cc h), λ h. absurd h)

normalize_ip-IsAddress : (a : IpAddr) → IsAddress a → IsAddress (normalize_ip a)
unfolding normalize_ip mapped_ipv4
normalize_ip-IsAddress (v4 a) h = h
normalize_ip-IsAddress (v6 a) h = ground arith

abbrev pub network_of : IpAddr → ℕ → IpCidr
network_of n p = record { network = mask_ip (normalize_ip n) p; prefix_len = p }

new-ok : (n : IpAddr) (p : ℕ) (cidr : IpCidr) → new n p ≡ ok cidr → network_of n p ≡ cidr
unfolding new
new-ok n p cidr h = ground arith

primary_prefix-fits : (n : IpAddr) → ltb (max_prefix n) (primary_prefix n) ≡ false
primary_prefix-fits (v4 _) = refl
primary_prefix-fits (v6 _) = refl

pub primary_key-ok :
    (a : IpAddr) → primary_key a ≡ ok (network_of a (primary_prefix (normalize_ip a)))
unfolding new primary_key
primary_key-ok a =
    let idempotent = normalize_ip-normalize_ip a in
    let fits = primary_prefix-fits (normalize_ip a) in ground (arith, idempotent, fits)

network_of_iff :
    (p : ℕ) (n a : IpAddr)
    → IsAddress n
    → IsAddress a
    → (contains (network_of n p) a ≡ true) ↔ SharesPrefix p (normalize_ip n) (normalize_ip a)
unfolding contains
network_of_iff p n a hn ha =
    contains_address_iff p (normalize_ip n) (normalize_ip a) (normalize_ip-IsAddress n hn)
      (normalize_ip-IsAddress a ha)

-- A network that `new` makes contains an address exactly if the normal forms of the address and of
-- the address it was made from are of one family and agree in their first `prefix_len` bits.
pub contains_iff :
    (n a : IpAddr) (prefix_len : ℕ) (cidr : IpCidr)
    → IsAddress n
    → IsAddress a
    → new n prefix_len ≡ ok cidr
    → (contains cidr a ≡ true) ↔ SharesPrefix prefix_len (normalize_ip n) (normalize_ip a)
contains_iff n a p cidr hn ha h =
    subst (λ c. (contains c a ≡ true) ↔ SharesPrefix p (normalize_ip n) (normalize_ip a))
      (new-ok n p cidr h) (network_of_iff p n a hn ha)

-- Two addresses of one family are one client: IPv4 addresses if they are equal, IPv6 addresses if they
-- agree in all but their last 64 bits.
abbrev pub IsSameClient : IpAddr → IpAddr → Type 0
IsSameClient (v4 a) (v4 b) = a ≡ b
IsSameClient (v6 a) (v6 b) = a / 2 ^ 64 ≡ b / 2 ^ 64
IsSameClient _ _ = ⊥

IsSameClient-SharesPrefix : (a b : IpAddr) → SharesPrefix (primary_prefix a) a b ↔ IsSameClient a b
IsSameClient-SharesPrefix (v4 a) (v4 b) = (λ h. omega arith, λ h. omega arith)
IsSameClient-SharesPrefix (v6 a) (v6 b) = (λ h. h, λ h. h)
IsSameClient-SharesPrefix (v4 a) (v6 b) = (λ h. h, λ h. h)
IsSameClient-SharesPrefix (v6 a) (v4 b) = (λ h. h, λ h. h)

-- Every address has a limiter key, and the key contains another address exactly if the two are the
-- same IPv4 address, or IPv6 addresses that agree in all but their last 64 bits; an IPv6 address that
-- maps an IPv4 address counts as that address.
pub primary_key_iff :
    (a b : IpAddr)
    → IsAddress a
    → IsAddress b
    → (key : IpCidr) × (primary_key a ≡ ok key)
      × ((contains key b ≡ true) ↔ IsSameClient (normalize_ip a) (normalize_ip b))
primary_key_iff a b ha hb =
    let p = primary_prefix (normalize_ip a) in
    let shares = network_of_iff p a b ha hb in
    let same = IsSameClient-SharesPrefix (normalize_ip a) (normalize_ip b) in
    (network_of a p, primary_key-ok a, (λ h. same.0 (shares.0 h), λ h. shares.1 (same.1 h)))
