-- ===== src/Server/Identity/Trust.antt =====
-- Which address the client's identity is taken from.
use north.Common.{
  ◌≡◌, refl, sym, ap, ◌∙◌, subst, true, false, Option, none, some, List, [], ◌∷◌, ◌++◌, All,
  All-append, ◌⊎◌, inl, inr, ok, if◌then◌else◌, arith, Bool-cases,
}
use mathlib.Core.List.{reverse, reverse-cons, reverse-append, append_assoc, reverse-reverse}
use north.Common.Net.{IpAddr}
use north.Common.Net.Parse.{then_read}
use north.Server.Cidr.{IpCidr, normalize_ip, primary_prefix, primary_key}
use north.Server.Cidr.Laws.{primary_key-ok, network_of}
use north.Server.Identity.{
  ClientIdentity, HeaderMap, parse_forwarded_chain, is_trusted, find_untrusted, effective_address,
  resolve_client_identity, identity_of, or_peer,
}

abbrev pub Trusted : List IpCidr → IpAddr → Type 0
Trusted trusted a = is_trusted trusted a ≡ true

-- Trusted addresses in front are passed over.
find_untrusted-append :
    (trusted : List IpCidr) (xs ys : List IpAddr)
    → All (Trusted trusted) xs
    → find_untrusted trusted (xs ++ ys) ≡ find_untrusted trusted ys
unfolding find_untrusted
find_untrusted-append trusted [] ys h = refl
find_untrusted-append trusted (x ∷ xs) ys h =
    ground (arith, h.0, find_untrusted-append trusted xs ys h.1)

All-reverse : (P : IpAddr → Type 0) (xs : List IpAddr) → All P xs → All P (reverse xs)
All-reverse P [] h = h
All-reverse P (x ∷ xs) h =
    subst (All P) (sym (reverse-cons x xs))
      (All-append P (reverse xs) (x ∷ []) (All-reverse P xs h.1) (h.0, tt))

reverse-around :
    (before after : List IpAddr) (a : IpAddr)
    → reverse (before ++ (a ∷ after)) ≡ reverse after ++ (a ∷ reverse before)
reverse-around before after a =
    reverse-append before (a ∷ after)
    ∙ ap (λ t. t ++ reverse before) (reverse-cons a after)
    ∙ append_assoc (reverse after) (a ∷ []) (reverse before)

-- The search from the right stops at `a` if it is the last address that is not trusted.
find_untrusted-reverse :
    (trusted : List IpCidr) (before after : List IpAddr) (a : IpAddr)
    → is_trusted trusted a ≡ false
    → All (Trusted trusted) after
    → find_untrusted trusted (reverse (before ++ (a ∷ after))) ≡ some a
unfolding find_untrusted
find_untrusted-reverse trusted before after a ha hafter =
    ap (find_untrusted trusted) (reverse-around before after a)
    ∙ find_untrusted-append trusted (reverse after) (a ∷ reverse before)
        (All-reverse (Trusted trusted) after hafter)
    ∙ ap (λ t. if t then find_untrusted trusted (reverse before) else some a) ha

resolve-address :
    (peer : IpAddr) (headers : HeaderMap) (trusted : List IpCidr) (client : IpAddr)
    → effective_address peer headers trusted ≡ client
    → (identity : ClientIdentity) × (resolve_client_identity peer headers trusted ≡ ok identity)
      × (identity.address ≡ client)
unfolding resolve_client_identity
resolve-address peer headers trusted client h =
    let a = effective_address peer headers trusted in
    (
      record { address = a; primary_key = network_of a (primary_prefix (normalize_ip a)) },
      ap (identity_of a) (primary_key-ok a),
      h,
    )

-- When the peer is a trusted proxy and the forwarded chain can be read, the identity is the rightmost
-- address of the chain that is no trusted proxy, whatever a client wrote in front of it.
pub resolve_rightmost :
    (peer : IpAddr) (headers : HeaderMap) (trusted : List IpCidr) (before after : List IpAddr)
    (client : IpAddr)
    → is_trusted trusted (normalize_ip peer) ≡ true
    → parse_forwarded_chain headers ≡ some (before ++ (client ∷ after))
    → is_trusted trusted client ≡ false
    → All (Trusted trusted) after
    → (identity : ClientIdentity) × (resolve_client_identity peer headers trusted ≡ ok identity)
      × (identity.address ≡ client)
unfolding effective_address
resolve_rightmost peer headers trusted before after client hp hc hu hafter =
    let found = find_untrusted-reverse trusted before after client hu hafter in
    resolve-address peer headers trusted client (ground (arith, found))

-- Where the address of an identity may come from: from the peer, which is no trusted proxy, or has sent
-- no chain that can be read, or one of trusted proxies only; or from the chain of a trusted peer, in
-- which it is the rightmost address that is no trusted proxy.
pub data IsChosen (peer : IpAddr) (headers : HeaderMap) (trusted : List IpCidr) (a : IpAddr)
    : Type 0 where
  direct :
      a ≡ normalize_ip peer
      → is_trusted trusted (normalize_ip peer) ≡ false
      → IsChosen peer headers trusted a
  unreadable :
      a ≡ normalize_ip peer → parse_forwarded_chain headers ≡ none → IsChosen peer headers trusted a
  proxies_only :
      (chain : List IpAddr)
      → a ≡ normalize_ip peer
      → parse_forwarded_chain headers ≡ some chain
      → All (Trusted trusted) chain
      → IsChosen peer headers trusted a
  forwarded :
      (before after : List IpAddr)
      → is_trusted trusted (normalize_ip peer) ≡ true
      → parse_forwarded_chain headers ≡ some (before ++ (a ∷ after))
      → is_trusted trusted a ≡ false
      → All (Trusted trusted) after
      → IsChosen peer headers trusted a

-- What the search has passed over.
find_untrusted-cases :
    (trusted : List IpCidr) (chain : List IpAddr)
    → ((find_untrusted trusted chain ≡ none) × All (Trusted trusted) chain)
      ⊎ ((front : List IpAddr) × (a : IpAddr) × (back : List IpAddr) × (find_untrusted trusted chain
            ≡ some a)
          × (chain ≡ (front ++ (a ∷ back)))
          × (is_trusted trusted a ≡ false)
          × All (Trusted trusted) front)
unfolding find_untrusted
find_untrusted-cases trusted [] = inl (refl, tt)
find_untrusted-cases trusted (x ∷ xs) = elim (Bool-cases (is_trusted trusted x)) [
  | inl own ↦ elim (find_untrusted-cases trusted xs) [
    | inl (nothing, all_of) ↦ inl (ground (arith, own, nothing), (own, all_of))
    | inr (front, a, back, found, split, free, passed) ↦
        inr (
          x ∷ front,
          a,
          back,
          ground (arith, own, found),
          ap (λ t. x ∷ t) split,
          free,
          (own, passed),
        )
  ]
  | inr other ↦ inr ([], x, xs, ground (arith, other), refl, other, tt)
]

chain-IsChosen :
    (peer : IpAddr) (headers : HeaderMap) (trusted : List IpCidr) (o : Option (List IpAddr))
    → is_trusted trusted (normalize_ip peer) ≡ true
    → parse_forwarded_chain headers ≡ o
    → IsChosen peer headers trusted (
        or_peer (normalize_ip peer) (then_read o (λ chain. find_untrusted trusted (reverse chain))))
chain-IsChosen peer headers trusted none proxy read = IsChosen.unreadable refl read
chain-IsChosen peer headers trusted (some chain) proxy read =
    elim (find_untrusted-cases trusted (reverse chain)) [
      | inl (nothing, all_of) ↦
          IsChosen.proxies_only chain (ap (or_peer (normalize_ip peer)) nothing) read (
            subst (All (Trusted trusted)) (reverse-reverse chain)
              (All-reverse (Trusted trusted) (reverse chain) all_of))
      | inr (front, a, back, found, split, free, passed) ↦
          let whole : chain ≡ reverse back ++ (a ∷ reverse front) =
            sym (reverse-reverse chain) ∙ ap reverse split ∙ reverse-around front back a in
          subst (IsChosen peer headers trusted) (sym (ap (or_peer (normalize_ip peer)) found)) (
            IsChosen.forwarded (reverse back) (reverse front) proxy (read ∙ ap some whole) free
              (All-reverse (Trusted trusted) front passed))
    ]

effective_address-IsChosen :
    (peer : IpAddr) (headers : HeaderMap) (trusted : List IpCidr)
    → IsChosen peer headers trusted (effective_address peer headers trusted)
unfolding effective_address
effective_address-IsChosen peer headers trusted =
    elim (Bool-cases (is_trusted trusted (normalize_ip peer))) [
      | inl proxy ↦
          subst (IsChosen peer headers trusted) (ground (arith, proxy))
            (chain-IsChosen peer headers trusted (parse_forwarded_chain headers) proxy refl)
      | inr other ↦ IsChosen.direct (ground (arith, other)) other
    ]

-- Every request gets an identity. Its key is the one of its address, and the address is the peer's, or
-- the rightmost address of a trusted peer's chain that is no trusted proxy; it is the peer's only if
-- the peer is no trusted proxy, or no chain can be read, or the chain has trusted proxies only.
pub resolve_client_identity-IsChosen :
    (peer : IpAddr) (headers : HeaderMap) (trusted : List IpCidr)
    → (identity : ClientIdentity) × (resolve_client_identity peer headers trusted ≡ ok identity)
      × (primary_key identity.address ≡ ok identity.primary_key)
      × IsChosen peer headers trusted identity.address
unfolding resolve_client_identity
resolve_client_identity-IsChosen peer headers trusted =
    let a = effective_address peer headers trusted in
    (
      record { address = a; primary_key = network_of a (primary_prefix (normalize_ip a)) },
      ap (identity_of a) (primary_key-ok a),
      primary_key-ok a,
      effective_address-IsChosen peer headers trusted,
    )
