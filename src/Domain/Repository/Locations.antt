-- ===== src/Domain/Repository/Locations.antt =====
-- The locations that crates/north-domain/src/repository.rs accepts carry no credentials.
use north.Common.{
  ℕ, ◌≡◌, refl, ap, sym, subst, ◌∙◌, true, false, Option, none, some, List, [], ◌∷◌, ◌++◌, any,
  is_whitespace, arith,
}
use mathlib.Core.List.{append_assoc}
use north.Common.Net.Parse.{codes}
use north.Common.Slices.{split_once, strip_prefix, contains_char, contains_any, text_eq}
use north.Common.Slices.Joins.{split_once-some, split_once-none, strip_prefix-some, text_eq_sound}
use north.Domain.Repository.{
  https_location, https_parts, ssh_location, ssh_parts, ssh_user, ssh_host, scp_location, scp_parts,
  scp_host, scp_plain, scp_bracketed, scp_suffix, by_scheme, supported_git_url,
}

-- A text without the marks of a query and of a fragment
abbrev pub IsPlain : List ℕ → Type 0
IsPlain text = contains_any (b'?' ∷ b'#' ∷ []) text ≡ false

-- What a location may look like: the only user is `git`, nothing has a password, and a path has no
-- query and no fragment.
pub data IsLocation (value : List ℕ) : Type 0 where
  https :
      (authority path : List ℕ)
      → value ≡ (codes "https://" ++ (authority ++ (b'/' ∷ path)))
      → contains_char b'@' authority ≡ false
      → IsPlain authority
      → IsPlain path
      → IsLocation value
  ssh :
      (authority path : List ℕ)
      → value ≡ (codes "ssh://" ++ (authority ++ (b'/' ∷ path)))
      → contains_char b'@' authority ≡ false
      → IsPlain path
      → IsLocation value
  ssh_git :
      (host path : List ℕ)
      → value ≡ (codes "ssh://" ++ ((codes "git" ++ (b'@' ∷ host)) ++ (b'/' ∷ path)))
      → contains_char b'@' host ≡ false
      → IsPlain path
      → IsLocation value
  scp :
      (host path : List ℕ)
      → value ≡ (codes "git" ++ (b'@' ∷ (host ++ (b':' ∷ path))))
      → contains_char b'@' (host ++ (b':' ∷ path)) ≡ false
      → IsPlain path
      → IsLocation value

contains_any_first :
    (c : ℕ) (cs text : List ℕ) → contains_any (c ∷ cs) text ≡ false → contains_char c text ≡ false
unfolding contains_any contains_char
contains_any_first c cs [] h = refl
contains_any_first c cs (d ∷ text) h = ground (arith, contains_any_first c cs text)

-- Fewer characters are looked for.
contains_any_fewer :
    (text : List ℕ) → contains_any (b'@' ∷ b'?' ∷ b'#' ∷ b'%' ∷ []) text ≡ false → IsPlain text
unfolding contains_any contains_char
contains_any_fewer [] h = refl
contains_any_fewer (d ∷ text) h = ground (arith, contains_any_fewer text)

https_location-IsLocation :
    (value rest : List ℕ)
    → value ≡ (codes "https://" ++ rest)
    → https_location rest ≡ true
    → IsLocation value
unfolding https_location https_parts
https_location-IsLocation value rest whole h = by_parts (split_once b'/' rest) refl h
  where
    by_parts :
        (o : Option (List ℕ × List ℕ))
        → split_once b'/' rest ≡ o
        → https_parts o ≡ true
        → IsLocation value
    by_parts none e h = absurd (cc h)
    by_parts (some (authority, path)) e h =
        let free : contains_any (b'@' ∷ b'?' ∷ b'#' ∷ b'%' ∷ []) authority ≡ false = ground arith in
        https authority path
          (whole ∙ ap (λ t. codes "https://" ++ t) (split_once-some b'/' rest authority path e).0)
          (contains_any_first b'@' (b'?' ∷ b'#' ∷ b'%' ∷ []) authority free)
          (contains_any_fewer authority free) (ground arith)

ssh_location-IsLocation :
    (value rest : List ℕ)
    → value ≡ (codes "ssh://" ++ rest)
    → ssh_location rest ≡ true
    → IsLocation value
unfolding ssh_location ssh_parts
ssh_location-IsLocation value rest whole h = by_parts (split_once b'/' rest) refl h
  where
    by_user :
        (authority path : List ℕ) (o : Option (List ℕ × List ℕ))
        → value ≡ (codes "ssh://" ++ (authority ++ (b'/' ∷ path)))
        → split_once b'@' authority ≡ o
        → ssh_host path (ssh_user authority o) ≡ true
        → IsLocation value
    by_user authority path none joined e h =
        ssh authority path joined (split_once-none b'@' authority e) (ground arith)
    by_user authority path (some (user, host)) joined e h =
        let git : text_eq user (codes "git") ≡ true = ground arith in
        let free : contains_char b'@' host ≡ false = ground arith in
        let parts = (split_once-some b'@' authority user host e).0 in
        let named = ap (λ u. u ++ (b'@' ∷ host)) (text_eq_sound user (codes "git") git) in
        ssh_git host path
          (joined ∙ ap (λ a. codes "ssh://" ++ (a ++ (b'/' ∷ path))) (parts ∙ named)) free
          (ground arith)

    by_parts :
        (o : Option (List ℕ × List ℕ))
        → split_once b'/' rest ≡ o
        → ssh_parts o ≡ true
        → IsLocation value
    by_parts none e h = absurd (cc h)
    by_parts (some (authority, path)) e h =
        let hosted : ssh_host path (ssh_user authority (split_once b'@' authority)) ≡ true =
          ground arith in
        by_user authority path (split_once b'@' authority)
          (whole ∙ ap (λ t. codes "ssh://" ++ t) (split_once-some b'/' rest authority path e).0)
          refl hosted

-- What the short form has behind the user
scp_host-split :
    (rest : List ℕ) (o : Option (List ℕ))
    → strip_prefix (b'[' ∷ []) rest ≡ o
    → scp_host rest o ≡ true
    → (host : List ℕ) × (path : List ℕ) × (rest ≡ (host ++ (b':' ∷ path))) × IsPlain path
unfolding scp_host scp_plain scp_bracketed scp_suffix
scp_host-split rest none e h = by_parts (split_once b':' rest) refl h
  where
    by_parts :
        (p : Option (List ℕ × List ℕ))
        → split_once b':' rest ≡ p
        → scp_plain p ≡ true
        → (host : List ℕ) × (path : List ℕ) × (rest ≡ (host ++ (b':' ∷ path))) × IsPlain path
    by_parts none f g = absurd (cc g)
    by_parts (some (host, path)) f g =
        (host, path, (split_once-some b':' rest host path f).0, ground arith)
scp_host-split rest (some value) e h =
    by_parts (split_once b']' value) refl h (strip_prefix-some (b'[' ∷ []) rest value e)
  where
    by_suffix :
        (host suffix : List ℕ) (q : Option (List ℕ))
        → strip_prefix (b':' ∷ []) suffix ≡ q
        → scp_suffix host q ≡ true
        → (path : List ℕ) × (suffix ≡ (b':' ∷ path)) × IsPlain path
    by_suffix host suffix none f g = absurd (cc g)
    by_suffix host suffix (some path) f g =
        (path, strip_prefix-some (b':' ∷ []) suffix path f, ground arith)

    by_parts :
        (p : Option (List ℕ × List ℕ))
        → split_once b']' value ≡ p
        → scp_bracketed p ≡ true
        → rest ≡ (b'[' ∷ value)
        → (host : List ℕ) × (path : List ℕ) × (rest ≡ (host ++ (b':' ∷ path))) × IsPlain path
    by_parts none f g whole = absurd (cc g)
    by_parts (some (host, suffix)) f g whole =
        let (path, split, plain) = by_suffix host suffix (strip_prefix (b':' ∷ []) suffix) refl g in
        (
          b'[' ∷ (host ++ (b']' ∷ [])),
          path,
          whole
              ∙ ap (λ t. b'[' ∷ t)
                  ((split_once-some b']' value host suffix f).0
                    ∙ ap (λ t. host ++ (b']' ∷ t)) split
                    ∙ sym (append_assoc host (b']' ∷ []) (b':' ∷ path))),
          plain,
        )

scp_location-IsLocation : (value : List ℕ) → scp_location value ≡ true → IsLocation value
unfolding scp_location scp_parts
scp_location-IsLocation value h = by_parts (split_once b'@' value) refl h
  where
    by_parts :
        (o : Option (List ℕ × List ℕ))
        → split_once b'@' value ≡ o
        → scp_parts o ≡ true
        → IsLocation value
    by_parts none e h = absurd (cc h)
    by_parts (some (user, rest)) e h =
        let git : text_eq user (codes "git") ≡ true = ground arith in
        let free : contains_char b'@' rest ≡ false = ground arith in
        let (host, path, split, plain) =
          scp_host-split rest (strip_prefix (b'[' ∷ []) rest) refl (ground arith) in
        scp host path
          ((split_once-some b'@' value user rest e).0
            ∙ ap (λ u. u ++ (b'@' ∷ rest)) (text_eq_sound user (codes "git") git)
            ∙ ap (λ t. codes "git" ++ (b'@' ∷ t)) split)
          (subst (λ t. contains_char b'@' t ≡ false) split free) plain

by_scheme-IsLocation :
    (value : List ℕ) (o q : Option (List ℕ))
    → strip_prefix (codes "https://") value ≡ o
    → strip_prefix (codes "ssh://") value ≡ q
    → by_scheme value o q ≡ true
    → IsLocation value
unfolding by_scheme
by_scheme-IsLocation value (some rest) q e f h =
    https_location-IsLocation value rest (strip_prefix-some (codes "https://") value rest e) h
by_scheme-IsLocation value none (some rest) e f h =
    ssh_location-IsLocation value rest (strip_prefix-some (codes "ssh://") value rest f) h
by_scheme-IsLocation value none none e f h = scp_location-IsLocation value h

-- A location that is accepted carries no credentials, no query, no fragment and no white space: it is
-- an HTTPS location whose authority has no user, an SSH location whose authority has no user or only
-- the user `git`, or the short form of the user `git`; the path has no `?` and no `#`; and no
-- character of it is white space.
pub supported_git_url-IsLocation :
    (value : List ℕ)
    → supported_git_url value ≡ true
    → IsLocation value × (any is_whitespace value ≡ false)
unfolding supported_git_url
supported_git_url-IsLocation value h =
    let chosen : by_scheme value (strip_prefix (codes "https://") value)
          (strip_prefix (codes "ssh://") value)
        ≡ true =
      ground arith in
    let narrow : any is_whitespace value ≡ false = ground arith in
    (
      by_scheme-IsLocation value (strip_prefix (codes "https://") value)
          (strip_prefix (codes "ssh://") value) refl refl chosen,
      narrow,
    )
