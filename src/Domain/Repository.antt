-- ===== src/Domain/Repository.antt =====
-- The metadata of a repository and the shapes of its location (crates/north-domain/src/repository.rs).
pub mod Locations
pub mod Again
use north.Common.{
  ℕ, Bool, true, false, not, ◌&&◌, ◌||◌, Option, none, some, List, [], ◌∷◌, any, all, is_empty,
  is_whitespace, String, Result, ok, refuse_if, ◌>>=◌, ◌>>◌, leb, ltb, ◌==◌, if◌then◌else◌,
}
use north.Common.Net.Parse.{codes, parse_ipv6, parse_unsigned}
use north.Common.Slices.{
  split_once, rsplit_once, split_at, strip_prefix, starts_with, ends_with, contains_char,
  contains_any, contains_text, trim, text_eq, text_len,
}

abbrev pub max_name_bytes : ℕ
max_name_bytes = 100

abbrev pub max_description_bytes : ℕ
max_description_bytes = 10000

abbrev pub max_url_bytes : ℕ
max_url_bytes = 2048

pub record RepositoryMetadata : Type 0 where
  pub name : List ℕ
  pub name_normalized : List ℕ
  pub url : List ℕ
  pub description : List ℕ

pub data RepositoryError : Type 0 where
  empty_name name_too_long description_too_long empty_url url_too_long invalid_url : RepositoryError

unfoldable pub code : RepositoryError → String
code empty_name = "empty_name"
code name_too_long = "name_too_long"
code description_too_long = "description_too_long"
code empty_url = "empty_url"
code url_too_long = "url_too_long"
code invalid_url = "invalid_url"

-- `is_ascii_alphanumeric` and `is_ascii_digit`
abbrev is_ascii_digit : ℕ → Bool
is_ascii_digit c = leb 48 c && leb c 57

abbrev is_ascii_alphanumeric : ℕ → Bool
is_ascii_alphanumeric c = is_ascii_digit c || leb 65 c && leb c 90 || leb 97 c && leb c 122

unfoldable pub valid_ipv6 : List ℕ → Bool
unfolding parse_ipv6
valid_ipv6 host = elim (parse_ipv6 host) [ none ↦ false | some _ ↦ true ]

abbrev is_positive : Option ℕ → Bool
is_positive none = false
is_positive (some value) = ltb 0 value

unfoldable pub valid_port : Option (List ℕ) → Bool
unfolding parse_unsigned
valid_port none = true
valid_port (some port) = all is_ascii_digit port && is_positive (parse_unsigned 65535 port)

abbrev pub valid_label : List ℕ → Bool
valid_label label =
    not (is_empty label)
    && not (starts_with b'-' label)
    && not (ends_with b'-' label)
    && all (λ c. is_ascii_alphanumeric c || c == b'-') label

unfoldable pub valid_host : List ℕ → Bool
unfolding split_at
valid_host host = not (is_empty host) && all valid_label (split_at b'.' host)

-- A host with a port that is not empty; else the whole authority is a host.
abbrev with_port : List ℕ → Option (List ℕ × List ℕ) → Bool
unfolding valid_host valid_port
with_port authority none = valid_host authority && valid_port none
with_port authority (some (host, port)) =
    if is_empty port
    then valid_host authority && valid_port none
    else valid_host host && valid_port (some port)

-- What follows the bracket.
abbrev after_bracket : List ℕ → List ℕ → Bool
unfolding valid_ipv6 valid_port
after_bracket host suffix =
    if is_empty suffix
    then valid_ipv6 host && valid_port none
    else elim (strip_prefix (b':' ∷ []) suffix) [
      | none ↦ false
      | some port ↦ not (is_empty port) && valid_ipv6 host && valid_port (some port)
    ]

abbrev bracketed : Option (List ℕ × List ℕ) → Bool
unfolding after_bracket
bracketed none = false
bracketed (some (host, suffix)) = after_bracket host suffix

abbrev host_port_of : List ℕ → Option (List ℕ) → Bool
unfolding with_port bracketed
host_port_of authority (some value) = bracketed (split_once b']' value)
host_port_of authority none = with_port authority (rsplit_once b':' authority)

unfoldable pub valid_host_port : List ℕ → Bool
unfolding host_port_of split_once rsplit_once
valid_host_port authority = host_port_of authority (strip_prefix (b'[' ∷ []) authority)

abbrev pub https_parts : Option (List ℕ × List ℕ) → Bool
unfolding valid_host_port
https_parts none = false
https_parts (some (authority, path)) =
    not (is_empty authority)
    && not (contains_any (b'@' ∷ b'?' ∷ b'#' ∷ b'%' ∷ []) authority)
    && not (is_empty path)
    && not (starts_with b'/' path)
    && not (starts_with b'?' path)
    && not (starts_with b'#' path)
    && not (contains_any (b'?' ∷ b'#' ∷ []) path)
    && valid_host_port authority

unfoldable pub https_location : List ℕ → Bool
unfolding https_parts
https_location rest = https_parts (split_once b'/' rest)

abbrev pub ssh_user : List ℕ → Option (List ℕ × List ℕ) → Option (List ℕ)
ssh_user authority none = some authority
ssh_user authority (some (user, host)) =
    if not (text_eq user (codes "git"))
      || is_empty host
      || contains_char b'@' host
      || contains_char b':' user
    then none
    else some host

abbrev pub ssh_host : List ℕ → Option (List ℕ) → Bool
unfolding valid_host_port
ssh_host path none = false
ssh_host path (some host) = valid_host_port host && not (contains_any (b'?' ∷ b'#' ∷ []) path)

abbrev pub ssh_parts : Option (List ℕ × List ℕ) → Bool
unfolding ssh_host
ssh_parts none = false
ssh_parts (some (authority, path)) =
    if is_empty authority || is_empty path || starts_with b'/' path || starts_with b'?' path
    then false
    else ssh_host path (ssh_user authority (split_once b'@' authority))

unfoldable pub ssh_location : List ℕ → Bool
unfolding ssh_parts
ssh_location rest = ssh_parts (split_once b'/' rest)

abbrev good_path : List ℕ → Bool
good_path path =
    not (is_empty path) && not (starts_with b'/' path) && not (contains_any (b'?' ∷ b'#' ∷ []) path)

abbrev pub scp_suffix : List ℕ → Option (List ℕ) → Bool
unfolding valid_ipv6
scp_suffix host none = false
scp_suffix host (some path) = valid_ipv6 host && good_path path

abbrev pub scp_bracketed : Option (List ℕ × List ℕ) → Bool
unfolding scp_suffix
scp_bracketed none = false
scp_bracketed (some (host, suffix)) = scp_suffix host (strip_prefix (b':' ∷ []) suffix)

abbrev pub scp_plain : Option (List ℕ × List ℕ) → Bool
unfolding valid_host
scp_plain none = false
scp_plain (some (host, path)) = valid_host host && good_path path

abbrev pub scp_host : List ℕ → Option (List ℕ) → Bool
unfolding scp_bracketed scp_plain
scp_host rest (some value) = scp_bracketed (split_once b']' value)
scp_host rest none = scp_plain (split_once b':' rest)

abbrev pub scp_parts : Option (List ℕ × List ℕ) → Bool
unfolding scp_host
scp_parts none = false
scp_parts (some (user, rest)) =
    if not (text_eq user (codes "git"))
      || contains_char b'@' rest
      || contains_text (codes "://") rest
    then false
    else scp_host rest (strip_prefix (b'[' ∷ []) rest)

unfoldable pub scp_location : List ℕ → Bool
unfolding scp_parts
scp_location value = scp_parts (split_once b'@' value)

abbrev pub by_scheme : List ℕ → Option (List ℕ) → Option (List ℕ) → Bool
unfolding https_location ssh_location scp_location
by_scheme value (some rest) ssh = https_location rest
by_scheme value none (some rest) = ssh_location rest
by_scheme value none none = scp_location value

unfoldable pub supported_git_url : List ℕ → Bool
unfolding by_scheme
supported_git_url value =
    if is_empty value || any is_whitespace value
    then false
    else by_scheme value (strip_prefix (codes "https://") value)
        (strip_prefix (codes "ssh://") value)

-- The lower case of a text is the standard library's.
module _ (to_lowercase : List ℕ → List ℕ) where
  abbrev pub metadata : List ℕ → List ℕ → List ℕ → RepositoryMetadata
  metadata name url description = record {
    name = name;
    name_normalized = to_lowercase name;
    url = url;
    description = description;
  }

  -- The checks, on texts that are trimmed.
  unfoldable pub validate_trimmed :
      List ℕ → List ℕ → List ℕ → Result RepositoryMetadata RepositoryError
  unfolding supported_git_url text_len
  validate_trimmed name url description = do
    refuse_if (is_empty name) empty_name
    refuse_if (ltb max_name_bytes (text_len name)) name_too_long
    refuse_if (ltb max_description_bytes (text_len description)) description_too_long
    refuse_if (is_empty url) empty_url
    refuse_if (ltb max_url_bytes (text_len url)) url_too_long
    refuse_if (not (supported_git_url url)) invalid_url
    ok (metadata name url description)

  unfoldable pub validate_metadata :
      List ℕ → List ℕ → List ℕ → Result RepositoryMetadata RepositoryError
  unfolding validate_trimmed trim
  validate_metadata name url description =
      validate_trimmed (trim name) (trim url) (trim description)
