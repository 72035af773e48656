-- ===== src/Daemon/Inspection.antt =====
-- Which repositories and which selections crates/north-daemon/src/repository_inspection.rs lets
-- pass, before any Git command runs.
pub mod Authorized
use north.Common.{
  ℕ, ◌/◌, String, str_eq, is_blank, List, [], ◌∷◌, Option, none, some, Bool, true, false, not, ◌&&◌,
  ◌||◌, Result, ok, err, refuse_if, ◌>>=◌, ◌>>◌, any, find, is_empty, is_whitespace, if◌then◌else◌,
}
use north.Common.Net.Parse.{codes}
use north.Common.Slices.{split_once, split_text, strip_prefix, contains_char, contains_any, text_eq}
use north.Protocol.Command.{RepositoryContext, SessionStart}

-- The errors of the phase of authorization; each constructor is one text.
pub data InspectionError : Type 0 where
  repository_id_empty url_empty url_has_credentials outside_url_policy : InspectionError
  session_id_empty session_mismatch url_mismatch outside_allowlist : InspectionError
  authorized_twice not_authorized : String → InspectionError

pub record RepositorySource : Type 0 where
  pub repository_id : String
  pub url : String

pub record RunAuthorization : Type 0 where
  pub session_id : String
  pub repositories : List RepositorySource

pub record InspectionRequest : Type 0 where
  pub session_id : String
  pub task_id : String
  pub repository : RepositorySource

abbrev git_only : List ℕ → Option (List ℕ × List ℕ) → Bool
git_only authority none = true
git_only authority (some (user, host)) = text_eq user (codes "git") && not (contains_char b'@' host)

abbrev by_authority : List ℕ → Option (List ℕ × List ℕ) → Bool
by_authority scheme none = false
by_authority scheme (some (authority, path)) =
    if text_eq scheme (codes "https")
    then not (contains_char b'@' authority)
    else if text_eq scheme (codes "ssh")
    then git_only authority (split_once b'@' authority)
    else not (contains_char b'@' authority)

abbrev by_scheme : List ℕ → Option (List ℕ × List ℕ) → Bool
by_scheme url none = git_only url (split_once b'@' url)
by_scheme url (some (scheme, rest)) = by_authority scheme (split_once b'/' rest)

unfoldable pub credential_free_location : List ℕ → Bool
unfolding split_text
credential_free_location url =
    if contains_any (b'?' ∷ b'#' ∷ []) url
    then false
    else by_scheme url (split_text (codes "://") url)

abbrev or_else : Option (List ℕ) → Option (List ℕ) → Option (List ℕ)
or_else (some a) other = some a
or_else none other = other

abbrev with_path : List ℕ → Option (List ℕ × List ℕ) → Bool
unfolding credential_free_location
with_path url none = false
with_path url (some (authority, path)) =
    not (is_empty authority) && not (is_empty path) && credential_free_location url

abbrev short_parts : Option (List ℕ × List ℕ) → Bool
short_parts none = false
short_parts (some (host, path)) =
    not (is_empty host) && not (is_empty path) && not (contains_any (b'/' ∷ b'@' ∷ []) host)

abbrev short_form : Option (List ℕ) → Bool
short_form none = false
short_form (some rest) = short_parts (split_once b':' rest)

abbrev schemed : List ℕ → Option (List ℕ) → Bool
unfolding with_path
schemed url (some rest) = with_path url (split_once b'/' rest)
schemed url none = short_form (strip_prefix (codes "git@") url)

unfoldable pub server_repository_location : List ℕ → Bool
unfolding schemed
server_repository_location url =
    schemed url (or_else (strip_prefix (codes "https://") url) (strip_prefix (codes "ssh://") url))

-- `RepositorySource::validate`
unfoldable pub source_validate : RepositorySource → Result (Unit {0}) InspectionError
unfolding credential_free_location
source_validate s = do
  refuse_if (is_blank s.repository_id) repository_id_empty
  refuse_if (is_blank s.url || any is_whitespace (codes s.url)) url_empty
  refuse_if (not (credential_free_location (codes s.url))) url_has_credentials

abbrev pub source_of : RepositoryContext → RepositorySource
source_of context = record { repository_id = context.repository_id; url = context.url }

-- `RepositorySource::from_context`
unfoldable pub from_context : RepositoryContext → Result RepositorySource InspectionError
unfolding source_validate server_repository_location
from_context context =
    let source = source_of context in
    source_validate source
    >> (refuse_if (not (server_repository_location (codes source.url))) outside_url_policy
        >> ok source)

abbrev is_source : String → RepositorySource → Bool
is_source repository_id s = str_eq s.repository_id repository_id

-- The loop over the repositories; `seen` are the ones in front.
unfoldable pub check_repositories :
    List RepositorySource → List RepositorySource → Result (Unit {0}) InspectionError
unfolding source_validate
check_repositories seen [] = ok tt
check_repositories seen (s ∷ rest) =
    source_validate s
    >> (refuse_if (any (is_source s.repository_id) seen) (authorized_twice s.repository_id)
        >> check_repositories (s ∷ seen) rest)

-- `RunAuthorization::new`
unfoldable pub authorization_new :
    String → List RepositorySource → Result RunAuthorization InspectionError
unfolding check_repositories
authorization_new session_id repositories = do
  refuse_if (is_blank session_id) session_id_empty
  check_repositories [] repositories
  ok (record { session_id = session_id; repositories = repositories })

-- `map(from_context).collect()`
unfoldable pub sources_of : List RepositoryContext → Result (List RepositorySource) InspectionError
unfolding from_context
sources_of [] = ok []
sources_of (c ∷ cs) = from_context c >>= λ s. sources_of cs >>= λ rest. ok (s ∷ rest)

-- `RunAuthorization::from_session_start`
unfoldable pub from_session_start : String → SessionStart → Result RunAuthorization InspectionError
unfolding sources_of authorization_new
from_session_start session_id start =
    sources_of start.repositories >>= λ repositories. authorization_new session_id repositories

abbrev authorized_as :
    RepositorySource → Option RepositorySource → Result (Unit {0}) InspectionError
authorized_as source none = err (not_authorized source.repository_id)
authorized_as source (some repository) =
    refuse_if (not (str_eq repository.url source.url)) url_mismatch

unfoldable pub validate_authorized_source :
    String → RepositorySource → RunAuthorization → Result (Unit {0}) InspectionError
validate_authorized_source session_id source authorization = do
  refuse_if (not (str_eq session_id authorization.session_id)) session_mismatch
  authorized_as source (find (is_source source.repository_id) authorization.repositories)

unfoldable pub validate_repository_selection :
    InspectionRequest → RunAuthorization → Result (Unit {0}) InspectionError
unfolding validate_authorized_source
validate_repository_selection request authorization =
    validate_authorized_source request.session_id request.repository authorization
