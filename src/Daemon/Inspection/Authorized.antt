-- ===== src/Daemon/Inspection/Authorized.antt =====
-- What crates/north-daemon/src/repository_inspection.rs has authorized when it lets an inspection pass.
use north.Common.{
  ◌≡◌, refl, ap, sym, ◌∙◌, subst, inl, inr, String, str_eq, eq_iff, is_blank, List, [], ◌∷◌, ◌++◌,
  Option, none, some, Bool, true, false, not, ◌||◌, Result, ok, err, refuse_if, ◌>>=◌, ◌>>◌, >>-ok,
  any, find, is_whitespace, arith, Bool-cases,
}
use north.Common.Net.Parse.{codes}
use north.Protocol.Command.{RepositoryContext, SessionStart}
use north.Daemon.Inspection.{
  InspectionError, RepositorySource, RunAuthorization, InspectionRequest, credential_free_location,
  server_repository_location, source_validate, source_of, from_context, check_repositories,
  authorization_new, sources_of, from_session_start, validate_authorized_source,
  validate_repository_selection, is_source, authorized_as, session_mismatch, url_mismatch,
  outside_url_policy, repository_id_empty, url_empty, url_has_credentials, session_id_empty,
}

chain-ok :
    {A B : Type 0} (m : Result A InspectionError) (f : A → Result B InspectionError) (b : B)
    → (m >>= f) ≡ ok b
    → (a : A) × (m ≡ ok a) × (f a ≡ ok b)
chain-ok (ok a) f b h = (a, refl, h)
chain-ok (err e) f b h = absurd (cc h)

not_refused : (b : Bool) (e : InspectionError) → refuse_if (not b) e ≡ ok tt → b ≡ true
not_refused true e h = refl
not_refused false e h = absurd (cc h)

-- The location is inside the policy and carries no credentials.
abbrev pub IsPermitted : String → Type 0
IsPermitted url =
    (server_repository_location (codes url) ≡ true) × (credential_free_location (codes url) ≡ true)

source_validate-credential_free :
    (s : RepositorySource)
    → source_validate s ≡ ok tt
    → credential_free_location (codes s.url) ≡ true
unfolding source_validate
source_validate-credential_free s h =
    let third = refuse_if (not (credential_free_location (codes s.url))) url_has_credentials in
    let second = refuse_if (is_blank s.url || any is_whitespace (codes s.url)) url_empty >> third in
    let (_, h2) = >>-ok (refuse_if (is_blank s.repository_id) repository_id_empty) second h in
    let (_, h3) =
      >>-ok (refuse_if (is_blank s.url || any is_whitespace (codes s.url)) url_empty) third h2 in
    not_refused (credential_free_location (codes s.url)) url_has_credentials h3

from_context-IsPermitted :
    (c : RepositoryContext) (s : RepositorySource)
    → from_context c ≡ ok s
    → (source_of c ≡ s) × IsPermitted c.url
unfolding from_context
from_context-IsPermitted c s h =
    let source = source_of c in
    let result : Result RepositorySource InspectionError = ok source in
    let policy = refuse_if (not (server_repository_location (codes c.url))) outside_url_policy in
    let (valid, h2) = >>-ok (source_validate source) (policy >> result) h in
    let (inside, h3) = >>-ok policy result h2 in
    (
      ground arith,
      (
        not_refused (server_repository_location (codes c.url)) outside_url_policy inside,
        source_validate-credential_free source valid,
      ),
    )

-- The source comes from a context of the session.
abbrev IsGiven : List RepositoryContext → RepositorySource → Type 0
IsGiven contexts s =
    (front : List RepositoryContext) × (c : RepositoryContext) × (back : List RepositoryContext)
    × (contexts ≡ (front ++ (c ∷ back)))
    × (source_of c ≡ s)
    × IsPermitted c.url

sources_of-IsGiven :
    (id : String) (contexts : List RepositoryContext) (sources : List RepositorySource)
    (s : RepositorySource)
    → sources_of contexts ≡ ok sources
    → find (is_source id) sources ≡ some s
    → IsGiven contexts s
unfolding sources_of find
sources_of-IsGiven id [] [] s h found = absurd (cc found)
sources_of-IsGiven id [] (_ ∷ _) s h found = absurd (cc h)
sources_of-IsGiven id (c ∷ cs) sources s h found =
    let (first, e, h2) =
      chain-ok (from_context c) (λ t. sources_of cs >>= λ rest. ok (t ∷ rest)) sources h in
    let (rest, f, h3) = chain-ok (sources_of cs) (λ rest. ok (first ∷ rest)) sources h2 in
    let (same, permitted) = from_context-IsPermitted c first e in
    let both : first ∷ rest ≡ sources = ground arith in
    let here : find (is_source id) (first ∷ rest) ≡ some s =
      subst (λ x. find (is_source id) x ≡ some s) (sym both) found in
    elim (Bool-cases (is_source id first)) [
      | inl own ↦ let this : first ≡ s = ground arith in ([], c, cs, refl, same ∙ this, permitted)
      | inr other ↦
          let later : find (is_source id) rest ≡ some s = ground arith in
          let (front, d, back, whole, given, inside) = sources_of-IsGiven id cs rest s f later in
          (c ∷ front, d, back, ap (λ t. c ∷ t) whole, given, inside)
    ]

authorized_as-found :
    (source : RepositorySource) (o : Option RepositorySource)
    → authorized_as source o ≡ ok tt
    → (s : RepositorySource) × (o ≡ some s) × (str_eq s.url source.url ≡ true)
authorized_as-found source none h = absurd (cc h)
authorized_as-found source (some s) h =
    (s, refl, not_refused (str_eq s.url source.url) url_mismatch h)

find_source :
    (id : String) (sources : List RepositorySource) (s : RepositorySource)
    → find (is_source id) sources ≡ some s
    → s.repository_id ≡ id
unfolding find
find_source id [] s h = absurd (cc h)
find_source id (t ∷ ts) s h = elim (Bool-cases (is_source id t)) [
  | inl own ↦
      let this : t ≡ s = ground arith in
      ap (λ (x : RepositorySource). x.repository_id) (sym this) ∙ (eq_iff t.repository_id id).0 own
  | inr other ↦ find_source id ts s (ground arith)
]

-- An inspection that passes is one that the session was started for: if a run is authorized from the
-- payload that started the session, and the selection of a repository is accepted, then the request
-- names that session, a repository of the payload has the requested ID and location, and the location
-- is inside the policy of the server and carries no credentials.
pub validate_repository_selection-IsPermitted :
    (session_id : String) (start : SessionStart) (authorization : RunAuthorization)
    (request : InspectionRequest)
    → from_session_start session_id start ≡ ok authorization
    → validate_repository_selection request authorization ≡ ok tt
    → (request.session_id ≡ session_id)
      × ((front : List RepositoryContext) × (c : RepositoryContext) × (back : List
            RepositoryContext)
          × (start.repositories ≡ (front ++ (c ∷ back)))
          × (c.repository_id ≡ request.repository.repository_id)
          × (c.url ≡ request.repository.url)
          × IsPermitted request.repository.url)
unfolding from_session_start authorization_new validate_repository_selection
    validate_authorized_source
validate_repository_selection-IsPermitted session_id start authorization request h accepted =
    let (sources, e, made) =
      chain-ok (sources_of start.repositories) (authorization_new session_id) authorization h in
    let source = request.repository in
    let result : Result RunAuthorization InspectionError =
      ok (record { session_id = session_id; repositories = sources }) in
    let (_, m2) =
      >>-ok (refuse_if (is_blank session_id) session_id_empty)
        (check_repositories [] sources >> result) made in
    let (_, m3) = >>-ok (check_repositories [] sources) result m2 in
    let whole : record { session_id = session_id; repositories = sources } ≡ authorization =
      ground arith in
    let (named, found) =
      >>-ok (refuse_if (not (str_eq request.session_id authorization.session_id)) session_mismatch)
        (authorized_as source (find (is_source source.repository_id) authorization.repositories))
        accepted in
    let (s, at, url) =
      authorized_as-found source (find (is_source source.repository_id) authorization.repositories)
        found in
    let at_sources : find (is_source source.repository_id) sources ≡ some s =
      subst
        (λ (a : RunAuthorization). find (is_source source.repository_id) a.repositories ≡ some s)
        (sym whole) at in
    let (front, c, back, split, given, (inside, free)) =
      sources_of-IsGiven source.repository_id start.repositories sources s e at_sources in
    let same_url : c.url ≡ source.url =
      ap (λ (x : RepositorySource). x.url) given ∙ (eq_iff s.url source.url).0 url in
    let same_id : c.repository_id ≡ source.repository_id =
      ap (λ (x : RepositorySource). x.repository_id) given
      ∙ find_source source.repository_id sources s at_sources in
    (
      (eq_iff request.session_id authorization.session_id).0 (
            not_refused (str_eq request.session_id authorization.session_id) session_mismatch named)
          ∙ ap (λ (a : RunAuthorization). a.session_id) (sym whole),
      (front, c, back, split, same_id, same_url, subst IsPermitted same_url (inside, free)),
    )
