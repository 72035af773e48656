-- ===== src/Tests/Inspection.antt =====
-- Selections of repositories at concrete contexts.
use north.Common.{◌≡◌, refl, List, [], ◌∷◌, ◌++◌, false, ok, err}
use north.Common.Net.Parse.{codes}
use north.Protocol.Command.{RepositoryContext, SessionStart}
use north.Daemon.Inspection.{
  RepositorySource, RunAuthorization, InspectionRequest, credential_free_location,
  server_repository_location, from_session_start, validate_repository_selection, not_authorized,
  url_mismatch,
}
use north.Daemon.Inspection.Authorized.{IsPermitted, validate_repository_selection-IsPermitted}

abbrev given : SessionStart
given = record {
  requirement = record {
    id = "requirement";
    revision = 1;
    title = "title";
    description = "text";
    summary = "text";
    acceptance_criteria = [];
    assumptions = [];
    open_questions = [];
  };
  conversation = record { excerpt = [] };
  repositories =
      record {
        repository_id = "web";
        name = "web";
        url = "git@host.example:team/web.git";
        description = "";
      }
      ∷ record {
        repository_id = "north";
        name = "north";
        url = "ssh://git@host.example/north.git";
        description = "";
      }
      ∷ [];
}

abbrev web : RepositorySource
web = record { repository_id = "web"; url = "git@host.example:team/web.git" }

abbrev north_source : RepositorySource
north_source = record { repository_id = "north"; url = "ssh://git@host.example/north.git" }

abbrev authorized : RunAuthorization
authorized = record { session_id = "session"; repositories = web ∷ north_source ∷ [] }

abbrev selecting : RepositorySource → InspectionRequest
selecting source = record { session_id = "session"; task_id = "task"; repository = source }

authorizes : from_session_start "session" given ≡ ok authorized
unfolding from_session_start north.Common.is_blank north.Common.Slices.contains_any
    north.Common.Slices.split_once
authorizes = refl

accepts : validate_repository_selection (selecting north_source) authorized ≡ ok tt
unfolding validate_repository_selection north.Common.find
accepts = refl

other_url :
    validate_repository_selection
      (selecting (record { repository_id = "web"; url = "https://host.example/north.git" }))
      authorized
    ≡ err url_mismatch
unfolding validate_repository_selection north.Common.find
other_url = refl

unknown_repository :
    validate_repository_selection
      (selecting (record { repository_id = "api"; url = "" }))
      authorized
    ≡ err (not_authorized "api")
unfolding validate_repository_selection north.Common.find
unknown_repository = refl

with_token : credential_free_location (codes "https://token@host.example/north.git") ≡ false
unfolding credential_free_location north.Common.Slices.contains_any north.Common.Slices.split_once
with_token = refl

local_path : server_repository_location (codes "/srv/git/north.git") ≡ false
unfolding server_repository_location
local_path = refl

validate_repository_selection-IsPermitted_example :
    ((selecting north_source).session_id ≡ authorized.session_id)
    × ((front : List RepositoryContext) × (c : RepositoryContext) × (back : List RepositoryContext)
        × (given.repositories ≡ (front ++ (c ∷ back)))
        × (c.repository_id ≡ "north")
        × (c.url ≡ "ssh://git@host.example/north.git")
        × IsPermitted "ssh://git@host.example/north.git")
validate_repository_selection-IsPermitted_example =
    validate_repository_selection-IsPermitted "session" given authorized (selecting north_source)
      authorizes accepts
