-- ===== src/Server/Context.antt =====
-- The context of a session that the server assembles (crates/north-server/src/context.rs).
pub mod Excerpt
use north.Common.{
  ℕ, suc, ◌+◌, ◌-◌, String, str_eq, byte_len, is_blank, List, [], ◌∷◌, length, map, Option, none,
  some, Bool, true, false, ◌||◌, Result, ok, err, ◌>>◌, if◌then◌else◌, ◌==◌, ltb, u64_max,
}
use Prim.Native.Nat.{min}
use north.Protocol.Checks.{Reason}
use north.Protocol.Command.{
  RequirementContext, ConversationRoleWire, ConversationMessageContext, RepositoryContext,
  SessionStart, start_validate,
}
use north.Domain.Requirement.{Requirement}

-- `MAX_CONTEXT_MESSAGES` and `MAX_CONTEXT_BYTES` of crates/north-persistence/src/clarification.rs.
abbrev pub max_context_messages : ℕ
max_context_messages = 50

abbrev pub max_context_bytes : ℕ
max_context_bytes = 32768

pub record RequirementSnapshot : Type 0 where
  pub id : String
  pub revision : ℕ
  pub title : String
  pub description : String
  pub summary : String
  pub acceptance_criteria : List String
  pub assumptions : List String
  pub open_questions : List String

pub data ConversationRole : Type 0 where
  requester agent system : ConversationRole

pub record ConversationMessageSnapshot : Type 0 where
  pub message_id : String
  pub role : ConversationRole
  pub content : String

pub record RepositorySnapshot : Type 0 where
  pub repository_id : String
  pub name : String
  pub url : String
  pub description : String
  pub enabled : Bool

unfoldable pub snapshot_of : Requirement → RequirementSnapshot
snapshot_of r = record {
  id = r.id;
  revision = r.revision;
  title = r.title;
  description = r.description;
  summary = r.summary;
  acceptance_criteria = r.acceptance_criteria;
  assumptions = r.assumptions;
  open_questions = r.open_questions;
}

unfoldable pub requirement_context : RequirementSnapshot → RequirementContext
requirement_context s = record {
  id = s.id;
  revision = s.revision;
  title = s.title;
  description = s.description;
  summary = s.summary;
  acceptance_criteria = s.acceptance_criteria;
  assumptions = s.assumptions;
  open_questions = s.open_questions;
}

unfoldable pub role_wire : ConversationRole → ConversationRoleWire
role_wire ConversationRole.requester = ConversationRoleWire.requester
role_wire ConversationRole.agent = ConversationRoleWire.agent
role_wire ConversationRole.system = ConversationRoleWire.system

unfoldable pub message_context : ConversationMessageSnapshot → ConversationMessageContext
unfolding role_wire
message_context m = record {
  message_id = m.message_id;
  role = role_wire m.role;
  content = m.content;
}

unfoldable pub repository_context : RepositorySnapshot → RepositoryContext
repository_context r = record {
  repository_id = r.repository_id;
  name = r.name;
  url = r.url;
  description = r.description;
}

pub data ContextSelectionError : Type 0 where
  start_message_not_found invalid_bounds : ContextSelectionError

-- `position` of the start message, counted from `i`.
unfoldable pub position : String → ℕ → List ConversationMessageSnapshot → Option ℕ
position start_message_id i [] = none
position start_message_id i (m ∷ ms) =
    let later = position start_message_id (suc i) ms in
    if str_eq m.message_id start_message_id then some i else later

-- `fold` with `saturating_add`; a `usize` has 64 bits.
abbrev saturating_add : ℕ → ℕ → ℕ
saturating_add m n = min (m + n) u64_max

unfoldable pub total_bytes : ℕ → List ConversationMessageSnapshot → ℕ
total_bytes total [] = total
total_bytes total (m ∷ ms) = total_bytes (saturating_add total (byte_len m.content)) ms

abbrev pub is_over : ℕ → ℕ → Bool
is_over selected_count bytes =
    ltb max_context_messages selected_count || ltb max_context_bytes bytes

abbrev pub all_selected : List ConversationMessageSnapshot → List Bool
all_selected [] = []
all_selected (m ∷ ms) = true ∷ all_selected ms

-- The flags of the messages from `oldest` on, which are all selected so far: the loop passes over the
-- start message and deselects the next one, until the rest fits or the messages end.
unfoldable pub select_loop : ℕ → ℕ → List ConversationMessageSnapshot → ℕ → ℕ → List Bool
select_loop start_index oldest [] selected_count bytes = []
select_loop start_index oldest (m ∷ ms) selected_count bytes =
    let passed = select_loop start_index (suc oldest) ms selected_count bytes in
    let dropped =
      select_loop start_index (suc oldest) ms (selected_count - 1) (bytes - byte_len m.content) in
    if is_over selected_count bytes
    then (if oldest == start_index then true ∷ passed else false ∷ dropped)
    else true ∷ all_selected ms

unfoldable pub filter_selected :
    List Bool → List ConversationMessageSnapshot → List ConversationMessageSnapshot
filter_selected (true ∷ flags) (m ∷ ms) = m ∷ filter_selected flags ms
filter_selected (false ∷ flags) (m ∷ ms) = filter_selected flags ms
filter_selected _ _ = []

abbrev pub excerpt_from :
    List ConversationMessageSnapshot
    → Option ℕ
    → Result (List ConversationMessageSnapshot) ContextSelectionError
unfolding select_loop filter_selected total_bytes
excerpt_from messages none = err start_message_not_found
excerpt_from messages (some start_index) = ok (
    filter_selected (select_loop start_index 0 messages (length messages) (total_bytes 0 messages))
      messages)

unfoldable pub select_conversation_excerpt :
    List ConversationMessageSnapshot
    → String
    → Result (List ConversationMessageSnapshot) ContextSelectionError
unfolding excerpt_from position
select_conversation_excerpt messages start_message_id =
    if is_blank start_message_id
    then err start_message_not_found
    else excerpt_from messages (position start_message_id 0 messages)

unfoldable pub enabled_contexts : List RepositorySnapshot → List RepositoryContext
unfolding repository_context
enabled_contexts [] = []
enabled_contexts (r ∷ rs) =
    let rest = enabled_contexts rs in if r.enabled then repository_context r ∷ rest else rest

abbrev pub session_start_of :
    RequirementSnapshot → List ConversationMessageSnapshot → List RepositorySnapshot → SessionStart
unfolding requirement_context message_context enabled_contexts
session_start_of requirement conversation_excerpt repositories = record {
  requirement = requirement_context requirement;
  conversation = record { excerpt = map message_context conversation_excerpt };
  repositories = enabled_contexts repositories;
}

unfoldable pub assemble_session_start :
    RequirementSnapshot
    → List ConversationMessageSnapshot
    → List RepositorySnapshot
    → Result SessionStart Reason
unfolding session_start_of start_validate
assemble_session_start requirement conversation_excerpt repositories =
    let start = session_start_of requirement conversation_excerpt repositories in
    start_validate start >> ok start
