-- ===== src/Protocol/Command.antt =====
-- Commands and what they carry (crates/north-protocol/src/lib.rs).
use north.Common.{ℕ, String, List, ok, ◌>>◌}
use north.Protocol.Checks.{Check, non_empty, schema, sequence, check_each, non_empty_list}

pub record RequirementContext : Type 0 where
  pub id : String
  pub revision : ℕ
  pub title : String
  pub description : String
  pub summary : String
  pub acceptance_criteria : List String
  pub assumptions : List String
  pub open_questions : List String

unfoldable pub requirement_validate : RequirementContext → Check
unfolding non_empty sequence non_empty_list
requirement_validate r = do
  non_empty "requirement.id" r.id
  sequence "requirement.revision" r.revision
  non_empty "requirement.title" r.title
  non_empty "requirement.description" r.description
  non_empty_list "requirement.acceptance_criteria" r.acceptance_criteria
  non_empty_list "requirement.assumptions" r.assumptions
  non_empty_list "requirement.open_questions" r.open_questions

pub data ConversationRoleWire : Type 0 where
  requester agent system : ConversationRoleWire

pub record ConversationMessageContext : Type 0 where
  pub message_id : String
  pub role : ConversationRoleWire
  pub content : String

unfoldable pub message_validate : ConversationMessageContext → Check
unfolding non_empty
message_validate m = do
  non_empty "conversation.message_id" m.message_id
  non_empty "conversation.content" m.content

pub record ConversationContext : Type 0 where
  pub excerpt : List ConversationMessageContext

unfoldable pub conversation_validate : ConversationContext → Check
unfolding check_each message_validate
conversation_validate c = check_each message_validate c.excerpt

pub record RepositoryContext : Type 0 where
  pub repository_id : String
  pub name : String
  pub url : String
  pub description : String

unfoldable pub repository_validate : RepositoryContext → Check
unfolding non_empty
repository_validate r = do
  non_empty "repository.repository_id" r.repository_id
  non_empty "repository.name" r.name
  non_empty "repository.url" r.url

pub record SessionStart : Type 0 where
  pub requirement : RequirementContext
  pub conversation : ConversationContext
  pub repositories : List RepositoryContext

unfoldable pub start_validate : SessionStart → Check
unfolding requirement_validate conversation_validate check_each repository_validate
start_validate s = do
  requirement_validate s.requirement
  conversation_validate s.conversation
  check_each repository_validate s.repositories

pub record SessionCancel : Type 0 where
  pub reason : String

pub record MessageSend : Type 0 where
  pub message_id : String
  pub content : String

-- `SessionResume` carries nothing.
pub data Command : Type 0 where
  session_start : SessionStart → Command
  session_cancel : SessionCancel → Command
  session_resume : Command
  message_send : MessageSend → Command

pub record CommandEnvelope : Type 0 where
  pub command_id : String
  pub session_id : String
  pub server_command_seq : ℕ
  pub sent_at : String
  pub schema_version : ℕ
  pub command : Command

unfoldable pub command_validate : Command → Check
unfolding start_validate non_empty
command_validate (session_start payload) = start_validate payload
command_validate (session_cancel payload) = non_empty "reason" payload.reason
command_validate session_resume = ok tt
command_validate (message_send payload) = do
  non_empty "message_id" payload.message_id
  non_empty "content" payload.content

unfoldable pub envelope_validate : CommandEnvelope → Check
unfolding schema non_empty sequence command_validate
envelope_validate e = do
  schema e.schema_version
  non_empty "command_id" e.command_id
  non_empty "session_id" e.session_id
  non_empty "sent_at" e.sent_at
  sequence "server_command_seq" e.server_command_seq
  command_validate e.command

pub record CommandAck : Type 0 where
  pub command_id : String
  pub session_id : String
  pub server_command_seq : ℕ
  pub schema_version : ℕ

unfoldable pub ack_validate : CommandAck → Check
unfolding schema non_empty sequence
ack_validate a = do
  schema a.schema_version
  non_empty "command_id" a.command_id
  non_empty "session_id" a.session_id
  sequence "server_command_seq" a.server_command_seq
