-- ===== src/Protocol/Frame.antt =====
-- Frames in both directions and their validation (crates/north-protocol/src/lib.rs).
use north.Common.{ℕ, String, List, ◌>>◌}
use north.Protocol.Checks.{Check, non_empty, schema, protocol, protocol_version, schema_version}
use north.Protocol.Command
use north.Protocol.Command.{CommandEnvelope, CommandAck}
use north.Protocol.Event
use north.Protocol.Event.{EventEnvelope, EventAck}
use north.Protocol.Reconcile.{ReconcileSnapshot, snapshot_validate}

pub record Hello : Type 0 where
  pub protocol_version : String
  pub schema_version : ℕ
  pub daemon_id : String
  pub credential : String
  pub capabilities : List String

unfoldable pub hello_new : String → String → List String → Hello
hello_new daemon_id credential capabilities = record {
  protocol_version = protocol_version;
  schema_version = schema_version;
  daemon_id = daemon_id;
  credential = credential;
  capabilities = capabilities;
}

unfoldable pub hello_validate : Hello → Check
unfolding protocol schema non_empty
hello_validate h = do
  protocol h.protocol_version
  schema h.schema_version
  non_empty "daemon_id" h.daemon_id
  non_empty "credential" h.credential

pub record Welcome : Type 0 where
  pub protocol_version : String
  pub schema_version : ℕ
  pub daemon_id : String
  pub server_time : String

unfoldable pub welcome_validate : Welcome → Check
unfolding protocol schema non_empty
welcome_validate w = do
  protocol w.protocol_version
  schema w.schema_version
  non_empty "daemon_id" w.daemon_id
  non_empty "server_time" w.server_time

pub record Heartbeat : Type 0 where
  pub schema_version : ℕ
  pub daemon_id : String
  pub sent_at : String
  pub application_state : String

unfoldable pub heartbeat_validate : Heartbeat → Check
unfolding schema non_empty
heartbeat_validate h = do
  schema h.schema_version
  non_empty "daemon_id" h.daemon_id
  non_empty "sent_at" h.sent_at
  non_empty "application_state" h.application_state

pub record ProtocolErrorFrame : Type 0 where
  pub schema_version : ℕ
  pub code : String
  pub message : String

unfoldable pub error_validate : ProtocolErrorFrame → Check
unfolding schema non_empty
error_validate e = do
  schema e.schema_version
  non_empty "code" e.code
  non_empty "message" e.message

pub data ServerFrame : Type 0 where
  welcome : Welcome → ServerFrame
  command : CommandEnvelope → ServerFrame
  event_ack : EventAck → ServerFrame
  reconcile : ReconcileSnapshot → ServerFrame
  protocol_error : ProtocolErrorFrame → ServerFrame

unfoldable pub server_validate : ServerFrame → Check
server_validate (ServerFrame.welcome frame) = welcome_validate frame
server_validate (ServerFrame.command frame) = Command.envelope_validate frame
server_validate (ServerFrame.event_ack frame) = Event.ack_validate frame
server_validate (ServerFrame.reconcile frame) = snapshot_validate frame
server_validate (ServerFrame.protocol_error frame) = error_validate frame

pub data DaemonFrame : Type 0 where
  hello : Hello → DaemonFrame
  heartbeat : Heartbeat → DaemonFrame
  event : EventEnvelope → DaemonFrame
  command_ack : CommandAck → DaemonFrame
  protocol_error : ProtocolErrorFrame → DaemonFrame

unfoldable pub daemon_validate : DaemonFrame → Check
daemon_validate (DaemonFrame.hello frame) = hello_validate frame
daemon_validate (DaemonFrame.heartbeat frame) = heartbeat_validate frame
daemon_validate (DaemonFrame.event frame) = Event.envelope_validate frame
daemon_validate (DaemonFrame.command_ack frame) = Command.ack_validate frame
daemon_validate (DaemonFrame.protocol_error frame) = error_validate frame
