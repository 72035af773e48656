-- ===== src/Tests/Protocol.antt =====
-- Protocol frames at concrete inputs, with a JSON library that writes one text for one frame.
use north.Common.{
  ◌==◌, ◌&&◌, str_eq, if◌then◌else◌, ◌<◌, ◌≡◌, refl, ◌↔◌, String, [], ◌∷◌, All, Bool, false, Result,
  ok, err, is_blank,
}
use north.Protocol.Checks.{schema_version}
use north.Protocol.Reconcile.{
  SessionReconcileState, ReconcileSnapshot, session_validate, snapshot_validate,
}
use north.Common.Sorted.{IsAscending}
use north.Protocol.Reconcile.Laws.{IsDistinct, session_validate_iff, snapshot_validate_iff}
use north.Protocol.Frame.{
  ServerFrame, DaemonFrame, ProtocolErrorFrame, server_validate, daemon_validate, error_validate,
}
use north.Protocol.Codec.{
  Json, encode_server_frame, decode_server_frame, encode_daemon_frame, decode_daemon_frame,
}

abbrev session : SessionReconcileState
session = record {
  session_id = "s1";
  command_ack_through_seq = 3;
  event_ack_through_seq = 4;
  event_ack_sparse = 6 ∷ 9 ∷ [];
}

session_is_valid : session_validate session ≡ ok tt
unfolding session_validate
session_is_valid = refl

session_validate_iff_example :
    (session_validate session ≡ ok tt)
    ↔ ((is_blank "s1" ≡ false) × All (λ x. 4 < x) (6 ∷ 9 ∷ []) × IsAscending (6 ∷ 9 ∷ []))
session_validate_iff_example = session_validate_iff session

abbrev snapshot : ReconcileSnapshot
snapshot = record { schema_version = 1; sessions = session ∷ session ∷ [] }

snapshot_validate_iff_example : (snapshot_validate snapshot ≡ ok tt) ↔ (
    (snapshot.schema_version ≡ schema_version)
    × All (λ t. session_validate t ≡ ok tt) (session ∷ session ∷ [])
    × IsDistinct (session ∷ session ∷ []))
snapshot_validate_iff_example = snapshot_validate_iff snapshot

abbrev failure : ProtocolErrorFrame
failure = record { schema_version = 1; code = "bad"; message = "bad frame" }

-- A JSON library for protocol errors that can write and read the failure above.
abbrev is_failure : ProtocolErrorFrame → Bool
is_failure e = e.schema_version == 1 && str_eq e.code "bad" && str_eq e.message "bad frame"

abbrev write_failure : ProtocolErrorFrame → Result String (Unit {0})
write_failure e = if is_failure e then ok "{bad}" else err tt

abbrev write_server : ServerFrame → Result String (Unit {0})
write_server (ServerFrame.protocol_error e) = write_failure e
write_server _ = err tt

abbrev write_daemon : DaemonFrame → Result String (Unit {0})
write_daemon (DaemonFrame.protocol_error e) = write_failure e
write_daemon _ = err tt

abbrev read_as {ℓ} : {F : Type ℓ} → F → String → Result F (Unit {ℓ})
read_as frame text = if str_eq text "{bad}" then ok frame else err tt

abbrev server_json : Json (Unit {0}) ServerFrame
server_json = record {
  to_string = write_server;
  from_str = read_as (ServerFrame.protocol_error failure);
}

abbrev daemon_json : Json (Unit {0}) DaemonFrame
daemon_json = record {
  to_string = write_daemon;
  from_str = read_as (DaemonFrame.protocol_error failure);
}

server_encoded : encode_server_frame server_json (ServerFrame.protocol_error failure) ≡ ok "{bad}"
unfolding encode_server_frame server_validate error_validate is_blank
server_encoded = refl

daemon_encoded : encode_daemon_frame daemon_json (DaemonFrame.protocol_error failure) ≡ ok "{bad}"
unfolding encode_daemon_frame daemon_validate error_validate is_blank
daemon_encoded = refl

server_decoded : decode_server_frame server_json "{bad}" ≡ ok (ServerFrame.protocol_error failure)
unfolding decode_server_frame server_validate error_validate is_blank
server_decoded = refl

daemon_decoded : decode_daemon_frame daemon_json "{bad}" ≡ ok (DaemonFrame.protocol_error failure)
unfolding decode_daemon_frame daemon_validate error_validate is_blank
daemon_decoded = refl
