-- ===== src/Protocol/Codec.antt =====
-- `to_json`, `from_json` and the functions that call them (crates/north-protocol/src/lib.rs). The
-- JSON library is a parameter.
use north.Common.{String, Result, ok, ◌>>=◌, ◌>>◌, map_err}
use north.Protocol.Checks.{Check, FrameError, json, validation}
use north.Protocol.Frame.{ServerFrame, server_validate, DaemonFrame, daemon_validate}

-- What the code calls of the JSON library for a type of frames.
pub record Json (JsonError F : Type 0) : Type 0 where
  pub to_string : F → Result String JsonError
  pub from_str : String → Result F JsonError

module _ {JsonError F : Type 0} (validate : F → Check) (library : Json JsonError F) where
  to_json : F → Result String (FrameError JsonError)
  to_json frame = do map_err validation (validate frame); map_err json (library.to_string frame)

  from_json : String → Result F (FrameError JsonError)
  from_json text = do
    frame ← map_err json (library.from_str text)
    map_err validation (validate frame)
    ok frame

module _ {JsonError : Type 0} (library : Json JsonError ServerFrame) where
  unfoldable pub encode_server_frame : ServerFrame → Result String (FrameError JsonError)
  unfolding to_json
  encode_server_frame = to_json server_validate library

  unfoldable pub decode_server_frame : String → Result ServerFrame (FrameError JsonError)
  unfolding from_json
  decode_server_frame = from_json server_validate library

module _ {JsonError : Type 0} (library : Json JsonError DaemonFrame) where
  unfoldable pub encode_daemon_frame : DaemonFrame → Result String (FrameError JsonError)
  unfolding to_json
  encode_daemon_frame = to_json daemon_validate library

  unfoldable pub decode_daemon_frame : String → Result DaemonFrame (FrameError JsonError)
  unfolding from_json
  decode_daemon_frame = from_json daemon_validate library
