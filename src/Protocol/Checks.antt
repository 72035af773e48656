-- ===== src/Protocol/Checks.antt =====
-- The field checks of crates/north-protocol/src/lib.rs. A validation error carries the reason
-- as data: the text that the source formats, as a constructor with the values put into it.
use north.Common.{
  ℕ, ◌*◌, Bool, not, ◌&&◌, String, str_eq, is_blank, byte_len, all_hexdigits, List, [], ◌∷◌, Result,
  ok, ◌>>◌, refuse_if, ◌==◌, any,
}

abbrev pub protocol_version : String
protocol_version = "0.1"

abbrev pub schema_version : ℕ
schema_version = 1

pub data Reason : Type 0 where
  must_not_be_empty must_start_at_one : String → Reason
  unsupported_schema_version : ℕ → Reason
  unsupported_protocol_version : String → Reason
  incomplete_commit_sha : Reason
  rejected_without_reason accepted_with_reason : Reason
  sparse_not_above_through sparse_not_ascending : Reason
  duplicate_session_id : Reason

-- `FrameError`, over the errors of the JSON library.
pub data FrameError (JsonError : Type 0) : Type 0 where
  json : JsonError → FrameError JsonError
  validation : Reason → FrameError JsonError

abbrev pub Check : Type 0
Check = Result (Unit {0}) Reason

abbrev pub git_object_id_hex_widths : List ℕ
git_object_id_hex_widths = 20 * 2 ∷ 32 * 2 ∷ []

unfoldable pub complete_commit_sha : String → Bool
unfolding byte_len all_hexdigits
complete_commit_sha value =
    any (λ width. width == byte_len value) git_object_id_hex_widths && all_hexdigits value

unfoldable pub non_empty : String → String → Check
unfolding is_blank
non_empty field value = refuse_if (is_blank value) (must_not_be_empty field)

unfoldable pub schema : ℕ → Check
schema version = refuse_if (not (version == schema_version)) (unsupported_schema_version version)

unfoldable pub protocol : String → Check
protocol version =
    refuse_if (not (str_eq version protocol_version)) (unsupported_protocol_version version)

unfoldable pub sequence : String → ℕ → Check
sequence field value = refuse_if (value == 0) (must_start_at_one field)

-- `for item in list { item.validate()?; }`
unfoldable pub check_each {ℓ} : {A : Type ℓ} → (A → Check) → List A → Check
check_each check [] = ok tt
check_each check (x ∷ xs) = check x >> check_each check xs

unfoldable pub non_empty_list : String → List String → Check
unfolding check_each non_empty
non_empty_list field values = check_each (non_empty field) values
