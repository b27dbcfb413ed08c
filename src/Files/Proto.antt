-- ===== src/Files/Proto.antt =====
-- gutil/proto.cc, and what its functions answer.
use p4rt_standalone.Prelude.{
  ℕ, ◌≡◌, refl, String, Bool, true, false, not, Option, none, some, inl, inr, Bool-cases,
  Option-cases, if◌then◌else◌,
}
use Prim.Native.String.{◌++◌}
use p4rt_standalone.Status.Code.{StatusCode, AbslStatus, StatusApi, StatusOr, value, failure}
use p4rt_standalone.Status.Builder.{append_text, to_status}
use p4rt_standalone.Status.Messages.{two_texts}
use p4rt_standalone.Status.Builders.{invalid_argument_error_builder, not_found_error_builder}

-- Messages of the type `Message` and their oneofs. `open_read_only` is the system's `open`, with the
-- file descriptor if there is one; the two parsers change the message that they are given, also
-- where they fail. `set_field` is the name of the field of a oneof that is set, and `find_oneof` may
-- give the null pointer.
pub record ProtoApi (Message Oneof : Type 0) : Type 0 where
  pub open_read_only : String → Option ℕ
  pub parse : ℕ → Message → Bool × Message
  pub parse_from_string : String → Message → Bool × Message
  pub find_oneof : Message → String → Option Oneof
  pub set_field : Message → Option Oneof → Option String

module _ {Message Oneof : Type 0} (proto : ProtoApi Message Oneof) ⦃api : StatusApi⦄ where
  unfoldable pub read_proto_from_file : String → Message → AbslStatus × Message
  read_proto_from_file filename message = elim (proto.open_read_only filename) [
    | none ↦ (
      to_status (
          append_text filename
            (append_text "Error opening the file " invalid_argument_error_builder)),
      message,
    )
    | some fd ↦
        let (parsed, message') = proto.parse fd message in
        if not parsed
        then (
          to_status (
              append_text filename
                (append_text "Failed to parse file " invalid_argument_error_builder)),
          message',
        )
        else (api.status StatusCode.ok "", message')
  ]

  unfoldable pub read_proto_from_string : String → Message → AbslStatus × Message
  read_proto_from_string proto_string message =
      let (parsed, message') = proto.parse_from_string proto_string message in
      if not parsed
      then (
        to_status (
            append_text proto_string
              (append_text "Failed to parse string " invalid_argument_error_builder)),
        message',
      )
      else (api.status StatusCode.ok "", message')

  unfoldable get_one_of_field_name : Message → String → StatusOr String
  get_one_of_field_name message oneof_name =
      elim (proto.set_field message (proto.find_oneof message oneof_name)) [
        | none ↦ failure (
            to_status (
              append_text "\" is not set"
                (append_text oneof_name (append_text "Oneof field \"" not_found_error_builder))))
        | some name ↦ value name
      ]

  -- How reading a protobuf from a file ends: the status, and the message.
  pub data Parsed (filename : String) (message : Message) : AbslStatus × Message → Type 0 where
    parsed :
        (s : AbslStatus) (fd : ℕ)
        → proto.open_read_only filename ≡ some fd
        → (proto.parse fd message).0 ≡ true
        → s.code ≡ StatusCode.ok
        → Parsed filename message (s, (proto.parse fd message).1)
    not_opened :
        (s : AbslStatus)
        → proto.open_read_only filename ≡ none
        → s.code ≡ StatusCode.invalid_argument
        → s.message ≡ "Error opening the file " ++ filename
        → Parsed filename message (s, message)
    not_parsed :
        (s : AbslStatus) (fd : ℕ)
        → proto.open_read_only filename ≡ some fd
        → (proto.parse fd message).0 ≡ false
        → s.code ≡ StatusCode.invalid_argument
        → s.message ≡ "Failed to parse file " ++ filename
        → Parsed filename message (s, (proto.parse fd message).1)

  -- ReadProtoFromFile answers OK exactly if the file opens and parses; otherwise INVALID_ARGUMENT
  -- with a message that names the file and tells which of the two failed, and if the file does not
  -- open, the protobuf is unchanged.
  pub read_proto_from_file-Parsed :
      (filename : String) (message : Message)
      → Parsed filename message (read_proto_from_file filename message)
  unfolding read_proto_from_file
  read_proto_from_file-Parsed filename message =
      elim (Option-cases (proto.open_read_only filename)) [
        | inl e ↦
            let (c, m) =
              two_texts StatusCode.invalid_argument "Error opening the file " filename refl in
            rw (e, read_proto_from_file) (not_opened _ e c m)
        | inr (fd, e) ↦ elim (Bool-cases (proto.parse fd message).0) [
          | inl f ↦
              rw (e, read_proto_from_file, f) (parsed _ fd e f (api.status_code StatusCode.ok ""))
          | inr f ↦
              let (c, m) =
                two_texts StatusCode.invalid_argument "Failed to parse file " filename refl in
              rw (e, read_proto_from_file, f) (not_parsed _ fd e f c m)
        ]
      ]
