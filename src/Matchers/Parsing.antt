-- ===== src/Matchers/Parsing.antt =====
-- gutil/testing.h.
use Prim.Native.String.{◌++◌}
use p4rt_standalone.Prelude.{◌≡◌, refl, String, true, false, if◌then◌else◌, inl, inr, Bool-cases}
use p4rt_standalone.Status.Code.{StatusCode, AbslStatus, StatusApi, is_ok_code}
use p4rt_standalone.Status.Messages.{two_texts}
use p4rt_standalone.Collections.Helpers.{Checked, returned, died}
use p4rt_standalone.Files.Proto.{ProtoApi, read_proto_from_string, read_proto_from_file}

module _ {Message Oneof : Type 0} (proto : ProtoApi Message Oneof) ⦃api : StatusApi⦄ where
  -- `CHECK_OK(val)`, and then the value; the status that fails it is printed.
  unfoldable pub check_ok : AbslStatus × Message → Checked Message
  check_ok (status, message) =
      if is_ok_code status.code then returned message else died (api.to_text status)

  -- `message` is a new one of the type `T`.
  unfoldable pub parse_proto_or_die : String → Message → Checked Message
  unfolding check_ok
  parse_proto_or_die proto_string message =
      check_ok (read_proto_from_string proto proto_string message)

  unfoldable pub parse_proto_file_or_die : String → Message → Checked Message
  unfolding check_ok
  parse_proto_file_or_die proto_file message =
      check_ok (read_proto_from_file proto proto_file message)

  -- How parsing a text ends.
  pub data ParsedOrDied (proto_string : String) (message : Message) : Checked Message → Type 0 where
    parsed :
        (proto.parse_from_string proto_string message).0 ≡ true
        → ParsedOrDied proto_string message
            (returned (proto.parse_from_string proto_string message).1)
    failed :
        (s : AbslStatus)
        → (proto.parse_from_string proto_string message).0 ≡ false
        → s.code ≡ StatusCode.invalid_argument
        → s.message ≡ "Failed to parse string " ++ proto_string
        → ParsedOrDied proto_string message (died (api.to_text s))

  -- ParseProtoOrDie returns the message exactly if the text parses; otherwise the process dies with
  -- an INVALID_ARGUMENT status whose message names the text.
  pub parse_proto_or_die-ParsedOrDied :
      (proto_string : String) (message : Message)
      → ParsedOrDied proto_string message (parse_proto_or_die proto_string message)
  unfolding parse_proto_or_die read_proto_from_string
  parse_proto_or_die-ParsedOrDied proto_string message =
      elim (Bool-cases (proto.parse_from_string proto_string message).0) [
        | inl e ↦ rw (e, api.status_code StatusCode.ok "") (parsed e)
        | inr e ↦
            let (c, m) =
              two_texts StatusCode.invalid_argument "Failed to parse string " proto_string refl in
            rw (e, c) (failed _ e c m)
      ]
