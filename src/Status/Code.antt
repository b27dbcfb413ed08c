-- ===== src/Status/Code.antt =====
-- The status values of Abseil and of gRPC, which gutil/status.h includes, and what Abseil does with
-- them. Both libraries give the same numbers to the canonical codes.
use p4rt_standalone.Prelude.{◌≡◌, ◌≢◌, String, Bool, true, false}

pub data StatusCode : Type 0 where
  ok cancelled unknown invalid_argument deadline_exceeded not_found already_exists : StatusCode
  permission_denied resource_exhausted failed_precondition aborted out_of_range : StatusCode
  unimplemented internal unavailable data_loss unauthenticated : StatusCode

-- `grpc::Status`, made by its constructor from a code and a message.
pub record GrpcStatus : Type 0 where
  pub error_code : StatusCode
  pub error_message : String

-- `absl::Status`, which only `StatusApi` makes.
pub record AbslStatus : Type 0 where
  pub code : StatusCode
  pub message : String

-- `grpc::Status::OK`
abbrev pub grpc_ok : GrpcStatus
grpc_ok = record { error_code = StatusCode.ok; error_message = "" }

abbrev pub is_ok_code : StatusCode → Bool
is_ok_code StatusCode.ok = true
is_ok_code _ = false

-- `status.ok()`
abbrev pub is_ok : GrpcStatus → Bool
is_ok s = is_ok_code s.error_code

-- `absl::Status(code, message)` keeps both, but for an OK status, whose message is dropped.
-- `to_text` is `ToString()`.
pub record StatusApi : Type 0 where
  pub status : StatusCode → String → AbslStatus
  pub to_text : AbslStatus → String
  pub status_code : (c : StatusCode) (m : String) → (status c m).code ≡ c
  pub status_message : (c : StatusCode) (m : String) → c ≢ StatusCode.ok → (status c m).message ≡ m
  pub status_message_ok : (m : String) → (status StatusCode.ok m).message ≡ ""

-- `absl::StatusOr<A>`
pub data StatusOr {ℓ} (A : Type ℓ) : Type ℓ where
  value : A → StatusOr A
  failure : AbslStatus → StatusOr A
