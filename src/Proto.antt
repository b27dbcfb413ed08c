-- ===== src/Proto.antt =====
-- The P4Runtime messages that p4rt_server/ reads and writes: of each, the fields that the code
-- names. A message or a part that the code only passes on is its serialised text.
use p4rt_standalone.Prelude.{ℕ, ◌^◌, ◌<◌, ◌≡◌, String, Option}
use p4rt_standalone.Status.Code.{StatusCode}

-- `p4::v1::Uint128`
pub record Uint128 : Type 0 where
  pub high : ℕ
  pub low : ℕ

-- `google::rpc::Status`
pub record RpcStatus : Type 0 where
  pub code : StatusCode
  pub message : String

-- `role` holds `role().name()`, and is empty when `has_role()` is false.
pub record MasterArbitrationUpdate : Type 0 where
  pub device_id : ℕ
  pub role : Option String
  pub election_id : Option Uint128
  pub status : Option RpcStatus

pub record PacketOut : Type 0 where
  pub bytes : String

pub record StreamError : Type 0 where
  pub canonical_code : StatusCode
  pub message : String
  pub packet_out : Option PacketOut

-- `other` stands for the updates that the server never makes itself, packet-ins among them.
pub data StreamMessageResponse : Type 0 where
  arbitration : MasterArbitrationUpdate → StreamMessageResponse
  error : StreamError → StreamMessageResponse
  other : String → StreamMessageResponse

-- The cases of `request.update_case()`.
pub data StreamMessageRequest : Type 0 where
  arbitration : MasterArbitrationUpdate → StreamMessageRequest
  packet : PacketOut → StreamMessageRequest
  digest_ack : String → StreamMessageRequest
  other : String → StreamMessageRequest
  update_not_set : StreamMessageRequest

pub record WriteRequest : Type 0 where
  pub role : String
  pub election_id : Option Uint128
  pub updates : String

pub data Action : Type 0 where
  unspecified verify verify_and_save verify_and_commit commit reconcile_and_commit : Action

pub record ForwardingPipelineConfig : Type 0 where
  pub cookie : Option ℕ
  pub rest : String

pub record SetForwardingPipelineConfigRequest : Type 0 where
  pub role : String
  pub election_id : Option Uint128
  pub action : Action
  pub config : ForwardingPipelineConfig

pub data ResponseType : Type 0 where
  all cookie_only p4info_and_cookie device_config_and_cookie : ResponseType

pub record ReadRequest : Type 0 where
  pub entities : String

pub record ReadResponse : Type 0 where
  pub entities : String

-- `absl::uint128`, a value of which is the number that it stands for, and `absl::StrCat` of an
-- unsigned integer. `make`, `high64` and `low64` are `absl::MakeUint128`, `absl::Uint128High64` and
-- `absl::Uint128Low64`.
pub record Uint128Api : Type 0 where
  pub make : ℕ → ℕ → ℕ
  pub high64 : ℕ → ℕ
  pub low64 : ℕ → ℕ
  pub decimal : ℕ → String
  pub high64-make : (h l : ℕ) → h < 2 ^ 64 → l < 2 ^ 64 → high64 (make h l) ≡ h
  pub low64-make : (h l : ℕ) → h < 2 ^ 64 → l < 2 ^ 64 → low64 (make h l) ≡ l
