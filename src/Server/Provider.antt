-- ===== src/Server/Provider.antt =====
-- p4rt_server/switch_provider_base.h: what a subclass has to supply, and the state of the server.
use Prim.Native.String.{◌++◌}
use p4rt_standalone.Prelude.{ℕ, String, ◌≡◌, ◌⊎◌, inl, inr, refl, Bool, Option, none, some, []}
use p4rt_standalone.Status.Code.{AbslStatus, StatusOr, value, failure}
use p4rt_standalone.Proto.{
  WriteRequest, ReadRequest, ReadResponse, PacketOut, ForwardingPipelineConfig,
  StreamMessageResponse,
}
use p4rt_standalone.Controller.State.{World, SdnConnection, new_manager}
use p4rt_standalone.Controller.Requests.{send_stream_message_to_primary}

-- How a call that may throw ends: `threw` has the text of a `std::exception`, or none of another.
pub data Attempt (A : Type 0) : Type 0 where
  completed : A → Attempt A
  threw : Option String → Attempt A

-- How a call of the server ends: with an answer, or with the process, whose last words these are.
pub data Ended (A : Type 0) : Type 0 where
  replied : A → Ended A
  aborted : String → Ended A

-- What `LOG(FATAL)` prints in the function `func`.
abbrev pub last_words : String → Option String → String
last_words func (some what) = "Exception caught in " ++ (func ++ (", error:" ++ what))
last_words func none = "Unknown exception caught in " ++ func

-- `try`, with what is left to do after the call, and the two `catch` clauses.
abbrev pub catching : {A B : Type 0} → String → (A → B) → Attempt A → Ended B
catching func rest (completed a) = replied (rest a)
catching func rest (threw e) = aborted (last_words func e)

pub attempt-cases :
    {A : Type 0} (r : Attempt A)
    → ((a : A) × (r ≡ completed a)) ⊎ ((e : Option String) × (r ≡ threw e))
attempt-cases (completed a) = inl (a, refl)
attempt-cases (threw e) = inr (e, refl)

pub answer-cases :
    {A : Type 0} (r : Attempt (StatusOr A))
    → ((a : A) × (r ≡ completed (value a)))
      ⊎ (((s : AbslStatus) × (r ≡ completed (failure s))) ⊎ ((e : Option String) × (r ≡ threw e)))
answer-cases (completed (value a)) = inl (a, refl)
answer-cases (completed (failure s)) = inr (inl (s, refl))
answer-cases (threw e) = inr (inr (e, refl))

-- The pure virtual functions of `SwitchProviderBase`, over the subclass's own state.
pub record SwitchProvider (S : Type 0) : Type 0 where
  pub do_write : WriteRequest → S → Attempt AbslStatus × S
  pub do_read : ReadRequest → S → Attempt (StatusOr ReadResponse) × S
  pub send_packet_out : PacketOut → S → Attempt AbslStatus × S
  pub set_forwarding_pipeline_config : ForwardingPipelineConfig → S → Attempt AbslStatus × S
  pub get_forwarding_pipeline_config : S → Attempt (StatusOr ForwardingPipelineConfig) × S

-- `P4RtServer`: the manager with its connections, which the server and the provider share, and the
-- provider's state.
pub record P4RtServer (S : Type 0) : Type 0 where
  pub world : World
  pub switch : S

-- The constructor of `P4RtServer`, at any contents of the memory, with the provider that it is given:
-- a new manager, whose pointer `AddSdnController` hands to the provider.
abbrev pub new_server : {S : Type 0} → (ℕ → SdnConnection) → S → P4RtServer S
new_server memory switch = record {
  world = record { manager = new_manager; objects = memory; writes = [] };
  switch = switch;
}

-- `SwitchProviderBase::SendPacketIn`: the role name becomes an optional one that is set.
unfoldable pub provider_send_packet_in : String → StreamMessageResponse → World → World
provider_send_packet_in role response w = (send_stream_message_to_primary (some role) response w).1

-- `P4RtServer::SendPacketIn`
unfoldable pub send_packet_in : Option String → StreamMessageResponse → World → Bool × World
send_packet_in role response w = send_stream_message_to_primary role response w
