-- ===== src/Controller/Requests.antt =====
-- `AllowRequest` and `SendStreamMessageToPrimary`.
use p4rt_standalone.Prelude.{
  ℕ, String, Bool, true, false, not, Option, none, some, List, [], ◌∷◌, same_id, has_value,
  if◌then◌else◌,
}
use mathlib.Core.Option
use p4rt_standalone.Status.Code.{StatusCode, GrpcStatus, grpc_ok}
use p4rt_standalone.Proto.{
  WriteRequest, SetForwardingPipelineConfigRequest, StreamMessageResponse, Uint128Api,
}
use p4rt_standalone.Controller.State.{
  SdnConnection, World, past, touch_past, send_stream_message_response,
}
use p4rt_standalone.Controller.Primary.{holds}
use p4rt_standalone.Controller.Arbitration.{of_proto, role_of_name}

abbrev pub denied : String → GrpcStatus
denied message = record { error_code = StatusCode.permission_denied; error_message = message }

-- The tests on what `find` finds for the role. It enters nothing.
abbrev allow_found : Option ℕ → Option (Option ℕ) → GrpcStatus
allow_found election_id none =
    denied
      "Only the primary connection can issue requests, but no primary connection has been established."
allow_found election_id (some primary) =
    if not (same_id election_id primary)
    then denied "Only the primary connection can issue requests."
    else grpc_ok

unfoldable pub allow_request : Option String → Option ℕ → World → GrpcStatus
allow_request role election_id w =
    if not (has_value election_id)
    then denied "Request does not have an election ID."
    else allow_found election_id (w.election_id_past_by_role role)

module _ ⦃api : Uint128Api⦄ where
  unfoldable pub allow_write_request : WriteRequest → World → GrpcStatus
  allow_write_request request =
      allow_request (role_of_name request.role) (Option.map of_proto request.election_id)

  unfoldable pub allow_pipeline_request : SetForwardingPipelineConfigRequest → World → GrpcStatus
  allow_pipeline_request request =
      allow_request (role_of_name request.role) (Option.map of_proto request.election_id)

-- The loop of `SendStreamMessageToPrimary`, which goes on after a hit: `found` is
-- `primary_connection`.
unfoldable pub last_holder :
    Option String → Option ℕ → (ℕ → SdnConnection) → Option ℕ → List ℕ → Option ℕ
last_holder role id objects found [] = found
last_holder role id objects found (p ∷ ps) =
    last_holder role id objects (if holds role id (objects p) then some p else found) ps

abbrev pub send_to_holder : Option ℕ → StreamMessageResponse → World → Bool × World
send_to_holder none response w = (false, w)
send_to_holder (some p) response w = (true, send_stream_message_response p response w)

unfoldable pub send_stream_message_to_primary :
    Option String → StreamMessageResponse → World → Bool × World
send_stream_message_to_primary role response w =
    let primary_election_id = past w role in
    let w' = touch_past role w in
    if not (has_value primary_election_id)
    then (false, w')
    else send_to_holder (last_holder role primary_election_id w.objects none w.connections) response
        w'
