-- ===== src/Controller/Primary.antt =====
-- Who is primary, and who is told: the private helpers of `SdnControllerManager`, and
-- `ValidateConnection`.
use p4rt_standalone.Prelude.{
  ℕ, String, Bool, true, false, ◌&&◌, ◌||◌, not, Option, none, some, List, [], ◌∷◌, same_role,
  same_id, has_value, opt_ltb, opt_max, if◌then◌else◌,
}
use mathlib.Core.Option
use p4rt_standalone.Status.Code.{StatusCode, GrpcStatus, grpc_ok}
use p4rt_standalone.Proto.{Uint128, RpcStatus, StreamMessageResponse, Uint128Api}
use p4rt_standalone.Controller.State.{
  SdnConnection, World, get_role_name, get_election_id, past, set_past, touch_past,
  send_stream_message_response,
}

-- The test on a connection that three loops make.
abbrev pub holds : Option String → Option ℕ → SdnConnection → Bool
holds role id c = same_role (get_role_name c) role && same_id (get_election_id c) id

abbrev pub id_already_used : GrpcStatus
id_already_used = record {
  error_code = StatusCode.invalid_argument;
  error_message = "Election ID is already used by another connection with the same role.";
}

-- The loop of `ValidateConnection`.
unfoldable pub find_duplicate : Option String → Option ℕ → (ℕ → SdnConnection) → List ℕ → GrpcStatus
find_duplicate role id objects [] = grpc_ok
find_duplicate role id objects (p ∷ ps) =
    if holds role id (objects p) then id_already_used else find_duplicate role id objects ps

unfoldable pub validate_connection :
    Option String → Option ℕ → (ℕ → SdnConnection) → List ℕ → GrpcStatus
validate_connection role id objects ps =
    if not (has_value id) then grpc_ok else find_duplicate role id objects ps

-- The loop of `PrimaryConnectionExists`.
unfoldable pub find_primary : Option String → Option ℕ → (ℕ → SdnConnection) → List ℕ → Bool
find_primary role id objects [] = false
find_primary role id objects (p ∷ ps) =
    if holds role id (objects p) then has_value id else find_primary role id objects ps

unfoldable pub primary_connection_exists : Option String → World → Bool × World
primary_connection_exists role w =
    (find_primary role (past w role) w.objects w.connections, touch_past role w)

-- The loop of `UpdateToPrimaryConnectionState`.
unfoldable pub max_election_id : Option String → (ℕ → SdnConnection) → Option ℕ → List ℕ → Option ℕ
max_election_id role objects acc [] = acc
max_election_id role objects acc (p ∷ ps) =
    max_election_id role objects
      (if not (same_role (get_role_name (objects p)) role)
        then acc
        else opt_max acc (get_election_id (objects p)))
      ps

-- `max` is `max_election_id`, and `before` what `election_id_past` holds on entry.
unfoldable pub update_with_max : Option String → Option ℕ → Option ℕ → World → Bool × World
update_with_max role election_id max w =
    let before = past w role in
    let old_primary_is_reconnecting = same_id election_id max in
    if not (same_id max before) || old_primary_is_reconnecting
    then (
      true,
      if has_value max && opt_ltb before max then set_past role max w else touch_past role w,
    )
    else (false, touch_past role w)

unfoldable pub update_to_primary_connection_state : Option String → Option ℕ → World → Bool × World
unfolding update_with_max
update_to_primary_connection_state role election_id w =
    update_with_max role election_id (max_election_id role w.objects none w.connections) w

abbrev pub primary_status : RpcStatus
primary_status = record { code = StatusCode.ok; message = "you are the primary connection." }

abbrev pub backup_status : RpcStatus
backup_status = record {
  code = StatusCode.already_exists;
  message = "you are a backup connection, and a primary connection exists.";
}

abbrev pub no_primary_status : RpcStatus
no_primary_status = record {
  code = StatusCode.not_found;
  message = "you are a backup connection, and NO primary connection exists.";
}

-- The tests of `SendArbitrationResponse`, in its order.
unfoldable pub connection_status : Bool → Option ℕ → Option ℕ → RpcStatus
connection_status primary_exists primary_id id =
    if primary_exists
    then if same_id primary_id id then primary_status else backup_status
    else no_primary_status

module _ ⦃api : Uint128Api⦄ where
  -- `set_high` and `set_low`.
  abbrev pub to_proto : ℕ → Uint128
  to_proto id = record { high = api.high64 id; low = api.low64 id }

  unfoldable pub send_arbitration_response : ℕ → World → World
  unfolding primary_connection_exists connection_status
  send_arbitration_response p w =
      let c = w.objects p in
      let role = get_role_name c in
      let primary_election_id = past w role in
      let (primary_exists, w') = primary_connection_exists role (touch_past role w) in
      let response = StreamMessageResponse.arbitration (record {
        device_id = w.device_id;
        role = role;
        election_id = Option.map to_proto primary_election_id;
        status = some (connection_status primary_exists primary_election_id (get_election_id c));
      }) in
      send_stream_message_response p response w'

  -- The loop of `InformConnectionsAboutPrimaryChange`.
  unfoldable pub inform_all : Option String → List ℕ → World → World
  inform_all role [] w = w
  inform_all role (p ∷ ps) w =
      inform_all role ps
        (if same_role (get_role_name (w.objects p)) role then send_arbitration_response p w else w)

  unfoldable pub inform_connections_about_primary_change : Option String → World → World
  inform_connections_about_primary_change role w = inform_all role w.connections w
