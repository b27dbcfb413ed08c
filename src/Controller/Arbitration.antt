-- ===== src/Controller/Arbitration.antt =====
-- `HandleArbitrationUpdate` and `Disconnect`. `lock_` makes each of them one step.
use p4rt_standalone.Prelude.{
  ℕ, String, ◌&&◌, not, Option, none, some, [], ◌∷◌, ◌++◌, same_role, same_id, same_number,
  has_value, erase_first, if◌then◌else◌,
}
use mathlib.Core.Option
use Prim.Native.String.{◌++◌ as str_append}
use text.Mathlib.Text.{◌==◌ as str_eq}
use p4rt_standalone.Status.Code.{StatusCode, GrpcStatus, grpc_ok, is_ok}
use p4rt_standalone.Proto.{Uint128, MasterArbitrationUpdate, Uint128Api}
use p4rt_standalone.Controller.State.{
  SdnConnection, World, get_role_name, get_election_id, set_role_name, set_election_id, initialize,
  is_initialized, past, touch_past, set_object, set_connections,
}
use p4rt_standalone.Controller.Primary.{
  validate_connection, update_to_primary_connection_state, send_arbitration_response,
  inform_connections_about_primary_change,
}

-- A role name that is not set, or is empty, is no role name.
abbrev pub role_of_name : String → Option String
role_of_name name = if str_eq name "" then none else some name

abbrev pub role_of_update : MasterArbitrationUpdate → Option String
role_of_update update = elim update.role [ none ↦ none | some name ↦ role_of_name name ]

abbrev pub set_device_id : ℕ → World → World
set_device_id id w = record w { manager = record w.manager { device_id = id } }

-- The connection with the arbitration data.
abbrev pub arbitrated : Option String → Option ℕ → SdnConnection → SdnConnection
arbitrated role id c = initialize (set_election_id id (set_role_name role c))

abbrev pub register : ℕ → Option String → Option ℕ → World → World
register p role id w =
    let w' = set_object p (arbitrated role id (w.objects p)) w in
    set_connections (w'.connections ++ p ∷ []) w'

module _ ⦃api : Uint128Api⦄ where
  abbrev pub of_proto : Uint128 → ℕ
  of_proto id = api.make id.high id.low

  abbrev wrong_device : ℕ → ℕ → GrpcStatus
  wrong_device asked device_id = record {
    error_code = StatusCode.failed_precondition;
    error_message = str_append "Arbitration request has the wrong device ID '" (
        str_append (api.decimal asked) (
          str_append "'. Cannot establish connection to this device '"
            (str_append (api.decimal device_id) "'.")));
  }

  -- From the registration on.
  unfoldable pub accept : ℕ → Option String → Option ℕ → World → GrpcStatus × World
  accept p role id w =
      let (changed, w') = update_to_primary_connection_state role id (register p role id w) in
      (
        grpc_ok,
        if changed
            then inform_connections_about_primary_change role w'
            else send_arbitration_response p w',
      )

  -- From the test whether the controller is initialized on.
  unfoldable pub arbitrate : ℕ → Option String → Option ℕ → World → GrpcStatus × World
  unfolding accept
  arbitrate p role id w =
      let c = w.objects p in
      if is_initialized c && (same_role (get_role_name c) role && same_id (get_election_id c) id)
      then (grpc_ok, send_arbitration_response p w)
      else let valid_connection = validate_connection role id w.objects w.connections in
        if not (is_ok valid_connection) then (valid_connection, w) else accept p role id w

  unfoldable pub handle_arbitration_update :
      MasterArbitrationUpdate → ℕ → World → GrpcStatus × World
  unfolding arbitrate
  handle_arbitration_update update p w =
      let w' = set_device_id update.device_id w in
      if not (same_number update.device_id w'.device_id)
      then (wrong_device update.device_id w'.device_id, w')
      else arbitrate p (role_of_update update) (Option.map of_proto update.election_id) w'

  -- The end of `Disconnect`, after the removal.
  unfoldable pub inform_if_primary : SdnConnection → World → World
  inform_if_primary c w =
      if not (has_value (get_election_id c))
      then w
      else let w' = touch_past (get_role_name c) w in
        if same_id (get_election_id c) (past w (get_role_name c))
        then inform_connections_about_primary_change (get_role_name c) w'
        else w'

  unfoldable pub disconnect : ℕ → World → World
  unfolding inform_if_primary
  disconnect p w =
      if not (is_initialized (w.objects p))
      then w
      else inform_if_primary (w.objects p) (set_connections (erase_first p w.connections) w)
