-- ===== src/Controller/State.antt =====
-- The connection objects and the fields of `SdnControllerManager`, with the map of election IDs.
use p4rt_standalone.Prelude.{
  ℕ, String, Bool, true, false, Option, none, some, List, [], ◌∷◌, ◌++◌, same_role, same_number,
  if◌then◌else◌,
}
use p4rt_standalone.Proto.{StreamMessageResponse}

-- `SdnConnection`, less its gRPC stream: what is written to that goes to `World.writes`.
pub record SdnConnection : Type 0 where
  pub initialized : Bool
  pub role_name : Option String
  pub election_id : Option ℕ

-- The constructor.
abbrev pub new_connection : SdnConnection
new_connection = record { initialized = false; role_name = none; election_id = none }

abbrev pub initialize : SdnConnection → SdnConnection
initialize c = record c { initialized = true }

abbrev pub is_initialized : SdnConnection → Bool
is_initialized c = c.initialized

abbrev pub set_election_id : Option ℕ → SdnConnection → SdnConnection
set_election_id id c = record c { election_id = id }

abbrev pub get_election_id : SdnConnection → Option ℕ
get_election_id c = c.election_id

abbrev pub set_role_name : Option String → SdnConnection → SdnConnection
set_role_name name c = record c { role_name = name }

abbrev pub get_role_name : SdnConnection → Option String
get_role_name c = c.role_name

-- `flat_hash_map<optional<string>, optional<uint128>>`: `none` is a key that the map does not have.
abbrev pub RoleMap : Type 0
RoleMap = Option String → Option (Option ℕ)

abbrev pub assign : Option String → Option ℕ → RoleMap → RoleMap
assign role id m = λ r. if same_role role r then some id else m r

-- The value that `map[role]` reads.
abbrev pub value_or_none : Option (Option ℕ) → Option ℕ
value_or_none none = none
value_or_none (some id) = id

-- The map after `map[role]`, which enters an empty value for a key that the map does not have.
abbrev pub touch : Option String → RoleMap → RoleMap
touch role m = assign role (value_or_none (m role)) m

-- The fields of the manager; a connection is the address of its object.
pub record SdnControllerManager : Type 0 where
  pub device_id : ℕ
  pub connections : List ℕ
  pub election_id_past_by_role : RoleMap

-- The constructor.
abbrev pub new_manager : SdnControllerManager
new_manager = record {
  device_id = 183807201;
  connections = [];
  election_id_past_by_role = λ role. none;
}

-- The manager, the connection objects by their addresses, and the messages that were written to
-- the streams of connections, oldest first.
pub record World : Type 0 where
  pub manager : SdnControllerManager
  pub open manager use *
  pub objects : ℕ → SdnConnection
  pub writes : List (ℕ × StreamMessageResponse)

-- `election_id_past_by_role_[role]`, read, written, and what the read leaves behind.
abbrev pub past : World → Option String → Option ℕ
past w role = value_or_none (w.election_id_past_by_role role)

abbrev pub set_past : Option String → Option ℕ → World → World
set_past role id w = record w {
  manager = record w.manager {
    election_id_past_by_role = assign role id w.election_id_past_by_role;
  };
}

abbrev pub touch_past : Option String → World → World
touch_past role w = record w {
  manager = record w.manager { election_id_past_by_role = touch role w.election_id_past_by_role };
}

abbrev pub set_object : ℕ → SdnConnection → World → World
set_object p c w = record w { objects = λ q. if same_number p q then c else w.objects q }

abbrev pub set_connections : List ℕ → World → World
set_connections ps w = record w { manager = record w.manager { connections = ps } }

-- `SendStreamMessageResponse`: one `Write`; that it may fail has no effect but a line in the log.
abbrev pub send_stream_message_response : ℕ → StreamMessageResponse → World → World
send_stream_message_response p response w = record w { writes = w.writes ++ (p, response) ∷ [] }
