-- ===== src/Tests/Samples.antt =====
-- Concrete libraries and messages for the tests.
use mathlib.Core.Path.{◌≡◌, refl}
use Prim.Native.Nat.{◌/◌, ◌%◌}
use p4rt_standalone.Prelude.{
  [], ℕ, ◌+◌, ◌*◌, ◌^◌, ◌<◌, ◌≢◌, String, Option, none, some, arith, if◌then◌else◌,
}
use p4rt_standalone.Status.Code.{StatusCode, AbslStatus, StatusApi, value, failure}
use p4rt_standalone.Proto.{MasterArbitrationUpdate, StreamMessageResponse, PacketOut, Uint128Api}
use p4rt_standalone.Controller.State.{SdnConnection, World, new_connection, new_manager}
use p4rt_standalone.Controller.Arbitration.{handle_arbitration_update}
use p4rt_standalone.Controller.Invariant.Defs.{IsValid}
use p4rt_standalone.Controller.Invariant.Steps.{handle_arbitration_update-IsValid}
use p4rt_standalone.Server.System.Invariant.{start-IsValid}
use p4rt_standalone.Server.Provider.{SwitchProvider, P4RtServer, completed}
use p4rt_standalone.Prelude.{ltb}

pub high-make : (h l : ℕ) → h < 2 ^ 64 → l < 2 ^ 64 → (h * 2 ^ 64 + l) / 2 ^ 64 ≡ h
high-make h l p q = omega arith

pub low-make : (h l : ℕ) → h < 2 ^ 64 → l < 2 ^ 64 → (h * 2 ^ 64 + l) % 2 ^ 64 ≡ l
low-make h l p q = omega arith

-- 128-bit integers as numbers.
instance abbrev pub machine : Uint128Api
machine = record {
  make = λ h l. h * 2 ^ 64 + l;
  high64 = λ n. n / 2 ^ 64;
  low64 = λ n. n % 2 ^ 64;
  decimal = λ n. "a number";
  high64-make = high-make;
  low64-make = low-make;
}

abbrev pub make_status : StatusCode → String → AbslStatus
make_status StatusCode.ok m = record { code = StatusCode.ok; message = "" }
make_status c m = record { code = c; message = m }

pub code_law : (c : StatusCode) (m : String) → (make_status c m).code ≡ c
code_law StatusCode.ok m = refl
code_law _ m = refl

pub message_law : (c : StatusCode) (m : String) → c ≢ StatusCode.ok → (make_status c m).message ≡ m
message_law StatusCode.ok m n = absurd (n refl)
message_law _ m n = refl

instance abbrev pub absl : StatusApi
absl = record {
  status = make_status;
  to_text = λ s. s.message;
  status_code = code_law;
  status_message = message_law;
  status_message_ok = λ m. refl;
}

-- Updates for the role `sdn` and, without a role, for the root role.
abbrev pub update : Option String → Option ℕ → MasterArbitrationUpdate
update role low = record {
  device_id = 7;
  role = role;
  election_id = elim low [ none ↦ none | some n ↦ some (record { high = 0; low = n }) ];
  status = none;
}

abbrev pub packet : PacketOut
packet = record { bytes = "payload" }

abbrev pub packet_in : StreamMessageResponse
packet_in = StreamMessageResponse.other "packet in"

abbrev pub memory : ℕ → SdnConnection
memory p = new_connection

abbrev idle : World
idle = record { manager = new_manager; objects = memory; writes = [] }

-- Controller 1 with ID 5, and then also controller 2 with ID 9.
unfoldable pub one : World
one = (handle_arbitration_update (update (some "sdn") (some 5)) 1 idle).1

unfoldable pub two : World
two = (handle_arbitration_update (update (some "sdn") (some 9)) 2 one).1

idle-IsValid : IsValid idle
idle-IsValid = start-IsValid memory

pub one-IsValid : IsValid one
unfolding one
one-IsValid = handle_arbitration_update-IsValid (update (some "sdn") (some 5)) 1 idle idle-IsValid

pub two-IsValid : IsValid two
unfolding two
two-IsValid = handle_arbitration_update-IsValid (update (some "sdn") (some 9)) 2 one one-IsValid

-- A switch whose state is a number: the calls that it has served. It takes packets only while that
-- is below ten.
abbrev pub counter : SwitchProvider ℕ
counter = record {
  do_write = λ request n. (completed (make_status StatusCode.ok ""), n + 1);
  do_read = λ request n. (completed (value (record { entities = request.entities })), n + 1);
  send_packet_out = λ packet n. (
    completed (
        if ltb n 10
        then make_status StatusCode.ok ""
        else make_status StatusCode.unavailable "full"),
    n + 1,
  );
  set_forwarding_pipeline_config = λ config n. (completed (make_status StatusCode.ok ""), n + 1);
  get_forwarding_pipeline_config =
      λ n. (completed (failure (make_status StatusCode.internal "broken")), n + 1);
}

abbrev pub server : ℕ → World → P4RtServer ℕ
server n w = record { world = w; switch = n }
