-- ===== src/Tests/Server.antt =====
-- The theorems on the server at the runs of Samples.
use p4rt_standalone.Prelude.{◌≡◌, refl, some, true, false, List, [], ◌∷◌, inl, inr}
use p4rt_standalone.Status.Code.{grpc_ok}
use p4rt_standalone.Proto.{
  WriteRequest, SetForwardingPipelineConfigRequest, Action, ResponseType, StreamMessageRequest,
}
use p4rt_standalone.Controller.Primary.{id_already_used}
use p4rt_standalone.Server.Provider.{replied, provider_send_packet_in}
use p4rt_standalone.Server.Rpc.{
  write, read, set_forwarding_pipeline_config, get_forwarding_pipeline_config,
}
use p4rt_standalone.Server.Stream.{on_packet, stream_channel}
use p4rt_standalone.Server.Gate.{
  Gated, Configured, write-Gated, set_pipeline-Configured, Fetched, get_pipeline-Fetched,
}
use p4rt_standalone.Server.Reading.{Answered, read-Answered}
use p4rt_standalone.Server.PacketOut.{Handled, on_packet-Handled}
use p4rt_standalone.Server.PacketIn.{empty_role_unreachable}
use p4rt_standalone.Tests.Program.{program}
use p4rt_standalone.Tests.Samples.{
  machine, absl, update, packet, packet_in, two, two-IsValid, counter, server,
}

on_packet-Handled_example :
    Handled counter packet 2
      (server 3 two)
      (on_packet counter packet 2 (server 3 two)).0
      (on_packet counter packet 2 (server 3 two)).1
unfolding program
on_packet-Handled_example =
    on_packet-Handled counter packet 2 (server 3 two) two-IsValid (inr (inl refl))

abbrev write_request : WriteRequest
write_request = record {
  role = "sdn";
  election_id = some (record { high = 0; low = 9 });
  updates = "an entry";
}

write-Gated_example :
    Gated counter
      (server 3 two)
      (some "sdn")
      (some 9)
      (replied grpc_ok, server 4 two)
      (write counter write_request (server 3 two))
unfolding program
write-Gated_example = write-Gated counter (server 3 two) write_request

abbrev config_request : SetForwardingPipelineConfigRequest
config_request = record {
  role = "sdn";
  election_id = some (record { high = 0; low = 9 });
  action = Action.commit;
  config = record { cookie = some 1; rest = "p4info" };
}

set_pipeline-Configured_example :
    Configured counter
      (server 3 two)
      (some "sdn")
      (some 9)
      false
      (replied grpc_ok, server 4 two)
      (set_forwarding_pipeline_config counter config_request (server 3 two))
unfolding program
set_pipeline-Configured_example = set_pipeline-Configured counter (server 3 two) config_request

get_pipeline-Fetched_example :
    Fetched counter ResponseType.all
      (server 3 two)
      (get_forwarding_pipeline_config counter ResponseType.all (server 3 two))
get_pipeline-Fetched_example = get_pipeline-Fetched counter ResponseType.all (server 3 two)

empty_role_unreachable_example : (provider_send_packet_in "" packet_in two).writes ≡ two.writes
empty_role_unreachable_example = empty_role_unreachable packet_in two two-IsValid

abbrev chatter : List StreamMessageRequest
chatter = StreamMessageRequest.packet packet ∷ StreamMessageRequest.digest_ack "ack" ∷ []

abbrev session : List StreamMessageRequest
session =
    StreamMessageRequest.arbitration (update (some "sdn") (some 10))
    ∷ StreamMessageRequest.packet packet
    ∷ StreamMessageRequest.arbitration (update (some "sdn") (some 5))
    ∷ []

-- The packet reaches the switch; the second update has an ID that is in use.
session_ends : (stream_channel counter 3 session (server 3 two)).0 ≡ replied id_already_used
unfolding program
session_ends = refl

session_switch : (stream_channel counter 3 session (server 3 two)).1.switch ≡ 4
unfolding program
session_switch = refl

read-Answered_example :
    Answered counter
      (server 3 two)
      (some (record { entities = "all" }))
      true
      (read counter (some (record { entities = "all" })) true (server 3 two))
read-Answered_example =
    read-Answered counter (server 3 two) (some (record { entities = "all" })) true
