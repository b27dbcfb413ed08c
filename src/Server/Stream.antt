-- ===== src/Server/Stream.antt =====
-- StreamChannel of p4rt_server/p4rt_server.cc: one request, and the loop.
use p4rt_standalone.Prelude.{ℕ, String, not, Option, none, some, List, [], ◌∷◌, if◌then◌else◌}
use p4rt_standalone.Status.Code.{GrpcStatus, AbslStatus, StatusApi, grpc_ok, is_ok, is_ok_code}
use p4rt_standalone.Status.Convert.{absl_status_to_grpc_status}
use p4rt_standalone.Status.Builder.{from_status, append_text, to_status}
use p4rt_standalone.Status.Builders.{permission_denied_error_builder, unimplemented_error_builder}
use p4rt_standalone.Proto.{
  MasterArbitrationUpdate, PacketOut, StreamMessageRequest, StreamMessageResponse, Uint128Api,
}
use p4rt_standalone.Controller.State.{
  new_connection, set_object, get_role_name, get_election_id, send_stream_message_response,
}
use p4rt_standalone.Controller.Arbitration.{handle_arbitration_update, disconnect}
use p4rt_standalone.Controller.Requests.{allow_request, send_stream_message_to_primary}
use p4rt_standalone.Server.Provider.{
  SwitchProvider, P4RtServer, Attempt, completed, threw, Ended, replied, aborted, last_words,
}

-- `GenerateErrorResponse`, with a packet or without.
unfoldable pub generate_error_response : AbslStatus → Option PacketOut → StreamMessageResponse
unfolding absl_status_to_grpc_status
generate_error_response status packet =
    let grpc_status = absl_status_to_grpc_status status in
    StreamMessageResponse.error (record {
      canonical_code = grpc_status.error_code;
      message = grpc_status.error_message;
      packet_out = packet;
    })

module _ ⦃api : StatusApi⦄ where
  unfoldable pub not_primary_error : PacketOut → StreamMessageResponse
  not_primary_error packet =
      generate_error_response
        (to_status (
          append_text "Cannot process request. Only the primary connection can send PacketOuts."
            permission_denied_error_builder))
        (some packet)

  unfoldable pub packet_out_error : AbslStatus → PacketOut → StreamMessageResponse
  packet_out_error status packet =
      generate_error_response
        (to_status (append_text "Failed to send packet out." (from_status status))) (some packet)

  unfoldable pub unsupported_error : StreamMessageResponse
  unsupported_error =
      generate_error_response
        (to_status (append_text "Stream update type is not supported." unimplemented_error_builder))
        none

module _ {S : Type 0} (provider : SwitchProvider S) ⦃uint128 : Uint128Api⦄ ⦃api : StatusApi⦄ where
  -- The case `kArbitration`; a status ends the call, as an exception does, at which the process ends.
  unfoldable pub on_arbitration :
      MasterArbitrationUpdate → ℕ → P4RtServer S → Option (Ended GrpcStatus) × P4RtServer S
  on_arbitration update p s =
      let (status, w) = handle_arbitration_update update p s.world in
      if not (is_ok status)
      then (some (replied status), record s { world = disconnect p w })
      else (none, record s { world = w })

  unfoldable pub after_packet_out :
      Attempt AbslStatus
      → PacketOut
      → Option String
      → P4RtServer S
      → Option (Ended GrpcStatus) × P4RtServer S
  after_packet_out (threw e) packet role s = (some (aborted (last_words "StreamChannel" e)), s)
  after_packet_out (completed status) packet role s = (
    none,
    if not (is_ok_code status.code)
        then record s {
          world = (send_stream_message_to_primary role (packet_out_error status packet) s.world).1;
        }
        else s,
  )

  -- The case `kPacket`.
  unfoldable pub on_packet : PacketOut → ℕ → P4RtServer S → Option (Ended GrpcStatus) × P4RtServer S
  unfolding after_packet_out
  on_packet packet p s =
      let c = s.world.objects p in
      let is_primary = is_ok (allow_request (get_role_name c) (get_election_id c) s.world) in
      if not is_primary
      then (
        none,
        record s { world = send_stream_message_response p (not_primary_error packet) s.world },
      )
      else let (attempt, switch) = provider.send_packet_out packet s.switch in
        after_packet_out attempt packet (get_role_name c) (record s { switch = switch })

  -- The `switch` of the loop.
  unfoldable pub on_request :
      StreamMessageRequest → ℕ → P4RtServer S → Option (Ended GrpcStatus) × P4RtServer S
  unfolding on_arbitration on_packet
  on_request (StreamMessageRequest.arbitration update) p s = on_arbitration update p s
  on_request (StreamMessageRequest.packet packet) p s = on_packet packet p s
  on_request _ p s =
      (none, record s { world = send_stream_message_response p unsupported_error s.world })

  -- The loop, on the requests that the stream's `Read` delivers before it fails.
  unfoldable pub serve_requests :
      ℕ → List StreamMessageRequest → P4RtServer S → Ended GrpcStatus × P4RtServer S
  serve_requests p [] s = (replied grpc_ok, record s { world = disconnect p s.world })
  serve_requests p (request ∷ rest) s =
      let (ended, s') = on_request request p s in
      elim ended [ some status ↦ (status, s') | none ↦ serve_requests p rest s' ]

  -- The whole call: a connection object at a new address, and the loop.
  unfoldable pub stream_channel :
      ℕ → List StreamMessageRequest → P4RtServer S → Ended GrpcStatus × P4RtServer S
  stream_channel p requests s =
      serve_requests p requests (record s { world = set_object p new_connection s.world })
