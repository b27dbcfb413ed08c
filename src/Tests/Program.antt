-- ===== src/Tests/Program.antt =====
-- Everything that a run computes with, under one name.
use p4rt_standalone.Prelude.{same_role, same_id, erase_first}
use p4rt_standalone.Controller.Primary.{
  find_duplicate, validate_connection, find_primary, primary_connection_exists, max_election_id,
  update_with_max, update_to_primary_connection_state, connection_status, send_arbitration_response,
  inform_all, inform_connections_about_primary_change,
}
use p4rt_standalone.Controller.Arbitration.{
  accept, arbitrate, handle_arbitration_update, inform_if_primary, disconnect,
}
use p4rt_standalone.Controller.Requests.{
  allow_request, allow_write_request, allow_pipeline_request, last_holder,
  send_stream_message_to_primary,
}
use p4rt_standalone.Controller.Isolation.{messages_to}
use p4rt_standalone.Status.Convert.{absl_status_to_grpc_status, grpc_status_to_absl_status}
use p4rt_standalone.Status.Builder.{
  join_message, from_code, from_status, append_text, log_error, set_prepend, set_append, set_code,
  get_status_and_log,
}
use p4rt_standalone.Server.Provider.{provider_send_packet_in, send_packet_in}
use p4rt_standalone.Server.Rpc.{
  write, read, set_forwarding_pipeline_config, get_forwarding_pipeline_config,
}
use p4rt_standalone.Server.Stream.{
  generate_error_response, not_primary_error, packet_out_error, unsupported_error, on_arbitration,
  after_packet_out, on_packet, on_request, serve_requests, stream_channel,
}
use p4rt_standalone.Tests.Samples.{one, two}

unfoldable pub program : Unit {0}
unfolding same_role same_id erase_first find_duplicate validate_connection find_primary
    primary_connection_exists max_election_id update_with_max update_to_primary_connection_state
    connection_status send_arbitration_response inform_all inform_connections_about_primary_change
    accept arbitrate handle_arbitration_update inform_if_primary disconnect allow_request
    allow_write_request allow_pipeline_request last_holder send_stream_message_to_primary
    messages_to absl_status_to_grpc_status grpc_status_to_absl_status join_message from_code
    from_status append_text log_error set_prepend set_append set_code get_status_and_log
    provider_send_packet_in send_packet_in write read set_forwarding_pipeline_config
    get_forwarding_pipeline_config generate_error_response not_primary_error packet_out_error
    unsupported_error on_arbitration after_packet_out on_packet on_request serve_requests
    stream_channel one two
program = tt
