-- ===== src/Server/Rpc.antt =====
-- The unary calls of p4rt_server/p4rt_server.cc: Write, Read, SetForwardingPipelineConfig and
-- GetForwardingPipelineConfig.
use Prim.Native.String.{◌++◌}
use p4rt_standalone.Prelude.{
  String, Bool, true, false, not, Option, none, some, List, [], ◌∷◌, if◌then◌else◌,
}
use p4rt_standalone.Status.Code.{
  StatusCode, GrpcStatus, AbslStatus, StatusApi, StatusOr, value, failure, grpc_ok, is_ok,
}
use p4rt_standalone.Status.Convert.{absl_status_to_grpc_status}
use p4rt_standalone.Status.Builder.{append_text, log_error, to_status}
use p4rt_standalone.Status.Builders.{unimplemented_error_builder}
use p4rt_standalone.Proto.{
  WriteRequest, ReadRequest, ReadResponse, Action, ForwardingPipelineConfig, ResponseType,
  SetForwardingPipelineConfigRequest, Uint128Api,
}
use p4rt_standalone.Controller.Requests.{allow_write_request, allow_pipeline_request}
use p4rt_standalone.Server.Provider.{SwitchProvider, P4RtServer, Ended, replied, catching}

-- The actions that `SetForwardingPipelineConfig` supports.
abbrev pub is_supported : Action → Bool
is_supported Action.reconcile_and_commit = true
is_supported Action.verify_and_commit = true
is_supported _ = false

-- `response->mutable_config()` of `GetForwardingPipelineConfig`, from one with nothing set.
abbrev pub config_response : ResponseType → ForwardingPipelineConfig → ForwardingPipelineConfig
config_response ResponseType.cookie_only config = record {
  cookie = some (elim config.cookie [ none ↦ 0 | some c ↦ c ]);
  rest = "";
}
config_response _ config = config

module _ {S : Type 0} (provider : SwitchProvider S) where
  -- The status and, if one was written, the configuration of the response.
  unfoldable pub get_forwarding_pipeline_config :
      ResponseType
      → P4RtServer S
      → Ended (GrpcStatus × Option ForwardingPipelineConfig) × P4RtServer S
  get_forwarding_pipeline_config type s =
      let (attempt, switch) = provider.get_forwarding_pipeline_config s.switch in
      (
        catching "GetForwardingPipelineConfig"
            (λ result. (
              grpc_ok,
              elim result [ value p4info ↦ some (config_response type p4info) | failure _ ↦ none ],
            ))
            attempt,
        record s { switch = switch },
      )

  module _ ⦃api : StatusApi⦄ where
    abbrev read_failure : AbslStatus → GrpcStatus
    read_failure status = record {
      error_code = StatusCode.unknown;
      error_message = "Read failure: " ++ api.to_text status;
    }

    abbrev finish_read : StatusOr ReadResponse → GrpcStatus × List ReadResponse
    finish_read (value response) = (grpc_ok, response ∷ [])
    finish_read (failure status) = (read_failure status, [])

    abbrev null_argument : String → GrpcStatus
    null_argument message = record {
      error_code = StatusCode.invalid_argument;
      error_message = message;
    }

    -- A null request is `none`; `has_writer` tells whether the writer is there. The list holds what
    -- was written to the writer.
    unfoldable pub read :
        Option ReadRequest
        → Bool
        → P4RtServer S
        → Ended (GrpcStatus × List ReadResponse) × P4RtServer S
    read none has_writer s = (replied (null_argument "ReadRequest cannot be a nullptr.", []), s)
    read (some request) false s =
        (replied (null_argument "ReadResponse writer cannot be a nullptr.", []), s)
    read (some request) true s =
        let (attempt, switch) = provider.do_read request s.switch in
        (catching "Read" finish_read attempt, record s { switch = switch })

  module _ ⦃uint128 : Uint128Api⦄ where
    unfoldable pub write : WriteRequest → P4RtServer S → Ended GrpcStatus × P4RtServer S
    unfolding absl_status_to_grpc_status
    write request s =
        let connection_status = allow_write_request request s.world in
        if not (is_ok connection_status)
        then (replied connection_status, s)
        else let (attempt, switch) = provider.do_write request s.switch in
          (catching "Write" absl_status_to_grpc_status attempt, record s { switch = switch })

    module _ ⦃api : StatusApi⦄ where
      abbrev pub unsupported_action : GrpcStatus
      unsupported_action = absl_status_to_grpc_status (
          to_status (
            append_text "SetForwardingPipelineConfig." (
              append_text "Only Action RECONCILE_AND_COMMIT or VERIFY_AND_COMMIT is supported for "
                (log_error unimplemented_error_builder))))

      unfoldable pub set_forwarding_pipeline_config :
          SetForwardingPipelineConfigRequest → P4RtServer S → Ended GrpcStatus × P4RtServer S
      unfolding absl_status_to_grpc_status
      set_forwarding_pipeline_config request s =
          let connection_status = allow_pipeline_request request s.world in
          if not (is_ok connection_status)
          then (replied connection_status, s)
          else if not (is_supported request.action)
          then (replied unsupported_action, s)
          else let (attempt, switch) =
              provider.set_forwarding_pipeline_config request.config s.switch in
            (
              catching "SetForwardingPipelineConfig" absl_status_to_grpc_status attempt,
              record s { switch = switch },
            )
