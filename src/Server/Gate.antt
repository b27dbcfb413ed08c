-- ===== src/Server/Gate.antt =====
-- What the unary calls let through to the provider, and what they answer.
use mathlib.Core.Option
use p4rt_standalone.Prelude.{
  ℕ, String, ◌≡◌, ◌≢◌, refl, ◌∙◌, Bool, true, false, Option, none, some, Bool-cases, Option-cases,
  inl, inr, has_value,
}
use p4rt_standalone.Status.Code.{
  StatusCode, GrpcStatus, AbslStatus, StatusApi, value, failure, grpc_ok, is_ok,
}
use p4rt_standalone.Status.Convert.{absl_status_to_grpc_status}
use p4rt_standalone.Status.Messages.{built_status}
use p4rt_standalone.Status.Builder.{append_text, log_error, from_code}
use p4rt_standalone.Status.Builders.{unimplemented_error_builder}
use p4rt_standalone.Proto.{
  WriteRequest, ForwardingPipelineConfig, ResponseType, SetForwardingPipelineConfigRequest,
  Uint128Api,
}
use p4rt_standalone.Controller.State.{World, past}
use p4rt_standalone.Controller.Arbitration.{of_proto, role_of_name}
use p4rt_standalone.Controller.Requests.{allow_request, allow_write_request, allow_pipeline_request}
use p4rt_standalone.Controller.Permission.{allow_request_iff}
use p4rt_standalone.Server.Provider.{
  SwitchProvider, P4RtServer, completed, threw, Ended, replied, aborted, last_words, catching,
  answer-cases,
}
use p4rt_standalone.Server.Rpc.{
  unsupported_action, write, set_forwarding_pipeline_config, get_forwarding_pipeline_config,
  is_supported, config_response,
}

-- A request's role and election ID are those of the highest accepted controller.
abbrev IsCurrent : World → Option String → Option ℕ → Type 0
IsCurrent w role id = (has_value id ≡ true) × (id ≡ past w role)

module _ {S : Type 0} (provider : SwitchProvider S) ⦃uint128 : Uint128Api⦄ (s : P4RtServer S) where
  -- How a call that needs permission ends: refused, with nothing touched, or passed on.
  pub data Gated (role : Option String) (id : Option ℕ) (passed r : Ended GrpcStatus × P4RtServer S)
      : Type 0 where
    denied :
        ¬ IsCurrent s.world role id
        → (status : GrpcStatus) → r.0 ≡ replied status
        → status.error_code ≡ StatusCode.permission_denied
        → r.1 ≡ s
        → Gated role id passed r
    admitted : IsCurrent s.world role id → r ≡ passed → Gated role id passed r

  refused_code :
      (role : Option String) (id : Option ℕ)
      → is_ok (allow_request role id s.world) ≡ false
      → (allow_request role id s.world).error_code ≡ StatusCode.permission_denied
  refused_code role id h = elim (allow_request_iff role id s.world).1 [ inl e ↦ cc | inr e ↦ e ]

  -- A Write reaches the provider exactly if it carries the highest election ID of its role; the
  -- answer is then the provider's status, or the process ends, if the provider throws. Otherwise
  -- the code is PERMISSION_DENIED and the server's state is unchanged.
  pub write-Gated :
      (request : WriteRequest)
      → Gated
          (role_of_name request.role)
          (Option.map of_proto request.election_id)
          (
            catching "Write" absl_status_to_grpc_status (provider.do_write request s.switch).0,
            record s { switch = (provider.do_write request s.switch).1 },
          )
          (write provider request s)
  unfolding write allow_write_request
  write-Gated request = elim (Bool-cases (is_ok (allow_request role id s.world))) [
    | inl e ↦ admitted ((allow_request_iff role id s.world).0.0 e) (rw e refl)
    | inr e ↦
        denied (λ c. cc ((allow_request_iff role id s.world).0.1 c)) (allow_request role id s.world)
          (rw e refl) (refused_code role id e) (rw e refl)
  ]
    where
      role : Option String
      role = role_of_name request.role

      id : Option ℕ
      id = Option.map of_proto request.election_id

  -- How SetForwardingPipelineConfig ends.
  pub data Configured (role : Option String) (id : Option ℕ) (supported : Bool)
      (passed r : Ended GrpcStatus × P4RtServer S) : Type 0 where
    denied :
        ¬ IsCurrent s.world role id
        → (status : GrpcStatus) → r.0 ≡ replied status
        → status.error_code ≡ StatusCode.permission_denied
        → r.1 ≡ s
        → Configured role id supported passed r
    unsupported :
        IsCurrent s.world role id
        → supported ≡ false
        → (status : GrpcStatus) → r.0 ≡ replied status
        → status.error_code ≡ StatusCode.unimplemented
        → r.1 ≡ s
        → Configured role id supported passed r
    applied :
        IsCurrent s.world role id
        → supported ≡ true
        → r ≡ passed
        → Configured role id supported passed r

  unsupported_code :
      ⦃api : StatusApi⦄ → (unsupported_action provider).error_code ≡ StatusCode.unimplemented
  unfolding absl_status_to_grpc_status append_text log_error from_code
  unsupported_code ⦃api⦄ =
      (built_status (
        append_text "SetForwardingPipelineConfig." (
          append_text "Only Action RECONCILE_AND_COMMIT or VERIFY_AND_COMMIT is supported for "
            (log_error unimplemented_error_builder)))).0
      ∙ api.status_code StatusCode.unimplemented ""

  -- SetForwardingPipelineConfig hands the configuration to the provider, whose status or exception
  -- then decides the end, exactly if the request carries the highest election ID of its role and a
  -- supported action; otherwise nothing changes, with PERMISSION_DENIED or UNIMPLEMENTED.
  pub set_pipeline-Configured :
      ⦃api : StatusApi⦄ (request : SetForwardingPipelineConfigRequest)
      → Configured
          (role_of_name request.role)
          (Option.map of_proto request.election_id)
          (is_supported request.action)
          (
            catching "SetForwardingPipelineConfig" absl_status_to_grpc_status
                (provider.set_forwarding_pipeline_config request.config s.switch).0,
            record s {
              switch = (provider.set_forwarding_pipeline_config request.config s.switch).1;
            },
          )
          (set_forwarding_pipeline_config provider request s)
  unfolding set_forwarding_pipeline_config allow_pipeline_request
  set_pipeline-Configured request = elim (Bool-cases (is_ok (allow_request role id s.world))) [
    | inl e ↦ elim (Bool-cases (is_supported request.action)) [
      | inl a ↦ applied ((allow_request_iff role id s.world).0.0 e) a (rw (e, a) refl)
      | inr n ↦
          unsupported ((allow_request_iff role id s.world).0.0 e) n (unsupported_action provider)
            (rw (e, n) refl) unsupported_code (rw (e, n) refl)
    ]
    | inr e ↦
        denied (λ c. cc ((allow_request_iff role id s.world).0.1 c)) (allow_request role id s.world)
          (rw e refl) (refused_code role id e) (rw e refl)
  ]
    where
      role : Option String
      role = role_of_name request.role

      id : Option ℕ
      id = Option.map of_proto request.election_id

module _ {S : Type 0} (provider : SwitchProvider S) (type : ResponseType) (s : P4RtServer S) where
  -- The server after the one call of the provider.
  abbrev after_fetch : P4RtServer S
  after_fetch = record s { switch = (provider.get_forwarding_pipeline_config s.switch).1 }

  -- How GetForwardingPipelineConfig ends: only a request for the cookie does not get all of the
  -- configuration, and a cookie that is not set reads as one that is zero.
  pub data Fetched (r : Ended (GrpcStatus × Option ForwardingPipelineConfig) × P4RtServer S)
      : Type 0 where
    cookie_fetched :
        (p4info : ForwardingPipelineConfig) (c : ℕ) (status : GrpcStatus)
        → (provider.get_forwarding_pipeline_config s.switch).0 ≡ completed (value p4info)
        → type ≡ ResponseType.cookie_only
        → p4info.cookie ≡ some c
        → status.error_code ≡ StatusCode.ok
        → r ≡ (replied (status, some (record { cookie = some c; rest = "" })), after_fetch)
        → Fetched r
    no_cookie_fetched :
        (p4info : ForwardingPipelineConfig) (status : GrpcStatus)
        → (provider.get_forwarding_pipeline_config s.switch).0 ≡ completed (value p4info)
        → type ≡ ResponseType.cookie_only
        → p4info.cookie ≡ none
        → status.error_code ≡ StatusCode.ok
        → r ≡ (replied (status, some (record { cookie = some 0; rest = "" })), after_fetch)
        → Fetched r
    all_fetched :
        (p4info : ForwardingPipelineConfig) (status : GrpcStatus)
        → (provider.get_forwarding_pipeline_config s.switch).0 ≡ completed (value p4info)
        → type ≢ ResponseType.cookie_only
        → status.error_code ≡ StatusCode.ok
        → r ≡ (replied (status, some p4info), after_fetch)
        → Fetched r
    dropped :
        (failed : AbslStatus) (status : GrpcStatus)
        → (provider.get_forwarding_pipeline_config s.switch).0 ≡ completed (failure failed)
        → status.error_code ≡ StatusCode.ok
        → r ≡ (replied (status, none), after_fetch)
        → Fetched r
    crashed :
        (e : Option String)
        → (provider.get_forwarding_pipeline_config s.switch).0 ≡ threw e
        → r ≡ (aborted (last_words "GetForwardingPipelineConfig" e), after_fetch)
        → Fetched r

  answered :
      (p4info : ForwardingPipelineConfig)
      → (provider.get_forwarding_pipeline_config s.switch).0 ≡ completed (value p4info)
      → (t : ResponseType) → type ≡ t
      → Fetched (replied (grpc_ok, some (config_response t p4info)), after_fetch)
  answered p4info e ResponseType.cookie_only h = elim (Option-cases p4info.cookie) [
    | inl n ↦ no_cookie_fetched p4info grpc_ok e h n refl (rw n refl)
    | inr (c, k) ↦ cookie_fetched p4info c grpc_ok e h k refl (rw k refl)
  ]
  answered p4info e ResponseType.all h = all_fetched p4info grpc_ok e (λ k. cc) refl refl
  answered p4info e ResponseType.p4info_and_cookie h =
      all_fetched p4info grpc_ok e (λ k. cc) refl refl
  answered p4info e ResponseType.device_config_and_cookie h =
      all_fetched p4info grpc_ok e (λ k. cc) refl refl

  -- GetForwardingPipelineConfig calls the provider once and answers OK whether that succeeds or
  -- fails: with the cookie alone if only that is asked for, zero if it is not set, with the whole
  -- configuration for any other type, with none on a failure. If the provider throws, the process
  -- ends.
  pub get_pipeline-Fetched : Fetched (get_forwarding_pipeline_config provider type s)
  unfolding get_forwarding_pipeline_config
  get_pipeline-Fetched = elim (answer-cases (provider.get_forwarding_pipeline_config s.switch).0) [
    | inl (p4info, e) ↦ rw e (answered p4info e type refl)
    | inr (inl (failed, e)) ↦ rw e (dropped failed grpc_ok e refl refl)
    | inr (inr (what, e)) ↦ rw e (crashed what e refl)
  ]
