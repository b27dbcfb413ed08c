-- ===== src/Server/Pending/Calls.antt =====
-- Undisturbed calls as runs: the test, the call of the provider, and nothing in between.
use p4rt_standalone.Prelude.{
  ℕ, String, Option, refl, [], ◌∷◌, Elem, if◌then◌else◌, Bool-cases, inl, inr,
}
use p4rt_standalone.Status.Code.{StatusApi, is_ok, is_ok_code}
use p4rt_standalone.Proto.{WriteRequest, SetForwardingPipelineConfigRequest, PacketOut, Uint128Api}
use p4rt_standalone.Controller.State.{World}
use p4rt_standalone.Controller.Invariant.Defs.{role_at, id_at}
use p4rt_standalone.Controller.Requests.{allow_request, allow_pipeline_request}
use p4rt_standalone.Server.Provider.{SwitchProvider, P4RtServer, attempt-cases}
use p4rt_standalone.Server.Rpc.{write, set_forwarding_pipeline_config, is_supported}
use p4rt_standalone.Server.Stream.{
  generate_error_response, not_primary_error, after_packet_out, on_packet,
}
use p4rt_standalone.Server.System.Steps.{at_world, answer, message_primary}
use p4rt_standalone.Server.Pending.Steps.{
  Task, writing, configuring, sending, Busy, is_admitted, Moves, stream, admit_write, admit_config,
  admit_packet, call, stay, move,
}

module _ ⦃uint128 : Uint128Api⦄ {S : Type 0} where
  abbrev pub server_of : Busy S → P4RtServer S
  server_of b = record { world = b.system.world; switch = b.switch }

  -- What a call that returned has left behind: the server's state, and the task if it was admitted.
  abbrev pub returned_to : Busy S → Task → P4RtServer S → Busy S
  returned_to b task s = record b {
    system = at_world b.system s.world;
    switch = s.switch;
    performed = if is_admitted task b.system.world then task ∷ b.performed else b.performed;
  }

  module _ ⦃api : StatusApi⦄ (provider : SwitchProvider S) where
    write-Moves :
        (b : Busy S) (request : WriteRequest)
        → Moves provider b
            (returned_to b (writing request) (write provider request (server_of b)).1)
    unfolding write
    write-Moves b request = elim (Bool-cases (is_admitted (writing request) b.system.world)) [
      | inl e ↦
          rw e (move (move stay (admit_write request e)) (call [] (writing request) b.pending refl))
      | inr e ↦ rw e stay
    ]

    config-Moves :
        (b : Busy S) (request : SetForwardingPipelineConfigRequest)
        → Moves provider b (
            returned_to b
              (configuring request)
              (set_forwarding_pipeline_config provider request (server_of b)).1)
    unfolding set_forwarding_pipeline_config
    config-Moves b request =
        elim (Bool-cases (is_ok (allow_pipeline_request request b.system.world))) [
          | inl e ↦ elim (Bool-cases (is_supported request.action)) [
            | inl a ↦
                rw (e, a)
                  (move (move stay (admit_config request (rw (e, a) refl)))
                    (call [] (configuring request) b.pending refl))
            | inr a ↦ rw (e, a) stay
          ]
          | inr e ↦ rw e stay
        ]

    packet-Moves :
        (b : Busy S) (packet : PacketOut) (p : ℕ)
        → Elem p b.system.streams
        → Moves provider b (
            returned_to b
              (sending packet (role_at b.system.world p) (id_at b.system.world p))
              (on_packet provider packet p (server_of b)).1)
    unfolding on_packet after_packet_out not_primary_error generate_error_response
    packet-Moves b packet p m = elim (Bool-cases (is_ok (allow_request role id w))) [
      | inl e ↦
          let sent = move (move stay (admit_packet packet p m e)) (call [] task b.pending refl) in
          elim (attempt-cases (provider.send_packet_out packet b.switch).0) [
            | inl (status, g) ↦ elim (Bool-cases (is_ok_code status.code)) [
              | inl f ↦ rw (e, g, f) sent
              | inr f ↦ rw (e, g, f) (move sent (stream (message_primary role _)))
            ]
            | inr (what, g) ↦ rw (e, g) sent
          ]
      | inr e ↦ rw e (move stay (stream (answer p _ m)))
    ]
      where
        w : World
        w = b.system.world

        role : Option String
        role = role_at w p

        id : Option ℕ
        id = id_at w p

        task : Task
        task = sending packet role id

    -- A whole call of Write, of SetForwardingPipelineConfig, and a packet-out of an open stream,
    -- are runs of the interleaved steps, which end in the state that the call leaves, with the
    -- request performed exactly if it was admitted.
    pub calls-Moves :
        (b : Busy S) (request : WriteRequest) (config : SetForwardingPipelineConfigRequest)
        (packet : PacketOut) (p : ℕ)
        → Elem p b.system.streams
        → Moves provider b
            (returned_to b (writing request) (write provider request (server_of b)).1)
          × Moves provider b (
              returned_to b
                (configuring config)
                (set_forwarding_pipeline_config provider config (server_of b)).1)
          × Moves provider b (
              returned_to b
                (sending packet (role_at b.system.world p) (id_at b.system.world p))
                (on_packet provider packet p (server_of b)).1)
    calls-Moves b request config packet p m =
        (write-Moves b request, config-Moves b config, packet-Moves b packet p m)
