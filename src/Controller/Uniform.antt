-- ===== src/Controller/Uniform.antt =====
-- No operation of the manager reads the messages that were written before it.
use mathlib.Core.Option
use mathlib.Core.List.{append_assoc}
use p4rt_standalone.Prelude.{
  ℕ, String, ◌≡◌, refl, ap, ◌∙◌, Bool, Option, none, List, [], ◌∷◌, ◌++◌, ◌&&◌, not, erase_first,
  has_value, same_id, same_role, same_number, opt_ltb, ◌||◌, true, false, Bool-cases, Option-cases,
  inl, inr, if◌then◌else◌,
}
use p4rt_standalone.Status.Code.{GrpcStatus, grpc_ok, is_ok}
use p4rt_standalone.Proto.{MasterArbitrationUpdate, StreamMessageResponse, Uint128Api}
use p4rt_standalone.Controller.State.{
  World, SdnConnection, past, set_connections, touch_past, send_stream_message_response,
}
use p4rt_standalone.Controller.Primary.{
  validate_connection, primary_connection_exists, update_with_max,
  update_to_primary_connection_state, send_arbitration_response, inform_all,
  inform_connections_about_primary_change,
}
use p4rt_standalone.Controller.Arbitration.{
  register, accept, arbitrate, handle_arbitration_update, inform_if_primary, disconnect,
  role_of_update, set_device_id, of_proto,
}
use p4rt_standalone.Controller.Requests.{last_holder, send_stream_message_to_primary}

-- The same state after other messages.
abbrev pub after : List (ℕ × StreamMessageResponse) → World → World
after ws w = record w { writes = ws ++ w.writes }

abbrev with_result : {A : Type 0} → List (ℕ × StreamMessageResponse) → A × World → A × World
with_result ws r = (r.0, after ws r.1)

module _ (ws : List (ℕ × StreamMessageResponse)) where
  send-after :
      (p : ℕ) (r : StreamMessageResponse) (w : World)
      → send_stream_message_response p r (after ws w)
        ≡ after ws (send_stream_message_response p r w)
  send-after p r w = ap (λ l. record w { writes = l }) (append_assoc ws w.writes ((p, r) ∷ []))

  update_with_max-after :
      (role : Option String) (id max : Option ℕ) (w : World)
      → update_with_max role id max (after ws w) ≡ with_result ws (update_with_max role id max w)
  unfolding update_with_max
  update_with_max-after role id max w =
      elim (Bool-cases (not (same_id max (past w role)) || same_id id max)) [
        | inl e ↦ elim (Bool-cases (has_value max && opt_ltb (past w role) max)) [
          | inl f ↦ rw (e, f) refl
          | inr f ↦ rw (e, f) refl
        ]
        | inr e ↦ rw e refl
      ]

  pub send_to_primary-after :
      (role : Option String) (response : StreamMessageResponse) (w : World)
      → send_stream_message_to_primary role response (after ws w)
        ≡ with_result ws (send_stream_message_to_primary role response w)
  unfolding send_stream_message_to_primary
  send_to_primary-after role response w = elim (Bool-cases (has_value (past w role))) [
    | inl e ↦ elim (Option-cases (last_holder role (past w role) w.objects none w.connections)) [
      | inl f ↦ rw (e, f) refl
      | inr (p, f) ↦ rw (e, f) (ap (λ v. (true, v)) (send-after p response (touch_past role w)))
    ]
    | inr e ↦ rw e refl
  ]

  module _ ⦃api : Uint128Api⦄ where
    send_arbitration_response-after :
        (p : ℕ) (w : World)
        → send_arbitration_response p (after ws w) ≡ after ws (send_arbitration_response p w)
    unfolding send_arbitration_response primary_connection_exists
    send_arbitration_response-after p w =
        ap (λ l. record (send_arbitration_response p w) { writes = l })
          (append_assoc ws w.writes (send_arbitration_response p (record w { writes = [] })).writes)

    inform_all-after :
        (role : Option String) (ps : List ℕ) (w : World)
        → inform_all role ps (after ws w) ≡ after ws (inform_all role ps w)
    unfolding inform_all
    inform_all-after role [] w = refl
    inform_all-after role (p ∷ ps) w = elim (Bool-cases (same_role (w.objects p).role_name role)) [
      | inl e ↦
          rw (e, inform_all)
            (ap (inform_all role ps) (send_arbitration_response-after p w)
              ∙ inform_all-after role ps (send_arbitration_response p w))
      | inr e ↦ rw (e, inform_all) (inform_all-after role ps w)
    ]

    inform-after :
        (role : Option String) (w : World)
        → inform_connections_about_primary_change role (after ws w)
          ≡ after ws (inform_connections_about_primary_change role w)
    unfolding inform_connections_about_primary_change
    inform-after role w = inform_all-after role w.connections w

    -- The end of `accept`, after the test for a change.
    abbrev told : Option String → ℕ → Bool × World → GrpcStatus × World
    told role p r = (
      grpc_ok,
      if r.0
          then inform_connections_about_primary_change role r.1
          else send_arbitration_response p r.1,
    )

    told-after :
        (role : Option String) (p : ℕ) (r : Bool × World)
        → told role p (with_result ws r) ≡ with_result ws (told role p r)
    told-after role p (true, w) = ap (λ v. (grpc_ok, v)) (inform-after role w)
    told-after role p (false, w) = ap (λ v. (grpc_ok, v)) (send_arbitration_response-after p w)

    accept-after :
        (p : ℕ) (role : Option String) (id : Option ℕ) (w : World)
        → accept p role id (after ws w) ≡ with_result ws (accept p role id w)
    unfolding accept update_to_primary_connection_state
    accept-after p role id w =
        ap (told role p) (update_with_max-after role id _ (register p role id w))
        ∙ told-after role p (update_to_primary_connection_state role id (register p role id w))

    arbitrate-after :
        (p : ℕ) (role : Option String) (id : Option ℕ) (w : World)
        → arbitrate p role id (after ws w) ≡ with_result ws (arbitrate p role id w)
    unfolding arbitrate
    arbitrate-after p role id w =
        elim (Bool-cases (
          (w.objects p).initialized
          && (same_role (w.objects p).role_name role && same_id (w.objects p).election_id id))) [
            | inl e ↦ rw e (ap (λ v. (grpc_ok, v)) (send_arbitration_response-after p w))
            | inr e ↦
                elim (Bool-cases (is_ok (validate_connection role id w.objects w.connections))) [
                  | inl f ↦ rw (e, f) (accept-after p role id w)
                  | inr f ↦ rw (e, f) refl
                ]
          ]

    pub handle-after :
        (update : MasterArbitrationUpdate) (p : ℕ) (w : World)
        → handle_arbitration_update update p (after ws w)
          ≡ with_result ws (handle_arbitration_update update p w)
    unfolding handle_arbitration_update
    handle-after update p w = elim (Bool-cases (same_number update.device_id update.device_id)) [
      | inl e ↦ rw e (
          arbitrate-after p (role_of_update update) (Option.map of_proto update.election_id)
            (set_device_id update.device_id w))
      | inr e ↦ rw e refl
    ]

    inform_if_primary-after :
        (c : SdnConnection) (w : World)
        → inform_if_primary c (after ws w) ≡ after ws (inform_if_primary c w)
    unfolding inform_if_primary
    inform_if_primary-after c w = elim (Bool-cases (has_value c.election_id)) [
      | inl e ↦ elim (Bool-cases (same_id c.election_id (past w c.role_name))) [
        | inl f ↦ rw (e, f) (inform-after c.role_name (touch_past c.role_name w))
        | inr f ↦ rw (e, f) refl
      ]
      | inr e ↦ rw e refl
    ]

    pub disconnect-after :
        (p : ℕ) (w : World) → disconnect p (after ws w) ≡ after ws (disconnect p w)
    unfolding disconnect
    disconnect-after p w = elim (Bool-cases (w.objects p).initialized) [
      | inl e ↦
          rw e (
            inform_if_primary-after (w.objects p) (set_connections (erase_first p w.connections) w))
      | inr e ↦ rw e refl
    ]
