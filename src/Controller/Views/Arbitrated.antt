-- ===== src/Controller/Views/Arbitrated.antt =====
-- Views through `HandleArbitrationUpdate`, and through a message for the primary.
use mathlib.Core.Option
use p4rt_standalone.Prelude.{
  ℕ, String, ◌≡◌, sym, ap, subst, ◌∙◌, Option, none, some, ◌∷◌, [], ◌++◌, Elem, append_one-ne,
  same_number, same_number_iff, inl, inr, Bool-cases,
}
use p4rt_standalone.Status.Code.{GrpcStatus}
use p4rt_standalone.Proto.{MasterArbitrationUpdate, StreamMessageResponse, Uint128Api}
use p4rt_standalone.Controller.State.{World}
use p4rt_standalone.Controller.Primary.{send_arbitration_response}
use p4rt_standalone.Controller.Arbitration.{
  handle_arbitration_update, role_of_update, set_device_id, of_proto,
}
use p4rt_standalone.Controller.Requests.{send_stream_message_to_primary}
use p4rt_standalone.Controller.Delivery.{response_for, writes-send}
use p4rt_standalone.Controller.Frame.{SameState, send_arbitration_response-SameState}
use p4rt_standalone.Controller.Invariant.Steps.{send_to_primary-SameState}
use p4rt_standalone.Controller.Outcome.Cases.{Outcome, unchanged, refused, accepted, handle-Outcome}
use p4rt_standalone.Controller.Outcome.Accepted.{accept_connections}
use p4rt_standalone.Controller.PacketIn.{Delivered, sent, dropped, send_to_primary-Delivered}
use p4rt_standalone.Controller.Views.Defs.{
  AllInformed, Informed, arbitration_of, view_of, last_view, last_view-other, last_view_self,
  response_for-view,
}
use p4rt_standalone.Controller.Verdict.{told}
use p4rt_standalone.Controller.Views.Kept.{Informed-SameState, view-SameState}
use p4rt_standalone.Controller.Views.Accepted.{accept-AllInformed}

module _ ⦃api : Uint128Api⦄ where
  -- A connection that is answered knows the state, and the others what they did.
  sent-AllInformed :
      (p : ℕ) (w : World) → AllInformed w → AllInformed (send_arbitration_response p w)
  sent-AllInformed p w informed q m = elim (Bool-cases (same_number p q)) [
    | inl e ↦ subst (Informed after) ((same_number_iff p q).0 e) (
      w.device_id,
      ap (last_view p) (writes-send p w)
          ∙ ap (λ (x : StreamMessageResponse). last_view p (w.writes ++ (p, x) ∷ []))
              (response_for-view w p)
          ∙ last_view_self p (view_of w.device_id w p) w.writes
          ∙ ap some (sym (view-SameState w after same p w.device_id)),
    )
    | inr e ↦
        Informed-SameState w after same q
          (ap (last_view q) (writes-send p w)
            ∙ last_view-other q p (response_for w p) w.writes (inl e))
          (informed q (subst (Elem q) same.connections m))
  ]
    where
      after : World
      after = send_arbitration_response p w

      same : SameState w (send_arbitration_response p w)
      same = send_arbitration_response-SameState p w

  Outcome-AllInformed :
      (p : ℕ) (role : Option String) (id : Option ℕ) (w : World) (r : GrpcStatus × World)
      → Outcome p role id w r
      → (Elem p w.connections → r.1.connections ≡ w.connections)
      → AllInformed w
      → AllInformed r.1
  Outcome-AllInformed p role id w r (unchanged _ e) once informed =
      rw e (sent-AllInformed p w informed)
  Outcome-AllInformed p role id w r (refused _ _ _ _ _ _ e) once informed = rw e informed
  Outcome-AllInformed p role id w r (accepted _ _ _ e) once informed = rw e (
      accept-AllInformed p role id w
        (λ m. append_one-ne p w.connections (
          sym (accept_connections p role id w)
          ∙ ap (λ (x : GrpcStatus × World). x.1.connections) (sym e)
          ∙ once m))
        informed)

  -- After an arbitration update that does not list a connection again, confirmed, refused or
  -- accepted, everyone is informed, if everyone was before.
  pub handle-AllInformed :
      (update : MasterArbitrationUpdate) (p : ℕ) (w : World)
      → (Elem p w.connections
          → (handle_arbitration_update update p w).1.connections ≡ w.connections)
      → AllInformed w
      → AllInformed (handle_arbitration_update update p w).1
  unfolding view_of told
  handle-AllInformed update p w once informed =
      Outcome-AllInformed p (role_of_update update) (Option.map of_proto update.election_id)
        (set_device_id update.device_id w) (handle_arbitration_update update p w)
        (handle-Outcome update p w) once informed

  -- A message that is no arbitration message leaves the views as they are.
  pub message-AllInformed :
      (role : Option String) (response : StreamMessageResponse) (w : World)
      → arbitration_of response ≡ none
      → AllInformed w
      → AllInformed (send_stream_message_to_primary role response w).1
  message-AllInformed role response w plain informed q m =
      Informed-SameState w after same q (view (send_to_primary-Delivered role response w))
        (informed q (subst (Elem q) same.connections m))
    where
      after : World
      after = (send_stream_message_to_primary role response w).1

      same : SameState w (send_stream_message_to_primary role response w).1
      same = send_to_primary-SameState role response w

      view :
          Delivered role response w (send_stream_message_to_primary role response w)
          → last_view q (send_stream_message_to_primary role response w).1.writes
            ≡ last_view q w.writes
      view (sent p _ _ _ e) = ap (last_view q) e ∙ last_view-other q p response w.writes (inr plain)
      view (dropped _ _ e) = ap (last_view q) e
