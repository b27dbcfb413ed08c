-- ===== src/Controller/Appends.antt =====
-- Every operation of the manager only adds messages to those that were written.
use mathlib.Core.List.{append-nil}
use p4rt_standalone.Prelude.{
  ℕ, String, ◌≡◌, sym, Option, List, [], ◌++◌, ◌∙◌, erase_first, has_value, same_id, Bool-cases,
  inl, inr,
}
use p4rt_standalone.Status.Code.{GrpcStatus}
use p4rt_standalone.Proto.{MasterArbitrationUpdate, StreamMessageResponse, Uint128Api}
use p4rt_standalone.Controller.State.{World, SdnConnection, past, set_connections, touch_past}
use p4rt_standalone.Controller.Arbitration.{
  handle_arbitration_update, inform_if_primary, disconnect,
}
use p4rt_standalone.Controller.Requests.{send_stream_message_to_primary}
use p4rt_standalone.Controller.Delivery.{writes-send, writes-inform}
use p4rt_standalone.Controller.Outcome.Accepted.{accept_cases}
use p4rt_standalone.Controller.Outcome.Cases.{Outcome, unchanged, refused, accepted, handle-Outcome}
use p4rt_standalone.Controller.PacketIn.{Delivered, sent, dropped, send_to_primary-Delivered}

abbrev pub Appends : World → World → Type 0
Appends w w' = (new : List (ℕ × StreamMessageResponse)) × (w'.writes ≡ w.writes ++ new)

pub Appends-refl : (w : World) → Appends w w
Appends-refl w = ([], sym (append-nil w.writes))

pub send_to_primary-Appends :
    (role : Option String) (response : StreamMessageResponse) (w : World)
    → Appends w (send_stream_message_to_primary role response w).1
send_to_primary-Appends role response w = delivered (send_to_primary-Delivered role response w)
  where
    delivered :
        Delivered role response w (send_stream_message_to_primary role response w)
        → Appends w (send_stream_message_to_primary role response w).1
    delivered (sent p _ _ _ e) = (_, e)
    delivered (dropped _ _ e) = ([], e ∙ sym (append-nil w.writes))

module _ ⦃api : Uint128Api⦄ where
  Outcome-Appends :
      {p : ℕ} {role : Option String} {id : Option ℕ} {w : World} {r : GrpcStatus × World}
      → Outcome p role id w r
      → Appends w r.1
  Outcome-Appends {p} {w} (unchanged _ e) = rw e (_, writes-send p w)
  Outcome-Appends {w} (refused _ _ _ _ _ _ e) = rw e (Appends-refl w)
  Outcome-Appends {p} {role} {id} {w} (accepted _ _ _ e) =
      rw e (elim (accept_cases p role id w) [ inl h ↦ (_, h) | inr (h, _, _) ↦ (_, h) ])

  pub handle-Appends :
      (update : MasterArbitrationUpdate) (p : ℕ) (w : World)
      → Appends w (handle_arbitration_update update p w).1
  handle-Appends update p w = Outcome-Appends (handle-Outcome update p w)

  inform_if_primary-Appends : (c : SdnConnection) (w : World) → Appends w (inform_if_primary c w)
  unfolding inform_if_primary
  inform_if_primary-Appends c w = elim (Bool-cases (has_value c.election_id)) [
    | inl v ↦ elim (Bool-cases (same_id c.election_id (past w c.role_name))) [
      | inl e ↦ rw (v, e) (_, writes-inform c.role_name (touch_past c.role_name w))
      | inr e ↦ rw (v, e) (Appends-refl w)
    ]
    | inr v ↦ rw v (Appends-refl w)
  ]

  pub disconnect-Appends : (p : ℕ) (w : World) → Appends w (disconnect p w)
  unfolding disconnect
  disconnect-Appends p w = elim (Bool-cases (w.objects p).initialized) [
    | inl i ↦
        rw i (
          inform_if_primary-Appends (w.objects p) (set_connections (erase_first p w.connections) w))
    | inr u ↦ rw u (Appends-refl w)
  ]
