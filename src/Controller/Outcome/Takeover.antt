-- ===== src/Controller/Outcome/Takeover.antt =====
-- The highest election ID of a role through `HandleArbitrationUpdate`, and who becomes primary.
use mathlib.Core.Option
use p4rt_standalone.Prelude.{
  ℕ, String, ◌≡◌, refl, sym, ap, ◌≢◌, ◌∷◌, [], same_number_iff, subst, ◌∙◌, true, ◌&&◌, Option,
  none, some, ◌++◌, arith, Elem, OptLe, opt_max, le_not_above, opt_ltb, same_role, same_role_iff,
  has_value, if◌then◌else◌, Bool-cases, inl, inr,
}
use mathlib.Core.Bool.{false≢true}
use p4rt_standalone.Status.Code.{GrpcStatus, grpc_ok, is_ok}
use p4rt_standalone.Proto.{MasterArbitrationUpdate, Uint128Api}
use p4rt_standalone.Controller.State.{World, SdnConnection, past}
use p4rt_standalone.Controller.Arbitration.{
  accept, handle_arbitration_update, role_of_update, set_device_id, of_proto,
}
use p4rt_standalone.Controller.Frame.{send_arbitration_response-SameState}
use p4rt_standalone.Controller.Delivery.{messages, recipients}
use p4rt_standalone.Controller.Invariant.Defs.{IsValid, IsPrimary, role_at, id_at}
use p4rt_standalone.Controller.Invariant.Steps.{set_device_id-IsValid}
use p4rt_standalone.Controller.Outcome.Cases.{
  Outcome, unchanged, refused, accepted, AlreadyIs, handle-Outcome, status_of_accept,
}
use p4rt_standalone.Controller.Outcome.Accepted.{
  accept_connections, accept_objects, accept_object, accept_past, accept_other_role,
  accept_takeover,
}

pub max_of_le : (a b : Option ℕ) → OptLe b a → opt_max a b ≡ a
max_of_le none none h = refl
max_of_le none (some b) h = absurd h
max_of_le (some a) none h = refl
max_of_le (some a) (some b) h = ground arith

set_of_above : (a b : Option ℕ) → opt_ltb a b ≡ true → has_value b ≡ true
set_of_above a none h = cc
set_of_above a (some b) h = refl

-- A registered ID of a role is at most the map's.
pub bounded_as :
    (w : World) (q : ℕ) (role : Option String) (id : Option ℕ)
    → IsValid w
    → Elem q w.connections
    → role_at w q ≡ role
    → id_at w q ≡ id
    → OptLe id (past w role)
bounded_as w q role id v m r i =
    subst (λ x. OptLe x (past w role)) i
      (subst (λ n. OptLe (id_at w q) (past w n)) r (v.bounded q m))

module _ ⦃api : Uint128Api⦄ (p : ℕ) (role : Option String) (id : Option ℕ) (w : World)
    (v : IsValid w) (listed : (w.objects p).initialized ≡ true → Elem p w.connections) where
  already_bounded : AlreadyIs w p role id → OptLe id (past w role)
  already_bounded a = bounded_as w p role id v (listed a.initialized) a.role_name a.election_id

  pub accepted_past :
      (n : Option String)
      → past (accept p role id w).1 n
        ≡ (if same_role role n then opt_max (past w role) id else past w n)
  accepted_past n = elim (Bool-cases (same_role role n)) [
    | inl e ↦ rw e (rw (← (same_role_iff role n).0 e) (accept_past p role id w v))
    | inr e ↦ rw e (
        accept_other_role p role id w n
          (λ h. false≢true (sym e ∙ (same_role_iff role n).1 (sym h))))
  ]

  Outcome-past :
      (r : GrpcStatus × World)
      → Outcome p role id w r
      → (n : Option String)
      → past r.1 n ≡ (if is_ok r.0 && same_role role n then opt_max (past w role) id else past w n)
  Outcome-past r (unchanged a e) n = rw e (
      (send_arbitration_response-SameState p w).past n
      ∙ ground (arith, same_role_iff role n, max_of_le (past w role) id (already_bounded a)))
  Outcome-past r (refused _ _ _ _ _ _ e) n = rw e refl
  Outcome-past r (accepted _ _ _ e) n = rw (e, status_of_accept p role id w) (accepted_past n)

  Outcome-accepts :
      (r : GrpcStatus × World)
      → Outcome p role id w r
      → opt_ltb (past w role) id ≡ true
      → r ≡ accept p role id w
  Outcome-accepts r (unchanged a e) h =
      absurd (false≢true (sym (le_not_above _ _ (already_bounded a)) ∙ h))
  Outcome-accepts r (refused _ _ q m n i e) h =
      absurd (false≢true (sym (le_not_above _ _ (bounded_as w q role id v m n i)) ∙ h))
  Outcome-accepts r (accepted _ _ _ e) h = e

  Outcome-takeover :
      (r : GrpcStatus × World)
      → Outcome p role id w r
      → opt_ltb (past w role) id ≡ true
      → (r.0 ≡ grpc_ok)
        × IsPrimary r.1 p
        × (past r.1 role ≡ id)
        × (r.1.writes ≡ w.writes ++ messages r.1 (recipients role r.1.objects r.1.connections))
  Outcome-takeover r o h =
      let above = accept_takeover p role id w v (set_of_above (past w role) id h) (rw h refl) in
      rw (Outcome-accepts r o h) (status_of_accept p role id w, above.0, above.1, above.2)

module _ ⦃api : Uint128Api⦄ (update : MasterArbitrationUpdate) (p : ℕ) (w : World) where
  -- Seen through the highest election ID of each role, an accepted update raises the entry of its
  -- role to the maximum of old and new and leaves the others, and a refused update leaves them all;
  -- from a valid state, for a connection that is registered if it is initialized.
  pub handle_past :
      IsValid w
      → ((w.objects p).initialized ≡ true → Elem p w.connections)
      → (n : Option String)
      → past (handle_arbitration_update update p w).1 n ≡ (
          if is_ok (handle_arbitration_update update p w).0 && same_role (role_of_update update) n
          then opt_max (past w (role_of_update update)) (Option.map of_proto update.election_id)
          else past w n)
  handle_past v listed =
      Outcome-past p _ _ (set_device_id update.device_id w) (set_device_id-IsValid _ w v) listed _
        (handle-Outcome update p w)

  -- From a valid state, for a connection that is registered if it is initialized, an update with a
  -- higher election ID than its role has had succeeds: the connection is then the primary one, its
  -- ID is the highest, and every registered connection of the role is told, in the order of
  -- registration.
  pub handle_takeover :
      IsValid w
      → ((w.objects p).initialized ≡ true → Elem p w.connections)
      → opt_ltb (past w (role_of_update update)) (Option.map of_proto update.election_id) ≡ true
      → let w' = (handle_arbitration_update update p w).1 in
        let role = role_of_update update in
        ((handle_arbitration_update update p w).0 ≡ grpc_ok)
        × IsPrimary w' p
        × (past w' role ≡ Option.map of_proto update.election_id)
        × (w'.writes ≡ w.writes ++ messages w' (recipients role w'.objects w'.connections))
  handle_takeover v listed =
      Outcome-takeover p _ _ (set_device_id update.device_id w) (set_device_id-IsValid _ w v) listed
        _ (handle-Outcome update p w)

  pub handle_takeover_accepts :
      IsValid w
      → ((w.objects p).initialized ≡ true → Elem p w.connections)
      → opt_ltb (past w (role_of_update update)) (Option.map of_proto update.election_id) ≡ true
      → handle_arbitration_update update p w
        ≡ accept p
            (role_of_update update)
            (Option.map of_proto update.election_id)
            (set_device_id update.device_id w)
  handle_takeover_accepts v listed =
      Outcome-accepts p _ _ (set_device_id update.device_id w) (set_device_id-IsValid _ w v) listed
        _ (handle-Outcome update p w)

  -- Whom such an update registers, and who has which role behind it.
  module _ (v : IsValid w) (listed : (w.objects p).initialized ≡ true → Elem p w.connections)
      (above : opt_ltb (past w (role_of_update update)) (Option.map of_proto update.election_id)
        ≡ true) where
    takeover_world :
        (handle_arbitration_update update p w).1
        ≡ (accept p
            (role_of_update update)
            (Option.map of_proto update.election_id)
            (set_device_id update.device_id w)).1
    takeover_world = ap (λ (r : GrpcStatus × World). r.1) (handle_takeover_accepts v listed above)

    pub takeover_connections :
        (handle_arbitration_update update p w).1.connections ≡ w.connections ++ p ∷ []
    takeover_connections =
        ap (λ (x : World). x.connections) takeover_world
        ∙ accept_connections p (role_of_update update) (Option.map of_proto update.election_id)
            (set_device_id update.device_id w)

    pub takeover_role : role_at (handle_arbitration_update update p w).1 p ≡ role_of_update update
    takeover_role =
        ap (λ (x : World). role_at x p) takeover_world
        ∙ ap (λ (c : SdnConnection). c.role_name)
            (accept_object p (role_of_update update) (Option.map of_proto update.election_id)
              (set_device_id update.device_id w))

    pub takeover_role_other :
        (q : ℕ) → q ≢ p → role_at (handle_arbitration_update update p w).1 q ≡ role_at w q
    takeover_role_other q n =
        ap (λ (x : World). role_at x q) takeover_world
        ∙ ap (λ (o : ℕ → SdnConnection). (o q).role_name)
            (accept_objects p (role_of_update update) (Option.map of_proto update.election_id)
              (set_device_id update.device_id w))
        ∙ ground (arith, same_number_iff p q)
