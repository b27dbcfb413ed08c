-- ===== src/Controller/Outcome/Decided.antt =====
-- What `HandleArbitrationUpdate` answers, and what it leaves, in its three ways.
use mathlib.Core.Option
use p4rt_standalone.Prelude.{
  ℕ, String, ◌≡◌, ◌≢◌, refl, ap, ◌∙◌, true, Option, [], ◌∷◌, ◌++◌, arith, Elem, same_number_iff,
  has_value,
}
use p4rt_standalone.Status.Code.{StatusCode, GrpcStatus}
use p4rt_standalone.Proto.{MasterArbitrationUpdate, StreamMessageResponse, Uint128Api}
use p4rt_standalone.Controller.State.{World, SdnConnection, past}
use p4rt_standalone.Controller.Primary.{send_arbitration_response}
use p4rt_standalone.Controller.Arbitration.{
  accept, handle_arbitration_update, role_of_update, set_device_id, of_proto,
}
use p4rt_standalone.Controller.Frame.{send_arbitration_response-SameState}
use p4rt_standalone.Controller.Delivery.{writes-send}
use p4rt_standalone.Controller.Invariant.Defs.{role_at, id_at}
use p4rt_standalone.Controller.Invariant.Registration.{Unused}
use p4rt_standalone.Controller.Outcome.Cases.{
  Outcome, unchanged, refused, accepted, AlreadyIs, handle-Outcome, status_of_accept,
  device_of_accept,
}
use p4rt_standalone.Controller.Outcome.Accepted.{
  accept_connections, accept_objects, accept_object, accept_other_role,
}

-- The registrations, the connections and the highest election IDs are as before; the device ID is
-- the update's.
pub record Kept (device_id : ℕ) (w w' : World) : Type 0 where
  pub device : w'.device_id ≡ device_id
  pub connections : w'.connections ≡ w.connections
  pub objects : w'.objects ≡ w.objects
  pub past : (role : Option String) → past w' role ≡ past w role

-- The connection is registered behind the others, with its role and its election ID, and the other
-- connections, and the highest election IDs of other roles, are as before.
pub record Registered (device_id p : ℕ) (role : Option String) (id : Option ℕ) (w w' : World)
    : Type 0 where
  pub device : w'.device_id ≡ device_id
  pub connections : w'.connections ≡ w.connections ++ p ∷ []
  pub object : w'.objects p ≡ record { initialized = true; role_name = role; election_id = id }
  pub others : (q : ℕ) → q ≢ p → w'.objects q ≡ w.objects q
  pub past : (r : Option String) → r ≢ role → past w' r ≡ past w r

-- How an update with this device ID, role and election ID is decided.
pub data Decided (device_id p : ℕ) (role : Option String) (id : Option ℕ) (w : World)
    (r : GrpcStatus × World) : Type 0 where
  confirmed :
      AlreadyIs w p role id
      → r.0.error_code ≡ StatusCode.ok
      → (m : StreamMessageResponse) → r.1.writes ≡ w.writes ++ (p, m) ∷ []
      → Kept device_id w r.1
      → Decided device_id p role id w r
  rejected :
      ¬ AlreadyIs w p role id
      → has_value id ≡ true
      → (q : ℕ) → Elem q w.connections
      → role_at w q ≡ role
      → id_at w q ≡ id
      → r.0.error_code ≡ StatusCode.invalid_argument
      → r.1.writes ≡ w.writes
      → Kept device_id w r.1
      → Decided device_id p role id w r
  registered :
      ¬ AlreadyIs w p role id
      → (has_value id ≡ true → Unused role id w.objects w.connections)
      → r.0.error_code ≡ StatusCode.ok
      → Registered device_id p role id w r.1
      → Decided device_id p role id w r

module _ ⦃api : Uint128Api⦄ (d p : ℕ) (role : Option String) (id : Option ℕ) (w : World) where
  accept-Registered : Registered d p role id w (accept p role id (set_device_id d w)).1
  accept-Registered = record {
    device = device_of_accept p role id (set_device_id d w);
    connections = accept_connections p role id (set_device_id d w);
    object = accept_object p role id (set_device_id d w);
    others = λ q n.
        ap (λ (o : ℕ → SdnConnection). o q) (accept_objects p role id (set_device_id d w))
        ∙ ground (arith, same_number_iff p q);
    past = accept_other_role p role id (set_device_id d w);
  }

  sent-Kept : Kept d w (send_arbitration_response p (set_device_id d w))
  sent-Kept =
      let same = send_arbitration_response-SameState p (set_device_id d w) in
      record {
        device = same.device_id;
        connections = same.connections;
        objects = same.objects;
        past = same.past;
      }

  already : AlreadyIs w p role id → AlreadyIs (set_device_id d w) p role id
  already a = record {
    initialized = a.initialized;
    role_name = a.role_name;
    election_id = a.election_id;
  }

  Outcome-Decided :
      (r : GrpcStatus × World) → Outcome p role id (set_device_id d w) r → Decided d p role id w r
  Outcome-Decided r (unchanged a e) = rw e (
      confirmed
        (record {
          initialized = a.initialized;
          role_name = a.role_name;
          election_id = a.election_id;
        })
        refl _ (writes-send p (set_device_id d w)) sent-Kept)
  Outcome-Decided r (refused n v q m h i e) = rw e (
      rejected (λ a. n (already a)) v q m h i refl refl
        (record { device = refl; connections = refl; objects = refl; past = λ r. refl }))
  Outcome-Decided r (accepted n _ u e) = rw e (
      registered (λ a. n (already a)) u
        (ap (λ (s : GrpcStatus). s.error_code) (status_of_accept p role id (set_device_id d w)))
        accept-Registered)

module _ ⦃api : Uint128Api⦄ where
  -- An update is confirmed with OK to an initialized connection that has its role and ID, with one
  -- message to it; or refused with INVALID_ARGUMENT, and no message, as a registered connection of
  -- the role has the ID; or else the connection is registered last, with OK. Only this changes any
  -- registration.
  pub handle-Decided :
      (update : MasterArbitrationUpdate) (p : ℕ) (w : World)
      → Decided update.device_id p
          (role_of_update update)
          (Option.map of_proto update.election_id)
          w
          (handle_arbitration_update update p w)
  handle-Decided update p w =
      Outcome-Decided update.device_id p (role_of_update update)
        (Option.map of_proto update.election_id) w (handle_arbitration_update update p w)
        (handle-Outcome update p w)
