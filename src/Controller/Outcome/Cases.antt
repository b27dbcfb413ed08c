-- ===== src/Controller/Outcome/Cases.antt =====
-- The three ways through `HandleArbitrationUpdate`.
use mathlib.Core.Option
use p4rt_standalone.Prelude.{
  ℕ, String, ◌≡◌, ◌≢◌, refl, ap, ◌∙◌, true, false, ◌&&◌, Option, none, some, List, [], ◌∷◌, arith,
  Elem, same_role, same_id, same_role_iff, same_id_iff, same_number_iff, has_value, inl, inr,
  Bool-cases,
}
use p4rt_standalone.Status.Code.{StatusCode, GrpcStatus, grpc_ok, is_ok}
use p4rt_standalone.Proto.{MasterArbitrationUpdate, Uint128Api}
use p4rt_standalone.Controller.State.{World, SdnConnection}
use p4rt_standalone.Controller.Primary.{
  find_duplicate, validate_connection, id_already_used, send_arbitration_response, holds,
}
use p4rt_standalone.Controller.Arbitration.{
  register, accept, arbitrate, handle_arbitration_update, role_of_update, set_device_id, of_proto,
}
use p4rt_standalone.Controller.Invariant.Defs.{role_at, id_at}
use p4rt_standalone.Controller.Invariant.Registration.{Unused, validate_connection-Unused}
use p4rt_standalone.Controller.Invariant.Steps.{accept-SameState}
use p4rt_standalone.Controller.Frame.{send_arbitration_response-SameState}
use p4rt_standalone.Controller.Highest.{update-Raised}
use p4rt_standalone.Controller.Verdict.{holds_iff}

-- A connection that is initialized with this role and this election ID.
pub record AlreadyIs (w : World) (p : ℕ) (role : Option String) (id : Option ℕ) : Type 0 where
  pub initialized : (w.objects p).initialized ≡ true
  pub role_name : role_at w p ≡ role
  pub election_id : id_at w p ≡ id

find_duplicate_refused :
    (role : Option String) (id : Option ℕ) (objects : ℕ → SdnConnection) (ps : List ℕ)
    → is_ok (find_duplicate role id objects ps) ≡ false
    → (find_duplicate role id objects ps ≡ id_already_used)
      × ((q : ℕ) × Elem q ps × ((objects q).role_name ≡ role) × ((objects q).election_id ≡ id))
unfolding find_duplicate
find_duplicate_refused role id objects [] h = cc
find_duplicate_refused role id objects (p ∷ ps) h = elim (Bool-cases (holds role id (objects p))) [
  | inl e ↦ (
    rw e,
    (p, inl refl, (holds_iff role id (objects p) e).0, (holds_iff role id (objects p) e).1),
  )
  | inr e ↦
      let (s, (q, m, r, i)) =
        find_duplicate_refused role id objects ps (rw (e, find_duplicate) at h) in
      (rw e s, (q, inr m, r, i))
]

validate_refused :
    (role : Option String) (id : Option ℕ) (objects : ℕ → SdnConnection) (ps : List ℕ)
    → is_ok (validate_connection role id objects ps) ≡ false
    → (validate_connection role id objects ps ≡ id_already_used)
      × (has_value id ≡ true)
      × ((q : ℕ) × Elem q ps × ((objects q).role_name ≡ role) × ((objects q).election_id ≡ id))
unfolding validate_connection
validate_refused role none objects ps h = cc
validate_refused role (some id) objects ps h =
    let (s, d) = find_duplicate_refused role (some id) objects ps h in (s, refl, d)

module _ ⦃api : Uint128Api⦄ where
  -- How an arbitration with this role and election ID goes.
  pub data Outcome (p : ℕ) (role : Option String) (id : Option ℕ) (w : World)
      (r : GrpcStatus × World) : Type 0 where
    unchanged :
        AlreadyIs w p role id → r ≡ (grpc_ok, send_arbitration_response p w) → Outcome p role id w r
    refused :
        ¬ AlreadyIs w p role id
        → has_value id ≡ true
        → (q : ℕ) → Elem q w.connections
        → role_at w q ≡ role
        → id_at w q ≡ id
        → r ≡ (id_already_used, w)
        → Outcome p role id w r
    accepted :
        ¬ AlreadyIs w p role id
        → is_ok (validate_connection role id w.objects w.connections) ≡ true
        → (has_value id ≡ true → Unused role id w.objects w.connections)
        → r ≡ accept p role id w
        → Outcome p role id w r

  arbitrate-Outcome :
      (p : ℕ) (role : Option String) (id : Option ℕ) (w : World)
      → Outcome p role id w (arbitrate p role id w)
  unfolding arbitrate
  arbitrate-Outcome p role id w =
      elim (Bool-cases
        ((w.objects p).initialized && (same_role (role_at w p) role && same_id (id_at w p) id))) [
          | inl e ↦ unchanged (already e) (rw e)
          | inr e ↦
              elim (Bool-cases (is_ok (validate_connection role id w.objects w.connections))) [
                | inl ok ↦
                    accepted (other e) ok
                      (validate_connection-Unused role id w.objects w.connections ok) (rw (e, ok))
                | inr bad ↦
                    let (s, v, (q, m, r, i)) =
                      validate_refused role id w.objects w.connections bad in
                    refused (other e) v q m r i (rw (e, bad, s))
              ]
        ]
    where
      already :
          ((w.objects p).initialized && (same_role (role_at w p) role && same_id (id_at w p) id))
            ≡ true
          → AlreadyIs w p role id
      already e = ground (arith, same_role_iff (role_at w p) role, same_id_iff (id_at w p) id)

      other :
          ((w.objects p).initialized && (same_role (role_at w p) role && same_id (id_at w p) id))
            ≡ false
          → ¬ AlreadyIs w p role id
      other e a = ground (arith, same_role_iff (role_at w p) role, same_id_iff (id_at w p) id)

  -- The device test never fails: the field has just been overwritten.
  handle-eq-arbitrate :
      (update : MasterArbitrationUpdate) (p : ℕ) (w : World)
      → handle_arbitration_update update p w
        ≡ arbitrate p
            (role_of_update update)
            (Option.map of_proto update.election_id)
            (set_device_id update.device_id w)
  unfolding handle_arbitration_update
  handle-eq-arbitrate update p w = rw ((same_number_iff update.device_id update.device_id).1 refl)

  -- Every update takes one of these three ways, with its device ID set before.
  pub handle-Outcome :
      (update : MasterArbitrationUpdate) (p : ℕ) (w : World)
      → Outcome p
          (role_of_update update)
          (Option.map of_proto update.election_id)
          (set_device_id update.device_id w)
          (handle_arbitration_update update p w)
  handle-Outcome update p w = rw (handle-eq-arbitrate update p w) (
      arbitrate-Outcome p (role_of_update update) (Option.map of_proto update.election_id)
        (set_device_id update.device_id w))

  pub status_of_accept :
      (p : ℕ) (role : Option String) (id : Option ℕ) (w : World) → (accept p role id w).0 ≡ grpc_ok
  unfolding accept
  status_of_accept p role id w = refl

  pub device_of_accept :
      (p : ℕ) (role : Option String) (id : Option ℕ) (w : World)
      → (accept p role id w).1.device_id ≡ w.device_id
  device_of_accept p role id w =
      (accept-SameState p role id w).device_id
      ∙ (update-Raised role id (register p role id w)).device_id

  served :
      (p : ℕ) (role : Option String) (id : Option ℕ) (w : World) (r : GrpcStatus × World)
      → Outcome p role id w r
      → (r.0.error_code ≢ StatusCode.failed_precondition) × (r.1.device_id ≡ w.device_id)
  served p role id w r (unchanged _ e) = (
    λ h. cc (ap (λ (x : GrpcStatus × World). x.0.error_code) e),
    ap (λ (x : GrpcStatus × World). x.1.device_id) e
        ∙ (send_arbitration_response-SameState p w).device_id,
  )
  served p role id w r (refused _ _ _ _ _ _ e) = (
    λ h. cc (ap (λ (x : GrpcStatus × World). x.0.error_code) e),
    ap (λ (x : GrpcStatus × World). x.1.device_id) e,
  )
  served p role id w r (accepted _ _ _ e) = (
    λ h. cc (ap (λ (x : GrpcStatus × World). x.0.error_code) e, status_of_accept p role id w),
    ap (λ (x : GrpcStatus × World). x.1.device_id) e ∙ device_of_accept p role id w,
  )

  -- No arbitration update is refused with FAILED_PRECONDITION, whatever device ID the manager had,
  -- and the manager then has the update's.
  pub any_device_id :
      (update : MasterArbitrationUpdate) (p : ℕ) (w : World)
      → ((handle_arbitration_update update p w).0.error_code ≢ StatusCode.failed_precondition)
        × ((handle_arbitration_update update p w).1.device_id ≡ update.device_id)
  any_device_id update p w = served p _ _ _ _ (handle-Outcome update p w)
