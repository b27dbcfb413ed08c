-- ===== src/Controller/Growth.antt =====
-- The highest election IDs through every operation of the manager.
use mathlib.Core.Option
use p4rt_standalone.Prelude.{
  ℕ, String, ◌≡◌, sym, subst, true, Option, none, some, arith, OptLe, OptLe-refl, OptLe-max_left,
  opt_ltb, same_role, same_role_iff, Bool-cases, inl, inr,
}
use p4rt_standalone.Status.Code.{StatusCode, GrpcStatus}
use p4rt_standalone.Proto.{MasterArbitrationUpdate, Uint128Api}
use p4rt_standalone.Controller.State.{World, past}
use p4rt_standalone.Controller.Primary.{send_arbitration_response}
use p4rt_standalone.Controller.Arbitration.{
  register, accept, handle_arbitration_update, role_of_update, set_device_id, of_proto,
}
use p4rt_standalone.Controller.Requests.{allow_request}
use p4rt_standalone.Controller.Permission.{allow_request_iff}
use p4rt_standalone.Controller.Frame.{send_arbitration_response-SameState}
use p4rt_standalone.Controller.Highest.{update-Raised}
use p4rt_standalone.Controller.Invariant.Steps.{accept-SameState}
use p4rt_standalone.Controller.Outcome.Cases.{Outcome, unchanged, refused, accepted, handle-Outcome}

-- No role's highest election ID is lower in the second state.
abbrev pub Grows : World → World → Type 0
Grows w w' = (r : Option String) → OptLe (past w r) (past w' r)

pub Grows-of_eq : (w w' : World) → ((r : Option String) → past w' r ≡ past w r) → Grows w w'
Grows-of_eq w w' e r = subst (OptLe (past w r)) (sym (e r)) (OptLe-refl (past w r))

module _ ⦃api : Uint128Api⦄ where
  accept-Grows :
      (p : ℕ) (role : Option String) (id : Option ℕ) (w : World) → Grows w (accept p role id w).1
  accept-Grows p role id w r =
      let raised = update-Raised role id (register p role id w) in
      rw ((accept-SameState p role id w).past r) (
        rw (raised.past r) (elim (Bool-cases (same_role role r)) [
          | inl e ↦ rw e (rw ((same_role_iff role r).0 e) (OptLe-max_left (past w r) _))
          | inr e ↦ rw e (OptLe-refl (past w r))
        ]))

  Outcome-Grows :
      (p : ℕ) (role : Option String) (id : Option ℕ) (w : World) (r : GrpcStatus × World)
      → Outcome p role id w r
      → Grows w r.1
  Outcome-Grows p role id w r (unchanged _ e) =
      rw e (
        Grows-of_eq w (send_arbitration_response p w)
          (send_arbitration_response-SameState p w).past)
  Outcome-Grows p role id w r (refused _ _ _ _ _ _ e) = rw e (λ n. OptLe-refl (past w n))
  Outcome-Grows p role id w r (accepted _ _ _ e) = rw e (accept-Grows p role id w)

  pub handle-Grows :
      (update : MasterArbitrationUpdate) (p : ℕ) (w : World)
      → Grows w (handle_arbitration_update update p w).1
  handle-Grows update p w =
      Outcome-Grows p (role_of_update update) (Option.map of_proto update.election_id)
        (set_device_id update.device_id w) (handle_arbitration_update update p w)
        (handle-Outcome update p w)

-- An ID below the highest of its role is not the highest.
not_below : (a b : Option ℕ) → opt_ltb a b ≡ true → OptLe b a → ⊥
not_below a none h k = cc
not_below none (some b) h k = k
not_below (some a) (some b) h k = ground arith

-- A request below the highest ID is refused, also when that has grown since.
pub denied_below :
    (role : Option String) (id : Option ℕ) (w w' : World)
    → Grows w w'
    → opt_ltb id (past w role) ≡ true
    → (allow_request role id w').error_code ≡ StatusCode.permission_denied
denied_below role id w w' g h = elim (allow_request_iff role id w').1 [
  | inl ok ↦ absurd (
      not_below id (past w role) h
        (subst (OptLe (past w role)) (sym ((allow_request_iff role id w').0.0 ok).1) (g role)))
  | inr e ↦ e
]
