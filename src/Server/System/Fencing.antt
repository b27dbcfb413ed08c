-- ===== src/Server/System/Fencing.antt =====
-- Requests below the highest election ID, over whole runs.
use p4rt_standalone.Prelude.{ℕ, String, ◌≡◌, true, Option, OptLe-refl, OptLe-trans, opt_ltb}
use p4rt_standalone.Status.Code.{StatusCode}
use p4rt_standalone.Proto.{Uint128Api}
use p4rt_standalone.Controller.State.{past}
use p4rt_standalone.Controller.Requests.{allow_request, send_stream_message_to_primary}
use p4rt_standalone.Controller.Arbitration.{disconnect}
use p4rt_standalone.Controller.Growth.{Grows, Grows-of_eq, handle-Grows, denied_below}
use p4rt_standalone.Controller.Orphans.{past-disconnect}
use p4rt_standalone.Controller.Invariant.Steps.{send_to_primary-SameState}
use p4rt_standalone.Server.System.Steps.{
  System, Step, Reach, open_stream, arbitrate, answer, message_primary, end_stream, here, next,
}

module _ ⦃api : Uint128Api⦄ where
  pub Step-Grows : {s t : System} → Step s t → Grows s.world t.world
  Step-Grows {s} (open_stream p _) r = OptLe-refl (past s.world r)
  Step-Grows {s} (arbitrate update p _) r = handle-Grows update p s.world r
  Step-Grows {s} (answer p response _) r = OptLe-refl (past s.world r)
  Step-Grows {s} (message_primary role response) r =
      Grows-of_eq s.world (send_stream_message_to_primary role response s.world).1
        (send_to_primary-SameState role response s.world).past r
  Step-Grows {s} (end_stream p _) r =
      Grows-of_eq s.world (disconnect p s.world) (past-disconnect p s.world) r

  Reach-Grows : {s t : System} → Reach s t → Grows s.world t.world
  Reach-Grows {s} here r = OptLe-refl (past s.world r)
  Reach-Grows {s} (next {t} {u} run st) r =
      OptLe-trans (past s.world r) (past t.world r) (past u.world r) (Reach-Grows run r)
        (Step-Grows st r)

  -- Once the manager has noted an election ID for a role, a request of the role with a lower one,
  -- or with none, is refused with PERMISSION_DENIED in every later state, whatever streams open,
  -- arbitrate and end in between.
  pub Reach-fenced :
      {s t : System} (role : Option String) (id : Option ℕ)
      → Reach s t
      → opt_ltb id (past s.world role) ≡ true
      → (allow_request role id t.world).error_code ≡ StatusCode.permission_denied
  Reach-fenced {s} {t} role id run h = denied_below role id s.world t.world (Reach-Grows run) h
