-- ===== src/Server/System/Dangling.antt =====
-- A connection that is registered twice outlives its stream in the manager's list.
use mathlib.Core.Option
use p4rt_standalone.Prelude.{
  ℕ, String, ◌≡◌, ap, true, Option, Elem, Distinct, erase_first, not-Elem-erase_first,
  Elem-erase_first-append, opt_ltb,
}
use p4rt_standalone.Proto.{MasterArbitrationUpdate, Uint128Api}
use p4rt_standalone.Controller.State.{World, SdnConnection, past, set_connections}
use p4rt_standalone.Controller.Arbitration.{
  accept, handle_arbitration_update, disconnect, role_of_update, set_device_id, of_proto,
}
use p4rt_standalone.Controller.Invariant.Defs.{IsValid}
use p4rt_standalone.Controller.Invariant.Steps.{inform_if_primary-SameState}
use p4rt_standalone.Controller.Outcome.Takeover.{handle_takeover_accepts}
use p4rt_standalone.Controller.Outcome.Accepted.{accept_connections, accept_object}
use p4rt_standalone.Server.System.Steps.{System}

module _ ⦃api : Uint128Api⦄ where
  connections-disconnect :
      (p : ℕ) (w : World)
      → (w.objects p).initialized ≡ true
      → (disconnect p w).connections ≡ erase_first p w.connections
  unfolding disconnect
  connections-disconnect p w i =
      rw i
        (inform_if_primary-SameState (w.objects p)
          (set_connections (erase_first p w.connections) w)).connections

  disconnect_after_accept :
      (p : ℕ) (role : Option String) (id : Option ℕ) (w : World)
      → Elem p w.connections
      → Elem p (disconnect p (accept p role id w).1).connections
  disconnect_after_accept p role id w m =
      rw
        (connections-disconnect p (accept p role id w).1
          (ap (λ (c : SdnConnection). c.initialized) (accept_object p role id w)))
        (rw (accept_connections p role id w) (Elem-erase_first-append p w.connections m))

  -- From a valid state, when a registered connection sends an election ID above the highest of the
  -- role that it names and then ends its stream, the manager still lists it, though its stream,
  -- listed once, is gone.
  pub raise_and_end_dangles :
      (update : MasterArbitrationUpdate) (p : ℕ) (s : System)
      → IsValid s.world
      → Distinct s.streams
      → Elem p s.world.connections
      → opt_ltb (past s.world (role_of_update update)) (Option.map of_proto update.election_id)
        ≡ true
      → Elem p (disconnect p (handle_arbitration_update update p s.world).1).connections
        × (¬ Elem p (erase_first p s.streams))
  raise_and_end_dangles update p s v d m h = (
    rw (handle_takeover_accepts update p s.world v (λ _. m) h) (
        disconnect_after_accept p (role_of_update update) (Option.map of_proto update.election_id)
          (set_device_id update.device_id s.world) m),
    not-Elem-erase_first p s.streams d,
  )
