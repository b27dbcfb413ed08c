-- ===== src/Server/Pending/Stale.antt =====
-- A takeover between the test of a Write and its call of the provider.
use mathlib.Core.Option
use p4rt_standalone.Prelude.{ℕ, ◌≡◌, refl, true, [], ◌∷◌, Elem, OptLe-refl, opt_ltb}
use p4rt_standalone.Status.Code.{StatusCode, is_ok}
use p4rt_standalone.Proto.{WriteRequest, MasterArbitrationUpdate, Uint128Api}
use p4rt_standalone.Controller.State.{World, past}
use p4rt_standalone.Controller.Invariant.Defs.{IsValid, IsPrimary}
use p4rt_standalone.Controller.Arbitration.{
  handle_arbitration_update, role_of_update, role_of_name, of_proto,
}
use p4rt_standalone.Controller.Requests.{allow_write_request}
use p4rt_standalone.Controller.Growth.{denied_below}
use p4rt_standalone.Controller.Outcome.Takeover.{handle_takeover}
use p4rt_standalone.Server.Provider.{SwitchProvider}
use p4rt_standalone.Server.System.Steps.{at_world, arbitrate}
use p4rt_standalone.Server.Pending.Steps.{
  writing, Busy, Moves, stream, admit_write, call, stay, move,
}
use p4rt_standalone.Server.Pending.Source.{admitted-Current}

module _ ⦃uint128 : Uint128Api⦄ {S : Type 0} where
  -- The request was tested, and then the update was handled.
  abbrev pub overtaken : Busy S → WriteRequest → MasterArbitrationUpdate → ℕ → Busy S
  overtaken b request update q = record b {
    system = at_world b.system (handle_arbitration_update update q b.system.world).1;
    pending = writing request ∷ b.pending;
  }

  -- From a valid state, between the test of an allowed Write and its call of the provider, an open
  -- stream, listed if initialized, can take over the role with a higher ID; the stream is then
  -- primary and the request would be refused with PERMISSION_DENIED, and yet it can still reach the
  -- provider.
  pub stale_write :
      (provider : SwitchProvider S) (b : Busy S) (request : WriteRequest)
      (update : MasterArbitrationUpdate) (q : ℕ)
      → IsValid b.system.world
      → is_ok (allow_write_request request b.system.world) ≡ true
      → Elem q b.system.streams
      → ((b.system.world.objects q).initialized ≡ true → Elem q b.system.world.connections)
      → role_of_name request.role ≡ role_of_update update
      → opt_ltb
          (past b.system.world (role_of_update update))
          (Option.map of_proto update.election_id)
        ≡ true
      → let c = overtaken b request update q in
        Moves provider b c
        × IsPrimary c.system.world q
        × ((allow_write_request request c.system.world).error_code ≡ StatusCode.permission_denied)
        × Moves provider c (record c {
          switch = (provider.do_write request b.switch).1;
          pending = b.pending;
          performed = writing request ∷ b.performed;
        })
  unfolding allow_write_request
  stale_write provider b request update q valid allowed m listed same above =
      let (_, primary, highest, _) = handle_takeover update q w valid listed above in
      (
        move (move stay (admit_write request allowed)) (stream (arbitrate update q m)),
        primary,
        denied_below _ _ after after (λ r. OptLe-refl (past after r))
            (rw ((admitted-Current (writing request) w allowed).1, same, highest) above),
        move stay (call [] (writing request) b.pending refl),
      )
    where
      w : World
      w = b.system.world

      after : World
      after = (handle_arbitration_update update q w).1
