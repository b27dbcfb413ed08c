-- ===== src/Controller/Echo.antt =====
-- The election ID of a new primary connection, from the update to the responses.
use mathlib.Core.Option
use p4rt_standalone.Prelude.{ℕ, ◌≡◌, sym, ap, ◌∙◌, true, some, Elem, ◌<◌, ◌^◌, opt_ltb}
use p4rt_standalone.Proto.{Uint128, MasterArbitrationUpdate, Uint128Api}
use p4rt_standalone.Controller.State.{World, past}
use p4rt_standalone.Controller.Primary.{to_proto}
use p4rt_standalone.Controller.Arbitration.{handle_arbitration_update, role_of_update, of_proto}
use p4rt_standalone.Controller.Invariant.Defs.{IsValid}
use p4rt_standalone.Controller.Outcome.Takeover.{handle_takeover}

module _ ⦃api : Uint128Api⦄ where
  to_proto-of_proto :
      (id : Uint128) → id.high < 2 ^ 64 → id.low < 2 ^ 64 → to_proto (of_proto id) ≡ id
  to_proto-of_proto id h l = λ i. record {
    high = api.high64-make id.high id.low h l i;
    low = api.low64-make id.high id.low h l i;
  }

  -- From a valid state, for a connection that is registered if it is initialized, after an update
  -- with a higher election ID than its role has had, whose halves are 64-bit, the election ID that
  -- the responses for the role carry is the update's own, both halves of it.
  pub takeover_echo :
      (update : MasterArbitrationUpdate) (p : ℕ) (w : World) (id : Uint128)
      → update.election_id ≡ some id
      → id.high < 2 ^ 64
      → id.low < 2 ^ 64
      → IsValid w
      → ((w.objects p).initialized ≡ true → Elem p w.connections)
      → opt_ltb (past w (role_of_update update)) (Option.map of_proto update.election_id) ≡ true
      → Option.map to_proto (past (handle_arbitration_update update p w).1 (role_of_update update))
        ≡ update.election_id
  takeover_echo update p w id e h l v listed above =
      ap (Option.map to_proto)
        ((handle_takeover update p w v listed above).2 ∙ ap (Option.map of_proto) e)
      ∙ ap some (to_proto-of_proto id h l)
      ∙ sym e
