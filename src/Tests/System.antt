-- ===== src/Tests/System.antt =====
-- The theorems on interleavings at a concrete one.
use mathlib.Core.Bool.{false≢true}
use p4rt_standalone.Prelude.{ℕ, true, ◌≡◌, refl, some, [], ◌∷◌, inl, inr, Elem, arith, erase_first}
use p4rt_standalone.Controller.State.{World, new_connection, set_object}
use p4rt_standalone.Controller.Arbitration.{handle_arbitration_update, disconnect}
use p4rt_standalone.Controller.Requests.{allow_request, send_stream_message_to_primary}
use p4rt_standalone.Status.Code.{StatusCode, is_ok}
use p4rt_standalone.Server.System.Fencing.{Reach-fenced}
use p4rt_standalone.Controller.Invariant.Defs.{IsValid, role_at}
use p4rt_standalone.Server.System.Leaders.{ToldPrimary, Reach-start-one_leader}
use p4rt_standalone.Server.System.Steps.{
  System, Reach, start, open_stream, arbitrate, message_primary, end_stream, here, next,
}
use p4rt_standalone.Server.System.Invariant.{Reach-start-IsValid}
use p4rt_standalone.Server.System.Owned.{IsSafe}
use p4rt_standalone.Server.System.Pointers.{Careful, Reach-start-IsSafe}
use p4rt_standalone.Controller.Views.Defs.{last_view}
use p4rt_standalone.Server.System.Refinement.{events, Reach-start-History}
use p4rt_standalone.Controller.Registry.{History}
use p4rt_standalone.Controller.Registry.View.{registry}
use p4rt_standalone.Server.System.Dangling.{raise_and_end_dangles}
use p4rt_standalone.Tests.Program.{program}
use p4rt_standalone.Tests.Samples.{machine, absl, update, packet_in, memory, one, one-IsValid}

-- Two streams open, both arbitrate for one role, a packet-in arrives, and one stream ends.
abbrev w1 : World
w1 =
    (handle_arbitration_update (update (some "sdn") (some 5)) 1
      (set_object 2 new_connection (set_object 1 new_connection (start memory).world))).1

abbrev w2 : World
w2 = (handle_arbitration_update (update (some "sdn") (some 9)) 2 w1).1

abbrev w3 : World
w3 = (send_stream_message_to_primary (some "sdn") packet_in w2).1

abbrev final : System
final = record { world = disconnect 2 w3; streams = erase_first 2 (2 ∷ 1 ∷ []) }

other_stream : ¬ Elem 2 (1 ∷ [])
other_stream = ground arith

abbrev before : System
before = record { world = w3; streams = 2 ∷ 1 ∷ [] }

abbrev run_before : Reach (start memory) before
run_before =
    next
      (next
        (next (next (next here (open_stream 1 (λ e. e))) (open_stream 2 other_stream))
          (arbitrate (update (some "sdn") (some 5)) 1 (inr (inl refl))))
        (arbitrate (update (some "sdn") (some 9)) 2 (inl refl)))
      (message_primary (some "sdn") packet_in)

abbrev run : Reach (start memory) final
run = next run_before (end_stream 2 (inl refl))

Reach-start-IsValid_example : IsValid final.world
Reach-start-IsValid_example = Reach-start-IsValid memory run

run_before-Careful : Careful run_before
unfolding program
run_before-Careful =
    (((((tt, tt), tt), λ e. absurd (false≢true e)), λ e. absurd (false≢true e)), tt)

run-Careful : Careful run
run-Careful = (run_before-Careful, tt)

Reach-start-IsSafe_example : IsSafe final
Reach-start-IsSafe_example = Reach-start-IsSafe memory run run-Careful

Reach-start-History_example : History (events run) (registry final.world)
Reach-start-History_example = Reach-start-History memory run run-Careful

-- Before stream 2 ends, controller 2 has been told that it is primary.
Reach-start-one_leader_example :
    (is_ok (allow_request (some "sdn") (some 9) before.world) ≡ true)
    × ((q : ℕ)
        → Elem q before.world.connections
        → some "sdn" ≡ role_at before.world q
        → ToldPrimary before.world q
        → 2 ≡ q)
unfolding program last_view
Reach-start-one_leader_example =
    Reach-start-one_leader memory run_before run_before-Careful (((((tt, tt), tt), tt), tt), refl) 2
      (inr (inl refl)) (_, refl, refl)

raise_and_end_dangles_example :
    Elem 1
      (disconnect 1 (handle_arbitration_update (update (some "sdn") (some 9)) 1 one).1).connections
    × (¬ Elem 1 (erase_first 1 (1 ∷ [])))
unfolding program
raise_and_end_dangles_example =
    raise_and_end_dangles (update (some "sdn") (some 9)) 1
      (record { world = one; streams = 1 ∷ [] }) one-IsValid ((λ e. e), tt) (inl refl) refl

-- After ID 9, an ID of 5 is refused, also when the stream of the controller with 9 has ended.
Reach-fenced_example :
    (allow_request (some "sdn") (some 5) final.world).error_code ≡ StatusCode.permission_denied
unfolding program
Reach-fenced_example =
    Reach-fenced {s = record { world = w2; streams = 2 ∷ 1 ∷ [] }} (some "sdn") (some 5)
      (next (next here (message_primary (some "sdn") packet_in)) (end_stream 2 (inl refl))) refl
