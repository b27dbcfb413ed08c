-- ===== src/Tests/Arbitration.antt =====
-- The theorems on the manager at the runs of Samples.
use mathlib.Core.Bool.{false≢true}
use p4rt_standalone.Prelude.{◌≡◌, refl, none, some, true, ℕ, List, [], ◌∷◌, ◌++◌, inl, inr, arith}
use p4rt_standalone.Status.Code.{grpc_ok, is_ok}
use p4rt_standalone.Controller.State.{World, past}
use p4rt_standalone.Controller.Arbitration.{handle_arbitration_update, disconnect}
use p4rt_standalone.Controller.Requests.{allow_request, send_stream_message_to_primary}
use p4rt_standalone.Controller.Delivery.{messages, recipients}
use p4rt_standalone.Controller.Invariant.Defs.{IsPrimary, HasPrimary, role_at}
use p4rt_standalone.Controller.Invariant.Steps.{disconnect-IsValid}
use p4rt_standalone.Controller.PacketIn.{Delivered, send_to_primary-Delivered}
use p4rt_standalone.Controller.Outcome.Decided.{Decided, handle-Decided}
use p4rt_standalone.Controller.Outcome.Takeover.{handle_takeover}
use p4rt_standalone.Controller.Outcome.Reclaim.{handle_reclaim}
use p4rt_standalone.Controller.Orphans.{orphaned_permission}
use p4rt_standalone.Controller.Isolation.{messages_to, handle-isolated}
use p4rt_standalone.Controller.Views.Defs.{last_view}
use p4rt_standalone.Controller.Views.Order.{Believes}
use p4rt_standalone.Controller.Views.Raised.{raise_two_believers}
use p4rt_standalone.Proto.{StreamMessageResponse}
use p4rt_standalone.Tests.Program.{program}
use p4rt_standalone.Tests.Samples.{machine, update, packet_in, one, two, one-IsValid, two-IsValid}

-- Controller 2 is primary.
two-IsPrimary : IsPrimary two 2
unfolding program
two-IsPrimary = record { listed = inr (inl refl); set = refl; highest = refl }

handle_takeover_example :
    ((handle_arbitration_update (update (some "sdn") (some 9)) 2 one).0 ≡ grpc_ok)
    × IsPrimary two 2
    × (past two (some "sdn") ≡ some 9)
    × (two.writes
        ≡ one.writes ++ messages two (recipients (some "sdn") two.objects two.connections))
unfolding program
handle_takeover_example =
    handle_takeover (update (some "sdn") (some 9)) 2 one one-IsValid (λ e. absurd (false≢true e))
      refl

send_to_primary-Delivered_example :
    Delivered (some "sdn") packet_in two (send_stream_message_to_primary (some "sdn") packet_in two)
send_to_primary-Delivered_example = send_to_primary-Delivered (some "sdn") packet_in two

handle-Decided_example :
    Decided 7 3
      (some "sdn")
      (some 9)
      two
      (handle_arbitration_update (update (some "sdn") (some 9)) 3 two)
unfolding program
handle-Decided_example = handle-Decided (update (some "sdn") (some 9)) 3 two

orphaned_permission_example :
    (¬ HasPrimary (disconnect 2 two) (some "sdn"))
    × (is_ok (allow_request (some "sdn") (some 9) (disconnect 2 two)) ≡ true)
unfolding program
orphaned_permission_example =
    orphaned_permission 2 two two-IsValid (ground arith) refl two-IsPrimary

nobody_left : ¬ HasPrimary (disconnect 2 two) (some "sdn")
unfolding program
nobody_left = (orphaned_permission 2 two two-IsValid (ground arith) refl two-IsPrimary).0

-- Controller 3 takes the place of controller 2, which has left.
handle_reclaim_example :
    let left = disconnect 2 two in
    let after = (handle_arbitration_update (update (some "sdn") (some 9)) 3 left).1 in
    ((handle_arbitration_update (update (some "sdn") (some 9)) 3 left).0 ≡ grpc_ok)
    × IsPrimary after 3
    × (past after (some "sdn") ≡ past left (some "sdn"))
    × (after.writes
        ≡ left.writes ++ messages after (recipients (some "sdn") after.objects after.connections))
unfolding program
handle_reclaim_example =
    handle_reclaim (update (some "sdn") (some 9)) 3 (disconnect 2 two)
      (disconnect-IsValid 2 two two-IsValid) (λ e. absurd (false≢true e)) refl refl nobody_left

handle-isolated_example :
    messages_to 1 (handle_arbitration_update (update none (some 9)) 2 two).1.writes
    ≡ messages_to 1 two.writes
unfolding program
handle-isolated_example = handle-isolated (update none (some 9)) 2 two 1 (λ e. cc)

abbrev raised : World
raised = (handle_arbitration_update (update (some "sdn") (some 10)) 1 two).1

-- Controller 1, a backup that was registered before the primary connection, raises its ID to 10.
raise_two_believers_example :
    (r : StreamMessageResponse) × (rest : List (ℕ × StreamMessageResponse)) × (role_at raised 1
      ≡ role_at raised 2)
    × (raised.writes ≡ two.writes ++ (1, r) ∷ rest)
    × Believes (two.writes ++ (1, r) ∷ []) 1
    × Believes (two.writes ++ (1, r) ∷ []) 2
unfolding program last_view
raise_two_believers_example =
    raise_two_believers (update (some "sdn") (some 10)) 1 two two-IsValid (2 ∷ []) refl refl 2
      (ground arith) refl (_, refl, refl)
