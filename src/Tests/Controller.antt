-- ===== src/Tests/Controller.antt =====
-- The manager on concrete runs.
use p4rt_standalone.Prelude.{◌≡◌, refl, none, some, [], ◌∷◌, map}
use p4rt_standalone.Status.Code.{StatusCode, grpc_ok}
use p4rt_standalone.Controller.Arbitration.{handle_arbitration_update, disconnect}
use p4rt_standalone.Controller.Requests.{send_stream_message_to_primary}
use p4rt_standalone.Tests.Program.{program}
use p4rt_standalone.Tests.Samples.{machine, update, two, packet_in}

-- Both controllers are told when the second takes over.
told_in_order : map (λ m. m.0) two.writes ≡ 1 ∷ 1 ∷ 2 ∷ []
unfolding program
told_in_order = refl

-- An ID that is in use is refused, and only for the same role.
in_use :
    ((handle_arbitration_update (update (some "sdn") (some 9)) 3 two).0.error_code
      ≡ StatusCode.invalid_argument)
    × ((handle_arbitration_update (update none (some 9)) 3 two).0 ≡ grpc_ok)
unfolding program
in_use = (refl, refl)

-- The primary connection leaves, and the other one is told that there is no primary.
left : (disconnect 2 two).connections ≡ 1 ∷ []
unfolding program
left = refl

told_who_is_left : map (λ m. m.0) (disconnect 2 two).writes ≡ 1 ∷ 1 ∷ 2 ∷ 1 ∷ []
unfolding program
told_who_is_left = refl

-- A packet-in is for the connection with the highest ID.
packet_in_for :
    map (λ m. m.0) (send_stream_message_to_primary (some "sdn") packet_in two).1.writes
    ≡ 1 ∷ 1 ∷ 2 ∷ 2 ∷ []
unfolding program
packet_in_for = refl
