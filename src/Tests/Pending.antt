-- ===== src/Tests/Pending.antt =====
-- The theorems on tested and performed requests at a takeover between the two.
use mathlib.Core.Bool.{false≢true}
use p4rt_standalone.Prelude.{ℕ, ◌+◌, ◌≤◌, ◌≡◌, refl, some, [], ◌∷◌, inl, inr, arith, count}
use p4rt_standalone.Status.Code.{StatusCode}
use p4rt_standalone.Proto.{WriteRequest, SetForwardingPipelineConfigRequest, Action}
use p4rt_standalone.Controller.Invariant.Defs.{IsPrimary, role_at, id_at}
use p4rt_standalone.Controller.Requests.{allow_write_request}
use p4rt_standalone.Server.Rpc.{write, set_forwarding_pipeline_config}
use p4rt_standalone.Server.Stream.{on_packet}
use p4rt_standalone.Server.Pending.Steps.{
  writing, configuring, sending, Busy, Moves, call, stay, move,
}
use p4rt_standalone.Server.Pending.Total.{is_stale, Moves-stale}
use p4rt_standalone.Server.Pending.Stale.{overtaken, stale_write}
use p4rt_standalone.Server.Pending.Calls.{server_of, returned_to, calls-Moves}
use p4rt_standalone.Tests.Program.{program}
use p4rt_standalone.Tests.Samples.{machine, absl, update, packet, two, two-IsValid, counter}

-- Controller 2 leads with ID 9, and controller 3 has opened a stream.
abbrev quiet : Busy ℕ
quiet = record {
  system = record { world = two; streams = 3 ∷ 2 ∷ 1 ∷ [] };
  switch = 3;
  pending = [];
  performed = [];
}

abbrev by_two : WriteRequest
by_two = record {
  role = "sdn";
  election_id = some (record { high = 0; low = 9 });
  updates = "an entry";
}

-- The write of controller 2 is tested, controller 3 takes over with ID 10, and the write reaches
-- the switch.
abbrev after_takeover : Busy ℕ
after_takeover = overtaken quiet by_two (update (some "sdn") (some 10)) 3

abbrev after_write : Busy ℕ
after_write = record after_takeover { switch = 4; pending = []; performed = writing by_two ∷ [] }

stale_write_example :
    Moves counter quiet after_takeover
    × IsPrimary after_takeover.system.world 3
    × ((allow_write_request by_two after_takeover.system.world).error_code
        ≡ StatusCode.permission_denied)
    × Moves counter after_takeover after_write
unfolding program
stale_write_example =
    stale_write counter quiet by_two (update (some "sdn") (some 10)) 3 two-IsValid refl (inl refl)
      (λ h. absurd (false≢true h)) refl refl

abbrev late : Moves counter after_takeover after_write
late = move stay (call [] (writing by_two) [] refl)

-- ID 9 is below the 10 of the takeover; one such write was pending.
Moves-stale_example :
    (0 + count (is_stale (some "sdn") (some 10)) (writing by_two ∷ [])
      ≡ count (is_stale (some "sdn") (some 10)) (writing by_two ∷ []) + 0)
    × (count (is_stale (some "sdn") (some 10)) (writing by_two ∷ [])
        ≤ count (is_stale (some "sdn") (some 10)) (writing by_two ∷ []) + 0)
unfolding program
Moves-stale_example = Moves-stale (some "sdn") (some 10) {b = after_takeover} (omega arith) late

abbrev config_by_two : SetForwardingPipelineConfigRequest
config_by_two = record {
  role = "sdn";
  election_id = some (record { high = 0; low = 9 });
  action = Action.verify_and_commit;
  config = record { cookie = some 1; rest = "p4info" };
}

calls-Moves_example :
    Moves counter quiet
      (returned_to quiet (writing by_two) (write counter by_two (server_of quiet)).1)
    × Moves counter quiet (
        returned_to quiet
          (configuring config_by_two)
          (set_forwarding_pipeline_config counter config_by_two (server_of quiet)).1)
    × Moves counter quiet (
        returned_to quiet
          (sending packet (role_at two 2) (id_at two 2))
          (on_packet counter packet 2 (server_of quiet)).1)
calls-Moves_example = calls-Moves counter quiet by_two config_by_two packet 2 (inr (inl refl))
