-- ===== src/Tests/Threads.antt =====
-- The theorems on threads, and on the messages of a takeover, at a run in which a stream is answered
-- while it is told of a takeover.
use mathlib.Core.Bool.{false≢true}
use p4rt_standalone.Prelude.{
  ℕ, String, ◌≡◌, ◌⊎◌, ◌++◌, refl, none, some, [], ◌∷◌, inl, inr, Elem, List, arith,
}
use p4rt_standalone.Proto.{
  MasterArbitrationUpdate, RpcStatus, StreamMessageRequest, StreamMessageResponse,
}
use p4rt_standalone.Status.Code.{StatusCode}
use p4rt_standalone.Controller.State.{new_connection, set_object}
use p4rt_standalone.Controller.Arbitration.{handle_arbitration_update}
use p4rt_standalone.Controller.Requests.{send_stream_message_to_primary}
use p4rt_standalone.Controller.Verdict.{Verdict}
use p4rt_standalone.Controller.Views.Defs.{last_view}
use p4rt_standalone.Controller.Views.Order.{Believes}
use p4rt_standalone.Server.System.Steps.{System, Reach, start, at_world}
use p4rt_standalone.Server.Threads.Steps.{
  Message, outside, inside, writing, answering, managed, own, Machine, boot, relocate, arbitrating,
  messaging, Ticks, open_stream, enter, begin_write, end_write, leave, begin_answer, end_answer,
  not_supported, still, tick,
}
use p4rt_standalone.Server.Threads.Wire.{Ticks-boot-linear, Ticks-boot-informed}
use p4rt_standalone.Server.Stream.{unsupported_error}
use p4rt_standalone.Server.System.Calls.{streams_left}
use p4rt_standalone.Server.Stream.{stream_channel}
use p4rt_standalone.Server.Threads.Solo.{Solo}
use p4rt_standalone.Server.Threads.Stream.{stream_channel-Solo}
use p4rt_standalone.Server.Threads.Held.{Waiting, Returned, Ticks-boot-Waiting}
use p4rt_standalone.Server.Threads.Takeover.{takeover_on_wire}
use p4rt_standalone.Server.Threads.Overlap.{in_write, Race, Ticks-boot-Race, writes_overlap}
use p4rt_standalone.Server.Threads.Progress.{Entered, lock_available}
use p4rt_standalone.Tests.Program.{program}
use p4rt_standalone.Tests.Samples as Samples
use p4rt_standalone.Tests.Samples.{machine, absl, memory, packet, packet_in, counter, server}

abbrev opened : System
opened = record {
  world = set_object 2 new_connection (set_object 1 new_connection (start memory).world);
  streams = 2 ∷ 1 ∷ [];
}

abbrev first : System
first =
    at_world opened
      (handle_arbitration_update (Samples.update (some "sdn") (some 5)) 1 opened.world).1

abbrev second : System
second =
    at_world first
      (handle_arbitration_update (Samples.update (some "sdn") (some 9)) 2 first.world).1

-- Controller 1 is told of ID 5, of which it is primary; and of ID 9, of which controller 2 is.
abbrev told : ℕ → StatusCode → String → StreamMessageResponse
told id code message = StreamMessageResponse.arbitration (record {
  device_id = 7;
  role = some "sdn";
  election_id = some (record { high = 0; low = id });
  status = some (record { code = code; message = message });
})

abbrev leads : ℕ → StreamMessageResponse
leads id = told id StatusCode.ok "you are the primary connection."

abbrev follows : StreamMessageResponse
follows =
    told 9 StatusCode.already_exists "you are a backup connection, and a primary connection exists."

abbrev after_first : Machine
after_first = record {
  system = first;
  lock = none;
  place =
      relocate
        (relocate
          (relocate (relocate (λ i. outside) 1 (inside ((1, leads 5) ∷ []))) 1
            (writing (1, leads 5) []))
          1 (inside []))
        1 outside;
  wire = managed (1, leads 5) ∷ [];
}

other_stream : ¬ Elem 2 (1 ∷ [])
other_stream = ground arith

abbrev run : Ticks (boot memory) after_first
unfolding program
run =
    tick
      (tick
        (tick
          (tick (tick (tick still (open_stream 1 refl (λ e. e))) (open_stream 2 refl other_stream))
            (enter 1 ((1, leads 5) ∷ []) refl refl
              (arbitrating (Samples.update (some "sdn") (some 5)) (inr (inl refl))) refl))
          (begin_write 1 (1, leads 5) [] refl))
        (end_write 1 (1, leads 5) [] refl))
      (leave 1 refl)

-- Thread 2 is about to write to stream 1, which thread 1 answers.
abbrev entered : Machine
entered = record after_first {
  system = second;
  lock = some 2;
  place = relocate after_first.place 2 (inside ((1, follows) ∷ (2, leads 9) ∷ []));
}

abbrev racing : Machine
racing = record entered {
  place =
      relocate (relocate entered.place 1 (answering (1, unsupported_error))) 2
        (writing (1, follows) ((2, leads 9) ∷ []));
}

abbrev run_racing : Ticks (boot memory) racing
unfolding program
run_racing =
    tick
      (tick
        (tick run (
          enter 2 ((1, follows) ∷ (2, leads 9) ∷ []) refl refl
            (arbitrating (Samples.update (some "sdn") (some 9)) (inl refl)) refl))
        (begin_answer 1 unsupported_error not_supported refl (inr (inl refl))))
      (begin_write 2 (1, follows) ((2, leads 9) ∷ []) refl)

-- While thread 2 is in its critical section, one message has been written, and two are left.
Ticks-boot-linear_example :
    Reach (start memory) second
    × (second.world.writes ≡ (1, leads 5) ∷ (1, follows) ∷ (2, leads 9) ∷ [])
Ticks-boot-linear_example = Ticks-boot-linear memory run_racing

-- After the first critical section, controller 1 has been told that it is primary.
Ticks-boot-informed_example :
    (u : MasterArbitrationUpdate) × (last_view 1 ((1, leads 5) ∷ []) ≡ some u)
    × (u.role ≡ some "sdn")
    × (u.election_id ≡ some (record { high = 0; low = 5 }))
    × ((s : RpcStatus) × (u.status ≡ some s) × Verdict first.world 1 s)
unfolding program
Ticks-boot-informed_example =
    Ticks-boot-informed memory run (((tt, tt), tt), λ e. absurd (false≢true e)) (((tt, tt), tt), tt)
      refl 1 (inl refl)

Ticks-boot-Race_example : Race racing 1 1 2 ⊎ Race racing 1 2 1
Ticks-boot-Race_example =
    Ticks-boot-Race memory run_racing 1 2 1 (unsupported_error) follows (ground arith) refl refl

writes_overlap_example :
    (n : Machine) × Ticks after_first n
    × (in_write (n.place 2) ≡ some (1, follows))
    × (in_write (n.place 1) ≡ some (1, unsupported_error))
unfolding program
writes_overlap_example =
    writes_overlap after_first 2 1 unsupported_error second [] ((2, leads 9) ∷ []) follows
      not_supported refl refl refl refl (inr (inl refl))
      (arbitrating (Samples.update (some "sdn") (some 9)) (inl refl)) refl

-- A thread with a packet-in for the primary connection gets the lock after the others' writes.
lock_available_example :
    (n : Machine) × Entered racing 3
      (at_world second (send_stream_message_to_primary (some "sdn") packet_in second.world).1)
      n
lock_available_example = lock_available memory run_racing 3 refl (messaging (some "sdn") packet_in)

abbrev answered : Machine
answered = record racing {
  place = relocate racing.place 1 outside;
  wire = racing.wire ++ own (1, unsupported_error) ∷ [];
}

-- The answer to stream 1 returns, while the write of thread 2 goes on.
Ticks-boot-Waiting_example :
    Waiting racing 2 (1, follows) ((2, leads 9) ∷ []) answered
    ⊎ Returned racing (1, follows) answered
Ticks-boot-Waiting_example =
    Ticks-boot-Waiting memory run_racing 2 (1, follows) ((2, leads 9) ∷ []) refl
      (tick still (end_answer 1 (1, unsupported_error) refl))

third_stream : ¬ Elem 3 (2 ∷ 1 ∷ [])
third_stream = ground arith

abbrev chat : List StreamMessageRequest
chat =
    StreamMessageRequest.arbitration (Samples.update (some "sdn") (some 10))
    ∷ StreamMessageRequest.packet packet
    ∷ StreamMessageRequest.digest_ack "seen"
    ∷ StreamMessageRequest.arbitration (Samples.update (some "sdn") (some 5))
    ∷ []

-- A third controller's whole call, from arbitration to a refused second one.
stream_channel-Solo_example :
    Solo after_first 3
      (stream_channel counter 3 chat (server 3 first.world)).1.world
      (streams_left 3 (3 ∷ 2 ∷ 1 ∷ []) (stream_channel counter 3 chat (server 3 first.world)).0)
unfolding program
stream_channel-Solo_example =
    stream_channel-Solo counter chat after_first 3 (server 3 first.world) (2 ∷ 1 ∷ [])
      (record { lock = refl; place = refl; guarded = refl; streams = refl; wire = refl })
      third_stream

not_listed : ¬ Elem 2 first.world.connections
unfolding program
not_listed = ground arith

-- Controller 1 is about to be told of the takeover: it believes that it is primary, as before.
takeover_on_wire_example :
    (Believes ((1, leads 5) ∷ []) 1
      × ((pre : List Message) × ((1, leads 5) ∷ [] ≡ (1, leads 5) ∷ pre)
          × (last_view 2 pre ≡ none)))
    ⊎ ((more : List Message) × ((1, leads 5) ∷ []
          ≡ (1, leads 5) ∷ (1, follows) ∷ (2, leads 9) ∷ more))
unfolding program last_view
takeover_on_wire_example =
    takeover_on_wire memory run (Samples.update (some "sdn") (some 9)) 2
      ((1, follows) ∷ (2, leads 9) ∷ []) refl refl (inl refl) refl not_listed refl refl
      (tick still (begin_write 2 (1, follows) ((2, leads 9) ∷ []) refl)) 1 (inl refl) refl
      (ground arith) (_, refl, refl)
