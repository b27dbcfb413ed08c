-- ===== src/Server/Threads/Steps.antt =====
-- Threads that enter and leave the manager's critical sections, and begin and end their writes.
use p4rt_standalone.Prelude.{
  ℕ, String, ◌≡◌, Option, none, some, List, [], ◌∷◌, ◌++◌, Elem, erase_first, same_number,
  if◌then◌else◌,
}
use p4rt_standalone.Proto.{MasterArbitrationUpdate, PacketOut, StreamMessageResponse, Uint128Api}
use p4rt_standalone.Controller.State.{SdnConnection, new_connection, set_object}
use p4rt_standalone.Controller.Arbitration.{handle_arbitration_update, disconnect}
use p4rt_standalone.Controller.Requests.{send_stream_message_to_primary}
use p4rt_standalone.Status.Code.{StatusApi}
use p4rt_standalone.Server.Stream.{not_primary_error, unsupported_error}
use p4rt_standalone.Server.System.Steps.{System, start, at_world}

-- The connection whose stream is written to, and the message.
abbrev pub Message : Type 0
Message = ℕ × StreamMessageResponse

-- Where a thread is: outside of everything; under the lock, with messages left to write, between
-- two calls of `Write` or within one; or within a `Write` of its own, without the lock.
pub data Place : Type 0 where
  outside : Place
  inside : List Message → Place
  writing : Message → List Message → Place
  answering : Message → Place

-- A message that was written, by the manager under its lock or by a stream's own thread.
pub data Written : Type 0 where
  managed own : Message → Written

-- `lock` has the thread that holds `lock_`. The `World` of the system changes when a critical
-- section is entered, which alone touches what the lock guards; its `writes` are then the messages
-- that the sections entered so far have to write, and `wire` those whose `Write` has returned.
pub record Machine : Type 0 where
  pub system : System
  pub lock : Option ℕ
  pub place : ℕ → Place
  pub wire : List Written

abbrev pub boot : (ℕ → SdnConnection) → Machine
boot memory = record { system = start memory; lock = none; place = λ i. outside; wire = [] }

abbrev pub relocate : (ℕ → Place) → ℕ → Place → ℕ → Place
relocate places i place j = if same_number i j then place else places j

module _ ⦃api : Uint128Api⦄ where
  -- What a thread `i` does under the lock: the functions that lock it. A call of `StreamChannel` is
  -- the thread with the number of its connection's address; SendStreamMessageToPrimary and
  -- AllowRequest are for every thread.
  pub data Section (i : ℕ) (s : System) : System → Type 0 where
    arbitrating :
        (update : MasterArbitrationUpdate)
        → Elem i s.streams
        → Section i s (at_world s (handle_arbitration_update update i s.world).1)
    disconnecting :
        Elem i s.streams
        → Section i s (record { world = disconnect i s.world; streams = erase_first i s.streams })
    messaging :
        (role : Option String) (response : StreamMessageResponse)
        → Section i s (at_world s (send_stream_message_to_primary role response s.world).1)
    testing : Section i s s

  -- What the thread of a stream answers without the lock: that a request is not supported, or that
  -- a packet-out is refused. That the permission was tested before is not asked for.
  pub data OwnAnswer ⦃status : StatusApi⦄ : StreamMessageResponse → Type 0 where
    not_supported : OwnAnswer unsupported_error
    not_permitted : (packet : PacketOut) → OwnAnswer (not_primary_error packet)

  pub data Tick ⦃status : StatusApi⦄ (m : Machine) : Machine → Type 0 where
    open_stream :
        (i : ℕ)
        → m.place i ≡ outside
        → ¬ Elem i m.system.streams
        → Tick m (record m {
          system = record {
            world = set_object i new_connection m.system.world;
            streams = i ∷ m.system.streams;
          };
        })
    enter :
        (i : ℕ) {t : System} (new : List Message)
        → m.lock ≡ none
        → m.place i ≡ outside
        → Section i m.system t
        → t.world.writes ≡ m.system.world.writes ++ new
        → Tick m (record m { system = t; lock = some i; place = relocate m.place i (inside new) })
    begin_write :
        (i : ℕ) (x : Message) (rest : List Message)
        → m.place i ≡ inside (x ∷ rest)
        → Tick m (record m { place = relocate m.place i (writing x rest) })
    end_write :
        (i : ℕ) (x : Message) (rest : List Message)
        → m.place i ≡ writing x rest
        → Tick m
            (record m { place = relocate m.place i (inside rest); wire = m.wire ++ managed x ∷ [] })
    leave :
        (i : ℕ)
        → m.place i ≡ inside []
        → Tick m (record m { lock = none; place = relocate m.place i outside })
    begin_answer :
        (i : ℕ) (r : StreamMessageResponse)
        → OwnAnswer r
        → m.place i ≡ outside
        → Elem i m.system.streams
        → Tick m (record m { place = relocate m.place i (answering (i, r)) })
    end_answer :
        (i : ℕ) (x : Message)
        → m.place i ≡ answering x
        → Tick m (record m { place = relocate m.place i outside; wire = m.wire ++ own x ∷ [] })

  pub data Ticks ⦃status : StatusApi⦄ (m : Machine) : Machine → Type 0 where
    still : Ticks m m
    tick : {n k : Machine} → Ticks m n → Tick n k → Ticks m k

-- The manager's messages among those that were written.
abbrev pub by_manager : List Written → List Message
by_manager [] = []
by_manager (managed x ∷ rest) = x ∷ by_manager rest
by_manager (own x ∷ rest) = by_manager rest

-- What a thread under the lock has yet to write.
abbrev pub left_at : Place → List Message
left_at (inside rest) = rest
left_at (writing x rest) = x ∷ rest
left_at _ = []

abbrev pub left : Machine → List Message
left m = elim m.lock [ none ↦ [] | some i ↦ left_at (m.place i) ]
