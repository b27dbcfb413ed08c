-- ===== src/Server/Threads/Wire.antt =====
-- What the threads do to the manager's state and to the streams, seen as atomic steps.
use mathlib.Core.Option
use p4rt_standalone.Prelude.{ℕ, ◌≡◌, sym, ap, ◌∙◌, none, some, ◌++◌, Elem}
use p4rt_standalone.Status.Code.{StatusApi}
use p4rt_standalone.Proto.{MasterArbitrationUpdate, RpcStatus, Uint128Api}
use p4rt_standalone.Controller.State.{SdnConnection, past}
use p4rt_standalone.Controller.Primary.{to_proto}
use p4rt_standalone.Controller.Invariant.Defs.{role_at}
use p4rt_standalone.Controller.Verdict.{Verdict}
use p4rt_standalone.Controller.Views.Defs.{last_view}
use p4rt_standalone.Server.System.Steps.{
  System, Reach, start, open_stream, arbitrate, message_primary, end_stream, here, next,
}
use p4rt_standalone.Server.System.Pointers.{Careful}
use p4rt_standalone.Server.System.Views.{ProvidersSendNoArbitration, Reach-start-informed}
use p4rt_standalone.Server.Threads.Steps.{
  Machine, boot, Section, arbitrating, disconnecting, messaging, testing, Tick, Ticks, enter,
  begin_write, end_write, leave, begin_answer, end_answer, still, tick, by_manager, left,
}
use p4rt_standalone.Server.Threads.Invariant.{Ticks-boot-Consistent, written_free}

module _ ⦃api : Uint128Api⦄ ⦃status : StatusApi⦄ where
  -- The steps of the atomic relation that a run of the threads makes.
  abbrev section_steps : {i : ℕ} {s t u : System} → Section i s t → Reach u s → Reach u t
  section_steps {i} (arbitrating update m) r = next r (arbitrate update i m)
  section_steps {i} (disconnecting m) r = next r (end_stream i m)
  section_steps (messaging role response) r = next r (message_primary role response)
  section_steps testing r = r

  abbrev tick_steps : {m n : Machine} {u : System} → Tick m n → Reach u m.system → Reach u n.system
  tick_steps (Tick.open_stream i _ absent) r = next r (open_stream i absent)
  tick_steps (enter i new _ _ section _) r = section_steps section r
  tick_steps (begin_write _ _ _ _) r = r
  tick_steps (end_write _ _ _ _) r = r
  tick_steps (leave _ _) r = r
  tick_steps (begin_answer _ _ _ _ _) r = r
  tick_steps (end_answer _ _ _) r = r

  abbrev pub steps : {m n : Machine} → Ticks m n → Reach m.system n.system
  steps still = here
  steps (tick run st) = tick_steps st (steps run)

  -- However the threads and their writes interleave from the start, the state that the lock guards
  -- is one of a run of atomic steps, and the messages of that run are those that the manager has
  -- written so far, followed by those that the holder of the lock has yet to write.
  pub Ticks-boot-linear :
      (memory : ℕ → SdnConnection) {m : Machine}
      → Ticks (boot memory) m
      → Reach (start memory) m.system × (m.system.world.writes ≡ by_manager m.wire ++ left m)
  Ticks-boot-linear memory run = (steps run, (Ticks-boot-Consistent memory run).written)

  -- If nobody holds the lock, no connection was registered twice and providers sent no arbitration
  -- messages, then, however threads and writes interleaved from the start, the last such message
  -- the manager wrote to a registered connection has its role, the role's highest ID, and its rank
  -- of now.
  pub Ticks-boot-informed :
      (memory : ℕ → SdnConnection) {m : Machine} (run : Ticks (boot memory) m)
      → Careful (steps run)
      → ProvidersSendNoArbitration (steps run)
      → m.lock ≡ none
      → (q : ℕ) → Elem q m.system.world.connections
      → (u : MasterArbitrationUpdate) × (last_view q (by_manager m.wire) ≡ some u)
        × (u.role ≡ role_at m.system.world q)
        × (u.election_id ≡ Option.map to_proto (past m.system.world (role_at m.system.world q)))
        × ((s : RpcStatus) × (u.status ≡ some s) × Verdict m.system.world q s)
  Ticks-boot-informed memory {m} run c n free q listed =
      let (u, seen, role, id, told) = Reach-start-informed memory (steps run) c n q listed in
      (
        u,
        ap (last_view q) (sym (written_free m (Ticks-boot-Consistent memory run) free)) ∙ seen,
        role,
        id,
        told,
      )
