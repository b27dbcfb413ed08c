-- ===== src/Server/Pending/Source.antt =====
-- Where the tasks come from that the provider gets.
use mathlib.Core.List.{Memᴰ}
use mathlib.Core.List.Memᴰ
use p4rt_standalone.Prelude.{
  ◌≡◌, subst, sym, true, ◌∷◌, ◌++◌, ◌⊎◌, inl, inr, arith, OptLe-refl, OptLe-trans,
}
use p4rt_standalone.Proto.{Uint128Api}
use p4rt_standalone.Controller.State.{World, past}
use p4rt_standalone.Controller.Permission.{allow_request_iff}
use p4rt_standalone.Controller.Growth.{Grows}
use p4rt_standalone.Controller.Requests.{allow_write_request, allow_pipeline_request}
use p4rt_standalone.Server.Provider.{SwitchProvider}
use p4rt_standalone.Server.System.Fencing.{Step-Grows}
use p4rt_standalone.Server.Pending.Steps.{
  Task, writing, configuring, sending, Busy, Current, is_admitted, Move, Moves, stream, admit_write,
  admit_config, admit_packet, call, stay, move,
}

-- The task is pending or performed.
abbrev pub Known : {S : Type 0} → Task → Busy S → Type 0
Known task b = Memᴰ task b.pending ⊎ Memᴰ task b.performed

module _ ⦃uint128 : Uint128Api⦄ where
  pub admitted-Current : (task : Task) (w : World) → is_admitted task w ≡ true → Current task w
  unfolding allow_write_request allow_pipeline_request
  admitted-Current (writing request) w h = (allow_request_iff _ _ w).0.0 h
  admitted-Current (configuring request) w h = (allow_request_iff _ _ w).0.0 (ground arith)
  admitted-Current (sending packet role id) w h = (allow_request_iff role id w).0.0 h

  admit-source :
      {S : Type 0} (b : Busy S) (task new : Task)
      → is_admitted new b.system.world ≡ true
      → Memᴰ task (new ∷ b.pending) ⊎ Memᴰ task b.performed
      → Known task b ⊎ Current task b.system.world
  admit-source b task new h (inl (Memᴰ.head e)) =
      inr (subst (λ x. Current x b.system.world) (sym e) (admitted-Current new b.system.world h))
  admit-source b task new h (inl (Memᴰ.tail m)) = inl (inl m)
  admit-source b task new h (inr m) = inl (inr m)

  module _ {S : Type 0} {provider : SwitchProvider S} where
    pub Move-Grows : {b c : Busy S} → Move provider b c → Grows b.system.world c.system.world
    Move-Grows (stream st) r = Step-Grows st r
    Move-Grows {b} (admit_write _ _) r = OptLe-refl (past b.system.world r)
    Move-Grows {b} (admit_config _ _) r = OptLe-refl (past b.system.world r)
    Move-Grows {b} (admit_packet _ _ _ _) r = OptLe-refl (past b.system.world r)
    Move-Grows {b} (call _ _ _ _) r = OptLe-refl (past b.system.world r)

    pub Moves-Grows : {b c : Busy S} → Moves provider b c → Grows b.system.world c.system.world
    Moves-Grows {b} stay r = OptLe-refl (past b.system.world r)
    Moves-Grows {b} (move {c} {d} run m) r =
        OptLe-trans (past b.system.world r) (past c.system.world r) (past d.system.world r)
          (Moves-Grows run r) (Move-Grows m r)

    Move-source :
        {b c : Busy S} (task : Task)
        → Move provider b c
        → Known task c
        → Known task b ⊎ Current task b.system.world
    Move-source task (stream _) k = inl k
    Move-source {b} task (admit_write request h) k = admit-source b task _ h k
    Move-source {b} task (admit_config request h) k = admit-source b task _ h k
    Move-source {b} task (admit_packet packet p m h) k = admit-source b task _ h k
    Move-source {b} task (call before new after e) k = inl (rw e (called k))
      where
        called :
            Memᴰ task (before ++ after) ⊎ Memᴰ task (new ∷ b.performed)
            → Memᴰ task (before ++ new ∷ after) ⊎ Memᴰ task b.performed
        called (inl m) = elim (Memᴰ.append_cases before m) [
          | inl l ↦ inl (Memᴰ.append_left (new ∷ after) l)
          | inr l ↦ inl (Memᴰ.append_right before (Memᴰ.tail l))
        ]
        called (inr (Memᴰ.head e)) = inl (Memᴰ.append_right before (Memᴰ.head e))
        called (inr (Memᴰ.tail m)) = inr m

    -- However the calls interleave, a request that is pending or has reached the provider after a
    -- run was so before it, or had the highest election ID of its role at some state of the run.
    pub Moves-source :
        {b c : Busy S} (task : Task)
        → Moves provider b c
        → Known task c
        → Known task b
          ⊎ ((t : Busy S) × Moves provider b t × Moves provider t c × Current task t.system.world)
    Moves-source task stay k = inl k
    Moves-source task (move {c} run m) k = elim (Move-source task m k) [
      | inl known ↦ elim (Moves-source task run known) [
        | inl old ↦ inl old
        | inr (t, before, after, current) ↦ inr (t, before, move after m, current)
      ]
      | inr current ↦ inr (c, run, move stay m, current)
    ]
