-- ===== src/Server/Pending/Total.antt =====
-- How many requests below a role's highest election ID the provider can still get.
use p4rt_standalone.Prelude.{
  ℕ, String, ◌+◌, ◌≤◌, ◌≡◌, refl, ◌∙◌, true, false, Bool, Bool-cases, ◌&&◌, Option, List, ◌∷◌, ◌++◌,
  arith, inl, inr, OptLe, OptLe-trans, opt_ltb, le_not_above, same_role, same_role_iff, count,
  count-append,
}
use p4rt_standalone.Proto.{Uint128Api}
use p4rt_standalone.Controller.State.{World, past}
use p4rt_standalone.Controller.Invariant.Defs.{role_at, id_at}
use p4rt_standalone.Server.Provider.{SwitchProvider}
use p4rt_standalone.Server.Pending.Steps.{
  Task, writing, configuring, sending, Busy, ticket, Current, is_admitted, Move, Moves, stream,
  admit_write, admit_config, admit_packet, call, stay, move,
}
use p4rt_standalone.Server.Pending.Source.{admitted-Current, Moves-Grows}

module _ ⦃uint128 : Uint128Api⦄ (role : Option String) (highest : Option ℕ) where
  -- A task of the role with a lower election ID.
  abbrev pub is_stale : Task → Bool
  is_stale task = same_role role (ticket task).0 && opt_ltb (ticket task).1 highest

  Current-fresh :
      (task : Task) (w : World)
      → OptLe highest (past w role)
      → Current task w
      → is_stale task ≡ false
  Current-fresh task w h (_, current) = elim (Bool-cases (same_role role (ticket task).0)) [
    | inl e ↦
        rw (e, current, ← (same_role_iff role (ticket task).0).0 e)
          (le_not_above (past w role) highest h)
    | inr e ↦ rw e refl
  ]

  module _ {S : Type 0} where
    abbrev pub stale : Busy S → ℕ
    stale b = count is_stale b.pending + count is_stale b.performed

    admit-stale :
        (b : Busy S) (task : Task)
        → OptLe highest (past b.system.world role)
        → is_admitted task b.system.world ≡ true
        → count is_stale (task ∷ b.pending) + count is_stale b.performed ≡ stale b
    admit-stale b task h admitted =
        rw (Current-fresh task b.system.world h (admitted-Current task b.system.world admitted))
          (omega arith)

    call-stale :
        (b : Busy S) (before : List Task) (task : Task) (after : List Task)
        → b.pending ≡ before ++ task ∷ after
        → count is_stale (before ++ after) + count is_stale (task ∷ b.performed) ≡ stale b
    call-stale b before task after e =
        rw (e, count-append is_stale before (task ∷ after), count-append is_stale before after)
          (omega arith)

  module _ {S : Type 0} {provider : SwitchProvider S} where
    Move-stale :
        {b c : Busy S}
        → OptLe highest (past b.system.world role)
        → Move provider b c
        → stale c ≡ stale b
    Move-stale h (stream _) = refl
    Move-stale {b} h (admit_write request a) = admit-stale b (writing request) h a
    Move-stale {b} h (admit_config request a) = admit-stale b (configuring request) h a
    Move-stale {b} h (admit_packet packet p m a) =
        admit-stale b (sending packet (role_at b.system.world p) (id_at b.system.world p)) h a
    Move-stale {b} h (call before task after e) = call-stale b before task after e

    -- However the calls interleave, of the requests of a role below an ID that its highest has
    -- reached, the pending and the performed ones keep their total number: no more of them reach
    -- the provider than had been tested before.
    pub Moves-stale :
        {b c : Busy S}
        → OptLe highest (past b.system.world role)
        → Moves provider b c
        → (count is_stale c.pending + count is_stale c.performed
            ≡ count is_stale b.pending + count is_stale b.performed)
          × (count is_stale c.performed ≤ count is_stale b.pending + count is_stale b.performed)
    Moves-stale {b} {c} h run = (total run, omega (arith, total run))
      where
        total : {d : Busy S} → Moves provider b d → stale d ≡ stale b
        total stay = refl
        total (move {c = d} r m) =
            Move-stale
              (OptLe-trans highest (past b.system.world role) (past d.system.world role) h
                (Moves-Grows r role))
              m
            ∙ total r
