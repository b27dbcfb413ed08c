-- ===== src/Server/Threads/Takeover.antt =====
-- A takeover, while its messages are written one after the other.
use mathlib.Core.Option
use mathlib.Core.List.{append_assoc, append-nil}
use p4rt_standalone.Prelude.{
  ℕ, ◌≡◌, ◌≢◌, ◌⊎◌, refl, sym, ap, subst, ◌∙◌, true, false, none, some, List, [], ◌++◌, inl, inr,
  Elem, opt_ltb,
}
use p4rt_standalone.Status.Code.{StatusApi}
use p4rt_standalone.Proto.{MasterArbitrationUpdate, Uint128Api}
use p4rt_standalone.Controller.State.{SdnConnection, past}
use p4rt_standalone.Controller.Arbitration.{handle_arbitration_update, role_of_update, of_proto}
use p4rt_standalone.Controller.Invariant.Defs.{role_at}
use p4rt_standalone.Controller.Views.Defs.{last_view}
use p4rt_standalone.Controller.Views.Order.{Believes, takeover_order}
use p4rt_standalone.Server.System.Steps.{at_world}
use p4rt_standalone.Server.System.Invariant.{Reach-start-IsValid}
use p4rt_standalone.Server.Threads.Steps.{
  Message, outside, inside, Machine, boot, relocate, arbitrating, Tick, Ticks, open_stream, enter,
  begin_write, end_write, leave, begin_answer, end_answer, still, tick, by_manager, left,
}
use p4rt_standalone.Server.Threads.Invariant.{
  Consistent, Ticks-Consistent, Ticks-boot-Consistent, Tick-Consistent, written_free,
}
use p4rt_standalone.Server.Threads.Held.{Tick-wire}
use p4rt_standalone.Server.Threads.Wire.{steps}

module _ ⦃api : Uint128Api⦄ ⦃status : StatusApi⦄ where
  Ticks-wire :
      {m n : Machine}
      → Ticks m n
      → (new : List Message) × (by_manager n.wire ≡ by_manager m.wire ++ new)
  Ticks-wire {m} still = ([], sym (append-nil (by_manager m.wire)))
  Ticks-wire {m} (tick run st) =
      let (new, e) = Ticks-wire run in
      let (more, f) = Tick-wire st in
      (new ++ more, f ∙ ap (λ l. l ++ more) e ∙ append_assoc (by_manager m.wire) new more)

  -- The critical section of `p` goes on, or all of its messages have been written.
  abbrev Going : ℕ → List Message → Machine → Type 0
  Going p all n =
      ((n.lock ≡ some p) × (n.system.world.writes ≡ all))
      ⊎ ((more : List Message) × (by_manager n.wire ≡ all ++ more))

  Tick-Going :
      (p : ℕ) (all : List Message) {m n : Machine}
      → Consistent m
      → m.lock ≡ some p
      → m.system.world.writes ≡ all
      → Tick m n
      → Going p all n
  Tick-Going p all v l e (open_stream _ _ _) = inl (l, e)
  Tick-Going p all v l e (enter _ _ free _ _ _) = absurd (cc (l, free))
  Tick-Going p all v l e (begin_write _ _ _ _) = inl (l, e)
  Tick-Going p all v l e (end_write _ _ _ _) = inl (l, e)
  Tick-Going p all {m} v l e (leave i at) =
      inr
        ([], sym (written_free _ (Tick-Consistent (leave i at) v) refl) ∙ e ∙ sym (append-nil all))
  Tick-Going p all v l e (begin_answer _ _ _ _ _) = inl (l, e)
  Tick-Going p all v l e (end_answer _ _ _) = inl (l, e)

  Ticks-Going :
      (p : ℕ) (all : List Message) {m n : Machine}
      → Consistent m
      → m.lock ≡ some p
      → m.system.world.writes ≡ all
      → Ticks m n
      → Going p all n
  Ticks-Going p all v l e still = inl (l, e)
  Ticks-Going p all v l e (tick run st) = elim (Ticks-Going p all v l e run) [
    | inl (k, f) ↦ Tick-Going p all (Ticks-Consistent run v) k f st
    | inr (more, f) ↦
        let (new, g) = Tick-wire st in
        inr (more ++ new, g ∙ ap (λ x. x ++ new) f ∙ append_assoc all more new)
  ]

  -- The thread `p` has entered the critical section of an update.
  abbrev pub arbitration_begun : Machine → ℕ → MasterArbitrationUpdate → List Message → Machine
  arbitration_begun m p update new = record m {
    system = at_world m.system (handle_arbitration_update update p m.system.world).1;
    lock = some p;
    place = relocate m.place p (inside new);
  }

  -- Interleaved from the start, while a new connection's takeover with a higher ID than its role
  -- has had is written, whatever others do: another member of the role that was last told that it
  -- is primary was told so before, and the new one has been told nothing; or else the takeover is
  -- written entirely.
  pub takeover_on_wire :
      (memory : ℕ → SdnConnection) {m n : Machine} (run : Ticks (boot memory) m)
      (update : MasterArbitrationUpdate) (p : ℕ) (new : List Message)
      → m.lock ≡ none
      → m.place p ≡ outside
      → Elem p m.system.streams
      → (m.system.world.objects p).initialized ≡ false
      → ¬ Elem p m.system.world.connections
      → opt_ltb
          (past m.system.world (role_of_update update))
          (Option.map of_proto update.election_id)
        ≡ true
      → (arbitration_begun m p update new).system.world.writes ≡ m.system.world.writes ++ new
      → Ticks (arbitration_begun m p update new) n
      → (q : ℕ) → Elem q (arbitration_begun m p update new).system.world.connections
      → role_at (arbitration_begun m p update new).system.world q ≡ role_of_update update
      → q ≢ p
      → Believes (by_manager n.wire) q
      → (Believes (by_manager m.wire) q
          × ((pre : List Message) × (by_manager n.wire ≡ by_manager m.wire ++ pre)
              × (last_view p pre ≡ none)))
        ⊎ ((more : List Message) × (by_manager n.wire ≡ (by_manager m.wire ++ new) ++ more))
  takeover_on_wire memory {m} {n} run update p new free here present fresh absent above e during q c
        r other b =
      let v = Ticks-boot-Consistent memory run in
      let w = m.system.world in
      let begun = enter p new free here (arbitrating update present) e in
      let before : w.writes ≡ by_manager m.wire = written_free m v free in
      let (pre, f) = Ticks-wire during in
      elim (Ticks-Going p _ (Tick-Consistent begun v) refl refl during) [
        | inr (more, g) ↦ inr (more, g ∙ ap (λ l. l ++ more) (e ∙ ap (λ l. l ++ new) before))
        | inl (_, g) ↦
            let all =
              sym g
              ∙ (Ticks-Consistent during (Tick-Consistent begun v)).written
              ∙ ap (λ l. l ++ left n) (f ∙ ap (λ l. l ++ pre) (sym before))
              ∙ append_assoc w.writes pre (left n) in
            let (was, unheard) =
              takeover_order update p w (Reach-start-IsValid memory (steps run)) fresh absent above
                pre (left n) all q c r other
                (subst (λ l. Believes l q) (f ∙ ap (λ l. l ++ pre) (sym before)) b) in
            inl (subst (λ l. Believes l q) before was, (pre, f, unheard))
      ]
