-- ===== src/Server/Threads/Progress.antt =====
-- Every thread that waits for the lock can get it.
use mathlib.Core.List.{append-nil}
use p4rt_standalone.Prelude.{
  subst, ℕ, ◌≡◌, refl, sym, ap, ◌∙◌, false, Bool-cases, Option-cases, none, some, List, [], ◌∷◌,
  inl, inr, same_number, same_number_iff,
}
use p4rt_standalone.Status.Code.{StatusApi}
use p4rt_standalone.Proto.{Uint128Api}
use p4rt_standalone.Controller.State.{SdnConnection}
use p4rt_standalone.Controller.Appends.{
  Appends, Appends-refl, handle-Appends, disconnect-Appends, send_to_primary-Appends,
}
use p4rt_standalone.Server.System.Steps.{System}
use p4rt_standalone.Server.Threads.Steps.{
  Message, Place, outside, inside, writing, answering, Machine, boot, relocate, Section,
  arbitrating, disconnecting, messaging, testing, Ticks, enter, leave, still, tick, by_manager,
}
use p4rt_standalone.Server.Threads.Invariant.{
  Inside, Consistent, Ticks-Consistent, Ticks-boot-Consistent, written_free,
}
use p4rt_standalone.Server.Threads.Drain.{Ticks-trans, Drained, Drained-trans, drain, finish_write}

module _ ⦃api : Uint128Api⦄ ⦃status : StatusApi⦄ where
  Section-Appends : {i : ℕ} {s t : System} → Section i s t → Appends s.world t.world
  Section-Appends {i} {s} (arbitrating update _) = handle-Appends update i s.world
  Section-Appends {i} {s} (disconnecting _) = disconnect-Appends i s.world
  Section-Appends {s} (messaging role response) = send_to_primary-Appends role response s.world
  Section-Appends {s} testing = Appends-refl s.world

  -- The holder of the lock has left it, and the other threads are where they were.
  record Left (m : Machine) (j : ℕ) : Type 0 where
    after : Machine
    run : Ticks m after
    others : (k : ℕ) → same_number j k ≡ false → after.place k ≡ m.place k
    system : after.system ≡ m.system
    lock : after.lock ≡ none

  leave_empty : (m : Machine) (j : ℕ) (done : List Message) → Drained m j done [] → Left m j
  leave_empty m j done d = record {
    after = record d.after { lock = none; place = relocate d.after.place j outside };
    run = tick d.run (leave j d.place);
    others = λ k n. rw n refl ∙ d.others k n;
    system = d.system;
    lock = refl;
  }

  leave_lock : (m : Machine) (j : ℕ) (place : Place) → m.place j ≡ place → Inside place → Left m j
  leave_lock m j outside e h = absurd h
  leave_lock m j (answering x) e h = absurd h
  leave_lock m j (inside rest) e h =
      leave_empty m j rest (drain m j rest [] (e ∙ ap inside (sym (append-nil rest))))
  leave_lock m j (writing x rest) e h =
      let one = finish_write m j x rest e in
      leave_empty m j (x ∷ rest) (
        Drained-trans m j (x ∷ []) rest [] rest one
          (drain one.after j rest [] (one.place ∙ ap inside (sym (append-nil rest)))))

  -- The thread has entered the critical section, and all that was to be written before is written.
  abbrev pub Entered : Machine → ℕ → System → Machine → Type 0
  Entered m i t n =
      Ticks m n × (n.system ≡ t) × (n.lock ≡ some i) × (by_manager n.wire ≡ m.system.world.writes)

  enter_free :
      (m : Machine) (i : ℕ) (t : System)
      → Consistent m
      → m.lock ≡ none
      → m.place i ≡ outside
      → Section i m.system t
      → (n : Machine) × Entered m i t n
  enter_free m i t v free here section =
      let (new, e) = Section-Appends section in
      (_, (tick still (enter i new free here section e), refl, refl, sym (written_free m v free)))

  enter_held :
      (m : Machine) (i j : ℕ) (t : System)
      → Consistent m
      → same_number j i ≡ false
      → m.place i ≡ outside
      → Section i m.system t
      → Left m j
      → (n : Machine) × Entered m i t n
  enter_held m i j t v apart here section l =
      let (n, (run, system, lock, wire)) =
        enter_free l.after i t (Ticks-Consistent l.run v) l.lock (l.others i apart ∙ here)
          (subst (λ s. Section i s t) (sym l.system) section) in
      (
        n,
        (Ticks-trans l.run run, system, lock, wire ∙ ap (λ (s : System). s.world.writes) l.system),
      )

  -- A thread outside is not the holder.
  not_holder :
      (m : Machine) (i j : ℕ)
      → Consistent m
      → m.lock ≡ some j
      → m.place i ≡ outside
      → same_number j i ≡ false
  not_holder m i j v held here = elim (Bool-cases (same_number j i)) [
    | inl same ↦
        absurd (subst Inside here ((v.fits i).held (held ∙ ap some ((same_number_iff j i).0 same))))
    | inr n ↦ n
  ]

  -- From every state of an interleaving from the start, a thread that is outside can enter any
  -- critical section that is open to it: others have steps after which the lock is free, the
  -- manager's messages of before are all written, and the guarded state is as it was.
  pub lock_available :
      (memory : ℕ → SdnConnection) {m : Machine}
      → Ticks (boot memory) m
      → (i : ℕ) {t : System} → m.place i ≡ outside
      → Section i m.system t
      → (n : Machine) × Entered m i t n
  lock_available memory {m} run i {t} here section =
      let v = Ticks-boot-Consistent memory run in
      elim (Option-cases m.lock) [
        | inl free ↦ enter_free m i t v free here section
        | inr (j, held) ↦
            enter_held m i j t v (not_holder m i j v held here) here section
              (leave_lock m j (m.place j) refl ((v.fits j).held held))
      ]
