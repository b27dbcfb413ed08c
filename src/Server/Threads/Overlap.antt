-- ===== src/Server/Threads/Overlap.antt =====
-- Two writes to one stream at a time.
use p4rt_standalone.Prelude.{
  ℕ, ◌≡◌, ◌≢◌, ◌⊎◌, refl, sym, ap, ◌∙◌, subst, false, Option, none, some, List, ◌∷◌, ◌++◌, inl, inr,
  arith, Elem, same_number,
}
use p4rt_standalone.Status.Code.{StatusApi}
use p4rt_standalone.Proto.{StreamMessageResponse, Uint128Api}
use p4rt_standalone.Controller.State.{SdnConnection}
use p4rt_standalone.Server.System.Steps.{System}
use p4rt_standalone.Server.Threads.Steps.{
  Message, Place, outside, inside, writing, answering, Machine, boot, relocate, OwnAnswer, Section,
  Ticks, enter, begin_write, begin_answer, still, tick,
}
use p4rt_standalone.Server.Threads.Invariant.{
  Inside, OwnStream, Consistent, Ticks-boot-Consistent, at_same, relocate_other,
}
use p4rt_standalone.Server.Threads.Drain.{Ticks-trans, drain}

-- What a thread is writing, from the begin of the `Write` to its end.
abbrev pub in_write : Place → Option Message
in_write (writing x rest) = some x
in_write (answering x) = some x
in_write _ = none

-- The thread `i` answers on its own stream `p`, while `j` writes to it under the lock.
pub record Race (m : Machine) (p i j : ℕ) : Type 0 where
  pub own_stream : p ≡ i
  pub own_write : (x : Message) × (m.place i ≡ answering x)
  pub lock_held : m.lock ≡ some j

module _ ⦃api : Uint128Api⦄ ⦃status : StatusApi⦄ where
  -- A thread within a `Write` holds the lock, or answers on its own stream.
  in_write-cases :
      (m : Machine) (i p : ℕ) (x : StreamMessageResponse)
      → Consistent m
      → (place : Place) → m.place i ≡ place
      → in_write place ≡ some (p, x)
      → (m.lock ≡ some i) ⊎ ((p ≡ i) × ((y : Message) × (m.place i ≡ answering y)))
  in_write-cases m i p x v outside e h = cc
  in_write-cases m i p x v (inside _) e h = cc
  in_write-cases m i p x v (writing y rest) e h = inl ((v.fits i).holds (subst Inside (sym e) tt))
  in_write-cases m i p x v (answering y) e h =
      let same : y ≡ (p, x) = cc h in
      inr (sym (ap (λ (z : Message). z.0) same) ∙ subst (OwnStream i) e (v.fits i).owned, (y, e))

  Consistent-Race :
      (m : Machine) (i j p : ℕ) (x y : StreamMessageResponse)
      → Consistent m
      → i ≢ j
      → in_write (m.place i) ≡ some (p, x)
      → in_write (m.place j) ≡ some (p, y)
      → Race m p i j ⊎ Race m p j i
  Consistent-Race m i j p x y v n a b = elim (in_write-cases m i p x v (m.place i) refl a) [
    | inl held ↦ elim (in_write-cases m j p y v (m.place j) refl b) [
      | inl too ↦ absurd (n (cc (held, too)))
      | inr (o, w) ↦ inr (record { own_stream = o; own_write = w; lock_held = held })
    ]
    | inr (o, w) ↦ elim (in_write-cases m j p y v (m.place j) refl b) [
      | inl held ↦ inl (record { own_stream = o; own_write = w; lock_held = held })
      | inr (too, _) ↦ absurd (n (sym o ∙ too))
    ]
  ]

  -- In every interleaving from the start, if two threads are within a Write to the same stream,
  -- then one of them answers on its own stream, without the lock, and the other one holds the lock:
  -- no two such writes are both under the lock, and none is to a stream of a third thread.
  pub Ticks-boot-Race :
      (memory : ℕ → SdnConnection) {m : Machine}
      → Ticks (boot memory) m
      → (i j p : ℕ) (x y : StreamMessageResponse) → i ≢ j
      → in_write (m.place i) ≡ some (p, x)
      → in_write (m.place j) ≡ some (p, y)
      → Race m p i j ⊎ Race m p j i
  Ticks-boot-Race memory {m} run i j p x y n a b =
      Consistent-Race m i j p x y (Ticks-boot-Consistent memory run) n a b

  same_number_sym : (i p : ℕ) → same_number i p ≡ false → same_number p i ≡ false
  same_number_sym i p h = ground arith

  abbrev begun_answer : Machine → ℕ → StreamMessageResponse → Machine
  begun_answer m p r = record m { place = relocate m.place p (answering (p, r)) }

  abbrev begun_section : Machine → ℕ → System → List Message → Machine
  begun_section m i t new = record m {
    system = t;
    lock = some i;
    place = relocate m.place i (inside new);
  }

  -- While nobody holds the lock and two threads are outside, one of them with an open stream, to
  -- which a critical section of the other one writes: a state can be reached in which both are
  -- within a Write to that stream at once.
  pub writes_overlap :
      (m : Machine) (i p : ℕ) (r : StreamMessageResponse) (t : System) (before after : List Message)
      (x : StreamMessageResponse)
      → OwnAnswer r
      → m.lock ≡ none
      → m.place i ≡ outside
      → m.place p ≡ outside
      → same_number i p ≡ false
      → Elem p m.system.streams
      → Section i m.system t
      → t.world.writes ≡ m.system.world.writes ++ (before ++ (p, x) ∷ after)
      → (n : Machine) × Ticks m n
        × (in_write (n.place i) ≡ some (p, x))
        × (in_write (n.place p) ≡ some (p, r))
  writes_overlap m i p r t before after x own free here there apart present section new =
      let answered = begun_answer m p r in
      let entered = begun_section answered i t (before ++ (p, x) ∷ after) in
      let d =
        drain entered i before ((p, x) ∷ after)
          (at_same answered.place i (inside (before ++ (p, x) ∷ after))) in
      (
        record d.after { place = relocate d.after.place i (writing (p, x) after) },
        tick
            (Ticks-trans
              (tick (tick still (begin_answer p r own there present)) (
                enter i (before ++ (p, x) ∷ after) free
                  (relocate_other m.place p i _ (same_number_sym i p apart) ∙ here) section new))
              d.run)
            (begin_write i (p, x) after d.place),
        ap in_write (at_same d.after.place i (writing (p, x) after)),
        ap in_write (
            relocate_other d.after.place i p _ apart
            ∙ d.others p apart
            ∙ relocate_other answered.place i p _ apart
            ∙ at_same m.place p (answering (p, r))),
      )
