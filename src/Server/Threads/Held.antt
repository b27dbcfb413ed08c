-- ===== src/Server/Threads/Held.antt =====
-- Nothing overtakes a write of the manager.
use mathlib.Core.List.{append_assoc, append-nil}
use p4rt_standalone.Prelude.{
  ℕ, ◌≡◌, ◌⊎◌, refl, sym, ap, ◌∙◌, subst, false, Bool-cases, some, List, [], ◌∷◌, ◌++◌, inl, inr,
  same_number, same_number_iff,
}
use p4rt_standalone.Status.Code.{StatusApi}
use p4rt_standalone.Proto.{Uint128Api}
use p4rt_standalone.Controller.State.{SdnConnection}
use p4rt_standalone.Server.Threads.Steps.{
  Message, Place, writing, Written, managed, own, Machine, boot, Tick, Ticks, open_stream, enter,
  begin_write, end_write, leave, begin_answer, end_answer, still, tick, by_manager,
}
use p4rt_standalone.Server.Threads.Invariant.{
  Inside, Consistent, Ticks-Consistent, Ticks-boot-Consistent, relocate_other, by_manager-append,
  lock_of,
}

-- The write goes on: nobody has changed what the lock guards, nor written for the manager.
pub record Waiting (m : Machine) (i : ℕ) (x : Message) (rest : List Message) (n : Machine)
    : Type 0 where
  pub place : n.place i ≡ writing x rest
  pub lock : n.lock ≡ some i
  pub manager : n.system.world.manager ≡ m.system.world.manager
  pub wire : by_manager n.wire ≡ by_manager m.wire

-- The write has returned, and is the next one of the manager.
abbrev pub Returned : Machine → Message → Machine → Type 0
Returned m x n = (after : List Message) × (by_manager n.wire ≡ by_manager m.wire ++ x ∷ after)

one_managed :
    (wire : List Written) (x : Message)
    → by_manager (wire ++ managed x ∷ []) ≡ by_manager wire ++ x ∷ []
one_managed wire x = by_manager-append wire (managed x ∷ [])

none_managed :
    (wire : List Written) (x : Message) → by_manager (wire ++ own x ∷ []) ≡ by_manager wire
none_managed wire x = by_manager-append wire (own x ∷ []) ∙ append-nil (by_manager wire)

module _ ⦃api : Uint128Api⦄ ⦃status : StatusApi⦄ where
  pub Tick-wire :
      {m n : Machine}
      → Tick m n
      → (new : List Message) × (by_manager n.wire ≡ by_manager m.wire ++ new)
  Tick-wire {m} (end_write i x rest _) = (x ∷ [], one_managed m.wire x)
  Tick-wire {m} (end_answer i x _) =
      ([], none_managed m.wire x ∙ sym (append-nil (by_manager m.wire)))
  Tick-wire {m} (open_stream _ _ _) = ([], sym (append-nil (by_manager m.wire)))
  Tick-wire {m} (enter _ _ _ _ _ _) = ([], sym (append-nil (by_manager m.wire)))
  Tick-wire {m} (begin_write _ _ _ _) = ([], sym (append-nil (by_manager m.wire)))
  Tick-wire {m} (leave _ _) = ([], sym (append-nil (by_manager m.wire)))
  Tick-wire {m} (begin_answer _ _ _ _ _) = ([], sym (append-nil (by_manager m.wire)))

  module _ (m : Machine) (v : Consistent m) (i : ℕ) (x : Message) (rest : List Message)
      (at : m.place i ≡ writing x rest) where
    held : m.lock ≡ some i
    held = lock_of m v i (writing x rest) at tt

    -- A thread in a critical section is the one that writes.
    same_holder :
        (j : ℕ) (place : Place) → m.place j ≡ place → Inside place → writing x rest ≡ place
    same_holder j place e h =
        let l : some i ≡ some j = sym held ∙ lock_of m v j place e h in
        let same : i ≡ j = cc l in sym at ∙ ap m.place same ∙ e

    -- A thread that is elsewhere is another one.
    apart : (j : ℕ) (place : Place) → m.place j ≡ place → ¬ Inside place → same_number j i ≡ false
    apart j place e h = elim (Bool-cases (same_number j i)) [
      | inl same ↦
          absurd
            (h (subst Inside (sym at ∙ ap m.place (sym ((same_number_iff j i).0 same)) ∙ e) tt))
      | inr n ↦ n
    ]

    Tick-Waiting : {n : Machine} → Tick m n → Waiting m i x rest n ⊎ Returned m x n
    Tick-Waiting (open_stream j _ _) =
        inl (record { place = at; lock = held; manager = refl; wire = refl })
    Tick-Waiting (enter j new free _ _ _) = absurd (cc (free, held))
    Tick-Waiting (begin_write j y ys e) = absurd (cc (same_holder j _ e tt))
    Tick-Waiting (end_write j y ys e) =
        let same : x ≡ y = cc (same_holder j _ e tt) in
        inr ([], one_managed m.wire y ∙ ap (λ z. by_manager m.wire ++ z ∷ []) (sym same))
    Tick-Waiting (leave j e) = absurd (cc (same_holder j _ e tt))
    Tick-Waiting (begin_answer j r _ e _) = inl (record {
      place = relocate_other m.place j i _ (apart j _ e (λ h. h)) ∙ at;
      lock = held;
      manager = refl;
      wire = refl;
    })
    Tick-Waiting (end_answer j y e) = inl (record {
      place = relocate_other m.place j i _ (apart j _ e (λ h. h)) ∙ at;
      lock = held;
      manager = refl;
      wire = none_managed m.wire y;
    })

  -- One more step, while the write goes on, or after its return.
  Waiting-next :
      (m k : Machine) (i : ℕ) (x : Message) (rest : List Message) {n : Machine}
      → Consistent k
      → Waiting m i x rest k
      → Tick k n
      → Waiting m i x rest n ⊎ Returned m x n
  Waiting-next m k i x rest v w st = elim (Tick-Waiting k v i x rest w.place st) [
    | inl next ↦ inl (record {
      place = next.place;
      lock = next.lock;
      manager = next.manager ∙ w.manager;
      wire = next.wire ∙ w.wire;
    })
    | inr (after, e) ↦ inr (after, e ∙ ap (λ l. l ++ x ∷ after) w.wire)
  ]

  Returned-next :
      (m k : Machine) (x : Message) {n : Machine} → Returned m x k → Tick k n → Returned m x n
  Returned-next m k x (after, e) st =
      let (new, more) = Tick-wire st in
      (after ++ new, more ∙ ap (λ l. l ++ new) e ∙ append_assoc (by_manager m.wire) (x ∷ after) new)

  Ticks-Waiting :
      (m : Machine) (i : ℕ) (x : Message) (rest : List Message) {n : Machine}
      → Consistent m
      → m.place i ≡ writing x rest
      → Ticks m n
      → Waiting m i x rest n ⊎ Returned m x n
  Ticks-Waiting m i x rest v at still = inl (record {
    place = at;
    lock = lock_of m v i (writing x rest) at tt;
    manager = refl;
    wire = refl;
  })
  Ticks-Waiting m i x rest v at (tick {n = k} run st) = elim (Ticks-Waiting m i x rest v at run) [
    | inl w ↦ Waiting-next m k i x rest (Ticks-Consistent run v) w st
    | inr done ↦ inr (Returned-next m k x done st)
  ]

  -- Nothing overtakes a write of the manager: from a state of an interleaving from the start in
  -- which a thread under the lock is within a Write, as long as that Write has not returned, the
  -- manager's state stays as it is, and nothing else is written for the manager.
  pub Ticks-boot-Waiting :
      (memory : ℕ → SdnConnection) {m : Machine}
      → Ticks (boot memory) m
      → (i : ℕ) (x : Message) (rest : List Message) {n : Machine} → m.place i ≡ writing x rest
      → Ticks m n
      → Waiting m i x rest n ⊎ Returned m x n
  Ticks-boot-Waiting memory {m} run i x rest at more =
      Ticks-Waiting m i x rest (Ticks-boot-Consistent memory run) at more
