-- ===== src/Server/Threads/Drain.antt =====
-- A thread under the lock writes its messages, with no step of another thread.
use mathlib.Core.List.{append_assoc, append-nil, map-append}
use p4rt_standalone.Prelude.{
  ℕ, ◌≡◌, refl, sym, ap, ◌∙◌, false, List, [], ◌∷◌, ◌++◌, map, same_number,
}
use p4rt_standalone.Status.Code.{StatusApi}
use p4rt_standalone.Proto.{Uint128Api}
use p4rt_standalone.Server.Threads.Steps.{
  Message, inside, writing, managed, Machine, relocate, Tick, Ticks, open_stream, enter,
  begin_write, end_write, leave, begin_answer, end_answer, still, tick,
}
use p4rt_standalone.Server.Threads.Invariant.{at_same, relocate_other}

module _ ⦃api : Uint128Api⦄ ⦃status : StatusApi⦄ where
  pub Ticks-trans : {m n k : Machine} → Ticks m n → Ticks n k → Ticks m k
  Ticks-trans r still = r
  Ticks-trans r (tick s t) = tick (Ticks-trans r s) t

  -- The thread that makes the step.
  abbrev pub mover : {m n : Machine} → Tick m n → ℕ
  mover (open_stream i _ _) = i
  mover (enter i _ _ _ _ _) = i
  mover (begin_write i _ _ _) = i
  mover (end_write i _ _ _) = i
  mover (leave i _) = i
  mover (begin_answer i _ _ _ _) = i
  mover (end_answer i _ _) = i

  -- No other thread makes a step of the run.
  abbrev pub Alone : {m n : Machine} → ℕ → Ticks m n → Type 0
  Alone i still = Unit {0}
  Alone i (tick run st) = Alone i run × (mover st ≡ i)

  pub Alone-trans :
      {m n k : Machine} (i : ℕ) (r : Ticks m n) (s : Ticks n k)
      → Alone i r
      → Alone i s
      → Alone i (Ticks-trans r s)
  unfolding Ticks-trans
  Alone-trans i r still a b = a
  Alone-trans i r (tick s t) a (b, e) = (Alone-trans i r s a b, e)

  -- The thread `i` has written the messages `done`, and has `rest` left.
  pub record Drained (m : Machine) (i : ℕ) (done rest : List Message) : Type 0 where
    pub after : Machine
    pub run : Ticks m after
    pub alone : Alone i run
    pub place : after.place i ≡ inside rest
    pub others : (j : ℕ) → same_number i j ≡ false → after.place j ≡ m.place j
    pub system : after.system ≡ m.system
    pub lock : after.lock ≡ m.lock
    pub wire : after.wire ≡ m.wire ++ map managed done

  -- One call of `Write`, from its begin on.
  pub finish_write :
      (m : Machine) (i : ℕ) (x : Message) (rest : List Message)
      → m.place i ≡ writing x rest
      → Drained m i (x ∷ []) rest
  finish_write m i x rest at = record {
    after = record m { place = relocate m.place i (inside rest); wire = m.wire ++ managed x ∷ [] };
    run = tick still (end_write i x rest at);
    alone = (tt, refl);
    place = at_same m.place i (inside rest);
    others = λ j n. relocate_other m.place i j (inside rest) n;
    system = refl;
    lock = refl;
    wire = refl;
  }

  write_one :
      (m : Machine) (i : ℕ) (x : Message) (rest : List Message)
      → m.place i ≡ inside (x ∷ rest)
      → Drained m i (x ∷ []) rest
  write_one m i x rest at = record {
    after = one.after;
    run = Ticks-trans (tick still (begin_write i x rest at)) one.run;
    alone = Alone-trans i (tick still (begin_write i x rest at)) one.run (tt, refl) one.alone;
    place = one.place;
    others = λ j n. one.others j n ∙ relocate_other m.place i j (writing x rest) n;
    system = one.system;
    lock = one.lock;
    wire = one.wire;
  }
    where
      one : Drained (record m { place = relocate m.place i (writing x rest) }) i (x ∷ []) rest
      one = finish_write _ i x rest (at_same m.place i (writing x rest))

  pub Drained-trans :
      (m : Machine) (i : ℕ) (xs ys rest more : List Message) (d : Drained m i xs more)
      → Drained d.after i ys rest
      → Drained m i (xs ++ ys) rest
  Drained-trans m i xs ys rest more d e = record {
    after = e.after;
    run = Ticks-trans d.run e.run;
    alone = Alone-trans i d.run e.run d.alone e.alone;
    place = e.place;
    others = λ j n. e.others j n ∙ d.others j n;
    system = e.system ∙ d.system;
    lock = e.lock ∙ d.lock;
    wire =
        e.wire
        ∙ ap (λ l. l ++ map managed ys) d.wire
        ∙ append_assoc m.wire (map managed xs) (map managed ys)
        ∙ ap (λ l. m.wire ++ l) (sym (map-append managed xs ys));
  }

  pub drain :
      (m : Machine) (i : ℕ) (done rest : List Message)
      → m.place i ≡ inside (done ++ rest)
      → Drained m i done rest
  drain m i [] rest at = record {
    after = m;
    run = still;
    alone = tt;
    place = at;
    others = λ j n. refl;
    system = refl;
    lock = refl;
    wire = sym (append-nil m.wire);
  }
  drain m i (x ∷ done) rest at =
      let one = write_one m i x (done ++ rest) at in
      Drained-trans m i (x ∷ []) done rest (done ++ rest) one
        (drain one.after i done rest one.place)
