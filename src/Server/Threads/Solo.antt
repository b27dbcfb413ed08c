-- ===== src/Server/Threads/Solo.antt =====
-- One thread's moves while all others stay where they are.
use mathlib.Core.List.{append-nil, map-append}
use p4rt_standalone.Prelude.{
  ℕ, ◌≡◌, refl, sym, ap, ◌∙◌, none, some, List, [], ◌∷◌, ◌++◌, map, Elem, subst,
}
use p4rt_standalone.Status.Code.{StatusApi}
use p4rt_standalone.Proto.{StreamMessageResponse, Uint128Api}
use p4rt_standalone.Controller.State.{
  World, new_connection, set_object, send_stream_message_response,
}
use p4rt_standalone.Controller.Uniform.{after}
use p4rt_standalone.Server.System.Steps.{System}
use p4rt_standalone.Server.Threads.Steps.{
  Message, outside, inside, answering, Written, managed, own, Machine, relocate, OwnAnswer, Section,
  Ticks, open_stream, enter, leave, begin_answer, end_answer, still, tick,
}
use p4rt_standalone.Server.Threads.Invariant.{at_same}
use p4rt_standalone.Server.Threads.Drain.{Ticks-trans, Alone, Alone-trans, Drained, drain}

-- The message, whoever wrote it.
abbrev pub message : Written → Message
message (managed x) = x
message (own x) = x

map-managed : (xs : List Message) → map message (map managed xs) ≡ xs
map-managed [] = refl
map-managed (x ∷ xs) = ap (◌∷◌ x) (map-managed xs)

-- The state without the messages.
abbrev pub core : World → World
core w = record w { writes = [] }

-- Nobody is in a critical section, the thread is outside, and all but the order in which the machine
-- keeps the messages is as in the state `w`.
pub record Mirror (m : Machine) (p : ℕ) (w : World) (present : List ℕ) : Type 0 where
  pub lock : m.lock ≡ none
  pub place : m.place p ≡ outside
  pub guarded : core m.system.world ≡ core w
  pub streams : m.system.streams ≡ present
  pub wire : map message m.wire ≡ w.writes

-- What an operation that does not read the messages does in two states that differ in them only.
module _ (op : World → World)
    (uniform : (ws : List Message) (w : World) → op (after ws w) ≡ after ws (op w)) where
  op-core : (w : World) → op w ≡ after w.writes (op (core w))
  op-core w =
      ap op (ap (λ l. record w { writes = l }) (sym (append-nil w.writes)))
      ∙ uniform w.writes (core w)

  op-writes : (v w : World) → core v ≡ core w → (op v).writes ≡ v.writes ++ (op (core w)).writes
  op-writes v w e = ap (λ (u : World). u.writes) (op-core v ∙ ap (λ u. after v.writes (op u)) e)

  op-guarded : (v w : World) → core v ≡ core w → core (op v) ≡ core (op w)
  op-guarded v w e = ap core (op-core v) ∙ ap (λ u. core (op u)) e ∙ sym (ap core (op-core w))

module _ ⦃api : Uint128Api⦄ ⦃status : StatusApi⦄ where
  -- By steps of this thread alone, the machine can come to such a state.
  abbrev pub Solo : Machine → ℕ → World → List ℕ → Type 0
  Solo m p w streams = (n : Machine) × (run : Ticks m n) × Alone p run × Mirror n p w streams

  pub Solo-trans :
      {m : Machine} {p : ℕ} {v w : World} {ss ts : List ℕ}
      → Solo m p v ss
      → ((n : Machine) → Mirror n p v ss → Solo n p w ts)
      → Solo m p w ts
  Solo-trans {p} (n, run, alone, mirror) next =
      let (k, more, too, last) = next n mirror in
      (k, Ticks-trans run more, Alone-trans p run more alone too, last)

  -- A whole critical section.
  module _ (op : World → World)
      (uniform : (ws : List Message) (w : World) → op (after ws w) ≡ after ws (op w)) (m : Machine)
      (p : ℕ) (w : World) (streams : List ℕ) where
    left-Mirror :
        (t : System) (ts : List ℕ)
        → Mirror m p w streams
        → t.world ≡ op m.system.world
        → t.streams ≡ ts
        → (k : Machine) → k.system ≡ t
        → k.lock ≡ none
        → k.place p ≡ outside
        → k.wire ≡ m.wire ++ map managed (op (core w)).writes
        → Mirror k p (op w) ts
    left-Mirror t ts mir world list k system lock place wire = record {
      lock = lock;
      place = place;
      guarded =
          ap (λ (s : System). core s.world) system
          ∙ ap core world
          ∙ op-guarded op uniform m.system.world w mir.guarded;
      streams = ap (λ (s : System). s.streams) system ∙ list;
      wire =
          ap (map message) wire
          ∙ map-append message m.wire (map managed (op (core w)).writes)
          ∙ ap (λ l. map message m.wire ++ l) (map-managed (op (core w)).writes)
          ∙ ap (λ l. l ++ (op (core w)).writes) mir.wire
          ∙ sym (op-writes op uniform w w refl);
    }

    pub op-Solo :
        (t : System) (ts : List ℕ)
        → Mirror m p w streams
        → Section p m.system t
        → t.world ≡ op m.system.world
        → t.streams ≡ ts
        → Solo m p (op w) ts
    op-Solo t ts mir section world list =
        let new : List Message = (op (core w)).writes in
        let entered : Machine = record m {
          system = t;
          lock = some p;
          place = relocate m.place p (inside new);
        } in
        let d : Drained entered p new [] =
          drain entered p new []
            (at_same m.place p (inside new) ∙ ap inside (sym (append-nil new))) in
        let k : Machine = record d.after {
          lock = none;
          place = relocate d.after.place p outside;
        } in
        let begin : Ticks m entered = tick still (
          enter p new mir.lock mir.place section (
            ap (λ (u : World). u.writes) world
            ∙ op-writes op uniform m.system.world w mir.guarded)) in
        (
          k,
          tick (Ticks-trans begin d.run) (leave p d.place),
          (Alone-trans p begin d.run (tt, refl) d.alone, refl),
          left-Mirror t ts mir world list k d.system refl (at_same d.after.place p outside) d.wire,
        )

  module _ (m : Machine) (p : ℕ) (w : World) (streams : List ℕ) (mir : Mirror m p w streams) where
    pub open-Solo : ¬ Elem p streams → Solo m p (set_object p new_connection w) (p ∷ streams)
    open-Solo n = (
      _,
      tick still (open_stream p mir.place (subst (λ l. ¬ Elem p l) (sym mir.streams) n)),
      (tt, refl),
      record {
        lock = mir.lock;
        place = mir.place;
        guarded = ap (set_object p new_connection) mir.guarded;
        streams = ap (◌∷◌ p) mir.streams;
        wire = mir.wire;
      },
    )

    pub answer-Solo :
        (r : StreamMessageResponse)
        → OwnAnswer r
        → Elem p streams
        → Solo m p (send_stream_message_response p r w) streams
    answer-Solo r answer e =
        let begun = relocate m.place p (answering (p, r)) in
        (
          _,
          tick (tick still (begin_answer p r answer mir.place (subst (Elem p) (sym mir.streams) e)))
              (end_answer p (p, r) (at_same m.place p (answering (p, r)))),
          ((tt, refl), refl),
          record {
            lock = mir.lock;
            place = at_same begun p outside;
            guarded = mir.guarded;
            streams = mir.streams;
            wire =
                map-append message m.wire (own (p, r) ∷ []) ∙ ap (λ l. l ++ (p, r) ∷ []) mir.wire;
          },
        )
