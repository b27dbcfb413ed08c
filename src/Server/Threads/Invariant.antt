-- ===== src/Server/Threads/Invariant.antt =====
-- Mutual exclusion, and what the holder of the lock has yet to write.
use mathlib.Core.Bool.{false≢true}
use mathlib.Core.List.{append_assoc, append-nil}
use p4rt_standalone.Prelude.{
  ℕ, ◌≡◌, refl, sym, ap, ◌∙◌, subst, false, Option, none, some, List, [], ◌∷◌, ◌++◌, same_number,
  same_number_iff, Bool-cases, Option-cases, inl, inr,
}
use p4rt_standalone.Status.Code.{StatusApi}
use p4rt_standalone.Proto.{Uint128Api}
use p4rt_standalone.Controller.State.{SdnConnection}
use p4rt_standalone.Server.Threads.Steps.{
  Message, Place, outside, inside, writing, answering, Written, managed, own, Machine, boot,
  relocate, Tick, Ticks, open_stream, enter, begin_write, end_write, leave, begin_answer,
  end_answer, still, tick, by_manager, left_at, left,
}

-- The thread is in a critical section.
abbrev pub Inside : Place → Type 0
Inside (inside _) = Unit {0}
Inside (writing _ _) = Unit {0}
Inside _ = ⊥

-- It writes, if at all, without the lock to its own stream only.
abbrev pub OwnStream : ℕ → Place → Type 0
OwnStream i (answering (p, _)) = p ≡ i
OwnStream i _ = Unit {0}

-- A thread is in a critical section exactly if it holds the lock.
pub record Fits (lock : Option ℕ) (i : ℕ) (place : Place) : Type 0 where
  pub holds : Inside place → lock ≡ some i
  pub held : lock ≡ some i → Inside place
  pub owned : OwnStream i place

pub record Consistent (m : Machine) : Type 0 where
  pub fits : (i : ℕ) → Fits m.lock i (m.place i)
  pub written : m.system.world.writes ≡ by_manager m.wire ++ left m

pub by_manager-append :
    (xs ys : List Written) → by_manager (xs ++ ys) ≡ by_manager xs ++ by_manager ys
by_manager-append [] ys = refl
by_manager-append (managed x ∷ xs) ys = ap (◌∷◌ x) (by_manager-append xs ys)
by_manager-append (own x ∷ xs) ys = by_manager-append xs ys

pub at_same : (places : ℕ → Place) (i : ℕ) (place : Place) → relocate places i place i ≡ place
at_same places i place = rw ((same_number_iff i i).1 refl) refl

pub relocate_other :
    (places : ℕ → Place) (i j : ℕ) (place : Place)
    → same_number i j ≡ false
    → relocate places i place j ≡ places j
relocate_other places i j place n = rw n refl

-- Facts on the place of every thread, after one thread has moved.
relocate-All :
    (P : ℕ → Place → Type 0) (places : ℕ → Place) (i : ℕ) (place : Place)
    → ((j : ℕ) → same_number i j ≡ false → P j (places j))
    → P i place
    → (j : ℕ) → P j (relocate places i place j)
relocate-All P places i place others here j = elim (Bool-cases (same_number i j)) [
  | inl e ↦ rw e (subst (λ k. P k place) ((same_number_iff i j).0 e) here)
  | inr e ↦ rw e (others j e)
]

-- Another thread than the holder is in no critical section.
not_other : {i j : ℕ} → same_number i j ≡ false → ¬ ◌≡◌ {A = Option ℕ} (some i) (some j)
not_other {i} {j} n e = false≢true (sym n ∙ (same_number_iff i j).1 (cc e))

-- All has been written while nobody holds the lock.
pub written_free :
    (m : Machine) → Consistent m → m.lock ≡ none → m.system.world.writes ≡ by_manager m.wire
written_free m v e = v.written ∙ rw e (append-nil (by_manager m.wire))

module _ (m : Machine) (v : Consistent m) (i : ℕ) where
  left_held : m.lock ≡ some i → left m ≡ left_at (m.place i)
  left_held e = rw e refl

  pub lock_of : (place : Place) → m.place i ≡ place → Inside place → m.lock ≡ some i
  lock_of place e h = (v.fits i).holds (subst Inside (sym e) h)

  written_at :
      (place : Place)
      → m.place i ≡ place
      → Inside place
      → m.system.world.writes ≡ by_manager m.wire ++ left_at place
  written_at place e h =
      v.written ∙ ap (λ l. by_manager m.wire ++ l) (left_held (lock_of place e h) ∙ ap left_at e)

  left_moved :
      (place : Place)
      → m.lock ≡ some i
      → left_at place ≡ left (record m { place = relocate m.place i place })
  left_moved place l = rw l (ap left_at (sym (at_same m.place i place)))

  -- A thread moves within its critical section.
  moved-Fits :
      (place : Place)
      → m.lock ≡ some i
      → Inside place
      → OwnStream i place
      → (j : ℕ) → Fits m.lock j (relocate m.place i place j)
  moved-Fits place l h o =
      relocate-All (Fits m.lock) m.place i place (λ j n. v.fits j)
        (record { holds = λ k. l; held = λ k. h; owned = o })

  -- A thread that is in no critical section moves without entering one.
  module _ (place : Place) (was : ¬ Inside (m.place i)) (is : ¬ Inside place) where
    away-Fits : OwnStream i place → (j : ℕ) → Fits m.lock j (relocate m.place i place j)
    away-Fits o =
        relocate-All (Fits m.lock) m.place i place (λ j n. v.fits j)
          (record {
            holds = λ h. absurd (is h);
            held = λ l. absurd (was ((v.fits i).held l));
            owned = o;
          })

    left_kept : left (record m { place = relocate m.place i place }) ≡ left m
    left_kept = elim (Option-cases m.lock) [
      | inl e ↦ rw e refl
      | inr (j, e) ↦ elim (Bool-cases (same_number i j)) [
        | inl same ↦
            absurd (was ((v.fits i).held (e ∙ ap some (sym ((same_number_iff i j).0 same)))))
        | inr n ↦ rw (e, n) refl
      ]
    ]

boot-Consistent : (memory : ℕ → SdnConnection) → Consistent (boot memory)
boot-Consistent memory = record {
  fits = λ i. record { holds = λ h. absurd h; held = λ h. cc; owned = tt };
  written = refl;
}

-- One more message of a kind has been written.
append_managed :
    (ws : List Message) (wire : List Written) (x : Message) (rest : List Message)
    → ws ≡ by_manager wire ++ x ∷ rest
    → ws ≡ by_manager (wire ++ managed x ∷ []) ++ rest
append_managed ws wire x rest e =
    e
    ∙ sym (append_assoc (by_manager wire) (x ∷ []) rest)
    ∙ ap (λ l. l ++ rest) (sym (by_manager-append wire (managed x ∷ [])))

append_own :
    (ws : List Message) (wire : List Written) (x : Message) (rest : List Message)
    → ws ≡ by_manager wire ++ rest
    → ws ≡ by_manager (wire ++ own x ∷ []) ++ rest
append_own ws wire x rest e =
    e
    ∙ ap (λ l. l ++ rest) (sym (by_manager-append wire (own x ∷ []) ∙ append-nil (by_manager wire)))

module _ ⦃api : Uint128Api⦄ ⦃status : StatusApi⦄ where
  pub Tick-Consistent : {m n : Machine} → Tick m n → Consistent m → Consistent n
  Tick-Consistent {m} (open_stream i _ _) v = record { fits = v.fits; written = v.written }
  Tick-Consistent {m} (enter i {t} new free at st e) v = record {
    fits =
        relocate-All (Fits (some i)) m.place i (inside new)
          (λ j n. record {
            holds = λ h. cc (free, (v.fits j).holds h);
            held = λ l. absurd (not_other n l);
            owned = (v.fits j).owned;
          })
          (record { holds = λ h. refl; held = λ l. tt; owned = tt });
    written =
        e
        ∙ ap (λ l. l ++ new) (written_free m v free)
        ∙ ap (λ l. by_manager m.wire ++ left_at l) (sym (at_same m.place i (inside new)));
  }
  Tick-Consistent {m} (begin_write i x rest at) v = record {
    fits = moved-Fits m v i (writing x rest) (lock_of m v i _ at tt) tt tt;
    written =
        written_at m v i (inside (x ∷ rest)) at tt
        ∙ ap (λ l. by_manager m.wire ++ l)
            (left_moved m v i (writing x rest) (lock_of m v i _ at tt));
  }
  Tick-Consistent {m} (end_write i x rest at) v = record {
    fits = moved-Fits m v i (inside rest) (lock_of m v i _ at tt) tt tt;
    written =
        append_managed _ m.wire x rest (written_at m v i (writing x rest) at tt)
        ∙ ap (λ l. by_manager (m.wire ++ managed x ∷ []) ++ l)
            (left_moved m v i (inside rest) (lock_of m v i _ at tt));
  }
  Tick-Consistent {m} (leave i at) v = record {
    fits =
        relocate-All (Fits none) m.place i outside
          (λ j n. record {
            holds = λ h. absurd (not_other n (sym (lock_of m v i _ at tt) ∙ (v.fits j).holds h));
            held = λ l. cc;
            owned = (v.fits j).owned;
          })
          (record { holds = λ h. absurd h; held = λ l. cc; owned = tt });
    written = written_at m v i (inside []) at tt;
  }
  Tick-Consistent {m} (begin_answer i r _ at _) v = record {
    fits = away-Fits m v i _ (subst (λ x. ¬ Inside x) (sym at) (λ h. h)) (λ h. h) refl;
    written =
        v.written
        ∙ ap (λ l. by_manager m.wire ++ l)
            (sym (left_kept m v i _ (subst (λ x. ¬ Inside x) (sym at) (λ h. h)) (λ h. h)));
  }
  Tick-Consistent {m} (end_answer i x at) v = record {
    fits = away-Fits m v i _ (subst (λ x. ¬ Inside x) (sym at) (λ h. h)) (λ h. h) tt;
    written =
        append_own _ m.wire x (left m) v.written
        ∙ ap (λ l. by_manager (m.wire ++ own x ∷ []) ++ l)
            (sym (left_kept m v i _ (subst (λ y. ¬ Inside y) (sym at) (λ h. h)) (λ h. h)));
  }

  pub Ticks-Consistent : {m n : Machine} → Ticks m n → Consistent m → Consistent n
  Ticks-Consistent still v = v
  Ticks-Consistent (tick r st) v = Tick-Consistent st (Ticks-Consistent r v)

  pub Ticks-boot-Consistent :
      (memory : ℕ → SdnConnection) {m : Machine} → Ticks (boot memory) m → Consistent m
  Ticks-boot-Consistent memory r = Ticks-Consistent r (boot-Consistent memory)
