-- ===== src/Controller/Registry/View.antt =====
-- The registry that a state of the manager stands for.
use p4rt_standalone.Prelude.{
  ℕ, String, ◌≡◌, ◌↔◌, refl, true, false, ◌||◌, Bool, Option, none, some, List, [], ◌∷◌, arith,
  Elem, same_number, same_number_iff, if◌then◌else◌, inl, inr, Bool-cases,
}
use p4rt_standalone.Controller.State.{World, past}
use p4rt_standalone.Controller.Frame.{SameState}
use p4rt_standalone.Controller.Invariant.Defs.{role_at, id_at}
use p4rt_standalone.Controller.Registry.{Registry}

abbrev pub is_listed : ℕ → List ℕ → Bool
is_listed p [] = false
is_listed p (x ∷ xs) = same_number p x || is_listed p xs

pub is_listed_iff : (p : ℕ) (xs : List ℕ) → (is_listed p xs ≡ true) ↔ Elem p xs
is_listed_iff p [] = (λ h. cc, λ e. absurd e)
is_listed_iff p (x ∷ xs) = (
  λ h. ground (arith, is_listed_iff p xs, same_number_iff p x),
  λ h. ground (arith, is_listed_iff p xs, same_number_iff p x),
)

pub is_listed_missing : (p : ℕ) (xs : List ℕ) → ¬ Elem p xs → is_listed p xs ≡ false
is_listed_missing p xs n = elim (Bool-cases (is_listed p xs)) [
  | inl e ↦ absurd (n ((is_listed_iff p xs).0 e))
  | inr e ↦ e
]

abbrev pub registry : World → Registry
registry w = record {
  member = λ p. if is_listed p w.connections then some (role_at w p, id_at w p) else none;
  highest = λ role. past w role;
}

pub registry-SameState : {w w' : World} → SameState w w' → registry w' ≡ registry w
registry-SameState s = λ i. record {
  member = λ p.
      if is_listed p (s.connections i)
      then some ((s.objects i p).role_name, (s.objects i p).election_id)
      else none;
  highest = λ role. s.past role i;
}

-- A member of the registry is a registered connection.
pub member_lem :
    (w : World) (q : ℕ) (role : Option String) (id : Option ℕ)
    → (registry w).member q ≡ some (role, id)
    → Elem q w.connections × (role_at w q ≡ role) × (id_at w q ≡ id)
member_lem w q role id h = elim (Bool-cases (is_listed q w.connections)) [
  | inl e ↦ ((is_listed_iff q w.connections).0 e, cc (rw e at h), cc (rw e at h))
  | inr e ↦ cc (rw e at h)
]

pub member-of_Elem :
    (w : World) (q : ℕ)
    → Elem q w.connections
    → (registry w).member q ≡ some (role_at w q, id_at w q)
member-of_Elem w q m = rw ((is_listed_iff q w.connections).1 m) refl
