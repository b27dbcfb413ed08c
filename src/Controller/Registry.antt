-- ===== src/Controller/Registry.antt =====
-- The manager as a registry of controllers: what arbitration promises, without the order of the
-- connections, the objects in memory, the keys of the map, or the messages.
use p4rt_standalone.Prelude.{
  ℕ, String, ◌≡◌, ◌≢◌, true, false, Bool, Option, none, some, List, [], ◌∷◌, same_number, same_role,
  has_value, opt_max, if◌then◌else◌,
}
pub mod View
pub mod Arbitrates
pub mod Leaves

-- The role and the election ID of every member, and the highest election ID that each role has had.
pub record Registry : Type 0 where
  pub member : ℕ → Option (Option String × Option ℕ)
  pub highest : Option String → Option ℕ

abbrev pub empty : Registry
empty = record { member = λ p. none; highest = λ role. none }

abbrev pub enrol : ℕ → Option String → Option ℕ → Registry → Registry
enrol p role id a = record {
  member = λ q. if same_number p q then some (role, id) else a.member q;
  highest = λ r. if same_role role r then opt_max (a.highest role) id else a.highest r;
}

abbrev pub expel : ℕ → Registry → Registry
expel p a = record a { member = λ q. if same_number p q then none else a.member q }

-- Another member of the role has the election ID.
abbrev pub Taken : Registry → ℕ → Option String → Option ℕ → Type 0
Taken a p role id = (has_value id ≡ true) × ((q : ℕ) × (q ≢ p) × (a.member q ≡ some (role, id)))

-- An arbitration is refused, with no effect, exactly if the election ID is taken.
pub data Arbitrated (a : Registry) (p : ℕ) (role : Option String) (id : Option ℕ) (ok : Bool)
    (b : Registry) : Type 0 where
  granted : ¬ Taken a p role id → ok ≡ true → b ≡ enrol p role id a → Arbitrated a p role id ok b
  refused : Taken a p role id → ok ≡ false → b ≡ a → Arbitrated a p role id ok b

pub data Event : Type 0 where
  arbitrated : ℕ → Option String → Option ℕ → Bool → Event
  left : ℕ → Event

-- What the registry is after events, of which the latest stands first.
pub data History : List Event → Registry → Type 0 where
  start : History [] empty
  arbitrate :
      {es : List Event} {a : Registry}
      → History es a
      → (p : ℕ) (role : Option String) (id : Option ℕ) (ok : Bool) (b : Registry)
      → Arbitrated a p role id ok b
      → History (arbitrated p role id ok ∷ es) b
  leave :
      {es : List Event} {a : Registry} → History es a → (p : ℕ) → History (left p ∷ es) (expel p a)
