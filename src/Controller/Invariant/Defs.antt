-- ===== src/Controller/Invariant/Defs.antt =====
-- The invariant of the manager, and that it speaks only of what messages leave alone.
use p4rt_standalone.Prelude.{
  ℕ, String, ◌≡◌, ◌≢◌, true, Option, none, some, arith, Elem, OptLe, has_value,
}
use p4rt_standalone.Controller.State.{World, past}
use p4rt_standalone.Controller.Frame.{SameState}

abbrev pub role_at : World → ℕ → Option String
role_at w p = (w.objects p).role_name

abbrev pub id_at : World → ℕ → Option ℕ
id_at w p = (w.objects p).election_id

-- No registered connection has the empty role name; two of one role have different election IDs;
-- none is above the highest ID of its role; and the empty name has no highest ID.
pub record IsValid (w : World) : Type 0 where
  pub named : (p : ℕ) → Elem p w.connections → role_at w p ≢ some ""
  pub unique :
      (p q : ℕ)
      → Elem p w.connections
      → Elem q w.connections
      → role_at w p ≡ role_at w q
      → id_at w p ≡ id_at w q
      → has_value (id_at w p) ≡ true
      → p ≡ q
  pub bounded : (p : ℕ) → Elem p w.connections → OptLe (id_at w p) (past w (role_at w p))
  pub nameless : past w (some "") ≡ none

pub SameState-IsValid : {w w' : World} → SameState w w' → IsValid w → IsValid w'
SameState-IsValid {w} {w'} s v = record {
  named = λ p e. rw s.objects (v.named p (rw s.connections at e));
  unique = λ p q e f g h k.
      v.unique p q (rw s.connections at e) (rw s.connections at f) (rw s.objects at g)
        (rw s.objects at h) (rw s.objects at k);
  bounded = λ p e. rw (s.past (role_at w' p)) (rw s.objects (v.bounded p (rw s.connections at e)));
  nameless = rw (s.past (some "")) v.nameless;
}

-- A registered connection is primary when its election ID is the highest of its role.
pub record IsPrimary (w : World) (p : ℕ) : Type 0 where
  pub listed : Elem p w.connections
  pub set : has_value (id_at w p) ≡ true
  pub highest : id_at w p ≡ past w (role_at w p)

-- A role has one primary at most.
pub IsPrimary-unique :
    {w : World} (v : IsValid w) (p q : ℕ)
    → IsPrimary w p
    → IsPrimary w q
    → role_at w p ≡ role_at w q
    → p ≡ q
IsPrimary-unique v p q a b same = v.unique p q a.listed b.listed same (ground arith) a.set

-- Some registered connection is primary for the role.
abbrev pub HasPrimary : World → Option String → Type 0
HasPrimary w role = (q : ℕ) × IsPrimary w q × (role_at w q ≡ role)
