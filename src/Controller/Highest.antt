-- ===== src/Controller/Highest.antt =====
-- The highest election ID of a role: `UpdateToPrimaryConnectionState` and its loop.
use p4rt_standalone.Prelude.{
  ℕ, String, ◌≡◌, ◌≢◌, ◌↔◌, ◌⊎◌, refl, true, false, ◌&&◌, ◌||◌, not, Option, none, some, List, [],
  ◌∷◌, arith, Elem, OptLe, OptLe-refl, OptLe-trans, OptLe-max_left, OptLe-max_right, opt_max-least,
  opt_max, opt_ltb, same_role, same_id, same_role_iff, same_id_iff, has_value, if◌then◌else◌, inl,
  inr, Bool-cases,
}
use p4rt_standalone.Controller.State.{
  World, SdnConnection, past, value_or_none, assign, RoleMap, set_past, touch_past,
}
use p4rt_standalone.Controller.Primary.{
  max_election_id, update_with_max, update_to_primary_connection_state,
}
use p4rt_standalone.Controller.Frame.{past-touch}

abbrev pub registered_max : Option String → World → Option ℕ
registered_max role w = max_election_id role w.objects none w.connections

module _ (role : Option String) (objects : ℕ → SdnConnection) where
  next_acc : Option ℕ → SdnConnection → Option ℕ
  next_acc acc c = if not (same_role c.role_name role) then acc else opt_max acc c.election_id

  next_acc-ge : (acc : Option ℕ) (c : SdnConnection) → OptLe acc (next_acc acc c)
  unfolding next_acc
  next_acc-ge acc c = elim (Bool-cases (same_role c.role_name role)) [
    | inl e ↦ rw e (OptLe-max_left acc c.election_id)
    | inr e ↦ rw e (OptLe-refl acc)
  ]

  next_acc-ge_id :
      (acc : Option ℕ) (c : SdnConnection)
      → c.role_name ≡ role
      → OptLe c.election_id (next_acc acc c)
  unfolding next_acc
  next_acc-ge_id acc c h =
      rw ((same_role_iff c.role_name role).1 h) (OptLe-max_right acc c.election_id)

  max-ge_acc : (acc : Option ℕ) (ps : List ℕ) → OptLe acc (max_election_id role objects acc ps)
  unfolding max_election_id next_acc
  max-ge_acc acc [] = OptLe-refl acc
  max-ge_acc acc (p ∷ ps) =
      OptLe-trans acc _ _ (next_acc-ge acc (objects p)) (max-ge_acc (next_acc acc (objects p)) ps)

  -- No registered connection of the role is above the maximum.
  pub max-ge :
      (acc : Option ℕ) (ps : List ℕ) (q : ℕ)
      → Elem q ps
      → (objects q).role_name ≡ role
      → OptLe (objects q).election_id (max_election_id role objects acc ps)
  unfolding max_election_id next_acc
  max-ge acc [] q e h = absurd e
  max-ge acc (p ∷ ps) q (inl e) h = rw e (
      OptLe-trans _ _ _ (next_acc-ge_id acc (objects p) (rw e at h))
        (max-ge_acc (next_acc acc (objects p)) ps))
  max-ge acc (p ∷ ps) q (inr e) h = max-ge (next_acc acc (objects p)) ps q e h

  -- The maximum is the least such bound.
  pub max-least :
      (acc c : Option ℕ) (ps : List ℕ)
      → OptLe acc c
      → ((q : ℕ) → Elem q ps → (objects q).role_name ≡ role → OptLe (objects q).election_id c)
      → OptLe (max_election_id role objects acc ps) c
  unfolding max_election_id
  max-least acc c [] h k = h
  max-least acc c (p ∷ ps) h k = elim (Bool-cases (same_role (objects p).role_name role)) [
    | inl e ↦ rw e (
        max-least (opt_max acc (objects p).election_id) c ps
          (opt_max-least acc (objects p).election_id c h
            (k p (inl refl) ((same_role_iff (objects p).role_name role).0 e)))
          (λ q m. k q (inr m)))
    | inr e ↦ rw e (max-least acc c ps h (λ q m. k q (inr m)))
  ]

-- What `UpdateToPrimaryConnectionState` leaves behind: the map holds, for the role, the higher of
-- what it held and of the registered IDs, and all else is as it was.
pub record Raised (role : Option String) (id : Option ℕ) (w w' : World) : Type 0 where
  pub device_id : w'.device_id ≡ w.device_id
  pub connections : w'.connections ≡ w.connections
  pub objects : w'.objects ≡ w.objects
  pub writes : w'.writes ≡ w.writes
  pub past :
      (r : Option String)
      → past w' r ≡ (if same_role role r then opt_max (past w role) id else past w r)

past-assign :
    (m : RoleMap) (role r : Option String) (id : Option ℕ)
    → value_or_none (assign role id m r) ≡ (if same_role role r then id else value_or_none (m r))
past-assign m role r id = ground arith

pub opt_max_same : (a : Option ℕ) → opt_max a a ≡ a
opt_max_same none = refl
opt_max_same (some a) = ground arith

-- The test of the inner `if` fails only where the maximum is not above.
max_not_above :
    (before max : Option ℕ)
    → (has_value max && opt_ltb before max) ≡ false
    → opt_max before max ≡ before
max_not_above none none h = refl
max_not_above none (some m) h = cc
max_not_above (some b) none h = refl
max_not_above (some b) (some m) h = ground arith

module _ (role : Option String) (id max : Option ℕ) (w : World) where
  Raised-set :
      (has_value max && opt_ltb (past w role) max) ≡ true → Raised role max w (set_past role max w)
  Raised-set h = record {
    device_id = refl;
    connections = refl;
    objects = refl;
    writes = refl;
    past = λ r. ground (arith, past-assign w.election_id_past_by_role role r max);
  }

  Raised-touch : opt_max (past w role) max ≡ past w role → Raised role max w (touch_past role w)
  Raised-touch h = record {
    device_id = refl;
    connections = refl;
    objects = refl;
    writes = refl;
    past = λ r. ground (arith, past-touch w.election_id_past_by_role role r, same_role_iff role r);
  }

  update_with_max-Raised : Raised role max w (update_with_max role id max w).1
  unfolding update_with_max
  update_with_max-Raised = elim (Bool-cases (not (same_id max (past w role)) || same_id id max)) [
    | inl e ↦ elim (Bool-cases (has_value max && opt_ltb (past w role) max)) [
      | inl f ↦ rw (e, f) (Raised-set f)
      | inr f ↦ rw (e, f) (Raised-touch (max_not_above (past w role) max f))
    ]
    | inr e ↦ rw e (Raised-touch (ground (arith, same_id_iff max (past w role), opt_max_same max)))
  ]

update_with_max_changed :
    (role : Option String) (id max : Option ℕ) (w : World)
    → ((update_with_max role id max w).0 ≡ true) ↔ ((max ≢ past w role) ⊎ (id ≡ max))
unfolding update_with_max
update_with_max_changed role id max w = (
  λ h. ground (arith, same_id_iff max (past w role), same_id_iff id max),
  λ h. ground (arith, same_id_iff max (past w role), same_id_iff id max),
)

pub update-Raised :
    (role : Option String) (id : Option ℕ) (w : World)
    → Raised role (registered_max role w) w (update_to_primary_connection_state role id w).1
unfolding update_to_primary_connection_state
update-Raised role id w = update_with_max-Raised role id (registered_max role w) w

-- UpdateToPrimaryConnectionState returns true exactly when the maximum of the registered election
-- IDs of the role is not what the map held, or is the ID it is given.
pub update_changed_iff :
    (role : Option String) (id : Option ℕ) (w : World)
    → ((update_to_primary_connection_state role id w).0 ≡ true)
      ↔ ((registered_max role w ≢ past w role) ⊎ (id ≡ registered_max role w))
unfolding update_to_primary_connection_state
update_changed_iff role id w = update_with_max_changed role id (registered_max role w) w
