-- ===== src/Controller/Invariant/Registration.antt =====
-- The invariant through a registration: the state that `HandleArbitrationUpdate` makes.
use p4rt_standalone.Prelude.{
  ℕ, String, ◌≡◌, ◌≢◌, ◌⊎◌, refl, sym, ap, subst, ◌∙◌, true, Option, none, some, List, [], ◌∷◌,
  arith, Elem, Elem-append_one, Elem-append_last, OptLe, OptLe-refl, OptLe-trans, OptLe-max_left,
  OptLe-max_right, OptLe-antisymm, opt_max, opt_max-least, same_role, same_number, same_number_iff,
  same_role_iff, same_id_iff, has_value, if◌then◌else◌, inl, inr, Bool-cases,
}
use p4rt_standalone.Status.Code.{is_ok}
use p4rt_standalone.Controller.State.{World, SdnConnection, past}
use p4rt_standalone.Controller.Primary.{find_duplicate, max_election_id, validate_connection}
use p4rt_standalone.Controller.Arbitration.{register, arbitrated}
use p4rt_standalone.Controller.Highest.{Raised, registered_max, max-ge, max-least}
use p4rt_standalone.Controller.Invariant.Defs.{IsValid, role_at, id_at}

-- No registered connection has this role with this election ID.
abbrev pub Unused : Option String → Option ℕ → (ℕ → SdnConnection) → List ℕ → Type 0
Unused role id objects ps =
    (q : ℕ) → Elem q ps → (objects q).role_name ≡ role → (objects q).election_id ≢ id

find_duplicate-Unused :
    (role : Option String) (id : Option ℕ) (objects : ℕ → SdnConnection) (ps : List ℕ)
    → is_ok (find_duplicate role id objects ps) ≡ true
    → Unused role id objects ps
unfolding find_duplicate
find_duplicate-Unused role id objects [] h q e = absurd e
find_duplicate-Unused role id objects (p ∷ ps) h q (inl e) = λ r i.
    ground (arith, same_role_iff (objects p).role_name role, same_id_iff (objects p).election_id id)
find_duplicate-Unused role id objects (p ∷ ps) h q (inr e) =
    find_duplicate-Unused role id objects ps (ground arith) q e

-- A validated ID that is set is unused.
pub validate_connection-Unused :
    (role : Option String) (id : Option ℕ) (objects : ℕ → SdnConnection) (ps : List ℕ)
    → is_ok (validate_connection role id objects ps) ≡ true
    → has_value id ≡ true
    → Unused role id objects ps
unfolding validate_connection
validate_connection-Unused role none objects ps h k = absurd (cc)
validate_connection-Unused role (some id) objects ps h k =
    find_duplicate-Unused role (some id) objects ps h

module _ (p : ℕ) (role : Option String) (id : Option ℕ) (w w' : World) (v : IsValid w)
    (raised : Raised role
      (registered_max role (register p role id w))
      (register p role id w)
      w') where
  -- A member of the new list is the new connection or an old one that has not changed.
  data Member (q : ℕ) : Type 0 where
    new :
        q ≡ p → role_at w' q ≡ role → id_at w' q ≡ id → (w'.objects q).initialized ≡ true → Member q
    old : Elem q w.connections → w'.objects q ≡ w.objects q → Member q

  object :
      (q : ℕ)
      → w'.objects q ≡ (if same_number p q then arbitrated role id (w.objects p) else w.objects q)
  object q = ap (λ (o : ℕ → SdnConnection). o q) raised.objects

  Member-of : (q : ℕ) → (q ≡ p) ⊎ Elem q w.connections → Member q
  Member-of q e = elim (Bool-cases (same_number p q)) [
    | inl same ↦
        new (sym ((same_number_iff p q).0 same)) (ground (arith, object q))
          (ground (arith, object q)) (ground (arith, object q))
    | inr other ↦ old (ground (arith, same_number_iff p q)) (ground (arith, object q))
  ]

  member : (q : ℕ) → Elem q w'.connections → Member q
  member q e = Member-of q (Elem-append_one q p w.connections (rw raised.connections at e))

  past_grows : (r : Option String) → OptLe (past w r) (past w' r)
  past_grows r = rw (raised.past r) (elim (Bool-cases (same_role role r)) [
    | inl e ↦ rw e (rw ((same_role_iff role r).0 e) (OptLe-max_left (past w r) _))
    | inr e ↦ rw e (OptLe-refl (past w r))
  ])

  max_bounds : OptLe (registered_max role (register p role id w)) (past w' role)
  max_bounds =
      rw (raised.past role)
        (rw ((same_role_iff role role).1 refl) (OptLe-max_right (past w role) _))

  max_bounds_after : OptLe (registered_max role w') (past w' role)
  max_bounds_after = simp (raised.objects, raised.connections) max_bounds

  new_object : w'.objects p ≡ arbitrated role id (w.objects p)
  new_object = ground (arith, object p, same_number_iff p p)

  new_listed : Elem p w'.connections
  new_listed = rw raised.connections (Elem-append_last p w.connections)

  registered_max-ge_id : OptLe id (registered_max role w')
  registered_max-ge_id =
      subst (λ (c : SdnConnection). OptLe c.election_id (registered_max role w')) new_object
        (max-ge role w'.objects none w'.connections p new_listed
          (ap (λ (c : SdnConnection). c.role_name) new_object))

  registered_max-le : OptLe (registered_max role w') (opt_max (past w role) id)
  registered_max-le =
      max-least role w'.objects none (opt_max (past w role) id) w'.connections tt
        (λ q e r. below q r (member q e))
    where
      below :
          (q : ℕ) → role_at w' q ≡ role → Member q → OptLe (id_at w' q) (opt_max (past w role) id)
      below q r (new _ _ i _) =
          subst (λ x. OptLe x (opt_max (past w role) id)) (sym i) (OptLe-max_right (past w role) id)
      below q r (old m o) =
          OptLe-trans (id_at w' q) (past w role) _
            (subst (λ c. OptLe c.election_id (past w role)) (sym o)
              (subst (λ n. OptLe (id_at w q) (past w n))
                (sym (ap (λ (c : SdnConnection). c.role_name) o) ∙ r) (v.bounded q m)))
            (OptLe-max_left (past w role) id)

  max_after : registered_max role w' ≡ registered_max role (register p role id w)
  max_after = λ i. max_election_id role (raised.objects i) none (raised.connections i)

  -- The map rises to the higher of its value and the new ID.
  pub past_raised : past w' role ≡ opt_max (past w role) id
  past_raised =
      raised.past role
      ∙ rw ((same_role_iff role role).1 refl) (
          OptLe-antisymm _ _
            (opt_max-least (past w role) _ _ (OptLe-max_left (past w role) id)
              (rw max_after at registered_max-le))
            (opt_max-least (past w role) id _ (OptLe-max_left (past w role) _) (
              OptLe-trans id _ _ (rw max_after at registered_max-ge_id)
                (OptLe-max_right (past w role) _))))

  -- An ID that is not below the map's is the highest.
  pub max_is_id : opt_max (past w role) id ≡ id → id ≡ registered_max role (register p role id w)
  max_is_id h =
      OptLe-antisymm _ _ (rw max_after at registered_max-ge_id)
        (subst (OptLe _) h (rw max_after at registered_max-le))

  module _ (unused : has_value id ≡ true → Unused role id w.objects w.connections) where
    unique_members :
        (q r : ℕ)
        → Member q
        → Member r
        → role_at w' q ≡ role_at w' r
        → id_at w' q ≡ id_at w' r
        → has_value (id_at w' q) ≡ true
        → q ≡ r
    unique_members q r (new eq rq iq _) (new er rr ir _) same_r same_i h = eq ∙ sym er
    unique_members q r (new eq rq iq _) (old mr or) same_r same_i h =
        absurd (unused (cc) r mr (cc) (cc))
    unique_members q r (old mq oq) (new er rr ir _) same_r same_i h =
        absurd (unused (cc) q mq (cc) (cc))
    unique_members q r (old mq oq) (old mr or) same_r same_i h = v.unique q r mq mr (cc) (cc) (cc)

    bounded-Member :
        (q : ℕ) → Elem q w'.connections → Member q → OptLe (id_at w' q) (past w' (role_at w' q))
    bounded-Member q e (new eq rq iq _) =
        subst (λ r. OptLe (id_at w' q) (past w' r)) (sym rq)
          (OptLe-trans _ _ _ (max-ge role w'.objects none w'.connections q e rq) max_bounds_after)
    bounded-Member q e (old mq oq) =
        subst (λ c. OptLe c.election_id (past w' c.role_name)) (sym oq)
          (OptLe-trans (id_at w q) (past w (role_at w q)) (past w' (role_at w q)) (v.bounded q mq)
            (past_grows (role_at w q)))

    named-Member : role ≢ some "" → (q : ℕ) → Member q → role_at w' q ≢ some ""
    named-Member n q (new eq rq iq _) = λ e. n (sym rq ∙ e)
    named-Member n q (old mq oq) = λ e. v.named q mq (cc)

    -- The state after a validated registration is valid.
    pub registration-IsValid : role ≢ some "" → IsValid w'
    registration-IsValid n = record {
      named = λ q e. named-Member n q (member q e);
      unique = λ q r e f. unique_members q r (member q e) (member r f);
      bounded = λ q e. bounded-Member q e (member q e);
      nameless =
          rw (raised.past (some "")) (ground (arith, same_role_iff role (some ""), v.nameless));
    }
