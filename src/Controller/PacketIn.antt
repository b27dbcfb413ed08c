-- ===== src/Controller/PacketIn.antt =====
-- `SendStreamMessageToPrimary`: whom a packet-in or an error reaches.
use p4rt_standalone.Prelude.{
  ℕ, String, ◌≡◌, ◌≢◌, ◌⊎◌, refl, sym, ap, subst, ◌∙◌, Bool, true, false, Option, none, some, List,
  [], ◌∷◌, ◌++◌, arith, Elem, has_value, inl, inr, Bool-cases,
}
use mathlib.Core.Bool.{false≢true}
use p4rt_standalone.Proto.{StreamMessageResponse}
use p4rt_standalone.Controller.State.{World, SdnConnection, past, touch_past}
use p4rt_standalone.Controller.Primary.{holds}
use p4rt_standalone.Controller.Requests.{
  last_holder, send_to_holder, send_stream_message_to_primary,
}
use p4rt_standalone.Controller.Invariant.Defs.{
  IsValid, IsPrimary, HasPrimary, IsPrimary-unique, role_at,
}
use p4rt_standalone.Controller.Verdict.{holds_iff, holds_of}

module _ (role : Option String) (id : Option ℕ) (objects : ℕ → SdnConnection) where
  -- The loop returns what it was given or a connection that it has met.
  last_holder-found :
      (found : Option ℕ) (ps : List ℕ) (q : ℕ)
      → last_holder role id objects found ps ≡ some q
      → (found ≡ some q)
        ⊎ (Elem q ps × ((objects q).role_name ≡ role) × ((objects q).election_id ≡ id))
  unfolding last_holder
  last_holder-found found [] q h = inl h
  last_holder-found found (p ∷ ps) q h = elim (Bool-cases (holds role id (objects p))) [
    | inl e ↦ hit e (last_holder-found (some p) ps q (rw (e, last_holder) at h))
    | inr e ↦ miss (last_holder-found found ps q (rw (e, last_holder) at h))
  ]
    where
      hit :
          holds role id (objects p) ≡ true
          → (some p ≡ some q)
            ⊎ (Elem q ps × ((objects q).role_name ≡ role) × ((objects q).election_id ≡ id))
          → (found ≡ some q)
            ⊎ (Elem q (p ∷ ps) × ((objects q).role_name ≡ role) × ((objects q).election_id ≡ id))
      hit e r = ground (arith, holds_iff role id (objects p) e)

      miss :
          (found ≡ some q)
            ⊎ (Elem q ps × ((objects q).role_name ≡ role) × ((objects q).election_id ≡ id))
          → (found ≡ some q)
            ⊎ (Elem q (p ∷ ps) × ((objects q).role_name ≡ role) × ((objects q).election_id ≡ id))
      miss r = ground arith

  last_holder-some :
      (p : ℕ) (ps : List ℕ) → (q : ℕ) × (last_holder role id objects (some p) ps ≡ some q)
  unfolding last_holder
  last_holder-some p [] = (p, refl)
  last_holder-some p (x ∷ ps) = elim (Bool-cases (holds role id (objects x))) [
    | inl e ↦ rw (e, last_holder) (last_holder-some x ps)
    | inr e ↦ rw (e, last_holder) (last_holder-some p ps)
  ]

  last_holder-missed :
      (ps : List ℕ) (q : ℕ)
      → last_holder role id objects none ps ≡ none
      → Elem q ps
      → (objects q).role_name ≡ role
      → (objects q).election_id ≢ id
  unfolding last_holder
  last_holder-missed [] q h m = absurd m
  last_holder-missed (p ∷ ps) q h m = λ r i. elim (Bool-cases (holds role id (objects p))) [
    | inl e ↦ let (x, f) = last_holder-some p ps in cc (rw (e, last_holder) at h)
    | inr e ↦ elim m [
      | inl same ↦ false≢true (
          sym e ∙ ap (λ x. holds role id (objects x)) (sym same) ∙ holds_of role id (objects q) r i)
      | inr later ↦ last_holder-missed ps q (rw (e, last_holder) at h) later r i
    ]
  ]

-- What becomes of a message for the primary of a role.
pub data Delivered (role : Option String) (response : StreamMessageResponse) (w : World)
    (r : Bool × World) : Type 0 where
  sent :
      (p : ℕ)
      → IsPrimary w p
      → role_at w p ≡ role
      → r.0 ≡ true
      → r.1.writes ≡ w.writes ++ (p, response) ∷ []
      → Delivered role response w r
  dropped : ¬ HasPrimary w role → r.0 ≡ false → r.1.writes ≡ w.writes → Delivered role response w r

module _ (role : Option String) (response : StreamMessageResponse) (w : World) where
  send_to_holder-Delivered :
      (found : Option ℕ)
      → last_holder role (past w role) w.objects none w.connections ≡ found
      → has_value (past w role) ≡ true
      → Delivered role response w (send_to_holder found response (touch_past role w))
  send_to_holder-Delivered none e v =
      dropped
        (λ (q, a, r).
          last_holder-missed role (past w role) w.objects w.connections q e a.listed r
            (a.highest ∙ ap (λ (n : Option String). past w n) r))
        refl refl
  send_to_holder-Delivered (some p) e v =
      elim (last_holder-found role (past w role) w.objects none w.connections p e) [
        | inl x ↦ cc
        | inr (m, r, i) ↦
            sent p
              (record {
                listed = m;
                set = ap has_value i ∙ v;
                highest = i ∙ ap (λ (n : Option String). past w n) (sym r);
              })
              r refl refl
      ]

  -- In every state: if the role has a primary connection, a message for it is written to one, once,
  -- and the result is true; otherwise nothing is written and the result is false.
  pub send_to_primary-Delivered :
      Delivered role response w (send_stream_message_to_primary role response w)
  unfolding send_stream_message_to_primary
  send_to_primary-Delivered = elim (Bool-cases (has_value (past w role))) [
    | inl v ↦ rw v (
        send_to_holder-Delivered (last_holder role (past w role) w.objects none w.connections) refl
          v)
    | inr n ↦ rw n (
        dropped
          (λ (q, a, r). false≢true (
            sym n
            ∙ ap has_value (sym (a.highest ∙ ap (λ (x : Option String). past w x) r))
            ∙ a.set))
          refl refl)
  ]

-- In a valid state, a message for the role of a primary connection is written to that connection.
pub send_to_primary_reaches :
    (p : ℕ) (response : StreamMessageResponse) (w : World)
    → IsValid w
    → IsPrimary w p
    → (send_stream_message_to_primary (role_at w p) response w).1.writes
      ≡ w.writes ++ (p, response) ∷ []
send_to_primary_reaches p response w v a =
    reached (send_to_primary-Delivered (role_at w p) response w)
  where
    reached :
        Delivered (role_at w p) response w (send_stream_message_to_primary (role_at w p) response w)
        → (send_stream_message_to_primary (role_at w p) response w).1.writes
          ≡ w.writes ++ (p, response) ∷ []
    reached (sent q b r _ e) =
        subst
          (λ x.
            (send_stream_message_to_primary (role_at w p) response w).1.writes
            ≡ w.writes ++ (x, response) ∷ [])
          (IsPrimary-unique v q p b a r) e
    reached (dropped n _ _) = absurd (n (p, a, refl))

-- No connection has the empty role name, so nothing is written for it.
pub writes-empty_role :
    (response : StreamMessageResponse) (w : World)
    → IsValid w
    → (send_stream_message_to_primary (some "") response w).1.writes ≡ w.writes
unfolding send_stream_message_to_primary
writes-empty_role response w v = rw v.nameless refl
