-- ===== src/Controller/Isolation.antt =====
-- An arbitration of one role sends nothing to connections of another.
use mathlib.Core.Option
use p4rt_standalone.Prelude.{
  ℕ, String, ◌≡◌, ◌≢◌, refl, sym, ap, ◌∙◌, true, false, Option, List, [], ◌∷◌, ◌++◌, arith,
  same_role, same_role_iff, same_number, same_number_iff, Bool-cases, inl, inr, if◌then◌else◌,
}
use p4rt_standalone.Status.Code.{GrpcStatus}
use p4rt_standalone.Proto.{MasterArbitrationUpdate, StreamMessageResponse, Uint128Api}
use p4rt_standalone.Controller.State.{World, SdnConnection}
use p4rt_standalone.Controller.Primary.{send_arbitration_response}
use p4rt_standalone.Controller.Arbitration.{
  accept, handle_arbitration_update, role_of_update, set_device_id, of_proto,
}
use p4rt_standalone.Controller.Delivery.{messages, recipients, response_for, writes-send}
use p4rt_standalone.Controller.Frame.{send_arbitration_response-SameState}
use p4rt_standalone.Controller.Invariant.Defs.{role_at}
use p4rt_standalone.Controller.Outcome.Cases.{Outcome, unchanged, refused, accepted, handle-Outcome}
use p4rt_standalone.Controller.Outcome.Accepted.{accept_object, accept_cases}

-- The messages written to one connection, oldest first.
unfoldable pub messages_to : ℕ → List (ℕ × StreamMessageResponse) → List StreamMessageResponse
messages_to q [] = []
messages_to q ((p, m) ∷ rest) =
    let later = messages_to q rest in if same_number p q then m ∷ later else later

messages_to-append :
    (q : ℕ) (xs ys : List (ℕ × StreamMessageResponse))
    → messages_to q ys ≡ []
    → messages_to q (xs ++ ys) ≡ messages_to q xs
unfolding messages_to
messages_to-append q [] ys h = h
messages_to-append q ((p, m) ∷ xs) ys h = ground (arith, messages_to-append q xs ys h)

module _ ⦃api : Uint128Api⦄ where
  messages_to-one : (q p : ℕ) (m : StreamMessageResponse) → q ≢ p → messages_to q ((p, m) ∷ []) ≡ []
  unfolding messages_to
  messages_to-one q p m n = ground (arith, same_number_iff p q)

  messages_to-messages :
      (q : ℕ) (w : World) (role : Option String) (objects : ℕ → SdnConnection) (ps : List ℕ)
      → (objects q).role_name ≢ role
      → messages_to q (messages w (recipients role objects ps)) ≡ []
  unfolding messages_to messages recipients
  messages_to-messages q w role objects [] n = refl
  messages_to-messages q w role objects (p ∷ ps) n =
      elim (Bool-cases (same_role (objects p).role_name role)) [
        | inl e ↦
            rw (e, messages, messages_to)
              (rw (apart p e) (messages_to-messages q w role objects ps n))
        | inr e ↦ rw e (messages_to-messages q w role objects ps n)
      ]
    where
      apart : (x : ℕ) → same_role (objects x).role_name role ≡ true → same_number x q ≡ false
      apart x e = elim (Bool-cases (same_number x q)) [
        | inl f ↦ absurd (
            n (
              ap (λ y. (objects y).role_name) (sym ((same_number_iff x q).0 f))
              ∙ (same_role_iff (objects x).role_name role).0 e))
        | inr f ↦ f
      ]

  told_p :
      (q p : ℕ) (w w' : World) (m : StreamMessageResponse)
      → w'.writes ≡ w.writes ++ (p, m) ∷ []
      → q ≢ p
      → messages_to q w'.writes ≡ messages_to q w.writes
  told_p q p w w' m e n =
      ap (messages_to q) e ∙ messages_to-append q w.writes ((p, m) ∷ []) (messages_to-one q p m n)

  sent_isolated :
      (p : ℕ) (role : Option String) (w : World) (q : ℕ)
      → role_at w p ≡ role
      → role_at (send_arbitration_response p w) q ≢ role
      → messages_to q (send_arbitration_response p w).writes ≡ messages_to q w.writes
  sent_isolated p role w q r n =
      told_p q p w (send_arbitration_response p w) (response_for w p) (writes-send p w) (λ e. n (
        ap (λ (o : ℕ → SdnConnection). (o q).role_name)
          (send_arbitration_response-SameState p w).objects
        ∙ ap (λ x. (w.objects x).role_name) e
        ∙ r))

  accepted_isolated :
      (p : ℕ) (role : Option String) (id : Option ℕ) (w : World) (q : ℕ)
      → role_at (accept p role id w).1 q ≢ role
      → messages_to q (accept p role id w).1.writes ≡ messages_to q w.writes
  accepted_isolated p role id w q n = elim (accept_cases p role id w) [
    | inl e ↦
        let w' = (accept p role id w).1 in
        ap (messages_to q) e
        ∙ messages_to-append q w.writes _
            (messages_to-messages q w' role w'.objects w'.connections n)
    | inr (e, _, _) ↦
        told_p q p w (accept p role id w).1 (response_for (accept p role id w).1 p) e (λ same. n (
          ap (λ x. ((accept p role id w).1.objects x).role_name) same
          ∙ ap (λ (c : SdnConnection). c.role_name) (accept_object p role id w)))
  ]

  isolated :
      (p : ℕ) (role : Option String) (id : Option ℕ) (w : World) (r : GrpcStatus × World) (q : ℕ)
      → Outcome p role id w r
      → role_at r.1 q ≢ role
      → messages_to q r.1.writes ≡ messages_to q w.writes
  isolated p role id w r q (unchanged a e) n =
      rw e (sent_isolated p role w q a.role_name (rw e at n))
  isolated p role id w r q (refused _ _ _ _ _ _ e) n = rw e refl
  isolated p role id w r q (accepted _ _ _ e) n = rw e (accepted_isolated p role id w q (rw e at n))

  -- An arbitration update writes nothing to a connection that is, afterwards, of another role than
  -- the update's.
  pub handle-isolated :
      (update : MasterArbitrationUpdate) (p : ℕ) (w : World) (q : ℕ)
      → role_at (handle_arbitration_update update p w).1 q ≢ role_of_update update
      → messages_to q (handle_arbitration_update update p w).1.writes ≡ messages_to q w.writes
  handle-isolated update p w q n =
      isolated p (role_of_update update) (Option.map of_proto update.election_id)
        (set_device_id update.device_id w) (handle_arbitration_update update p w) q
        (handle-Outcome update p w) n
