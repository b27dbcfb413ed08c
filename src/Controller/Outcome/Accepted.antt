-- ===== src/Controller/Outcome/Accepted.antt =====
-- The state and the messages after an accepted registration.
use p4rt_standalone.Prelude.{
  ℕ, String, ◌≡◌, ◌≢◌, refl, sym, ap, ◌∙◌, true, false, Option, List, [], ◌∷◌, ◌++◌, ◌⊎◌,
  Bool-cases, inl, arith, Elem-append_last, opt_max, same_number, same_role_iff, same_number_iff,
  same_id, same_id_iff, has_value, if◌then◌else◌, inr,
}
use mathlib.Core.Bool.{false≢true}
use p4rt_standalone.Proto.{StreamMessageResponse, Uint128Api}
use p4rt_standalone.Controller.State.{World, SdnConnection, past}
use p4rt_standalone.Controller.Primary.{
  update_to_primary_connection_state, inform_connections_about_primary_change,
  send_arbitration_response,
}
use p4rt_standalone.Controller.Arbitration.{register, accept, arbitrated}
use p4rt_standalone.Controller.Frame.{SameState}
use p4rt_standalone.Controller.Delivery.{
  messages, messages-SameState, recipients, response_for, writes-inform, writes-send,
  response_for-SameState,
}
use p4rt_standalone.Controller.Highest.{
  Raised, registered_max, update-Raised, update_changed_iff, opt_max_same,
}
use p4rt_standalone.Controller.Invariant.Defs.{IsValid, IsPrimary}
use p4rt_standalone.Controller.Invariant.Registration.{past_raised, max_is_id}
use p4rt_standalone.Controller.Invariant.Steps.{accept-SameState}

module _ ⦃api : Uint128Api⦄ (p : ℕ) (role : Option String) (id : Option ℕ) (w : World) where
  registered : World
  registered = (update_to_primary_connection_state role id (register p role id w)).1

  raised :
      Raised role (registered_max role (register p role id w)) (register p role id w) registered
  unfolding registered
  raised = update-Raised role id (register p role id w)

  told_after : SameState registered (accept p role id w).1
  unfolding registered
  told_after = accept-SameState p role id w

  pub accept_connections : (accept p role id w).1.connections ≡ w.connections ++ p ∷ []
  accept_connections = told_after.connections ∙ raised.connections

  pub accept_objects :
      (accept p role id w).1.objects
      ≡ (λ q. if same_number p q then arbitrated role id (w.objects p) else w.objects q)
  accept_objects = told_after.objects ∙ raised.objects

  pub accept_object : (accept p role id w).1.objects p ≡ arbitrated role id (w.objects p)
  accept_object =
      ap (λ (o : ℕ → SdnConnection). o p) told_after.objects
      ∙ ap (λ (o : ℕ → SdnConnection). o p) raised.objects
      ∙ ground (arith, same_number_iff p p)

  pub accept_other_role : (r : Option String) → r ≢ role → past (accept p role id w).1 r ≡ past w r
  accept_other_role r n = told_after.past r ∙ raised.past r ∙ ground (arith, same_role_iff role r)

  -- The map holds the higher of its value and the new ID.
  pub accept_past : IsValid w → past (accept p role id w).1 role ≡ opt_max (past w role) id
  accept_past v = told_after.past role ∙ past_raised p role id w registered v raised

  module _
      (changed : (update_to_primary_connection_state role id (register p role id w)).0 ≡ true) where
    accept-eq-inform :
        (accept p role id w).1 ≡ inform_connections_about_primary_change role registered
    unfolding accept registered
    accept-eq-inform = rw changed

    -- After a change the final state is announced to every registered connection of the role.
    accept_writes :
        (accept p role id w).1.writes
        ≡ w.writes
          ++ messages
              (accept p role id w).1
              (recipients role (accept p role id w).1.objects (accept p role id w).1.connections)
    accept_writes =
        ap (λ (x : World). x.writes) accept-eq-inform
        ∙ writes-inform role registered
        ∙ ap
            (λ (l : List (ℕ × StreamMessageResponse)).
              l ++ messages registered (recipients role registered.objects registered.connections))
            raised.writes
        ∙ sym (ap (λ (l : List (ℕ × StreamMessageResponse)). w.writes ++ l) final)
      where
        final :
            messages
              (accept p role id w).1
              (recipients role (accept p role id w).1.objects (accept p role id w).1.connections)
            ≡ messages registered (recipients role registered.objects registered.connections)
        final = messages-SameState _ told_after ∙ (λ i.
            messages registered (recipients role (told_after.objects i) (told_after.connections i)))

  accept-eq-send :
      (update_to_primary_connection_state role id (register p role id w)).0 ≡ false
      → (accept p role id w).1 ≡ send_arbitration_response p registered
  unfolding accept registered
  accept-eq-send unchanged = rw unchanged

  -- Without a change the highest ID of the role is as before, and the connection does not have it.
  unchanged_high :
      (update_to_primary_connection_state role id (register p role id w)).0 ≡ false
      → (past (accept p role id w).1 role ≡ past w role) × (id ≢ past w role)
  unchanged_high same = (
    told_after.past role
        ∙ raised.past role
        ∙ rw ((same_role_iff role role).1 refl) (rw max (opt_max_same (past w role))),
    λ e.
        false≢true
          (sym same ∙ (update_changed_iff role id (register p role id w)).1 (inr (e ∙ sym max))),
  )
    where
      max : registered_max role (register p role id w) ≡ past w role
      max = elim (Bool-cases (same_id (registered_max role (register p role id w)) (past w role))) [
        | inl e ↦ (same_id_iff (registered_max role (register p role id w)) (past w role)).0 e
        | inr e ↦ absurd (
            false≢true (
              sym same
              ∙ (update_changed_iff role id (register p role id w)).1 (
                  inl (λ h. false≢true (
                    sym e
                    ∙ (same_id_iff (registered_max role (register p role id w)) (past w role)).1
                        h)))))
      ]

  -- Either the final state is announced to all of the role, or to the connection alone, which then
  -- does not have the highest ID, and that is as before.
  pub accept_cases :
      ((accept p role id w).1.writes
        ≡ w.writes
          ++ messages
              (accept p role id w).1
              (recipients role (accept p role id w).1.objects (accept p role id w).1.connections))
      ⊎ (((accept p role id w).1.writes
            ≡ w.writes ++ (p, response_for (accept p role id w).1 p) ∷ [])
          × (past (accept p role id w).1 role ≡ past w role)
          × (id ≢ past w role))
  accept_cases =
      elim (Bool-cases (update_to_primary_connection_state role id (register p role id w)).0) [
        | inl changed ↦ inl (accept_writes changed)
        | inr same ↦ inr (
          ap (λ (x : World). x.writes) (accept-eq-send same)
              ∙ writes-send p registered
              ∙ ap
                  (λ (l : List (ℕ × StreamMessageResponse)).
                    l ++ (p, response_for registered p) ∷ [])
                  raised.writes
              ∙ ap (λ (m : StreamMessageResponse). w.writes ++ (p, m) ∷ [])
                  (sym (response_for-SameState p told_after)),
          (unchanged_high same).0,
          (unchanged_high same).1,
        )
      ]

  -- With an ID that is not below the map's the connection becomes the primary one, and all of its
  -- role hear it.
  pub accept_takeover :
      IsValid w
      → has_value id ≡ true
      → opt_max (past w role) id ≡ id
      → IsPrimary (accept p role id w).1 p
        × (past (accept p role id w).1 role ≡ id)
        × ((accept p role id w).1.writes
            ≡ w.writes
              ++ messages (accept p role id w).1 (
                  recipients role
                    (accept p role id w).1.objects
                    (accept p role id w).1.connections))
  accept_takeover v s h = (
    record {
      listed = rw accept_connections (Elem-append_last p w.connections);
      set = ap (λ (c : SdnConnection). has_value c.election_id) accept_object ∙ s;
      highest =
          ap (λ (c : SdnConnection). c.election_id) accept_object
          ∙ sym (accept_past v ∙ h)
          ∙ ap (λ (c : SdnConnection). past (accept p role id w).1 c.role_name) (sym accept_object);
    },
    accept_past v ∙ h,
    accept_writes (
        (update_changed_iff role id (register p role id w)).1
          (inr (max_is_id p role id w registered v raised h))),
  )
