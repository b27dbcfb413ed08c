-- ===== src/Controller/Invariant/Steps.antt =====
-- Every operation of the manager keeps the invariant.
use p4rt_standalone.Prelude.{
  ℕ, String, ◌≡◌, ◌≢◌, refl, Bool, true, false, ◌&&◌, not, Option, none, some, arith, same_role,
  same_id, same_number, has_value, if◌then◌else◌, inl, inr, Bool-cases, erase_first,
  Elem-of_Elem-erase_first,
}
use text.Mathlib.TextEquality.{eq_iff}
use p4rt_standalone.Status.Code.{is_ok}
use p4rt_standalone.Proto.{MasterArbitrationUpdate, StreamMessageResponse, Uint128Api}
use p4rt_standalone.Controller.State.{World, SdnConnection, past, touch_past, set_connections}
use p4rt_standalone.Controller.Primary.{
  validate_connection, update_to_primary_connection_state, inform_connections_about_primary_change,
  send_arbitration_response,
}
use p4rt_standalone.Controller.Arbitration.{
  register, accept, arbitrate, handle_arbitration_update, disconnect, inform_if_primary,
  role_of_name, role_of_update, set_device_id,
}
use p4rt_standalone.Controller.Requests.{
  send_stream_message_to_primary, send_to_holder, last_holder,
}
use p4rt_standalone.Controller.Frame.{
  SameState, SameState-refl, SameState-trans, touch_past-SameState, inform-SameState,
  send_arbitration_response-SameState,
}
use p4rt_standalone.Controller.Highest.{update-Raised}
use p4rt_standalone.Controller.Invariant.Defs.{IsValid, SameState-IsValid}
use p4rt_standalone.Controller.Invariant.Registration.{
  validate_connection-Unused, registration-IsValid,
}

-- No update names the empty role.
role_of_update_nonempty : (update : MasterArbitrationUpdate) → role_of_update update ≢ some ""
role_of_update_nonempty update = nonempty update.role
  where
    nonempty :
        (role : Option String) → elim role [ none ↦ none | some name ↦ role_of_name name ] ≢ some ""
    nonempty none = λ e. cc
    nonempty (some name) = ground (arith, eq_iff name "")

module _ ⦃api : Uint128Api⦄ where
  -- After an accepted registration only messages follow.
  pub accept-SameState :
      (p : ℕ) (role : Option String) (id : Option ℕ) (w : World)
      → SameState
          (update_to_primary_connection_state role id (register p role id w)).1
          (accept p role id w).1
  unfolding accept
  accept-SameState p role id w =
      let (changed, w') = update_to_primary_connection_state role id (register p role id w) in
      told changed w'
    where
      told :
          (changed : Bool) (w' : World)
          → SameState w' (
              if changed
              then inform_connections_about_primary_change role w'
              else send_arbitration_response p w')
      told true w' = inform-SameState role w'
      told false w' = send_arbitration_response-SameState p w'

  accept-IsValid :
      (p : ℕ) (role : Option String) (id : Option ℕ) (w : World)
      → IsValid w
      → role ≢ some ""
      → is_ok (validate_connection role id w.objects w.connections) ≡ true
      → IsValid (accept p role id w).1
  accept-IsValid p role id w v n ok = SameState-IsValid (accept-SameState p role id w) (
      registration-IsValid p role id w _ v (update-Raised role id (register p role id w))
        (validate_connection-Unused role id w.objects w.connections ok) n)

  arbitrate-IsValid :
      (p : ℕ) (role : Option String) (id : Option ℕ) (w : World)
      → IsValid w
      → role ≢ some ""
      → IsValid (arbitrate p role id w).1
  unfolding arbitrate
  arbitrate-IsValid p role id w v n =
      elim (Bool-cases (
        (w.objects p).initialized
        && (same_role (w.objects p).role_name role && same_id (w.objects p).election_id id))) [
          | inl e ↦ rw e (SameState-IsValid (send_arbitration_response-SameState p w) v)
          | inr e ↦
              elim (Bool-cases (is_ok (validate_connection role id w.objects w.connections))) [
                | inl ok ↦ rw (e, ok) (accept-IsValid p role id w v n ok)
                | inr bad ↦ rw (e, bad) v
              ]
        ]

  pub set_device_id-IsValid : (d : ℕ) (w : World) → IsValid w → IsValid (set_device_id d w)
  set_device_id-IsValid d w v = record {
    named = v.named;
    unique = v.unique;
    bounded = v.bounded;
    nameless = v.nameless;
  }

  -- From a valid state, whatever update a connection sends, accepted or refused, the state stays
  -- valid.
  pub handle_arbitration_update-IsValid :
      (update : MasterArbitrationUpdate) (p : ℕ) (w : World)
      → IsValid w
      → IsValid (handle_arbitration_update update p w).1
  unfolding handle_arbitration_update
  handle_arbitration_update-IsValid update p w v =
      elim (Bool-cases (not (same_number update.device_id update.device_id))) [
        | inl e ↦ rw e (set_device_id-IsValid _ w v)
        | inr e ↦ rw e (
            arbitrate-IsValid p _ _ _ (set_device_id-IsValid _ w v)
              (role_of_update_nonempty update))
      ]

  -- Only messages follow the removal.
  pub inform_if_primary-SameState :
      (c : SdnConnection) (w : World) → SameState w (inform_if_primary c w)
  unfolding inform_if_primary
  inform_if_primary-SameState c w = elim (Bool-cases (has_value c.election_id)) [
    | inl e ↦ elim (Bool-cases (same_id c.election_id (past w c.role_name))) [
      | inl f ↦
          rw (e, f)
            (SameState-trans (touch_past-SameState c.role_name w) (inform-SameState c.role_name _))
      | inr f ↦ rw (e, f) (touch_past-SameState c.role_name w)
    ]
    | inr e ↦ rw e (SameState-refl w)
  ]

  removal-IsValid :
      (p : ℕ) (w : World) → IsValid w → IsValid (set_connections (erase_first p w.connections) w)
  removal-IsValid p w v = record {
    named = λ q e. v.named q (Elem-of_Elem-erase_first q p w.connections e);
    unique = λ q r e f.
        v.unique q r (Elem-of_Elem-erase_first q p w.connections e)
          (Elem-of_Elem-erase_first r p w.connections f);
    bounded = λ q e. v.bounded q (Elem-of_Elem-erase_first q p w.connections e);
    nameless = v.nameless;
  }

  -- Whichever connection leaves a valid state, registered or not, the state stays valid.
  pub disconnect-IsValid : (p : ℕ) (w : World) → IsValid w → IsValid (disconnect p w)
  unfolding disconnect
  disconnect-IsValid p w v = elim (Bool-cases (w.objects p).initialized) [
    | inl e ↦ rw e (
        SameState-IsValid
          (inform_if_primary-SameState (w.objects p)
            (set_connections (erase_first p w.connections) w))
          (removal-IsValid p w v))
    | inr e ↦ rw e v
  ]

-- `SendStreamMessageToPrimary` writes at most a message.
pub send_to_primary-SameState :
    (role : Option String) (response : StreamMessageResponse) (w : World)
    → SameState w (send_stream_message_to_primary role response w).1
unfolding send_stream_message_to_primary
send_to_primary-SameState role response w = elim (Bool-cases (has_value (past w role))) [
  | inl e ↦ rw e (sent (last_holder role (past w role) w.objects none w.connections))
  | inr e ↦ rw e (touch_past-SameState role w)
]
  where
    touched : SameState w (touch_past role w)
    touched = touch_past-SameState role w

    sent : (found : Option ℕ) → SameState w (send_to_holder found response (touch_past role w)).1
    sent none = touched
    sent (some p) = record {
      device_id = refl;
      connections = refl;
      objects = refl;
      past = touched.past;
    }
