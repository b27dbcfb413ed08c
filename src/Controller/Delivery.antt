-- ===== src/Controller/Delivery.antt =====
-- Which arbitration messages `SendArbitrationResponse` and `InformConnectionsAboutPrimaryChange`
-- write, in which order and with which content.
use mathlib.Core.Option
use mathlib.Core.Path.{fun_ext}
use mathlib.Core.List.{append_assoc, append-nil}
use p4rt_standalone.Prelude.{
  ℕ, String, ◌≡◌, refl, sym, ◌∙◌, Option, some, List, [], ◌∷◌, ◌++◌, map, same_role, Bool-cases,
  if◌then◌else◌, inl, inr,
}
use p4rt_standalone.Proto.{StreamMessageResponse, Uint128Api}
use p4rt_standalone.Controller.State.{World, SdnConnection, past}
use p4rt_standalone.Controller.Primary.{
  find_primary, connection_status, to_proto, send_arbitration_response, inform_all,
  inform_connections_about_primary_change,
}
use p4rt_standalone.Controller.Frame.{SameState, past-touch, send_arbitration_response-SameState}

-- The registered connections of a role, in the order of registration.
unfoldable pub recipients : Option String → (ℕ → SdnConnection) → List ℕ → List ℕ
recipients role objects [] = []
recipients role objects (p ∷ ps) =
    let rest = recipients role objects ps in
    if same_role (objects p).role_name role then p ∷ rest else rest

module _ ⦃api : Uint128Api⦄ where
  response_in :
      ℕ → (ℕ → SdnConnection) → List ℕ → (Option String → Option ℕ) → ℕ → StreamMessageResponse
  response_in device_id objects connections primary p =
      let c = objects p in
      StreamMessageResponse.arbitration (record {
        device_id = device_id;
        role = c.role_name;
        election_id = Option.map to_proto (primary c.role_name);
        status = some (
            connection_status (find_primary c.role_name (primary c.role_name) objects connections)
              (primary c.role_name) c.election_id);
      })

  -- What a connection is told in a state.
  unfoldable pub response_for : World → ℕ → StreamMessageResponse
  unfolding response_in
  response_for w p = response_in w.device_id w.objects w.connections (past w) p

  pub response_for-SameState :
      {w w' : World} (p : ℕ) → SameState w w' → response_for w' p ≡ response_for w p
  unfolding response_for
  response_for-SameState p s =
      λ i. response_in (s.device_id i) (s.objects i) (s.connections i) (fun_ext s.past i) p

  pub writes-send :
      (p : ℕ) (w : World)
      → (send_arbitration_response p w).writes ≡ w.writes ++ (p, response_for w p) ∷ []
  unfolding send_arbitration_response response_for
  writes-send p w =
      rw (past-touch w.election_id_past_by_role (w.objects p).role_name (w.objects p).role_name)
        refl

  -- One message for each address of the list.
  unfoldable pub messages : World → List ℕ → List (ℕ × StreamMessageResponse)
  messages w ps = map (λ p. (p, response_for w p)) ps

  pub messages-SameState :
      {w w' : World} (ps : List ℕ) → SameState w w' → messages w' ps ≡ messages w ps
  unfolding messages
  messages-SameState [] s = refl
  messages-SameState (p ∷ ps) s = rw (response_for-SameState p s, messages-SameState ps s)

  inform_all_step :
      (role : Option String) (p : ℕ) (qs : List ℕ) (w : World)
      → SameState w (send_arbitration_response p w)
      → (send_arbitration_response p w).writes
          ++ messages
              (send_arbitration_response p w)
              (recipients role (send_arbitration_response p w).objects qs)
        ≡ w.writes ++ messages w (p ∷ recipients role w.objects qs)
  unfolding messages
  inform_all_step role p qs w s =
      rw (messages-SameState _ s, s.objects, writes-send p w) (simp append_assoc)

  writes-inform_all :
      (role : Option String) (ps : List ℕ) (w : World)
      → (inform_all role ps w).writes ≡ w.writes ++ messages w (recipients role w.objects ps)
  unfolding inform_all recipients messages
  writes-inform_all role [] w = sym (append-nil w.writes)
  writes-inform_all role (p ∷ ps) w = elim (Bool-cases (same_role (w.objects p).role_name role)) [
    | inl e ↦
        rw (e, inform_all, recipients)
          (writes-inform_all role ps (send_arbitration_response p w)
            ∙ inform_all_step role p ps w (send_arbitration_response-SameState p w))
    | inr e ↦ rw (e, inform_all, recipients) (writes-inform_all role ps w)
  ]

  -- InformConnectionsAboutPrimaryChange tells every registered connection of the role once for each
  -- registration, in the order of registration, and nobody else.
  pub writes-inform :
      (role : Option String) (w : World)
      → (inform_connections_about_primary_change role w).writes
        ≡ w.writes ++ messages w (recipients role w.objects w.connections)
  unfolding inform_connections_about_primary_change
  writes-inform role w = writes-inform_all role w.connections w
