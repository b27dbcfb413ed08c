-- ===== src/Controller/Frame.antt =====
-- What the sending of messages leaves alone: everything but the writes and the keys of the map.
use p4rt_standalone.Prelude.{
  ℕ, String, ◌≡◌, refl, ◌∙◌, Option, List, [], ◌∷◌, arith, same_role, same_role_iff, Bool-cases,
  inl, inr,
}
use p4rt_standalone.Proto.{Uint128Api}
use p4rt_standalone.Controller.State.{World, past, value_or_none, touch, touch_past, RoleMap}
use p4rt_standalone.Controller.Primary.{
  send_arbitration_response, inform_all, inform_connections_about_primary_change,
}

-- The same connections, objects, device and election IDs.
pub record SameState (w w' : World) : Type 0 where
  pub device_id : w'.device_id ≡ w.device_id
  pub connections : w'.connections ≡ w.connections
  pub objects : w'.objects ≡ w.objects
  pub past : (role : Option String) → past w' role ≡ past w role

pub SameState-refl : (w : World) → SameState w w
SameState-refl w = record { device_id = refl; connections = refl; objects = refl; past = λ r. refl }

pub SameState-trans : {u v w : World} → SameState u v → SameState v w → SameState u w
SameState-trans a b = record {
  device_id = b.device_id ∙ a.device_id;
  connections = b.connections ∙ a.connections;
  objects = b.objects ∙ a.objects;
  past = λ r. b.past r ∙ a.past r;
}

pub past-touch :
    (m : RoleMap) (role r : Option String) → value_or_none (touch role m r) ≡ value_or_none (m r)
past-touch m role r = ground (arith, same_role_iff role r)

pub touch_past-SameState : (role : Option String) (w : World) → SameState w (touch_past role w)
touch_past-SameState role w = record {
  device_id = refl;
  connections = refl;
  objects = refl;
  past = past-touch w.election_id_past_by_role role;
}

module _ ⦃api : Uint128Api⦄ where
  pub send_arbitration_response-SameState :
      (p : ℕ) (w : World) → SameState w (send_arbitration_response p w)
  unfolding send_arbitration_response
  send_arbitration_response-SameState p w = record {
    device_id = refl;
    connections = refl;
    objects = refl;
    past = λ r.
        past-touch (touch _ w.election_id_past_by_role) _ r
        ∙ past-touch w.election_id_past_by_role _ r;
  }

  inform_all-SameState :
      (role : Option String) (ps : List ℕ) (w : World) → SameState w (inform_all role ps w)
  unfolding inform_all
  inform_all-SameState role [] w = SameState-refl w
  inform_all-SameState role (p ∷ ps) w =
      elim (Bool-cases (same_role (w.objects p).role_name role)) [
        | inl e ↦
            rw (e, inform_all)
              (SameState-trans (send_arbitration_response-SameState p w)
                (inform_all-SameState role ps (send_arbitration_response p w)))
        | inr e ↦ rw (e, inform_all) (inform_all-SameState role ps w)
      ]

  pub inform-SameState :
      (role : Option String) (w : World)
      → SameState w (inform_connections_about_primary_change role w)
  unfolding inform_connections_about_primary_change
  inform-SameState role w = inform_all-SameState role w.connections w
