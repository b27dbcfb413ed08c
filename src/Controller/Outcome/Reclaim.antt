-- ===== src/Controller/Outcome/Reclaim.antt =====
-- A primary connection that comes back after it has left.
use mathlib.Core.Option
use p4rt_standalone.Prelude.{
  ℕ, String, ◌≡◌, sym, ap, ◌∙◌, true, Option, ◌++◌, Elem, has_value, opt_max,
}
use p4rt_standalone.Status.Code.{GrpcStatus, grpc_ok}
use p4rt_standalone.Proto.{MasterArbitrationUpdate, Uint128Api}
use p4rt_standalone.Controller.State.{World, past}
use p4rt_standalone.Controller.Arbitration.{
  handle_arbitration_update, role_of_update, set_device_id, of_proto,
}
use p4rt_standalone.Controller.Delivery.{messages, recipients}
use p4rt_standalone.Controller.Highest.{opt_max_same}
use p4rt_standalone.Controller.Invariant.Defs.{IsValid, IsPrimary, HasPrimary, role_at, id_at}
use p4rt_standalone.Controller.Invariant.Steps.{set_device_id-IsValid}
use p4rt_standalone.Controller.Outcome.Cases.{
  Outcome, unchanged, refused, accepted, handle-Outcome, status_of_accept,
}
use p4rt_standalone.Controller.Outcome.Accepted.{accept_takeover}

module _ ⦃api : Uint128Api⦄ (p : ℕ) (role : Option String) (id : Option ℕ) (w : World)
    (v : IsValid w) (listed : (w.objects p).initialized ≡ true → Elem p w.connections)
    (set : has_value id ≡ true) (highest : id ≡ past w role) (gone : ¬ HasPrimary w role) where
  -- A registered connection with the role and the ID would be primary.
  nobody_has_it : (q : ℕ) → Elem q w.connections → role_at w q ≡ role → id_at w q ≡ id → ⊥
  nobody_has_it q m r i = gone (
    q,
    record { listed = m; set = ap has_value i ∙ set; highest = i ∙ highest ∙ ap (past w) (sym r) },
    r,
  )

  Outcome-reclaim :
      (r : GrpcStatus × World)
      → Outcome p role id w r
      → (r.0 ≡ grpc_ok)
        × IsPrimary r.1 p
        × (past r.1 role ≡ id)
        × (r.1.writes ≡ w.writes ++ messages r.1 (recipients role r.1.objects r.1.connections))
  Outcome-reclaim r (unchanged a e) =
      absurd (nobody_has_it p (listed a.initialized) a.role_name a.election_id)
  Outcome-reclaim r (refused _ _ q m n i e) = absurd (nobody_has_it q m n i)
  Outcome-reclaim r (accepted _ _ _ e) =
      let (i, k, m) =
        accept_takeover p role id w v set
          (ap (λ (b : Option ℕ). opt_max b id) (sym highest) ∙ opt_max_same id) in
      rw e (status_of_accept p role id w, i, k, m)

module _ ⦃api : Uint128Api⦄ (update : MasterArbitrationUpdate) (p : ℕ) (w : World) where
  -- From a valid state, for a connection that is registered if it is initialized: if a role has no
  -- primary connection, an update with the highest election ID that the role has had succeeds; the
  -- connection is then primary, that ID stays the highest, and every registered connection of the
  -- role is told.
  pub handle_reclaim :
      IsValid w
      → ((w.objects p).initialized ≡ true → Elem p w.connections)
      → has_value (Option.map of_proto update.election_id) ≡ true
      → Option.map of_proto update.election_id ≡ past w (role_of_update update)
      → ¬ HasPrimary w (role_of_update update)
      → let w' = (handle_arbitration_update update p w).1 in
        let role = role_of_update update in
        ((handle_arbitration_update update p w).0 ≡ grpc_ok)
        × IsPrimary w' p
        × (past w' role ≡ past w role)
        × (w'.writes ≡ w.writes ++ messages w' (recipients role w'.objects w'.connections))
  handle_reclaim v listed set highest gone =
      let (s, i, e, m) =
        Outcome-reclaim p _ _ (set_device_id update.device_id w) (set_device_id-IsValid _ w v)
          listed set highest
          (λ (q, h, r). gone (q, record { listed = h.listed; set = h.set; highest = h.highest }, r))
          _ (handle-Outcome update p w) in
      (s, i, e ∙ highest, m)
