-- ===== src/Controller/Orphans.antt =====
-- What stays allowed, and who is not told, when a primary connection leaves.
use p4rt_standalone.Prelude.{
  ℕ, String, ◌≡◌, ◌≢◌, ◌↔◌, refl, sym, ap, subst, ◌∙◌, true, false, Option, arith, Elem, Distinct,
  erase_first, Elem-of_Elem-erase_first, not-Elem-erase_first, Bool-cases, inl, inr, has_value,
  if◌then◌else◌,
}
use p4rt_standalone.Status.Code.{is_ok}
use p4rt_standalone.Proto.{Uint128Api}
use p4rt_standalone.Controller.State.{World, SdnConnection, past, set_connections}
use p4rt_standalone.Controller.Arbitration.{disconnect}
use p4rt_standalone.Controller.Requests.{allow_request}
use p4rt_standalone.Controller.Frame.{SameState, SameState-refl}
use p4rt_standalone.Controller.Invariant.Defs.{IsValid, IsPrimary, HasPrimary, role_at, id_at}
use p4rt_standalone.Controller.Invariant.Steps.{inform_if_primary-SameState}
use p4rt_standalone.Controller.Permission.{allow_request_iff}

module _ ⦃api : Uint128Api⦄ (p : ℕ) (w : World) where
  -- The state after `disconnect`, as a frame over the removal.
  pub removed : World
  removed = if (w.objects p).initialized then set_connections (erase_first p w.connections) w else w

  pub disconnect-removed : SameState removed (disconnect p w)
  unfolding disconnect removed
  disconnect-removed = elim (Bool-cases (w.objects p).initialized) [
    | inl i ↦ rw i (
        inform_if_primary-SameState (w.objects p) (set_connections (erase_first p w.connections) w))
    | inr u ↦ rw u (SameState-refl w)
  ]

  past-removed : (role : Option String) → past removed role ≡ past w role
  unfolding removed
  past-removed role = ground arith

  pub past-disconnect : (role : Option String) → past (disconnect p w) role ≡ past w role
  past-disconnect role = disconnect-removed.past role ∙ past-removed role

  -- Whatever was allowed before a connection left is allowed after it, and nothing else.
  pub allow-disconnect :
      (role : Option String) (id : Option ℕ)
      → (is_ok (allow_request role id (disconnect p w)) ≡ true)
        ↔ (is_ok (allow_request role id w) ≡ true)
  allow-disconnect role id = (
    λ h.
        let (v, e) = (allow_request_iff role id (disconnect p w)).0.0 h in
        (allow_request_iff role id w).0.1 (v, e ∙ past-disconnect role),
    λ h.
        let (v, e) = (allow_request_iff role id w).0.0 h in
        (allow_request_iff role id (disconnect p w)).0.1 (v, e ∙ sym (past-disconnect role)),
  )

  pub connections-removed :
      (w.objects p).initialized ≡ true → removed.connections ≡ erase_first p w.connections
  unfolding removed
  connections-removed i = rw i refl

  pub connections_kept : (w.objects p).initialized ≡ false → removed.connections ≡ w.connections
  unfolding removed
  connections_kept u = rw u refl

  pub objects-removed : removed.objects ≡ w.objects
  unfolding removed
  objects-removed = ground arith

  -- From a valid state without repeated registrations, when an initialized primary connection
  -- leaves, its role has no primary connection, and a request with its election ID is allowed all
  -- the same.
  pub orphaned_permission :
      IsValid w
      → Distinct w.connections
      → (w.objects p).initialized ≡ true
      → IsPrimary w p
      → (¬ HasPrimary (disconnect p w) (role_at w p))
        × (is_ok (allow_request (role_at w p) (id_at w p) (disconnect p w)) ≡ true)
  orphaned_permission v d i a = (
    λ (q, b, r). gone q b r,
    (allow_request_iff (role_at w p) (id_at w p) (disconnect p w)).0.1
        (a.set, a.highest ∙ sym (past-disconnect (role_at w p))),
  )
    where
      conns : (disconnect p w).connections ≡ erase_first p w.connections
      conns = disconnect-removed.connections ∙ connections-removed i

      object : (q : ℕ) → (disconnect p w).objects q ≡ w.objects q
      object q = ap (λ (o : ℕ → SdnConnection). o q) (disconnect-removed.objects ∙ objects-removed)

      gone : (q : ℕ) → IsPrimary (disconnect p w) q → role_at (disconnect p w) q ≢ role_at w p
      gone q b r =
          not-Elem-erase_first p w.connections d
            (subst (λ x. Elem x (erase_first p w.connections)) same (subst (Elem q) conns b.listed))
        where
          role : role_at w q ≡ role_at w p
          role = sym (ap (λ (c : SdnConnection). c.role_name) (object q)) ∙ r

          id : id_at w q ≡ id_at w p
          id =
              sym (ap (λ (c : SdnConnection). c.election_id) (object q))
              ∙ b.highest
              ∙ past-disconnect (role_at (disconnect p w) q)
              ∙ ap (λ (n : Option String). past w n) r
              ∙ sym a.highest

          same : q ≡ p
          same =
              v.unique q p
                (Elem-of_Elem-erase_first q p w.connections (subst (Elem q) conns b.listed))
                a.listed role id (ap has_value id ∙ a.set)
