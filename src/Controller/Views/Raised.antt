-- ===== src/Controller/Views/Raised.antt =====
-- A registered connection that raises its election ID is told of it before the others.
use mathlib.Core.Option
use p4rt_standalone.Prelude.{
  ℕ, String, ◌≡◌, ◌≢◌, refl, sym, ap, ◌∙◌, true, Option, some, List, [], ◌∷◌, ◌++◌, arith, Elem,
  opt_ltb, same_number_iff, same_role_iff, inl,
}
use p4rt_standalone.Proto.{RpcStatus, MasterArbitrationUpdate, StreamMessageResponse, Uint128Api}
use p4rt_standalone.Controller.State.{World, SdnConnection, past}
use p4rt_standalone.Controller.Primary.{primary_status}
use p4rt_standalone.Controller.Arbitration.{handle_arbitration_update, role_of_update, of_proto}
use p4rt_standalone.Controller.Delivery.{messages, recipients, response_for}
use p4rt_standalone.Controller.Invariant.Defs.{IsValid, IsPrimary, role_at}
use p4rt_standalone.Controller.Outcome.Takeover.{
  takeover_connections, takeover_role, takeover_role_other, handle_takeover,
}
use p4rt_standalone.Controller.Verdict.{Verdict, primary, backup, leaderless, told, told-Verdict}
use p4rt_standalone.Controller.Views.Defs.{
  last_view, last_view-other, last_view_self, view_of, response_for-view,
}
use p4rt_standalone.Controller.Views.Order.{Believes}

-- A primary connection is told that it is one.
told-primary : (w : World) (p : ℕ) → IsPrimary w p → told w p ≡ primary_status
told-primary w p a = right (told w p) (told-Verdict w p a.listed)
  where
    right : (s : RpcStatus) → Verdict w p s → s ≡ primary_status
    right s (primary e _) = e
    right s (backup _ n _) = absurd (n a)
    right s (leaderless _ n) = absurd (n (p, a, refl))

recipients_first :
    (role : Option String) (objects : ℕ → SdnConnection) (p : ℕ) (ps : List ℕ)
    → (objects p).role_name ≡ role
    → recipients role objects (p ∷ ps) ≡ p ∷ recipients role objects ps
unfolding recipients
recipients_first role objects p ps e = rw ((same_role_iff (objects p).role_name role).1 e) refl

module _ ⦃api : Uint128Api⦄ where
  told_first :
      (w : World) (p : ℕ) (ws : List (ℕ × StreamMessageResponse))
      → IsPrimary w p
      → Believes (ws ++ (p, response_for w p) ∷ []) p
  unfolding view_of
  told_first w p ws a = (
    view_of w.device_id w p,
    ap (λ (x : StreamMessageResponse). last_view p (ws ++ (p, x) ∷ [])) (response_for-view w p)
        ∙ last_view_self p (view_of w.device_id w p) ws,
    ap some (told-primary w p a),
  )

  kept_belief :
      (p q : ℕ) (r : StreamMessageResponse) (ws : List (ℕ × StreamMessageResponse))
      → q ≢ p
      → Believes ws q
      → Believes (ws ++ (p, r) ∷ []) q
  kept_belief p q r ws n (u, h, s) =
      (u, last_view-other q p r ws (inl (ground (arith, same_number_iff p q))) ∙ h, s)

  module _ (update : MasterArbitrationUpdate) (p : ℕ) (w : World) (v : IsValid w) (rest : List ℕ)
      (first : w.connections ≡ p ∷ rest)
      (above : opt_ltb (past w (role_of_update update)) (Option.map of_proto update.election_id)
        ≡ true) where
    listed : (w.objects p).initialized ≡ true → Elem p w.connections
    listed e = rw first (inl refl)

    after : World
    after = (handle_arbitration_update update p w).1

    recipients_after :
        recipients (role_of_update update) after.objects after.connections
        ≡ p ∷ recipients (role_of_update update) after.objects (rest ++ p ∷ [])
    unfolding after
    recipients_after =
        ap (recipients (role_of_update update) after.objects)
          (takeover_connections update p w v listed above ∙ ap (λ l. l ++ p ∷ []) first)
        ∙ recipients_first (role_of_update update) after.objects p (rest ++ p ∷ [])
            (takeover_role update p w v listed above)

    -- In a valid state, when the connection that was registered first takes over a role with a
    -- higher ID than it has had, the first message that is written is to it; behind that message
    -- alone, both it and another connection of the role that was last told that it is primary have
    -- been told so.
    pub raise_two_believers :
        (q : ℕ)
        → q ≢ p
        → role_at w q ≡ role_of_update update
        → Believes w.writes q
        → let w' = (handle_arbitration_update update p w).1 in
          (r : StreamMessageResponse) × (rest : List (ℕ × StreamMessageResponse)) × (role_at w' p
            ≡ role_at w' q)
          × (w'.writes ≡ w.writes ++ (p, r) ∷ rest)
          × Believes (w.writes ++ (p, r) ∷ []) p
          × Believes (w.writes ++ (p, r) ∷ []) q
    unfolding after messages
    raise_two_believers q n same b =
        let (ok, leads, high, all) = handle_takeover update p w v listed above in
        (
          response_for after p,
          messages after (recipients (role_of_update update) after.objects (rest ++ p ∷ [])),
          takeover_role update p w v listed above
              ∙ sym (takeover_role_other update p w v listed above q n ∙ same),
          all ∙ ap (λ l. w.writes ++ messages after l) recipients_after,
          told_first after p w.writes leads,
          kept_belief p q (response_for after p) w.writes n b,
        )
