-- ===== src/Controller/Views/Left.antt =====
-- Views after a connection has left.
use p4rt_standalone.Prelude.{
  ℕ, String, ◌≡◌, ◌≢◌, refl, sym, ap, subst, ◌∙◌, Option, some, List, Elem, Distinct, erase_first,
  same_id, same_id_iff, has_value, inl, inr, Bool-cases, Elem-of_Elem-erase_first,
  Elem-erase_first_ne, not-Elem-erase_first,
}
use mathlib.Core.Bool.{false≢true}
use p4rt_standalone.Proto.{Uint128Api}
use p4rt_standalone.Controller.State.{World, past, touch_past, set_connections}
use p4rt_standalone.Controller.Primary.{inform_connections_about_primary_change}
use p4rt_standalone.Controller.Arbitration.{inform_if_primary, disconnect}
use p4rt_standalone.Controller.Delivery.{messages, recipients, writes-inform}
use p4rt_standalone.Controller.Frame.{touch_past-SameState, inform-SameState}
use p4rt_standalone.Controller.Invariant.Defs.{IsPrimary, role_at, id_at}
use p4rt_standalone.Controller.Views.Defs.{
  or_else, Informed, AllInformed, last_view, last_view-append, last_view-messages, Elem-recipients,
}
use p4rt_standalone.Controller.Views.Kept.{
  HasPrimary-FromBefore, exists_same, Informed-kept, Informed-SameState, view-SameState,
}

module _ ⦃api : Uint128Api⦄ where
  -- After the announcement for a role, its connections know the state, and the others what they did.
  inform-Informed :
      (role : Option String) (w : World) (q : ℕ)
      → Elem q w.connections
      → (role_at w q ≢ role → Informed w q)
      → Informed (inform_connections_about_primary_change role w) q
  inform-Informed role w q m informed = elim (last_view-messages q w told) [
    | inl v ↦ (
      w.device_id,
      view
          ∙ rw v (
              ap some (
                sym (
                  view-SameState w (inform_connections_about_primary_change role w)
                    (inform-SameState role w) q w.device_id))),
    )
    | inr (v, n) ↦
        Informed-SameState w (inform_connections_about_primary_change role w)
          (inform-SameState role w) q (view ∙ rw v refl)
          (informed (λ r. n (Elem-recipients role w.objects w.connections q m r)))
  ]
    where
      told : List ℕ
      told = recipients role w.objects w.connections

      view :
          last_view q (inform_connections_about_primary_change role w).writes
          ≡ or_else (last_view q (messages w told)) (last_view q w.writes)
      view = ap (last_view q) (writes-inform role w) ∙ last_view-append q w.writes (messages w told)

  module _ (p : ℕ) (w : World) (distinct : Distinct w.connections) (informed : AllInformed w) where
    removal : World
    removal = set_connections (erase_first p w.connections) w

    left : (q : ℕ) → Elem q (erase_first p w.connections) → q ≢ p
    left q m e =
        not-Elem-erase_first p w.connections distinct
          (subst (λ x. Elem x (erase_first p w.connections)) e m)

    -- Whoever had another lead than the one that leaves stays informed.
    removal-Informed :
        (q : ℕ)
        → Elem q (erase_first p w.connections)
        → (IsPrimary w p → role_at w p ≢ role_at w q)
        → Informed removal q
    unfolding removal
    removal-Informed q m away =
        Informed-kept w removal q refl refl
          (exists_same (role_at w q) w removal
            (HasPrimary-FromBefore (role_at w q) removal w refl (λ x a r. (
              Elem-erase_first_ne x p w.connections
                  (λ e. away (subst (IsPrimary w) e a) (subst (λ y. role_at w y ≡ role_at w q) e r))
                  a.listed,
              refl,
            )))
            (HasPrimary-FromBefore (role_at w q) w removal refl
              (λ x a r. (Elem-of_Elem-erase_first x p w.connections a.listed, refl))))
          refl (informed q (Elem-of_Elem-erase_first q p w.connections m))

    leave-AllInformed : AllInformed (inform_if_primary (w.objects p) removal)
    unfolding inform_if_primary removal
    leave-AllInformed = elim (Bool-cases (has_value (id_at w p))) [
      | inl v ↦ elim (Bool-cases (same_id (id_at w p) (past w (role_at w p)))) [
        | inl f ↦ rw (v, f) (λ q m. announced q (subst (Elem q) listed m))
        | inr f ↦
            rw (v, f)
              (λ q m. touched q (
                removal-Informed q m
                  (λ a _. false≢true (sym f ∙ (same_id_iff (id_at w p) _).1 a.highest))))
      ]
      | inr n ↦ rw n (λ q m. removal-Informed q m (λ a _. false≢true (sym n ∙ a.set)))
    ]
      where
        touched : (q : ℕ) → Informed removal q → Informed (touch_past (role_at w p) removal) q
        touched q =
            Informed-SameState removal (touch_past (role_at w p) removal)
              (touch_past-SameState (role_at w p) removal) q refl

        listed :
            (inform_connections_about_primary_change
              (role_at w p)
              (touch_past (role_at w p) removal)).connections
            ≡ erase_first p w.connections
        listed = (inform-SameState (role_at w p) (touch_past (role_at w p) removal)).connections

        announced :
            (q : ℕ)
            → Elem q (erase_first p w.connections)
            → Informed
                (inform_connections_about_primary_change
                  (role_at w p)
                  (touch_past (role_at w p) removal))
                q
        announced q m =
            inform-Informed (role_at w p) (touch_past (role_at w p) removal) q m
              (λ n. touched q (removal-Informed q m (λ _ r. n (sym r))))

    -- Whichever connection leaves, of a list without repetitions, all that stay are informed, if
    -- everyone was before.
    pub disconnect-AllInformed : AllInformed (disconnect p w)
    unfolding disconnect removal
    disconnect-AllInformed = elim (Bool-cases (w.objects p).initialized) [
      | inl i ↦ rw i leave-AllInformed
      | inr u ↦ rw u informed
    ]
