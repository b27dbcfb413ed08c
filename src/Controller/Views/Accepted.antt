-- ===== src/Controller/Views/Accepted.antt =====
-- Views after an accepted registration.
use p4rt_standalone.Prelude.{
  ℕ, String, ◌≡◌, ◌≢◌, ◌⊎◌, refl, sym, ap, subst, ◌∙◌, false, Option, List, [], ◌∷◌, ◌++◌, arith,
  Elem, Elem-append_one, Elem-append_left, same_number, same_number_iff, same_role, same_role_iff,
  inl, inr, Bool-cases,
}
use mathlib.Core.Bool.{false≢true}
use p4rt_standalone.Proto.{StreamMessageResponse, Uint128Api}
use p4rt_standalone.Controller.State.{World, SdnConnection, past}
use p4rt_standalone.Controller.Arbitration.{accept}
use p4rt_standalone.Controller.Delivery.{messages, recipients, response_for}
use p4rt_standalone.Controller.Invariant.Defs.{IsPrimary, role_at, id_at}
use p4rt_standalone.Controller.Outcome.Accepted.{
  accept_connections, accept_objects, accept_object, accept_other_role, accept_cases,
}
use p4rt_standalone.Controller.Views.Defs.{
  or_else, Informed, AllInformed, view_of, last_view, last_view-append, last_view-messages,
  last_view-other, last_view_self, response_for-view, Elem-recipients,
}
use p4rt_standalone.Controller.Views.Kept.{
  FromBefore, HasPrimary-FromBefore, exists_same, Informed-kept,
}

module _ ⦃api : Uint128Api⦄ (p : ℕ) (role : Option String) (id : Option ℕ) (w : World)
    (new : ¬ Elem p w.connections) where
  after : World
  after = (accept p role id w).1

  role_p : role_at after p ≡ role
  unfolding after
  role_p = ap (λ (c : SdnConnection). c.role_name) (accept_object p role id w)

  id_p : id_at after p ≡ id
  unfolding after
  id_p = ap (λ (c : SdnConnection). c.election_id) (accept_object p role id w)

  object_other : (q : ℕ) → q ≢ p → after.objects q ≡ w.objects q
  unfolding after
  object_other q n =
      ap (λ (o : ℕ → SdnConnection). o q) (accept_objects p role id w)
      ∙ ground (arith, same_number_iff p q)

  old_ne : (q : ℕ) → Elem q w.connections → q ≢ p
  old_ne q m e = new (subst (λ x. Elem x w.connections) e m)

  listed_after : (q : ℕ) → Elem q w.connections → Elem q after.connections
  unfolding after
  listed_after q m = rw (accept_connections p role id w) (Elem-append_left q p w.connections m)

  listed_before : (q : ℕ) → Elem q after.connections → (q ≡ p) ⊎ Elem q w.connections
  unfolding after
  listed_before q m = Elem-append_one q p w.connections (rw (accept_connections p role id w) at m)

  backward : (r : Option String) → FromBefore r after w
  backward r x a e = (listed_after x a.listed, sym (object_other x (old_ne x a.listed)))

  forward : (r : Option String) → (IsPrimary after p → role_at after p ≢ r) → FromBefore r w after
  forward r away x a e = elim (listed_before x a.listed) [
    | inl same ↦
        absurd (away (subst (IsPrimary after) same a) (subst (λ y. role_at after y ≡ r) same e))
    | inr m ↦ (m, object_other x (old_ne x m))
  ]

  -- A connection of before that is sent nothing stays informed where the lead has not changed.
  Informed-old :
      (q : ℕ)
      → Elem q w.connections
      → past after (role_at w q) ≡ past w (role_at w q)
      → (IsPrimary after p → role_at after p ≢ role_at w q)
      → last_view q after.writes ≡ last_view q w.writes
      → Informed w q
      → Informed after q
  Informed-old q m high away e i =
      Informed-kept w after q (object_other q (old_ne q m)) high
        (exists_same (role_at w q) w after
          (HasPrimary-FromBefore (role_at w q) after w (sym high) (backward (role_at w q)))
          (HasPrimary-FromBefore (role_at w q) w after high (forward (role_at w q) away)))
        e i

  informed_all :
      after.writes ≡ w.writes ++ messages after (recipients role after.objects after.connections)
      → AllInformed w
      → AllInformed after
  informed_all e informed q m = elim (last_view-messages q after told) [
    | inl v ↦ (after.device_id, view ∙ rw v refl)
    | inr (v, n) ↦
        let other : role_at after q ≢ role =
          (λ r. n (Elem-recipients role after.objects after.connections q m r)) in
        elim (listed_before q m) [
          | inl same ↦ absurd (other (ap (role_at after) same ∙ role_p))
          | inr old ↦
              let kept = ap (λ (c : SdnConnection). c.role_name) (object_other q (old_ne q old)) in
              Informed-old q old (unchanged q (λ r. other (kept ∙ r)))
                (λ a r. other (kept ∙ sym r ∙ role_p)) (view ∙ rw v refl) (informed q old)
        ]
  ]
    where
      told : List ℕ
      told = recipients role after.objects after.connections

      view :
          last_view q after.writes
          ≡ or_else (last_view q (messages after told)) (last_view q w.writes)
      view = ap (last_view q) e ∙ last_view-append q w.writes (messages after told)

      unchanged : (x : ℕ) → role_at w x ≢ role → past after (role_at w x) ≡ past w (role_at w x)
      unchanged x n = unfold after in accept_other_role p role id w (role_at w x) n

  informed_one :
      after.writes ≡ w.writes ++ (p, response_for after p) ∷ []
      → past after role ≡ past w role
      → id ≢ past w role
      → AllInformed w
      → AllInformed after
  informed_one e high low informed q m = elim (listed_before q m) [
    | inl same ↦ subst (Informed after) (sym same) (
      after.device_id,
      ap (last_view p) e
          ∙ ap (λ (x : StreamMessageResponse). last_view p (w.writes ++ (p, x) ∷ []))
              (response_for-view after p)
          ∙ last_view_self p (view_of after.device_id after p) w.writes,
    )
    | inr old ↦
        Informed-old q old (high_at (role_at w q)) (λ a r. not_primary a)
          (ap (last_view q) e
            ∙ last_view-other q p (response_for after p) w.writes (inl (apart q (old_ne q old))))
          (informed q old)
  ]
    where
      apart : (x : ℕ) → x ≢ p → same_number p x ≡ false
      apart x n = ground (arith, same_number_iff p x)

      not_primary : IsPrimary after p → ⊥
      not_primary a =
          low (sym id_p ∙ a.highest ∙ ap (λ (n : Option String). past after n) role_p ∙ high)

      high_at : (r : Option String) → past after r ≡ past w r
      high_at r = elim (Bool-cases (same_role role r)) [
        | inl f ↦ subst (λ n. past after n ≡ past w n) ((same_role_iff role r).0 f) high
        | inr f ↦
            unfold after in
            accept_other_role p role id w r
              (λ h. false≢true (sym f ∙ (same_role_iff role r).1 (sym h)))
      ]

  -- After an accepted registration of a connection that was not listed, everyone is informed, if
  -- everyone was before.
  pub accept-AllInformed : AllInformed w → AllInformed (accept p role id w).1
  unfolding after
  accept-AllInformed informed = elim (accept_cases p role id w) [
    | inl e ↦ informed_all e informed
    | inr (e, high, low) ↦ informed_one e high low informed
  ]
