-- ===== src/Controller/Views/Kept.antt =====
-- Views that an operation leaves up to date.
use mathlib.Core.Option
use p4rt_standalone.Prelude.{
  ℕ, String, ◌≡◌, refl, sym, ap, subst, ◌∙◌, has_value, true, Option, some, Elem, inl, inr,
  Bool-cases,
}
use p4rt_standalone.Proto.{Uint128Api}
use p4rt_standalone.Controller.State.{World, SdnConnection, past}
use p4rt_standalone.Controller.Primary.{connection_status, to_proto}
use p4rt_standalone.Controller.Frame.{SameState}
use p4rt_standalone.Controller.Invariant.Defs.{IsPrimary, HasPrimary, role_at}
use p4rt_standalone.Controller.Verdict.{
  told, primary_exists, primary_of_exists, no_primary_of_not_exists,
}
use p4rt_standalone.Controller.Views.Defs.{last_view, view_of, Informed}

-- Every primary connection of the role in the second state was there, unchanged, in the first.
abbrev pub FromBefore : Option String → World → World → Type 0
FromBefore role w w' =
    (x : ℕ)
    → IsPrimary w' x
    → role_at w' x ≡ role
    → Elem x w.connections × (w'.objects x ≡ w.objects x)

pub HasPrimary-FromBefore :
    (role : Option String) (w w' : World)
    → past w' role ≡ past w role
    → FromBefore role w w'
    → HasPrimary w' role
    → HasPrimary w role
HasPrimary-FromBefore role w w' e f (x, a, r) =
    let (m, o) = f x a r in
    let named : role_at w x ≡ role = sym (ap (λ (c : SdnConnection). c.role_name) o) ∙ r in
    (
      x,
      record {
        listed = m;
        set = subst (λ (c : SdnConnection). has_value c.election_id ≡ true) o a.set;
        highest =
            sym (ap (λ (c : SdnConnection). c.election_id) o)
            ∙ a.highest
            ∙ ap (λ (n : Option String). past w' n) r
            ∙ e
            ∙ sym (ap (λ (n : Option String). past w n) named);
      },
      named,
    )

-- Both states have a primary connection for the role, or neither has.
pub exists_same :
    (role : Option String) (w w' : World)
    → (HasPrimary w role → HasPrimary w' role)
    → (HasPrimary w' role → HasPrimary w role)
    → primary_exists role w' ≡ primary_exists role w
exists_same role w w' f g = elim (Bool-cases (primary_exists role w)) [
  | inl e ↦ elim (Bool-cases (primary_exists role w')) [
    | inl h ↦ h ∙ sym e
    | inr h ↦ absurd (no_primary_of_not_exists role w' h (f (primary_of_exists role w e)))
  ]
  | inr e ↦ elim (Bool-cases (primary_exists role w')) [
    | inl h ↦ absurd (no_primary_of_not_exists role w e (g (primary_of_exists role w' h)))
    | inr h ↦ h ∙ sym e
  ]
]

module _ ⦃api : Uint128Api⦄ (w w' : World) (q : ℕ) (same : w'.objects q ≡ w.objects q)
    (high : past w' (role_at w q) ≡ past w (role_at w q))
    (exists : primary_exists (role_at w q) w' ≡ primary_exists (role_at w q) w) where
  role_same : role_at w' q ≡ role_at w q
  role_same = ap (λ (c : SdnConnection). c.role_name) same

  high_same : past w' (role_at w' q) ≡ past w (role_at w q)
  high_same = ap (λ (n : Option String). past w' n) role_same ∙ high

  lead_same : primary_exists (role_at w' q) w' ≡ primary_exists (role_at w q) w
  lead_same = ap (λ (n : Option String). primary_exists n w') role_same ∙ exists

  view_same : (d : ℕ) → view_of d w' q ≡ view_of d w q
  unfolding view_of told
  view_same d = λ i. record {
    device_id = d;
    role = role_same i;
    election_id = Option.map to_proto (high_same i);
    status = some (connection_status (lead_same i) (high_same i) (same i).election_id);
  }

  -- A connection that is sent nothing new, and whose object, highest ID and lead have not changed,
  -- stays informed.
  pub Informed-kept : last_view q w'.writes ≡ last_view q w.writes → Informed w q → Informed w' q
  Informed-kept e (d, h) = (d, e ∙ h ∙ ap some (sym (view_same d)))

module _ ⦃api : Uint128Api⦄ (w w' : World) (s : SameState w w') where
  exists-SameState : (role : Option String) → primary_exists role w' ≡ primary_exists role w
  exists-SameState role = rw (s.past role, s.objects, s.connections) refl

  pub view-SameState : (q d : ℕ) → view_of d w' q ≡ view_of d w q
  view-SameState q d =
      view_same w w' q (ap (λ (o : ℕ → SdnConnection). o q) s.objects) (s.past (role_at w q))
        (exists-SameState (role_at w q)) d

  pub Informed-SameState :
      (q : ℕ) → last_view q w'.writes ≡ last_view q w.writes → Informed w q → Informed w' q
  Informed-SameState q e (d, h) = (d, e ∙ h ∙ ap some (sym (view-SameState q d)))
