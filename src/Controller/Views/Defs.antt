-- ===== src/Controller/Views/Defs.antt =====
-- The latest arbitration message of each connection, and when it is up to date.
use mathlib.Core.Option
use p4rt_standalone.Prelude.{
  ℕ, String, ◌≡◌, refl, sym, ap, ◌∙◌, false, Option, none, some, List, [], ◌∷◌, ◌++◌, arith, Elem,
  same_role, same_role_iff, same_number, same_number_iff, inl, inr, ◌⊎◌, Bool-cases, if◌then◌else◌,
}
use p4rt_standalone.Proto.{MasterArbitrationUpdate, StreamMessageResponse, Uint128Api}
use p4rt_standalone.Controller.State.{World, SdnConnection, past}
use p4rt_standalone.Controller.Primary.{to_proto}
use p4rt_standalone.Controller.Delivery.{messages, recipients, response_for}
use p4rt_standalone.Controller.Invariant.Defs.{role_at}
use p4rt_standalone.Controller.Verdict.{told}

abbrev pub or_else {ℓ} : {A : Type ℓ} → Option A → Option A → Option A
or_else none b = b
or_else (some a) b = some a

or_else-none {ℓ} : {A : Type ℓ} (a : Option A) → or_else a none ≡ a
or_else-none none = refl
or_else-none (some a) = refl

or_else_assoc {ℓ} :
    {A : Type ℓ} (a b c : Option A) → or_else (or_else a b) c ≡ or_else a (or_else b c)
or_else_assoc none b c = refl
or_else_assoc (some a) b c = refl

abbrev pub arbitration_of : StreamMessageResponse → Option MasterArbitrationUpdate
arbitration_of (StreamMessageResponse.arbitration u) = some u
arbitration_of _ = none

-- The last arbitration message among those written to a connection.
unfoldable pub last_view : ℕ → List (ℕ × StreamMessageResponse) → Option MasterArbitrationUpdate
last_view q [] = none
last_view q ((p, m) ∷ rest) =
    or_else (last_view q rest) (if same_number p q then arbitration_of m else none)

pub last_view-append :
    (q : ℕ) (xs ys : List (ℕ × StreamMessageResponse))
    → last_view q (xs ++ ys) ≡ or_else (last_view q ys) (last_view q xs)
unfolding last_view
last_view-append q [] ys = sym (or_else-none (last_view q ys))
last_view-append q ((p, m) ∷ xs) ys =
    ap (λ v. or_else v (if same_number p q then arbitration_of m else none))
      (last_view-append q xs ys)
    ∙ or_else_assoc (last_view q ys) (last_view q xs) _

-- What is written to another connection, or is no arbitration message, changes no view.
pub last_view-other :
    (q p : ℕ) (m : StreamMessageResponse) (xs : List (ℕ × StreamMessageResponse))
    → (same_number p q ≡ false) ⊎ (arbitration_of m ≡ none)
    → last_view q (xs ++ (p, m) ∷ []) ≡ last_view q xs
unfolding last_view
last_view-other q p m xs h = last_view-append q xs ((p, m) ∷ []) ∙ ground arith

pub last_view_self :
    (q : ℕ) (u : MasterArbitrationUpdate) (xs : List (ℕ × StreamMessageResponse))
    → last_view q (xs ++ (q, StreamMessageResponse.arbitration u) ∷ []) ≡ some u
unfolding last_view
last_view_self q u xs =
    last_view-append q xs ((q, StreamMessageResponse.arbitration u) ∷ [])
    ∙ rw ((same_number_iff q q).1 refl) refl

pub Elem-recipients :
    (role : Option String) (objects : ℕ → SdnConnection) (ps : List ℕ) (q : ℕ)
    → Elem q ps
    → (objects q).role_name ≡ role
    → Elem q (recipients role objects ps)
unfolding recipients
Elem-recipients role objects [] q e r = absurd e
Elem-recipients role objects (p ∷ ps) q (inl e) r =
    rw (← e) (rw ((same_role_iff (objects q).role_name role).1 r) (inl refl))
Elem-recipients role objects (p ∷ ps) q (inr e) r =
    let later = Elem-recipients role objects ps q e r in
    elim (Bool-cases (same_role (objects p).role_name role)) [
      | inl f ↦ rw f (inr later)
      | inr f ↦ rw f later
    ]

role_of_recipient :
    (role : Option String) (objects : ℕ → SdnConnection) (ps : List ℕ) (q : ℕ)
    → Elem q (recipients role objects ps)
    → (objects q).role_name ≡ role
unfolding recipients
role_of_recipient role objects [] q e = absurd e
role_of_recipient role objects (p ∷ ps) q e =
    elim (Bool-cases (same_role (objects p).role_name role)) [
      | inl f ↦ elim (rw (f, recipients) at e) [
        | inl same ↦
            ap (λ x. (objects x).role_name) same ∙ (same_role_iff (objects p).role_name role).0 f
        | inr later ↦ role_of_recipient role objects ps q later
      ]
      | inr f ↦ role_of_recipient role objects ps q (rw (f, recipients) at e)
    ]

module _ ⦃api : Uint128Api⦄ where
  -- What a connection has to know, with a device ID, which may be an old one.
  unfoldable pub view_of : ℕ → World → ℕ → MasterArbitrationUpdate
  view_of device_id w q = record {
    device_id = device_id;
    role = role_at w q;
    election_id = Option.map to_proto (past w (role_at w q));
    status = some (told w q);
  }

  -- The latest arbitration message of the connection says what holds.
  abbrev pub Informed : World → ℕ → Type 0
  Informed w q = (d : ℕ) × (last_view q w.writes ≡ some (view_of d w q))

  abbrev pub AllInformed : World → Type 0
  AllInformed w = (q : ℕ) → Elem q w.connections → Informed w q

  pub response_for-view :
      (w : World) (q : ℕ)
      → response_for w q ≡ StreamMessageResponse.arbitration (view_of w.device_id w q)
  unfolding response_for view_of told
  response_for-view w q = refl

  -- Whoever is sent the messages of a state has its view.
  pub last_view-messages :
      (q : ℕ) (w : World) (ps : List ℕ)
      → (last_view q (messages w ps) ≡ some (view_of w.device_id w q))
        ⊎ ((last_view q (messages w ps) ≡ none) × (¬ Elem q ps))
  unfolding last_view messages
  last_view-messages q w [] = inr (refl, λ e. e)
  last_view-messages q w (p ∷ ps) = elim (last_view-messages q w ps) [
    | inl e ↦ inl (rw e refl)
    | inr (e, n) ↦ elim (Bool-cases (same_number p q)) [
      | inl f ↦ inl (
          rw (e, f)
            (ap arbitration_of (response_for-view w p)
              ∙ ap (λ x. some (view_of w.device_id w x)) ((same_number_iff p q).0 f)))
      | inr f ↦ inr (rw (e, f) refl, λ m. ground (arith, same_number_iff p q))
    ]
  ]
