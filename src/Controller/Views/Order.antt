-- ===== src/Controller/Views/Order.antt =====
-- In which order a takeover is told, message by message.
use mathlib.Core.Option
use mathlib.Core.List.{append_cancel_left}
use mathlib.Core.Bool.{false≢true}
use p4rt_standalone.Prelude.{
  ℕ, String, ◌≡◌, ◌≢◌, refl, sym, ap, subst, ◌∙◌, true, false, Option, none, some, List, [], ◌∷◌,
  ◌++◌, Elem, opt_ltb, same_number, same_number_iff, same_role, same_role_iff, Bool-cases,
  Option-cases, inl, inr,
}
use p4rt_standalone.Proto.{MasterArbitrationUpdate, StreamMessageResponse, Uint128Api}
use p4rt_standalone.Controller.State.{World, SdnConnection, past}
use p4rt_standalone.Controller.Primary.{primary_status}
use p4rt_standalone.Controller.Arbitration.{handle_arbitration_update, role_of_update, of_proto}
use p4rt_standalone.Controller.Delivery.{messages, recipients, response_for}
use p4rt_standalone.Controller.Invariant.Defs.{IsValid, IsPrimary, IsPrimary-unique, role_at}
use p4rt_standalone.Controller.Invariant.Steps.{handle_arbitration_update-IsValid}
use p4rt_standalone.Controller.Outcome.Takeover.{
  takeover_connections, takeover_role, handle_takeover,
}
use p4rt_standalone.Controller.Verdict.{Verdict-IsPrimary, told, told-Verdict}
use p4rt_standalone.Controller.Views.Defs.{
  last_view, last_view-append, last_view-messages, view_of, Elem-recipients,
}

-- After these messages, the latest arbitration message to the connection says that it is primary.
abbrev pub Believes : List (ℕ × StreamMessageResponse) → ℕ → Type 0
Believes ws q =
    (u : MasterArbitrationUpdate) × (last_view q ws ≡ some u) × (u.status ≡ some primary_status)

Elem-of_Elem-recipients :
    (role : Option String) (objects : ℕ → SdnConnection) (ps : List ℕ) (q : ℕ)
    → Elem q (recipients role objects ps)
    → Elem q ps
unfolding recipients
Elem-of_Elem-recipients role objects [] q e = absurd e
Elem-of_Elem-recipients role objects (p ∷ ps) q e =
    elim (Bool-cases (same_role (objects p).role_name role)) [
      | inl f ↦ elim (rw (f, recipients) at e) [
        | inl same ↦ inl same
        | inr later ↦ inr (Elem-of_Elem-recipients role objects ps q later)
      ]
      | inr f ↦ inr (Elem-of_Elem-recipients role objects ps q (rw (f, recipients) at e))
    ]

recipients-append_one :
    (role : Option String) (objects : ℕ → SdnConnection) (ps : List ℕ) (p : ℕ)
    → (objects p).role_name ≡ role
    → recipients role objects (ps ++ p ∷ []) ≡ recipients role objects ps ++ p ∷ []
unfolding recipients
recipients-append_one role objects [] p e = rw ((same_role_iff (objects p).role_name role).1 e) refl
recipients-append_one role objects (q ∷ ps) p e =
    elim (Bool-cases (same_role (objects q).role_name role)) [
      | inl f ↦ rw (f, recipients) (ap (◌∷◌ q) (recipients-append_one role objects ps p e))
      | inr f ↦ rw (f, recipients) (recipients-append_one role objects ps p e)
    ]

empty_front : {A : Type 0} (xs ys : List A) → xs ++ ys ≡ [] → xs ≡ []
empty_front [] ys e = refl
empty_front (x ∷ xs) ys e = cc

-- A front with the last element, which is not in the rest, is all.
whole_front :
    (front back rs : List ℕ) (p : ℕ)
    → front ++ back ≡ rs ++ p ∷ []
    → Elem p front
    → ¬ Elem p rs
    → front ≡ rs ++ p ∷ []
whole_front [] back rs p e m n = absurd m
whole_front (a ∷ front) back [] p e m n =
    let first : a ≡ p = cc e in
    let none_left : front ≡ [] = empty_front front back (cc e) in cc (first, none_left)
whole_front (a ∷ front) back (r ∷ rs) p e (inl same) n =
    let first : a ≡ r = cc e in absurd (n (inl (same ∙ first)))
whole_front (a ∷ front) back (r ∷ rs) p e (inr m) n =
    let first : a ≡ r = cc e in
    let rest : front ≡ rs ++ p ∷ [] = whole_front front back rs p (cc e) m (λ k. n (inr k)) in
    cc (first, rest)

module _ ⦃api : Uint128Api⦄ where
  -- The first messages go to the first recipients.
  messages-front :
      (w : World) (pre post : List (ℕ × StreamMessageResponse)) (rs : List ℕ)
      → pre ++ post ≡ messages w rs
      → (front : List ℕ) × (back : List ℕ) × (pre ≡ messages w front) × (front ++ back ≡ rs)
  unfolding messages
  messages-front w [] post rs e = ([], rs, refl, refl)
  messages-front w (x ∷ pre) post [] e = cc
  messages-front w (x ∷ pre) post (r ∷ rs) e =
      let first : x ≡ (r, response_for w r) = cc e in
      let (front, back, f, g) = messages-front w pre post rs (cc e) in
      (r ∷ front, back, cc (first, f), ap (◌∷◌ r) g)

  Elem-of_last_view :
      (q : ℕ) (w : World) (ps : List ℕ) (u : MasterArbitrationUpdate)
      → last_view q (messages w ps) ≡ some u
      → Elem q ps
  unfolding last_view messages
  Elem-of_last_view q w [] u e = cc
  Elem-of_last_view q w (p ∷ ps) u e = elim (Bool-cases (same_number p q)) [
    | inl f ↦ inl (sym ((same_number_iff p q).0 f))
    | inr f ↦ elim (last_view-messages q w ps) [
      | inl v ↦ inr (Elem-of_last_view q w ps _ v)
      | inr (v, _) ↦ cc (rw (v, f) at e)
    ]
  ]

  -- Messages of a state in which `p` is primary, of which another connection of its role hears.
  module _ (w : World) (v : IsValid w) (p : ℕ) (a : IsPrimary w p) (q : ℕ)
      (m : Elem q w.connections) (same : role_at w p ≡ role_at w q) (other : q ≢ p)
      (ws : List (ℕ × StreamMessageResponse)) where
    not_told : told w q ≢ primary_status
    not_told e = other (
        sym
          (IsPrimary-unique v p q a (Verdict-IsPrimary w q (told w q) (told-Verdict w q m) e) same))

    believed : (ps : List ℕ) → Believes (ws ++ messages w ps) q → Believes ws q × (¬ Elem q ps)
    unfolding view_of
    believed ps (u, h, s) = elim (last_view-messages q w ps) [
      | inl e ↦ absurd (not_told (cc (rw (last_view-append q ws (messages w ps), e) at h, s)))
      | inr (e, n) ↦ ((u, (rw (last_view-append q ws (messages w ps), e) at h), s), n)
    ]

  module _ (update : MasterArbitrationUpdate) (p : ℕ) (w : World) (v : IsValid w)
      (fresh : (w.objects p).initialized ≡ false) (new : ¬ Elem p w.connections)
      (above : opt_ltb (past w (role_of_update update)) (Option.map of_proto update.election_id)
        ≡ true) where
    listed : (w.objects p).initialized ≡ true → Elem p w.connections
    listed e = absurd (false≢true (sym fresh ∙ e))

    after : World
    after = (handle_arbitration_update update p w).1

    recipients_after :
        recipients (role_of_update update) after.objects after.connections
        ≡ recipients (role_of_update update) after.objects w.connections ++ p ∷ []
    unfolding after
    recipients_after =
        ap (recipients (role_of_update update) after.objects)
          (takeover_connections update p w v listed above)
        ∙ recipients-append_one (role_of_update update) after.objects w.connections p
            (takeover_role update p w v listed above)

    -- Once the new primary connection has been told, everyone of the role has been told.
    told_last :
        (front back : List ℕ)
        → front ++ back ≡ recipients (role_of_update update) after.objects after.connections
        → (u : MasterArbitrationUpdate) → last_view p (messages after front) ≡ some u
        → front ≡ recipients (role_of_update update) after.objects after.connections
    told_last front back e u h =
        whole_front front back (recipients (role_of_update update) after.objects w.connections) p
          (e ∙ recipients_after) (Elem-of_last_view p after front u h)
          (λ m.
            new (Elem-of_Elem-recipients (role_of_update update) after.objects w.connections p m))
        ∙ sym recipients_after

    -- After each message of such an update, whoever else of the role was last told that it is
    -- primary was told so before it, and the new primary connection has been told nothing yet.
    pub takeover_order :
        (pre post : List (ℕ × StreamMessageResponse))
        → (handle_arbitration_update update p w).1.writes ≡ w.writes ++ (pre ++ post)
        → (q : ℕ) → Elem q (handle_arbitration_update update p w).1.connections
        → role_at (handle_arbitration_update update p w).1 q ≡ role_of_update update
        → q ≢ p
        → Believes (w.writes ++ pre) q
        → Believes w.writes q × (last_view p pre ≡ none)
    unfolding after
    takeover_order pre post e q m r other b =
        let (ok, leads, high, all) = handle_takeover update p w v listed above in
        let (front, back, f, g) =
          messages-front after pre post
            (recipients (role_of_update update) after.objects after.connections)
            (append_cancel_left w.writes (pre ++ post) _ (sym e ∙ all)) in
        let (before, absent) =
          believed after (handle_arbitration_update-IsValid update p w v) p leads q m
            ((takeover_role update p w v listed above) ∙ sym r) other w.writes front
            (subst (λ l. Believes (w.writes ++ l) q) f b) in
        (
          before,
          elim (Option-cases (last_view p pre)) [
            | inl n ↦ n
            | inr (u, h) ↦ absurd (
                absent (
                  subst (Elem q) (sym (told_last front back g u (ap (last_view p) (sym f) ∙ h))) (
                    Elem-recipients (role_of_update update) after.objects after.connections q m r)))
          ],
        )
