-- ===== src/Controller/Registry/Arbitrates.antt =====
-- `HandleArbitrationUpdate` as an operation of the registry.
use mathlib.Core.Option
use p4rt_standalone.Prelude.{
  ℕ, String, ◌≡◌, ◌↔◌, refl, sym, ap, subst, ◌∙◌, true, false, Option, none, some, List, ◌++◌, [],
  ◌∷◌, arith, Elem, Elem-append_last, same_number, same_number_iff, same_role, same_role_iff,
  has_value, if◌then◌else◌, inl, inr, Bool-cases,
}
use p4rt_standalone.Status.Code.{GrpcStatus, is_ok}
use p4rt_standalone.Proto.{MasterArbitrationUpdate, Uint128Api}
use p4rt_standalone.Controller.State.{World, SdnConnection, past}
use p4rt_standalone.Controller.Arbitration.{
  accept, arbitrated, handle_arbitration_update, role_of_update, set_device_id, of_proto,
}
use p4rt_standalone.Controller.Frame.{send_arbitration_response-SameState}
use p4rt_standalone.Controller.Invariant.Defs.{IsValid}
use p4rt_standalone.Controller.Invariant.Steps.{set_device_id-IsValid}
use p4rt_standalone.Controller.Outcome.Cases.{
  Outcome, unchanged, accepted, AlreadyIs, handle-Outcome, status_of_accept,
}
use p4rt_standalone.Controller.Outcome.Accepted.{accept_connections, accept_objects}
use p4rt_standalone.Controller.Outcome.Takeover.{max_of_le, bounded_as, accepted_past}
use p4rt_standalone.Controller.Registry.{Arbitrated, granted, enrol}
use p4rt_standalone.Controller.Registry.View.{
  is_listed, is_listed_iff, registry, registry-SameState, member_lem, member-of_Elem,
}

is_listed-append :
    (p q : ℕ) (xs : List ℕ) → same_number p q ≡ false → is_listed q (xs ++ p ∷ []) ≡ is_listed q xs
is_listed-append p q [] n = ground (arith, same_number_iff q p, same_number_iff p q)
is_listed-append p q (x ∷ xs) n = rw (is_listed-append p q xs n) refl

module _ ⦃api : Uint128Api⦄ (p : ℕ) (role : Option String) (id : Option ℕ) (w : World)
    (v : IsValid w) (listed : (w.objects p).initialized ≡ true → Elem p w.connections)
    (initialized : Elem p w.connections → (w.objects p).initialized ≡ true) where
  -- Registering again what is registered changes nothing.
  registry-AlreadyIs : AlreadyIs w p role id → registry w ≡ enrol p role id (registry w)
  registry-AlreadyIs a = λ i. record { member = λ q. at q i; highest = λ r. top r i }
    where
      at : (q : ℕ) → (registry w).member q ≡ (enrol p role id (registry w)).member q
      at q = elim (Bool-cases (same_number p q)) [
        | inl e ↦ rw e (
            ap (registry w).member (sym ((same_number_iff p q).0 e))
            ∙ member-of_Elem w p (listed a.initialized)
            ∙ λ i. some (a.role_name i, a.election_id i))
        | inr e ↦ rw e refl
      ]

      top : (r : Option String) → past w r ≡ (enrol p role id (registry w)).highest r
      top r = elim (Bool-cases (same_role role r)) [
        | inl e ↦ rw e (
            ap (past w) (sym ((same_role_iff role r).0 e))
            ∙ sym (
                max_of_le (past w role) id
                  (bounded_as w p role id v (listed a.initialized) a.role_name a.election_id)))
        | inr e ↦ rw e refl
      ]

  registry-accept : registry (accept p role id w).1 ≡ enrol p role id (registry w)
  registry-accept = λ i. record {
    member = λ q. (state q ∙ at q) i;
    highest = λ r. accepted_past p role id w v listed r i;
  }
    where
      object : ℕ → SdnConnection
      object q = if same_number p q then arbitrated role id (w.objects p) else w.objects q

      state :
          (q : ℕ)
          → (registry (accept p role id w).1).member q ≡ (
              if is_listed q (w.connections ++ p ∷ [])
              then some ((object q).role_name, (object q).election_id)
              else none)
      state q = λ i.
          if is_listed q (accept_connections p role id w i)
          then some (
            (accept_objects p role id w i q).role_name,
            (accept_objects p role id w i q).election_id,
          )
          else none

      at :
          (q : ℕ)
          → (if is_listed q (w.connections ++ p ∷ [])
              then some ((object q).role_name, (object q).election_id)
              else none)
            ≡ (enrol p role id (registry w)).member q
      at q = elim (Bool-cases (same_number p q)) [
        | inl e ↦
            rw
              (
                e,
                (is_listed_iff q (w.connections ++ p ∷ [])).1 (
                    subst (λ x. Elem x (w.connections ++ p ∷ [])) ((same_number_iff p q).0 e)
                      (Elem-append_last p w.connections)),
              )
              refl
        | inr e ↦ rw (is_listed-append p q w.connections e, e) refl
      ]

  Outcome-Arbitrated :
      (r : GrpcStatus × World)
      → Outcome p role id w r
      → Arbitrated (registry w) p role id (is_ok r.0) (registry r.1)
  Outcome-Arbitrated r (unchanged a e) =
      granted
        (λ (s, (q, n, m)).
          let (l, ro, i) = member_lem w q role id m in
          n (
            v.unique q p l (listed a.initialized) (ro ∙ sym a.role_name) (i ∙ sym a.election_id)
              (ap has_value i ∙ s)))
        (ap (λ (x : GrpcStatus × World). is_ok x.0) e)
        (ap (λ (x : GrpcStatus × World). registry x.1) e
          ∙ registry-SameState (send_arbitration_response-SameState p w)
          ∙ registry-AlreadyIs a)
  Outcome-Arbitrated r (Outcome.refused n s q m ro i e) =
      Arbitrated.refused
        (
          s,
          (
            q,
            (λ same. n (
                subst (λ x. AlreadyIs w x role id) same
                  (record {
                    initialized =
                        subst (λ x. (w.objects x).initialized ≡ true) (sym same)
                          (initialized (subst (λ x. Elem x w.connections) same m));
                    role_name = ro;
                    election_id = i;
                  }))),
            member-of_Elem w q m ∙ λ j. some (ro j, i j),
          ),
        )
        (ap (λ (x : GrpcStatus × World). is_ok x.0) e)
        (ap (λ (x : GrpcStatus × World). registry x.1) e)
  Outcome-Arbitrated r (accepted n o u e) =
      granted (λ (s, (q, d, m)). let (l, ro, i) = member_lem w q role id m in u s q l ro i)
        (ap (λ (x : GrpcStatus × World). is_ok x.0) e ∙ ap is_ok (status_of_accept p role id w))
        (ap (λ (x : GrpcStatus × World). registry x.1) e ∙ registry-accept)

module _ ⦃api : Uint128Api⦄ (update : MasterArbitrationUpdate) (p : ℕ) (w : World) where
  -- From a valid state, for a connection that is initialized exactly if it is listed, an update is
  -- refused, with the registry unchanged, exactly if another member of the role has its election
  -- ID; else the caller is a member with its data, and its role's highest ID the greater of before
  -- and its own.
  pub handle-Arbitrated :
      IsValid w
      → ((w.objects p).initialized ≡ true ↔ Elem p w.connections)
      → Arbitrated
          (registry w)
          p
          (role_of_update update)
          (Option.map of_proto update.election_id)
          (is_ok (handle_arbitration_update update p w).0)
          (registry (handle_arbitration_update update p w).1)
  handle-Arbitrated v (listed, initialized) =
      Outcome-Arbitrated p _ _ (set_device_id update.device_id w) (set_device_id-IsValid _ w v)
        listed initialized _ (handle-Outcome update p w)
