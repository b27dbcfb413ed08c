-- ===== src/Server/System/Refinement.antt =====
-- Whole runs as histories of the registry.
use mathlib.Core.Option
use p4rt_standalone.Prelude.{
  ℕ, ◌≡◌, ◌↔◌, sym, refl, ap, subst, true, false, List, [], ◌∷◌, Elem, same_number, same_number_iff,
  if◌then◌else◌, none, some, inl, inr, Bool-cases,
}
use p4rt_standalone.Status.Code.{is_ok}
use p4rt_standalone.Proto.{Uint128Api}
use p4rt_standalone.Controller.State.{World, SdnConnection, new_connection, set_object}
use p4rt_standalone.Controller.Arbitration.{handle_arbitration_update, role_of_update, of_proto}
use p4rt_standalone.Controller.Invariant.Steps.{send_to_primary-SameState}
use p4rt_standalone.Controller.Registry.{Event, arbitrated, left, History}
use p4rt_standalone.Controller.Registry.View.{
  is_listed, is_listed_missing, registry, registry-SameState,
}
use p4rt_standalone.Controller.Registry.Arbitrates.{handle-Arbitrated}
use p4rt_standalone.Controller.Registry.Leaves.{registry-disconnect}
use p4rt_standalone.Server.System.Steps.{
  System, Reach, start, open_stream, arbitrate, answer, message_primary, end_stream, here, next,
}
use p4rt_standalone.Server.System.Invariant.{Reach-start-IsValid}
use p4rt_standalone.Server.System.Owned.{IsSafe}
use p4rt_standalone.Server.System.Pointers.{Careful, Reach-start-IsSafe}

module _ ⦃api : Uint128Api⦄ where
  -- The arbitrations, with whether they succeeded, and the ends of streams, the latest first.
  abbrev pub events : {s t : System} → Reach s t → List Event
  events here = []
  events (next {t} r (arbitrate update p _)) =
      arbitrated p (role_of_update update) (Option.map of_proto update.election_id)
        (is_ok (handle_arbitration_update update p t.world).0)
      ∷ events r
  events (next r (end_stream p _)) = left p ∷ events r
  events (next r _) = events r

  -- A connection object that no list names may be made anew.
  registry-open :
      (p : ℕ) (w : World)
      → ¬ Elem p w.connections
      → registry (set_object p new_connection w) ≡ registry w
  registry-open p w n = λ i. record { member = λ q. at q i; highest = (registry w).highest }
    where
      object :
          (q : ℕ)
          → same_number p q ≡ false
          → (set_object p new_connection w).objects q ≡ w.objects q
      object q e = rw e refl

      at : (q : ℕ) → (registry (set_object p new_connection w)).member q ≡ (registry w).member q
      at q = elim (Bool-cases (same_number p q)) [
        | inl e ↦
            rw
              (is_listed_missing q w.connections
                (subst (λ x. ¬ Elem x w.connections) ((same_number_iff p q).0 e) n))
              refl
        | inr e ↦
            ap
              (λ (c : SdnConnection).
                if is_listed q w.connections then some (c.role_name, c.election_id) else none)
              (object q e)
      ]

  tracked_iff :
      (s : System) (p : ℕ)
      → IsSafe s
      → Elem p s.streams
      → (((s.world.objects p).initialized ≡ true) ↔ Elem p s.world.connections)
  tracked_iff s p v m = (v.tracked p m, v.registered p)

  -- Every run from the start in which no initialized connection is registered again is a history of
  -- the registry: an arbitration either enrols the caller or, if another member of the role has its
  -- election ID, is refused with no effect; the end of a stream expels one member.
  pub Reach-start-History :
      (memory : ℕ → SdnConnection) {t : System} (r : Reach (start memory) t)
      → Careful r
      → History (events r) (registry t.world)
  Reach-start-History memory here c = History.start
  Reach-start-History memory (next {t} r (open_stream p n)) c =
      let safe = Reach-start-IsSafe memory r c.0 in
      subst (History (events r)) (sym (registry-open p t.world (λ m. n (safe.owned p m))))
        (Reach-start-History memory r c.0)
  Reach-start-History memory (next {t} r (arbitrate update p m)) c =
      History.arbitrate (Reach-start-History memory r c.0) p _ _ _ _ (
        handle-Arbitrated update p t.world (Reach-start-IsValid memory r)
          (tracked_iff t p (Reach-start-IsSafe memory r c.0) m))
  Reach-start-History memory (next r (answer p e m)) c = Reach-start-History memory r c.0
  Reach-start-History memory (next {t} r (message_primary role response)) c =
      subst (History (events r))
        (sym (registry-SameState (send_to_primary-SameState role response t.world)))
        (Reach-start-History memory r c.0)
  Reach-start-History memory (next {t} r (end_stream p m)) c =
      let safe = Reach-start-IsSafe memory r c.0 in
      subst (History (left p ∷ events r))
        (sym (registry-disconnect p t.world safe.distinct (tracked_iff t p safe m)))
        (History.leave (Reach-start-History memory r c.0) p)
