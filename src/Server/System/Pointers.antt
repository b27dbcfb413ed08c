-- ===== src/Server/System/Pointers.antt =====
-- When the manager's list holds no connection whose object is gone.
use mathlib.Core.Option
use p4rt_standalone.Prelude.{
  ℕ, ◌≡◌, sym, subst, ◌∙◌, true, Elem, erase_first, Elem-of_Elem-erase_first, Elem-erase_first_ne,
  not-Elem-erase_first, erase_first-Distinct, Bool-cases, inl, inr,
}
use mathlib.Core.Bool.{false≢true}
use p4rt_standalone.Proto.{Uint128Api}
use p4rt_standalone.Controller.State.{SdnConnection, set_connections}
use p4rt_standalone.Controller.Arbitration.{
  handle_arbitration_update, disconnect, role_of_update, set_device_id, of_proto,
}
use p4rt_standalone.Controller.Invariant.Steps.{
  inform_if_primary-SameState, send_to_primary-SameState,
}
use p4rt_standalone.Controller.Outcome.Cases.{handle-Outcome}
use p4rt_standalone.Server.System.Steps.{
  System, Step, Reach, start, at_world, open_stream, arbitrate, answer, message_primary, end_stream,
  here, next,
}
use p4rt_standalone.Server.System.Owned.{IsSafe, same-IsSafe, open-IsSafe, Outcome-IsSafe}

module _ ⦃api : Uint128Api⦄ where
  -- A step that registers no connection again.
  abbrev pub RegistersOnce : {s t : System} → Step s t → Type 0
  RegistersOnce {s} (arbitrate update p _) =
      (s.world.objects p).initialized ≡ true
      → (handle_arbitration_update update p s.world).1.connections ≡ s.world.connections
  RegistersOnce _ = Unit {0}

  end-IsSafe :
      (p : ℕ) (s : System)
      → IsSafe s
      → IsSafe (record { world = disconnect p s.world; streams = erase_first p s.streams })
  unfolding disconnect
  end-IsSafe p s v = elim (Bool-cases (s.world.objects p).initialized) [
    | inl i ↦ rw i (
        same-IsSafe
          (record {
            world = set_connections (erase_first p s.world.connections) s.world;
            streams = erase_first p s.streams;
          })
          _ (inform_if_primary-SameState (s.world.objects p) _)
          (removed (not-Elem-erase_first p s.world.connections v.distinct)))
    | inr u ↦ rw u (record {
      distinct = v.distinct;
      streams_distinct = erase_first-Distinct p s.streams v.streams_distinct;
      owned = λ q n.
          Elem-erase_first_ne q p s.streams
            (λ e.
              false≢true
                (sym u ∙ subst (λ x. (s.world.objects x).initialized ≡ true) e (v.registered q n)))
            (v.owned q n);
      registered = v.registered;
      tracked = λ q n j. v.tracked q (Elem-of_Elem-erase_first q p s.streams n) j;
    })
  ]
    where
      removed :
          ¬ Elem p (erase_first p s.world.connections)
          → IsSafe (record {
            world = set_connections (erase_first p s.world.connections) s.world;
            streams = erase_first p s.streams;
          })
      removed gone = record {
        distinct = erase_first-Distinct p s.world.connections v.distinct;
        streams_distinct = erase_first-Distinct p s.streams v.streams_distinct;
        owned = λ q n.
            Elem-erase_first_ne q p s.streams
              (λ e. gone (subst (λ x. Elem x (erase_first p s.world.connections)) e n))
              (v.owned q (Elem-of_Elem-erase_first q p s.world.connections n));
        registered = λ q n. v.registered q (Elem-of_Elem-erase_first q p s.world.connections n);
        tracked = λ q n j.
            Elem-erase_first_ne q p s.world.connections
              (λ e.
                not-Elem-erase_first p s.streams v.streams_distinct
                  (subst (λ x. Elem x (erase_first p s.streams)) e n))
              (v.tracked q (Elem-of_Elem-erase_first q p s.streams n) j);
      }

  Step-IsSafe : {s t : System} (st : Step s t) → RegistersOnce st → IsSafe s → IsSafe t
  Step-IsSafe {s} (open_stream p n) o v = open-IsSafe p s n v
  Step-IsSafe {s} (arbitrate update p m) o v =
      Outcome-IsSafe p (role_of_update update) (Option.map of_proto update.election_id)
        (at_world s (set_device_id update.device_id s.world)) m
        (record {
          distinct = v.distinct;
          streams_distinct = v.streams_distinct;
          owned = v.owned;
          registered = v.registered;
          tracked = v.tracked;
        })
        _ (handle-Outcome update p s.world) o
  Step-IsSafe {s} (answer p response m) o v = record {
    distinct = v.distinct;
    streams_distinct = v.streams_distinct;
    owned = v.owned;
    registered = v.registered;
    tracked = v.tracked;
  }
  Step-IsSafe {s} (message_primary role response) o v =
      same-IsSafe s _ (send_to_primary-SameState role response s.world) v
  Step-IsSafe {s} (end_stream p m) o v = end-IsSafe p s v

  -- In every step of the run, a connection that is registered is not registered again.
  abbrev pub Careful : {s t : System} → Reach s t → Type 0
  Careful here = Unit {0}
  Careful (next r st) = Careful r × RegistersOnce st

  Reach-IsSafe : {s t : System} (r : Reach s t) → Careful r → IsSafe s → IsSafe t
  Reach-IsSafe here c v = v
  Reach-IsSafe (next r st) c v = Step-IsSafe st c.1 (Reach-IsSafe r c.0 v)

  -- As long as no connection is registered a second time, under whatever interleaving from the
  -- start, the registered connections are, once each, the initialized ones among those of the open
  -- streams.
  pub Reach-start-IsSafe :
      (memory : ℕ → SdnConnection) {t : System} (r : Reach (start memory) t) → Careful r → IsSafe t
  Reach-start-IsSafe memory r c = Reach-IsSafe r c (record {
    distinct = tt;
    streams_distinct = tt;
    owned = λ p e. absurd e;
    registered = λ p e. absurd e;
    tracked = λ p e. absurd e;
  })
