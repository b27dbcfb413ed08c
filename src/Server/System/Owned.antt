-- ===== src/Server/System/Owned.antt =====
-- The registered connections and the streams that own them: opening a stream and arbitrating.
use p4rt_standalone.Prelude.{
  ℕ, String, ◌≡◌, ◌⊎◌, sym, ap, ◌∙◌, true, false, Option, [], ◌∷◌, ◌++◌, arith, Elem, Distinct,
  Elem-append_one, Elem-append_last, Elem-append_left, append_one-Distinct, append_one-ne,
  same_number, same_number_iff, if◌then◌else◌, Bool-cases, inl, inr,
}
use mathlib.Core.Bool.{false≢true}
use p4rt_standalone.Status.Code.{GrpcStatus}
use p4rt_standalone.Proto.{Uint128Api}
use p4rt_standalone.Controller.State.{World, SdnConnection, new_connection, set_object}
use p4rt_standalone.Controller.Arbitration.{accept, arbitrated}
use p4rt_standalone.Controller.Frame.{SameState, send_arbitration_response-SameState}
use p4rt_standalone.Controller.Outcome.Cases.{Outcome, unchanged, refused, accepted}
use p4rt_standalone.Controller.Outcome.Accepted.{accept_connections, accept_objects}
use p4rt_standalone.Server.System.Steps.{System}

-- The registered connections are, once each, the initialized ones among those of open streams.
pub record IsSafe (s : System) : Type 0 where
  pub distinct : Distinct s.world.connections
  pub streams_distinct : Distinct s.streams
  pub owned : (p : ℕ) → Elem p s.world.connections → Elem p s.streams
  pub registered : (p : ℕ) → Elem p s.world.connections → (s.world.objects p).initialized ≡ true
  pub tracked :
      (p : ℕ)
      → Elem p s.streams
      → (s.world.objects p).initialized ≡ true
      → Elem p s.world.connections

module _ ⦃api : Uint128Api⦄ where
  pub same-IsSafe :
      (s : System) (w : World) → SameState s.world w → IsSafe s → IsSafe (record s { world = w })
  same-IsSafe s w e v = record {
    distinct = rw e.connections v.distinct;
    streams_distinct = v.streams_distinct;
    owned = λ p m. v.owned p (rw e.connections at m);
    registered = λ p m. rw e.objects (v.registered p (rw e.connections at m));
    tracked = λ p m i. rw e.connections (v.tracked p m (rw e.objects at i));
  }

  pub open-IsSafe :
      (p : ℕ) (s : System)
      → ¬ Elem p s.streams
      → IsSafe s
      → IsSafe (record { world = set_object p new_connection s.world; streams = p ∷ s.streams })
  open-IsSafe p s n v = record {
    distinct = v.distinct;
    streams_distinct = (n, v.streams_distinct);
    owned = λ q m. inr (v.owned q m);
    registered = λ q m. ground (arith, v.registered q m, v.owned q m, same_number_iff p q);
    tracked = λ q m i. ground (arith, v.tracked q, same_number_iff p q);
  }

  module _ (p : ℕ) (role : Option String) (id : Option ℕ) (s : System) (m : Elem p s.streams)
      (v : IsSafe s) where
    accept-IsSafe :
        (s.world.objects p).initialized ≡ false
        → IsSafe (record s { world = (accept p role id s.world).1 })
    accept-IsSafe u = record {
      distinct = rw (accept_connections p role id s.world) (
          append_one-Distinct p s.world.connections (λ n. false≢true (sym u ∙ v.registered p n))
            v.distinct);
      streams_distinct = v.streams_distinct;
      owned = λ q n. own q (
          Elem-append_one q p s.world.connections (rw (accept_connections p role id s.world) at n));
      registered = λ q n. mark q (
          Elem-append_one q p s.world.connections (rw (accept_connections p role id s.world) at n));
      tracked = λ q n i. rw (accept_connections p role id s.world) (track q n i);
    }
      where
        own : (q : ℕ) → (q ≡ p) ⊎ Elem q s.world.connections → Elem q s.streams
        own q (inl e) = rw e m
        own q (inr n) = v.owned q n

        object :
            (q : ℕ)
            → (accept p role id s.world).1.objects q ≡ (
                if same_number p q
                then arbitrated role id (s.world.objects p)
                else s.world.objects q)
        object q = ap (λ (o : ℕ → SdnConnection). o q) (accept_objects p role id s.world)

        mark :
            (q : ℕ)
            → (q ≡ p) ⊎ Elem q s.world.connections
            → ((accept p role id s.world).1.objects q).initialized ≡ true
        mark q (inl e) = ground (arith, object q, same_number_iff p q)
        mark q (inr n) = ground (arith, object q, same_number_iff p q, v.registered q n)

        track :
            (q : ℕ)
            → Elem q s.streams
            → ((accept p role id s.world).1.objects q).initialized ≡ true
            → Elem q (s.world.connections ++ p ∷ [])
        track q n i = elim (Bool-cases (same_number p q)) [
          | inl e ↦ rw (sym ((same_number_iff p q).0 e)) (Elem-append_last p s.world.connections)
          | inr e ↦
              Elem-append_left q p s.world.connections (v.tracked q n (ground (arith, object q)))
        ]

    pub Outcome-IsSafe :
        (r : GrpcStatus × World)
        → Outcome p role id s.world r
        → ((s.world.objects p).initialized ≡ true → r.1.connections ≡ s.world.connections)
        → IsSafe (record s { world = r.1 })
    Outcome-IsSafe r (unchanged _ e) once =
        rw e (same-IsSafe s _ (send_arbitration_response-SameState p s.world) v)
    Outcome-IsSafe r (refused _ _ _ _ _ _ e) once = rw e v
    Outcome-IsSafe r (accepted _ _ _ e) once = rw e (
        accept-IsSafe (elim (Bool-cases (s.world.objects p).initialized) [
          | inl i ↦ absurd (
              append_one-ne p s.world.connections (
                sym (accept_connections p role id s.world)
                ∙ ap (λ (x : GrpcStatus × World). x.1.connections) (sym e)
                ∙ once i))
          | inr u ↦ u
        ]))
