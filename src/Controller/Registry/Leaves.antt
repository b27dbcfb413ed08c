-- ===== src/Controller/Registry/Leaves.antt =====
-- `Disconnect` as an operation of the registry.
use p4rt_standalone.Prelude.{
  ℕ, ◌≡◌, ◌↔◌, refl, sym, ap, subst, ◌∙◌, true, false, List, [], ◌∷◌, arith, Elem, Distinct,
  erase_first, not-Elem-erase_first, same_number, same_number_iff, if◌then◌else◌, none, some, inl,
  inr, Bool-cases,
}
use mathlib.Core.Bool.{false≢true}
use p4rt_standalone.Proto.{Uint128Api}
use p4rt_standalone.Controller.State.{World, SdnConnection}
use p4rt_standalone.Controller.Arbitration.{disconnect}
use p4rt_standalone.Controller.Invariant.Defs.{role_at, id_at}
use p4rt_standalone.Controller.Orphans.{
  disconnect-removed, connections-removed, connections_kept, objects-removed, past-disconnect,
}
use p4rt_standalone.Controller.Registry.{expel}
use p4rt_standalone.Controller.Registry.View.{is_listed, is_listed_missing, registry}

is_listed-erase_first_ne :
    (p q : ℕ) (xs : List ℕ)
    → same_number p q ≡ false
    → is_listed q (erase_first p xs) ≡ is_listed q xs
unfolding erase_first
is_listed-erase_first_ne p q [] n = refl
is_listed-erase_first_ne p q (x ∷ xs) n = ground (
  arith,
  is_listed-erase_first_ne p q xs n,
  same_number_iff x p,
  same_number_iff q x,
  same_number_iff p q,
)

module _ ⦃api : Uint128Api⦄ (p : ℕ) (w : World) where
  -- Without the connection in the list, or with a list from which it has been erased.
  registry-expel :
      (xs : List ℕ)
      → is_listed p xs ≡ false
      → ((q : ℕ) → same_number p q ≡ false → is_listed q xs ≡ is_listed q w.connections)
      → (q : ℕ)
      → (if is_listed q xs then some (role_at w q, id_at w q) else none)
        ≡ (expel p (registry w)).member q
  registry-expel xs gone same q = elim (Bool-cases (same_number p q)) [
    | inl e ↦ rw (e, subst (λ x. is_listed x xs ≡ false) ((same_number_iff p q).0 e) gone) refl
    | inr e ↦ rw (e, same q e) refl
  ]

  abbrev rest : List ℕ
  rest = (disconnect p w).connections

  -- If no connection is listed twice, and one is initialized exactly if it is listed, its
  -- disconnection expels it from the registry, and changes nothing else there: neither the other
  -- members, nor the highest election IDs.
  pub registry-disconnect :
      Distinct w.connections
      → ((w.objects p).initialized ≡ true ↔ Elem p w.connections)
      → registry (disconnect p w) ≡ expel p (registry w)
  registry-disconnect d (listed, initialized) = λ i. record {
    member = λ q. (objects q ∙ registry-expel rest gone.0 gone.1 q) i;
    highest = λ role. past-disconnect p w role i;
  }
    where
      objects :
          (q : ℕ)
          → (registry (disconnect p w)).member q
            ≡ (if is_listed q rest then some (role_at w q, id_at w q) else none)
      objects q =
          ap
            (λ (o : ℕ → SdnConnection).
              if is_listed q rest then some ((o q).role_name, (o q).election_id) else none)
            ((disconnect-removed p w).objects ∙ objects-removed p w)

      gone :
          (is_listed p rest ≡ false)
          × ((q : ℕ) → same_number p q ≡ false → is_listed q rest ≡ is_listed q w.connections)
      gone = elim (Bool-cases (w.objects p).initialized) [
        | inl i ↦ rw ((disconnect-removed p w).connections ∙ connections-removed p w i) (
          is_listed_missing p _ (not-Elem-erase_first p w.connections d),
          λ q e. is_listed-erase_first_ne p q w.connections e,
        )
        | inr u ↦
            rw ((disconnect-removed p w).connections ∙ connections_kept p w u)
              (is_listed_missing p _ (λ m. false≢true (sym u ∙ initialized m)), λ q e. refl)
      ]
