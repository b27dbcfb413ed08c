-- ===== src/Server/System/Views.antt =====
-- What the controllers know, over whole runs.
use mathlib.Core.Option
use p4rt_standalone.Prelude.{
  ℕ, ◌≡◌, refl, sym, subst, ◌∙◌, none, some, Elem, same_number, same_number_iff, inl, inr,
  Bool-cases,
}
use p4rt_standalone.Proto.{RpcStatus, StreamMessageResponse, MasterArbitrationUpdate, Uint128Api}
use p4rt_standalone.Controller.State.{World, SdnConnection, past, new_connection, set_object}
use p4rt_standalone.Controller.Primary.{to_proto}
use p4rt_standalone.Controller.Invariant.Defs.{role_at}
use p4rt_standalone.Controller.Verdict.{Verdict, told, told-Verdict}
use p4rt_standalone.Controller.Views.Defs.{
  AllInformed, arbitration_of, last_view, last_view-other, view_of,
}
use p4rt_standalone.Controller.Views.Kept.{HasPrimary-FromBefore, exists_same, Informed-kept}
use p4rt_standalone.Controller.Views.Left.{disconnect-AllInformed}
use p4rt_standalone.Controller.Views.Arbitrated.{handle-AllInformed, message-AllInformed}
use p4rt_standalone.Server.System.Steps.{
  System, Step, Reach, start, open_stream, arbitrate, answer, message_primary, end_stream, here,
  next,
}
use p4rt_standalone.Server.System.Owned.{IsSafe}
use p4rt_standalone.Server.System.Pointers.{RegistersOnce, Careful, Reach-start-IsSafe}

module _ ⦃api : Uint128Api⦄ where
  -- A connection object is made anew at an address that is not listed.
  open-AllInformed :
      (p : ℕ) (w : World)
      → ¬ Elem p w.connections
      → AllInformed w
      → AllInformed (set_object p new_connection w)
  open-AllInformed p w new informed q m =
      Informed-kept w after q (kept q m) refl
        (exists_same (role_at w q) w after
          (HasPrimary-FromBefore (role_at w q) after w refl
            (λ x a r. (a.listed, sym (kept x a.listed))))
          (HasPrimary-FromBefore (role_at w q) w after refl (λ x a r. (a.listed, kept x a.listed))))
        refl (informed q m)
    where
      after : World
      after = set_object p new_connection w

      kept :
          (x : ℕ) → Elem x w.connections → (set_object p new_connection w).objects x ≡ w.objects x
      kept x e = elim (Bool-cases (same_number p x)) [
        | inl f ↦
            absurd (new (subst (λ y. Elem y w.connections) (sym ((same_number_iff p x).0 f)) e))
        | inr f ↦ rw f refl
      ]

  -- A step in which no provider sends an arbitration message.
  abbrev pub SendsNoArbitration : {s t : System} → Step s t → Type 0
  SendsNoArbitration (message_primary role response) = arbitration_of response ≡ none
  SendsNoArbitration _ = Unit {0}

  Step-AllInformed :
      {s t : System} (st : Step s t)
      → RegistersOnce st
      → SendsNoArbitration st
      → IsSafe s
      → AllInformed s.world
      → AllInformed t.world
  unfolding view_of told
  Step-AllInformed {s} (open_stream p n) o a v i =
      open-AllInformed p s.world (λ m. n (v.owned p m)) i
  Step-AllInformed {s} (arbitrate update p _) o a v i =
      handle-AllInformed update p s.world (λ m. o (v.registered p m)) i
  Step-AllInformed {s} (answer p e _) o a v i = λ q m.
      let (d, h) = i q m in
      (d, last_view-other q p (StreamMessageResponse.error e) s.world.writes (inr refl) ∙ h)
  Step-AllInformed {s} (message_primary role response) o a v i =
      message-AllInformed role response s.world a i
  Step-AllInformed {s} (end_stream p _) o a v i = disconnect-AllInformed p s.world v.distinct i

  -- In no step of the run a provider sends an arbitration message.
  abbrev pub ProvidersSendNoArbitration : {s t : System} → Reach s t → Type 0
  ProvidersSendNoArbitration here = Unit {0}
  ProvidersSendNoArbitration (next r st) = ProvidersSendNoArbitration r × SendsNoArbitration st

  Reach-AllInformed :
      (memory : ℕ → SdnConnection) {t : System} (r : Reach (start memory) t)
      → Careful r
      → ProvidersSendNoArbitration r
      → AllInformed t.world
  Reach-AllInformed memory here c n = λ q m. absurd m
  Reach-AllInformed memory (next r st) c n =
      Step-AllInformed st c.1 n.1 (Reach-start-IsSafe memory r c.0)
        (Reach-AllInformed memory r c.0 n.0)

  -- If no connection is registered twice and the provider itself sends no arbitration messages,
  -- then in every run from the start the latest arbitration message of each registered connection
  -- has its role, the role's highest election ID, and a status that says its rank as it is now.
  pub Reach-start-informed :
      (memory : ℕ → SdnConnection) {t : System} (r : Reach (start memory) t)
      → Careful r
      → ProvidersSendNoArbitration r
      → (q : ℕ) → Elem q t.world.connections
      → (u : MasterArbitrationUpdate) × (last_view q t.world.writes ≡ some u)
        × (u.role ≡ role_at t.world q)
        × (u.election_id ≡ Option.map to_proto (past t.world (role_at t.world q)))
        × ((s : RpcStatus) × (u.status ≡ some s) × Verdict t.world q s)
  unfolding view_of
  Reach-start-informed memory {t} r c n q m =
      let (d, h) = Reach-AllInformed memory r c n q m in
      (view_of d t.world q, h, refl, refl, (told t.world q, refl, told-Verdict t.world q m))
