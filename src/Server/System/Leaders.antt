-- ===== src/Server/System/Leaders.antt =====
-- Which controllers believe that they are primary, over whole runs.
use p4rt_standalone.Prelude.{ℕ, ◌≡◌, true, some, Elem}
use p4rt_standalone.Status.Code.{is_ok}
use p4rt_standalone.Proto.{MasterArbitrationUpdate, Uint128Api}
use p4rt_standalone.Controller.State.{World, SdnConnection}
use p4rt_standalone.Controller.Primary.{primary_status}
use p4rt_standalone.Controller.Requests.{allow_request}
use p4rt_standalone.Controller.Permission.{allow_request-IsPrimary}
use p4rt_standalone.Controller.Invariant.Defs.{IsPrimary, IsPrimary-unique, role_at, id_at}
use p4rt_standalone.Controller.Verdict.{Verdict-IsPrimary}
use p4rt_standalone.Controller.Views.Defs.{last_view}
use p4rt_standalone.Server.System.Steps.{System, Reach, start}
use p4rt_standalone.Server.System.Invariant.{Reach-start-IsValid}
use p4rt_standalone.Server.System.Pointers.{Careful}
use p4rt_standalone.Server.System.Views.{ProvidersSendNoArbitration, Reach-start-informed}

-- The latest arbitration message to the connection said that it is primary.
abbrev pub ToldPrimary : World → ℕ → Type 0
ToldPrimary w p =
    (u : MasterArbitrationUpdate) × (last_view p w.writes ≡ some u)
    × (u.status ≡ some primary_status)

module _ ⦃api : Uint128Api⦄ (memory : ℕ → SdnConnection) {t : System} (r : Reach (start memory) t)
    (c : Careful r) (n : ProvidersSendNoArbitration r) where
  told-IsPrimary :
      (p : ℕ) → Elem p t.world.connections → ToldPrimary t.world p → IsPrimary t.world p
  told-IsPrimary p m (u, h, g) =
      let (u', h', _, _, (s, g', v)) = Reach-start-informed memory r c n p m in
      Verdict-IsPrimary t.world p s v (cc (h, h', g, g'))

  -- If no connection is registered twice and the provider itself sends no arbitration messages, in
  -- every run from the start: a registered connection whose latest arbitration message says that it
  -- is primary is allowed its requests, and it is the only one of its role whose latest message
  -- says so.
  pub Reach-start-one_leader :
      (p : ℕ)
      → Elem p t.world.connections
      → ToldPrimary t.world p
      → (is_ok (allow_request (role_at t.world p) (id_at t.world p) t.world) ≡ true)
        × ((q : ℕ)
            → Elem q t.world.connections
            → role_at t.world p ≡ role_at t.world q
            → ToldPrimary t.world q
            → p ≡ q)
  Reach-start-one_leader p m a = (
    (allow_request-IsPrimary p t.world m).1 (told-IsPrimary p m a),
    λ q e same b.
        IsPrimary-unique (Reach-start-IsValid memory r) p q (told-IsPrimary p m a)
          (told-IsPrimary q e b) same,
  )
