-- ===== src/Server/System/Invariant.antt =====
-- What holds in every reachable state.
use p4rt_standalone.Prelude.{ℕ, ◌≡◌, refl, true, false, arith, same_number}
use p4rt_standalone.Proto.{Uint128Api}
use p4rt_standalone.Controller.State.{World, SdnConnection, new_connection, set_object}
use p4rt_standalone.Controller.Invariant.Defs.{IsValid, SameState-IsValid}
use p4rt_standalone.Controller.Invariant.Steps.{
  handle_arbitration_update-IsValid, disconnect-IsValid, send_to_primary-SameState,
}
use p4rt_standalone.Server.System.Steps.{
  System, Step, Reach, start, open_stream, arbitrate, answer, message_primary, end_stream, here,
  next,
}

-- An object at any place may be made anew: a new connection has neither role nor election ID.
module _ (p : ℕ) (w : World) (v : IsValid w) where
  fresh :
      (q : ℕ) → same_number p q ≡ true → (set_object p new_connection w).objects q ≡ new_connection
  fresh q e = rw e refl

  kept : (q : ℕ) → same_number p q ≡ false → (set_object p new_connection w).objects q ≡ w.objects q
  kept q e = rw e refl

  pub open-IsValid : IsValid (set_object p new_connection w)
  open-IsValid = record {
    named = λ q e h. ground (arith, v.named q e);
    unique = λ q r e f g h k. ground (arith, v.unique q r e f);
    bounded = λ q e. ground (arith, v.bounded q e);
    nameless = v.nameless;
  }

module _ ⦃api : Uint128Api⦄ where
  Step-IsValid : {s t : System} → Step s t → IsValid s.world → IsValid t.world
  Step-IsValid {s} (open_stream p _) v = open-IsValid p s.world v
  Step-IsValid {s} (arbitrate update p _) v = handle_arbitration_update-IsValid update p s.world v
  Step-IsValid {s} (answer p response _) v = record {
    named = v.named;
    unique = v.unique;
    bounded = v.bounded;
    nameless = v.nameless;
  }
  Step-IsValid {s} (message_primary role response) v =
      SameState-IsValid (send_to_primary-SameState role response s.world) v
  Step-IsValid {s} (end_stream p _) v = disconnect-IsValid p s.world v

  Reach-IsValid : {s t : System} → Reach s t → IsValid s.world → IsValid t.world
  Reach-IsValid here v = v
  Reach-IsValid (next r st) v = Step-IsValid st (Reach-IsValid r v)

  pub start-IsValid : (memory : ℕ → SdnConnection) → IsValid (start memory).world
  start-IsValid memory = record {
    named = λ q e. absurd e;
    unique = λ q r e. absurd e;
    bounded = λ q e. absurd e;
    nameless = refl;
  }

  -- In every run from the start, no registered connection has the empty role name, which has no
  -- highest election ID; two of one role never have the same election ID; and none has an ID above
  -- the highest that the manager has noted for its role.
  pub Reach-start-IsValid :
      (memory : ℕ → SdnConnection) {t : System} → Reach (start memory) t → IsValid t.world
  Reach-start-IsValid memory r = Reach-IsValid r (start-IsValid memory)
