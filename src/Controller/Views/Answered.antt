-- ===== src/Controller/Views/Answered.antt =====
-- How many messages an arbitration writes, and what its own connection is answered.
use mathlib.Core.Option
use mathlib.Core.List.{append-nil}
use p4rt_standalone.Prelude.{
  ◌⊎◌, ℕ, suc, String, ◌≡◌, ◌≤◌, refl, sym, ap, ◌∙◌, true, false, Option, some, List, [], ◌∷◌, ◌++◌,
  arith, Elem, Elem-append_last, length, length-append_one, same_role, inl, inr, Bool-cases,
}
use p4rt_standalone.Status.Code.{GrpcStatus, is_ok}
use p4rt_standalone.Proto.{RpcStatus, MasterArbitrationUpdate, StreamMessageResponse, Uint128Api}
use p4rt_standalone.Controller.State.{World, SdnConnection, past}
use p4rt_standalone.Controller.Primary.{to_proto, send_arbitration_response}
use p4rt_standalone.Controller.Arbitration.{
  accept, handle_arbitration_update, role_of_update, set_device_id, of_proto,
}
use p4rt_standalone.Controller.Delivery.{recipients, messages, response_for, writes-send}
use p4rt_standalone.Controller.Frame.{SameState, send_arbitration_response-SameState}
use p4rt_standalone.Controller.Invariant.Defs.{role_at, id_at}
use p4rt_standalone.Controller.Outcome.Cases.{
  Outcome, unchanged, refused, accepted, handle-Outcome, status_of_accept,
}
use p4rt_standalone.Controller.Outcome.Accepted.{accept_connections, accept_object, accept_cases}
use p4rt_standalone.Controller.Verdict.{Verdict, told, told-Verdict}
use p4rt_standalone.Controller.Views.Defs.{
  last_view, last_view_self, last_view-messages, view_of, response_for-view, Elem-recipients,
}
use p4rt_standalone.Controller.Views.Kept.{view-SameState}

length-recipients-le :
    (role : Option String) (objects : ℕ → SdnConnection) (ps : List ℕ)
    → length (recipients role objects ps) ≤ length ps
unfolding recipients
length-recipients-le role objects [] = omega arith
length-recipients-le role objects (p ∷ ps) =
    let ih = length-recipients-le role objects ps in
    elim (Bool-cases (same_role (objects p).role_name role)) [
      | inl e ↦ rw e (omega arith)
      | inr e ↦ rw e (omega arith)
    ]

module _ ⦃api : Uint128Api⦄ where
  length-messages : (w : World) (ps : List ℕ) → length (messages w ps) ≡ length ps
  unfolding messages
  length-messages w [] = refl
  length-messages w (p ∷ ps) = ap suc (length-messages w ps)

  -- The connection is registered with the role and the election ID, and among these messages, the
  -- last arbitration message to it is right about the state.
  pub record Answer (w : World) (p : ℕ) (role : Option String) (id : Option ℕ)
      (new : List (ℕ × StreamMessageResponse)) : Type 0 where
    pub listed : Elem p w.connections
    pub registered_role : role_at w p ≡ role
    pub registered_id : id_at w p ≡ id
    pub update : MasterArbitrationUpdate
    pub status : RpcStatus
    pub last : last_view p new ≡ some update
    pub device_id : update.device_id ≡ w.device_id
    pub role_name : update.role ≡ role
    pub election_id : update.election_id ≡ Option.map to_proto (past w role)
    pub told_status : update.status ≡ some status
    pub verdict : Verdict w p status

  Answer-of_view :
      (w : World) (p : ℕ) (role : Option String) (id : Option ℕ)
      (new : List (ℕ × StreamMessageResponse))
      → role_at w p ≡ role
      → id_at w p ≡ id
      → Elem p w.connections
      → last_view p new ≡ some (view_of w.device_id w p)
      → Answer w p role id new
  unfolding view_of
  Answer-of_view w p role id new r i m h = record {
    listed = m;
    registered_role = r;
    registered_id = i;
    update = view_of w.device_id w p;
    status = told w p;
    last = h;
    device_id = refl;
    role_name = r;
    election_id = ap (λ (n : Option String). Option.map to_proto (past w n)) r;
    told_status = refl;
    verdict = told-Verdict w p m;
  }

  -- What an arbitration with a result wrote.
  abbrev pub Wrote : World → ℕ → Option String → Option ℕ → GrpcStatus × World → Type 0
  Wrote w p role id r =
      (new : List (ℕ × StreamMessageResponse)) × (r.1.writes ≡ w.writes ++ new)
      × (length new ≤ suc (length w.connections))
      × (((is_ok r.0 ≡ false) × (new ≡ [])) ⊎ ((is_ok r.0 ≡ true) × Answer r.1 p role id new))

  alone :
      (w : World) (p : ℕ)
      → last_view p ((p, response_for w p) ∷ []) ≡ some (view_of w.device_id w p)
  alone w p =
      ap (λ (x : StreamMessageResponse). last_view p ((p, x) ∷ [])) (response_for-view w p)
      ∙ last_view_self p (view_of w.device_id w p) []

  module _ (p : ℕ) (role : Option String) (id : Option ℕ) (w : World) where
    accept-Answer :
        (new : List (ℕ × StreamMessageResponse))
        → last_view p new ≡ some (view_of (accept p role id w).1.device_id (accept p role id w).1 p)
        → Answer (accept p role id w).1 p role id new
    accept-Answer new h =
        Answer-of_view (accept p role id w).1 p role id new
          (ap (λ (c : SdnConnection). c.role_name) (accept_object p role id w))
          (ap (λ (c : SdnConnection). c.election_id) (accept_object p role id w))
          (rw (accept_connections p role id w) (Elem-append_last p w.connections)) h

    accept-Wrote : Wrote w p role id (accept p role id w)
    accept-Wrote = elim (accept_cases p role id w) [
      | inl e ↦ (
        _,
        e,
        omega (
          arith,
          length-messages after (recipients role after.objects after.connections),
          length-recipients-le role after.objects after.connections,
          ap (length {A = ℕ}) (accept_connections p role id w),
          length-append_one w.connections p,
        ),
        inr (
          ok,
          accept-Answer _ (elim (last_view-messages p after _) [
            | inl seen ↦ seen
            | inr (_, missing) ↦ absurd (
                missing (
                  Elem-recipients role after.objects after.connections p
                    (rw (accept_connections p role id w) (Elem-append_last p w.connections))
                    (ap (λ (c : SdnConnection). c.role_name) (accept_object p role id w))))
          ]),
        ),
      )
      | inr (e, _, _) ↦ (_, e, omega arith, inr (ok, accept-Answer _ (alone after p)))
    ]
      where
        after : World
        after = (accept p role id w).1

        ok : is_ok (accept p role id w).0 ≡ true
        ok = ap is_ok (status_of_accept p role id w)

    Outcome-Wrote :
        (r : GrpcStatus × World)
        → ((w.objects p).initialized ≡ true → Elem p w.connections)
        → Outcome p role id w r
        → Wrote w p role id r
    Outcome-Wrote r listed (unchanged a e) = rw e (
      _,
      writes-send p w,
      omega arith,
      inr (
        refl,
        Answer-of_view after p role id _
            (ap (λ (o : ℕ → SdnConnection). (o p).role_name) same.objects ∙ a.role_name)
            (ap (λ (o : ℕ → SdnConnection). (o p).election_id) same.objects ∙ a.election_id)
            (rw same.connections (listed a.initialized))
            (alone w p
              ∙ ap some (
                  sym (view-SameState w after same p w.device_id)
                  ∙ ap (λ (d : ℕ). view_of d after p) (sym same.device_id))),
      ),
    )
      where
        after : World
        after = send_arbitration_response p w

        same : SameState w (send_arbitration_response p w)
        same = send_arbitration_response-SameState p w
    Outcome-Wrote r listed (refused _ _ _ _ _ _ e) =
        rw e ([], sym (append-nil w.writes), omega arith, inl (refl, refl))
    Outcome-Wrote r listed (accepted _ _ _ e) = rw e accept-Wrote

module _ ⦃api : Uint128Api⦄ (update : MasterArbitrationUpdate) (p : ℕ) (w : World) where
  -- An update from a connection that is listed if it is initialized writes at most one message more
  -- than there are connections before; if it is refused, none; if accepted, the caller is
  -- registered with its role and ID, and the last arbitration message to it has the role's highest
  -- ID and its rank.
  pub handle-Wrote :
      ((w.objects p).initialized ≡ true → Elem p w.connections)
      → Wrote w p
          (role_of_update update)
          (Option.map of_proto update.election_id)
          (handle_arbitration_update update p w)
  handle-Wrote listed =
      Outcome-Wrote p _ _ (set_device_id update.device_id w) _ listed (handle-Outcome update p w)
