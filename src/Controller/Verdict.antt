-- ===== src/Controller/Verdict.antt =====
-- What `SendArbitrationResponse` tells a connection about its rank.
use mathlib.Core.Option
use mathlib.Core.Bool.{false≢true}
use p4rt_standalone.Prelude.{
  ℕ, String, ◌≡◌, refl, sym, ap, ◌∙◌, Bool, true, false, Option, some, List, [], ◌∷◌, ◌++◌, arith,
  Elem, same_id, same_role_iff, same_id_iff, has_value, inl, inr, Bool-cases,
}
use p4rt_standalone.Proto.{RpcStatus, StreamMessageResponse, Uint128Api}
use p4rt_standalone.Controller.State.{World, SdnConnection, past}
use p4rt_standalone.Controller.Primary.{
  holds, find_primary, connection_status, primary_status, backup_status, no_primary_status,
  send_arbitration_response, to_proto,
}
use p4rt_standalone.Controller.Delivery.{response_for, writes-send}
use p4rt_standalone.Controller.Invariant.Defs.{IsPrimary, HasPrimary, role_at, id_at}

pub holds_iff :
    (role : Option String) (id : Option ℕ) (c : SdnConnection)
    → holds role id c ≡ true
    → (c.role_name ≡ role) × (c.election_id ≡ id)
holds_iff role id c h = ground (arith, same_role_iff c.role_name role, same_id_iff c.election_id id)

pub holds_of :
    (role : Option String) (id : Option ℕ) (c : SdnConnection)
    → c.role_name ≡ role
    → c.election_id ≡ id
    → holds role id c ≡ true
holds_of role id c h k =
    ground (arith, same_role_iff c.role_name role, same_id_iff c.election_id id)

-- What a hit of `PrimaryConnectionExists` has found.
find_primary_found :
    (role : Option String) (id : Option ℕ) (objects : ℕ → SdnConnection) (ps : List ℕ)
    → find_primary role id objects ps ≡ true
    → (q : ℕ) × Elem q ps
      × ((objects q).role_name ≡ role)
      × ((objects q).election_id ≡ id)
      × (has_value id ≡ true)
unfolding find_primary
find_primary_found role id objects [] h = cc
find_primary_found role id objects (p ∷ ps) h = elim (Bool-cases (holds role id (objects p))) [
  | inl e ↦ (
    p,
    inl refl,
    (holds_iff role id (objects p) e).0,
    (holds_iff role id (objects p) e).1,
    rw (e, find_primary) at h,
  )
  | inr e ↦
      let (q, m, r, i, v) = find_primary_found role id objects ps (rw (e, find_primary) at h) in
      (q, inr m, r, i, v)
]

find_primary_missed :
    (role : Option String) (id : Option ℕ) (objects : ℕ → SdnConnection) (ps : List ℕ) (q : ℕ)
    → find_primary role id objects ps ≡ false
    → Elem q ps
    → (objects q).role_name ≡ role
    → (objects q).election_id ≡ id
    → has_value id ≡ false
unfolding find_primary
find_primary_missed role id objects [] q h m r i = absurd m
find_primary_missed role id objects (p ∷ ps) q h (inl e) r i =
    ground (arith, holds_of role id (objects q) r i)
find_primary_missed role id objects (p ∷ ps) q h (inr e) r i =
    ground (arith, find_primary_missed role id objects ps q)

abbrev pub primary_exists : Option String → World → Bool
primary_exists role w = find_primary role (past w role) w.objects w.connections

pub primary_of_exists :
    (role : Option String) (w : World) → primary_exists role w ≡ true → HasPrimary w role
primary_of_exists role w h =
    let (q, m, r, i, v) = find_primary_found role (past w role) w.objects w.connections h in
    (
      q,
      record {
        listed = m;
        set = ap has_value i ∙ v;
        highest = i ∙ ap (λ (n : Option String). past w n) (sym r);
      },
      r,
    )

pub no_primary_of_not_exists :
    (role : Option String) (w : World) → primary_exists role w ≡ false → ¬ HasPrimary w role
no_primary_of_not_exists role w h (q, a, e) =
    let i : id_at w q ≡ past w role = a.highest ∙ ap (λ (n : Option String). past w n) e in
    let v = find_primary_missed role (past w role) w.objects w.connections q h a.listed e i in
    false≢true (sym v ∙ ap has_value (sym i) ∙ a.set)

-- The three things that a registered connection can be told, each with what it means.
pub data Verdict (w : World) (p : ℕ) (s : RpcStatus) : Type 0 where
  primary : s ≡ primary_status → IsPrimary w p → Verdict w p s
  backup : s ≡ backup_status → ¬ IsPrimary w p → HasPrimary w (role_at w p) → Verdict w p s
  leaderless : s ≡ no_primary_status → ¬ HasPrimary w (role_at w p) → Verdict w p s

-- A verdict with this status is right.
pub Verdict-IsPrimary :
    (w : World) (p : ℕ) (s : RpcStatus) → Verdict w p s → s ≡ primary_status → IsPrimary w p
Verdict-IsPrimary w p s (primary e a) h = a
Verdict-IsPrimary w p s (backup e _ _) h = cc (ap (λ (x : RpcStatus). x.code) (sym e ∙ h))
Verdict-IsPrimary w p s (leaderless e _) h = cc (ap (λ (x : RpcStatus). x.code) (sym e ∙ h))

-- The status that a connection is told.
unfoldable pub told : World → ℕ → RpcStatus
told w p = connection_status (primary_exists (role_at w p) w) (past w (role_at w p)) (id_at w p)

pub told-Verdict : (w : World) (p : ℕ) → Elem p w.connections → Verdict w p (told w p)
unfolding told connection_status
told-Verdict w p m = elim (Bool-cases (primary_exists (role_at w p) w)) [
  | inl e ↦
      let (q, a, r) = primary_of_exists (role_at w p) w e in
      elim (Bool-cases (same_id (past w (role_at w p)) (id_at w p))) [
        | inl f ↦
            let g = (same_id_iff (past w (role_at w p)) (id_at w p)).0 f in
            primary (rw (e, f)) (record {
              listed = m;
              set =
                  ap has_value
                    (sym g ∙ ap (λ (n : Option String). past w n) (sym r) ∙ sym a.highest)
                  ∙ a.set;
              highest = sym g;
            })
        | inr f ↦
            backup (rw (e, f))
              (λ b.
                false≢true
                  (sym f ∙ (same_id_iff (past w (role_at w p)) (id_at w p)).1 (sym b.highest)))
              (q, a, r)
      ]
  | inr e ↦ leaderless (rw e) (no_primary_of_not_exists (role_at w p) w e)
]

module _ ⦃api : Uint128Api⦄ where
  -- SendArbitrationResponse to a registered connection writes one message to it, with the device,
  -- its role, the highest election ID of the role and a status, which says primary, backup or no
  -- primary exactly when that is so.
  pub send_arbitration_response-Verdict :
      (p : ℕ) (w : World)
      → Elem p w.connections
      → (s : RpcStatus) × ((send_arbitration_response p w).writes
          ≡ w.writes
            ++ (
              p,
              StreamMessageResponse.arbitration (record {
                device_id = w.device_id;
                role = role_at w p;
                election_id = Option.map to_proto (past w (role_at w p));
                status = some s;
              }),
            )
              ∷ [])
        × Verdict w p s
  send_arbitration_response-Verdict p w m =
      (told w p, unfold told response_for in writes-send p w, told-Verdict w p m)
