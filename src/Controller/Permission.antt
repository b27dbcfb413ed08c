-- ===== src/Controller/Permission.antt =====
-- `AllowRequest`: whose requests are let through.
use p4rt_standalone.Prelude.{
  ℕ, String, ◌≡◌, ◌↔◌, ◌⊎◌, true, Option, arith, Elem, same_id_iff, has_value,
}
use p4rt_standalone.Status.Code.{StatusCode, is_ok}
use p4rt_standalone.Controller.State.{World, past}
use p4rt_standalone.Controller.Requests.{allow_request}
use p4rt_standalone.Controller.Invariant.Defs.{IsPrimary, role_at, id_at}

module _ (role : Option String) (id : Option ℕ) (w : World) where
  allowed : is_ok (allow_request role id w) ≡ true → (has_value id ≡ true) × (id ≡ past w role)
  unfolding allow_request
  allowed h = ground (arith, same_id_iff id (past w role))

  allowed_of : has_value id ≡ true → id ≡ past w role → is_ok (allow_request role id w) ≡ true
  unfolding allow_request
  allowed_of h e = ground (arith, same_id_iff id (past w role))

  -- A request is allowed exactly when it has an election ID and that is the highest one that the
  -- role has had; otherwise the code is PERMISSION_DENIED.
  pub allow_request_iff :
      ((is_ok (allow_request role id w) ≡ true) ↔ ((has_value id ≡ true) × (id ≡ past w role)))
      × ((is_ok (allow_request role id w) ≡ true)
          ⊎ ((allow_request role id w).error_code ≡ StatusCode.permission_denied))
  unfolding allow_request
  allow_request_iff = ((λ h. allowed h, λ h. allowed_of h.0 h.1), ground arith)

-- For a registered connection, its own role and election ID are allowed exactly if it is primary.
pub allow_request-IsPrimary :
    (p : ℕ) (w : World)
    → Elem p w.connections
    → (is_ok (allow_request (role_at w p) (id_at w p) w) ≡ true) ↔ IsPrimary w p
allow_request-IsPrimary p w m = (
  λ h. record { listed = m; set = (allowed _ _ w h).0; highest = (allowed _ _ w h).1 },
  λ a. allowed_of _ _ w a.set a.highest,
)
