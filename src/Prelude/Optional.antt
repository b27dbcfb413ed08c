-- ===== src/Prelude/Optional.antt =====
-- Optional values as the standard library compares them: an empty one is below every other.
use Prim.Native.Nat.{ℕ, ◌≤◌}
use Prim.Native.String.{String}
use mathlib.Core.Path.{◌≡◌, refl, ap}
use mathlib.Core.Logic.{◌↔◌}
use mathlib.Core.Bool.{Bool, true, false}
use mathlib.Core.Option.{Option, none, some}
use native.Mathlib.Omega.{arith}
use text.Mathlib.Text.{◌==◌}
use text.Mathlib.TextEquality.{eq_iff}
use p4rt_standalone.Prelude.Tests.{ltb, same_number, same_number_iff, if◌then◌else◌}

-- `o.has_value()`
abbrev pub has_value {ℓ} : {A : Type ℓ} → Option A → Bool
has_value none = false
has_value (some a) = true

-- `a == b` on role names and on election IDs.
unfoldable pub same_role : Option String → Option String → Bool
same_role none none = true
same_role (some a) (some b) = a == b
same_role _ _ = false

unfoldable pub same_id : Option ℕ → Option ℕ → Bool
same_id none none = true
same_id (some a) (some b) = same_number a b
same_id _ _ = false

-- `a < b`
abbrev pub opt_ltb : Option ℕ → Option ℕ → Bool
opt_ltb a none = false
opt_ltb none (some b) = true
opt_ltb (some a) (some b) = ltb a b

-- `std::max(a, b)`
abbrev pub opt_max : Option ℕ → Option ℕ → Option ℕ
opt_max a b = if opt_ltb a b then b else a

-- The order that `opt_ltb` decides, weakly.
abbrev pub OptLe : Option ℕ → Option ℕ → Type 0
OptLe none b = Unit {0}
OptLe (some a) none = ⊥
OptLe (some a) (some b) = a ≤ b

pub OptLe-refl : (a : Option ℕ) → OptLe a a
OptLe-refl none = tt
OptLe-refl (some a) = omega arith

pub OptLe-trans : (a b c : Option ℕ) → OptLe a b → OptLe b c → OptLe a c
OptLe-trans none b c h k = tt
OptLe-trans (some a) none c h k = absurd h
OptLe-trans (some a) (some b) none h k = absurd k
OptLe-trans (some a) (some b) (some c) h k = omega arith

pub OptLe-max_left : (a b : Option ℕ) → OptLe a (opt_max a b)
OptLe-max_left none b = tt
OptLe-max_left (some a) none = omega arith
OptLe-max_left (some a) (some b) = ground arith

pub OptLe-max_right : (a b : Option ℕ) → OptLe b (opt_max a b)
OptLe-max_right a none = tt
OptLe-max_right none (some b) = omega arith
OptLe-max_right (some a) (some b) = ground arith

pub opt_max-least : (a b c : Option ℕ) → OptLe a c → OptLe b c → OptLe (opt_max a b) c
opt_max-least none none c h k = tt
opt_max-least none (some b) c h k = k
opt_max-least (some a) none c h k = h
opt_max-least (some a) (some b) none h k = absurd h
opt_max-least (some a) (some b) (some c) h k = ground arith

pub OptLe-antisymm : (a b : Option ℕ) → OptLe a b → OptLe b a → a ≡ b
OptLe-antisymm none none h k = refl
OptLe-antisymm none (some b) h k = absurd k
OptLe-antisymm (some a) none h k = absurd h
OptLe-antisymm (some a) (some b) h k = ap some (omega arith)

pub same_role_iff : (a b : Option String) → (same_role a b ≡ true) ↔ (a ≡ b)
unfolding same_role
same_role_iff none none = (λ _. refl, λ _. refl)
same_role_iff none (some b) = (λ e. cc, λ e. cc)
same_role_iff (some a) none = (λ e. cc, λ e. cc)
same_role_iff (some a) (some b) = (λ e. ap some ((eq_iff a b).0 e), λ e. (eq_iff a b).1 (cc))

pub same_id_iff : (a b : Option ℕ) → (same_id a b ≡ true) ↔ (a ≡ b)
unfolding same_id
same_id_iff none none = (λ _. refl, λ _. refl)
same_id_iff none (some b) = (λ e. cc, λ e. cc)
same_id_iff (some a) none = (λ e. cc, λ e. cc)
same_id_iff (some a) (some b) =
    (λ e. ap some ((same_number_iff a b).0 e), λ e. (same_number_iff a b).1 (cc))

roles_told_apart : (same_role (some "a") (some "b") ≡ false) × (same_role none (some "") ≡ false)
unfolding same_role
roles_told_apart = (refl, refl)

pub le_not_above : (a b : Option ℕ) → OptLe b a → opt_ltb a b ≡ false
le_not_above a none h = refl
le_not_above none (some b) h = absurd h
le_not_above (some a) (some b) h = ground arith
