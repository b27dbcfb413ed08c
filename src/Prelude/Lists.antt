-- ===== src/Prelude/Lists.antt =====
-- Lists of addresses: membership that computes, and the removal of the first occurrence.
use Prim.Native.Nat.{ℕ, zero, suc, ◌+◌, ◌≤◌}
use mathlib.Core.Bool.{Bool}
use mathlib.Core.Path.{◌≡◌, refl, ap}
use mathlib.Core.Logic.{◌≢◌, ◌⊎◌, inl, inr}
use mathlib.Core.List.{List, [], ◌∷◌, ◌++◌}
use native.Mathlib.Omega.{arith}
use p4rt_standalone.Prelude.Tests.{if◌then◌else◌, same_number}

-- `p` stands in the list, with the place where it stands.
abbrev pub Elem : ℕ → List ℕ → Type 0
Elem p [] = ⊥
Elem p (x ∷ xs) = (p ≡ x) ⊎ Elem p xs

-- No address stands in the list twice.
abbrev pub Distinct : List ℕ → Type 0
Distinct [] = Unit {0}
Distinct (x ∷ xs) = (¬ Elem x xs) × Distinct xs

-- `for (iter ...) if (*iter == a) { erase(iter); break; }`
unfoldable pub erase_first : ℕ → List ℕ → List ℕ
erase_first a [] = []
erase_first a (x ∷ xs) = if same_number x a then xs else x ∷ erase_first a xs

pub Elem-of_Elem-erase_first : (p a : ℕ) (xs : List ℕ) → Elem p (erase_first a xs) → Elem p xs
unfolding erase_first
Elem-of_Elem-erase_first p a [] m = m
Elem-of_Elem-erase_first p a (x ∷ xs) m = ground (arith, Elem-of_Elem-erase_first p a xs)

pub Elem-erase_first_ne : (p a : ℕ) (xs : List ℕ) → p ≢ a → Elem p xs → Elem p (erase_first a xs)
unfolding erase_first
Elem-erase_first_ne p a [] h m = m
Elem-erase_first_ne p a (x ∷ xs) h m = ground (arith, Elem-erase_first_ne p a xs)

-- From a list with no repetition the address is gone after one removal.
pub not-Elem-erase_first : (a : ℕ) (xs : List ℕ) → Distinct xs → ¬ Elem a (erase_first a xs)
unfolding erase_first
not-Elem-erase_first a [] d m = m
not-Elem-erase_first a (x ∷ xs) d m = ground (arith, not-Elem-erase_first a xs)

pub erase_first-Distinct : (a : ℕ) (xs : List ℕ) → Distinct xs → Distinct (erase_first a xs)
unfolding erase_first
erase_first-Distinct a [] d = d
erase_first-Distinct a (x ∷ xs) d =
    ground (arith, erase_first-Distinct a xs, Elem-of_Elem-erase_first x a xs)

pub Elem-append_one : (q p : ℕ) (ps : List ℕ) → Elem q (ps ++ p ∷ []) → (q ≡ p) ⊎ Elem q ps
Elem-append_one q p [] (inl e) = inl e
Elem-append_one q p [] (inr e) = absurd e
Elem-append_one q p (x ∷ ps) (inl e) = inr (inl e)
Elem-append_one q p (x ∷ ps) (inr e) = ground (arith, Elem-append_one q p ps e)

pub Elem-append_last : (p : ℕ) (ps : List ℕ) → Elem p (ps ++ p ∷ [])
Elem-append_last p [] = inl refl
Elem-append_last p (x ∷ ps) = inr (Elem-append_last p ps)

pub Elem-append_left : (q p : ℕ) (ps : List ℕ) → Elem q ps → Elem q (ps ++ p ∷ [])
Elem-append_left q p [] m = absurd m
Elem-append_left q p (x ∷ ps) (inl e) = inl e
Elem-append_left q p (x ∷ ps) (inr m) = inr (Elem-append_left q p ps m)

pub append_one-Distinct :
    (p : ℕ) (ps : List ℕ) → ¬ Elem p ps → Distinct ps → Distinct (ps ++ p ∷ [])
append_one-Distinct p [] n d = (λ e. e, tt)
append_one-Distinct p (x ∷ ps) n d =
    (λ e. ground (arith, Elem-append_one x p ps e), append_one-Distinct p ps (λ e. n (inr e)) d.1)

-- One removal does not clear a list in which the address stands twice.
pub Elem-erase_first-append :
    (p : ℕ) (ps : List ℕ) → Elem p ps → Elem p (erase_first p (ps ++ p ∷ []))
unfolding erase_first
Elem-erase_first-append p [] m = absurd m
Elem-erase_first-append p (x ∷ ps) m =
    ground (arith, Elem-append_last p ps, Elem-erase_first-append p ps)

pub append_one-ne : (p : ℕ) (ps : List ℕ) → ps ++ p ∷ [] ≢ ps
append_one-ne p [] e = cc
append_one-ne p (x ∷ ps) e = append_one-ne p ps (cc)

module _ {ℓ} {A : Type ℓ} where
  abbrev pub length : List A → ℕ
  length [] = 0
  length (x ∷ xs) = suc (length xs)

  abbrev pub take : ℕ → List A → List A
  take n [] = []
  take zero (x ∷ xs) = []
  take (suc n) (x ∷ xs) = x ∷ take n xs

  abbrev pub drop : ℕ → List A → List A
  drop n [] = []
  drop zero (x ∷ xs) = x ∷ xs
  drop (suc n) (x ∷ xs) = drop n xs

  pub take-append-drop : (n : ℕ) (xs : List A) → take n xs ++ drop (length (take n xs)) xs ≡ xs
  take-append-drop n [] = refl
  take-append-drop zero (x ∷ xs) = refl
  take-append-drop (suc n) (x ∷ xs) = ap (◌∷◌ x) (take-append-drop n xs)

  pub length-take-le : (n : ℕ) (xs : List A) → length (take n xs) ≤ n
  length-take-le n [] = omega arith
  length-take-le zero (x ∷ xs) = omega arith
  length-take-le (suc n) (x ∷ xs) = omega (arith, length-take-le n xs)

  pub length-drop-le : (n : ℕ) (xs : List A) → length (drop n xs) ≤ length xs
  length-drop-le n [] = omega arith
  length-drop-le zero (x ∷ xs) = omega arith
  length-drop-le (suc n) (x ∷ xs) = omega (arith, length-drop-le n xs)

  pub length-append_one : (xs : List A) (x : A) → length (xs ++ x ∷ []) ≡ suc (length xs)
  length-append_one [] x = refl
  length-append_one (y ∷ xs) x = ap suc (length-append_one xs x)

  -- How many elements pass the test.
  abbrev pub count : (A → Bool) → List A → ℕ
  count test [] = 0
  count test (x ∷ xs) = (if test x then 1 else 0) + count test xs

  pub count-append :
      (test : A → Bool) (xs ys : List A) → count test (xs ++ ys) ≡ count test xs + count test ys
  count-append test [] ys = omega arith
  count-append test (x ∷ xs) ys = omega (arith, count-append test xs ys)

  pub length-take-drop :
      (n : ℕ) (xs : List A) → length (take n xs) + length (drop (length (take n xs)) xs) ≡ length xs
  length-take-drop n [] = refl
  length-take-drop zero (x ∷ xs) = omega arith
  length-take-drop (suc n) (x ∷ xs) = omega (arith, length-take-drop n xs)

  -- A piece is as long as it was to be, or the whole list.
  pub length-take-cases :
      (n : ℕ) (xs : List A) → (length (take n xs) ≡ n) ⊎ (length (take n xs) ≡ length xs)
  length-take-cases n [] = inr refl
  length-take-cases zero (x ∷ xs) = inl refl
  length-take-cases (suc n) (x ∷ xs) = elim (length-take-cases n xs) [
    | inl e ↦ inl (ap suc e)
    | inr e ↦ inr (ap suc e)
  ]
