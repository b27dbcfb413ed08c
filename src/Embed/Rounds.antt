-- ===== src/Embed/Rounds.antt =====
-- How often the loop of GenerateImpl over the bytes of a file is run.
use p4rt_standalone.Prelude.{
  ℕ, zero, suc, ◌+◌, ◌*◌, ◌≤◌, ◌≡◌, refl, ap, List, [], ◌∷◌, arith, length, take, drop,
  length-take-le, length-drop-le, length-take-drop, length-take-cases, inl, inr,
}
use p4rt_standalone.Embed.Text.{lines, max_bytes_per_line}

-- More fuel than there are bytes changes nothing.
lines_fuel :
    (fuel more n : ℕ) (bs : List ℕ)
    → length bs ≤ fuel
    → length bs ≤ more
    → lines fuel (suc n) bs ≡ lines more (suc n) bs
unfolding lines
lines_fuel zero zero n bs h k = refl
lines_fuel zero (suc more) n [] h k = refl
lines_fuel zero (suc more) n (b ∷ bs) h k = absurd (omega arith)
lines_fuel (suc fuel) zero n [] h k = refl
lines_fuel (suc fuel) zero n (b ∷ bs) h k = absurd (omega arith)
lines_fuel (suc fuel) (suc more) n [] h k = refl
lines_fuel (suc fuel) (suc more) n (b ∷ bs) h k =
    let left = length-drop-le {0} (length (take n bs)) bs in
    ap (◌∷◌ (b ∷ take n bs)) (
      lines_fuel fuel more n (drop (length (take n bs)) bs) (omega (arith, left))
        (omega (arith, left)))

no_round : (rounds n : ℕ) → rounds * suc n ≤ n → rounds * suc n ≡ 0
no_round zero n h = omega arith
no_round (suc rounds) n h = absurd (omega arith)

-- Every round but the last takes a whole line.
lines_rounds :
    (fuel n : ℕ) (bs : List ℕ)
    → length bs ≤ fuel
    → (length bs ≤ length (lines fuel (suc n) bs) * suc n)
      × (length (lines fuel (suc n) bs) * suc n ≤ length bs + n)
unfolding lines
lines_rounds zero n [] h = (omega arith, omega arith)
lines_rounds zero n (b ∷ bs) h = absurd (omega arith)
lines_rounds (suc fuel) n [] h = (omega arith, omega arith)
lines_rounds (suc fuel) n (b ∷ bs) h =
    let cut = length-take-drop {0} n bs in
    let (low, high) = lines_rounds fuel n (drop (length (take n bs)) bs) (omega (arith, cut)) in
    (
      omega (arith, cut, low, length-take-le {0} n bs),
      elim (length-take-cases {0} n bs) [
        | inl full ↦ omega (arith, cut, high, full)
        | inr short ↦ omega (
          arith,
          cut,
          short,
          no_round (length (lines fuel (suc n) (drop (length (take n bs)) bs))) n
              (omega (arith, cut, high, short)),
        )
      ],
    )

-- The loop over the bytes of a file ends: fuel for each byte is enough, as more of it gives the
-- same lines, and the rounds are the length of the file divided by 1024, rounded up.
pub lines_terminate :
    (fuel : ℕ) (contents : List ℕ)
    → length contents ≤ fuel
    → (lines fuel max_bytes_per_line contents ≡ lines (length contents) max_bytes_per_line contents)
      × (length contents ≤ length (lines fuel max_bytes_per_line contents) * 1024)
      × (length (lines fuel max_bytes_per_line contents) * 1024 ≤ length contents + 1023)
lines_terminate fuel contents h =
    let (low, high) = lines_rounds fuel 1023 contents h in
    (lines_fuel fuel (length contents) 1023 contents h (omega arith), low, high)
