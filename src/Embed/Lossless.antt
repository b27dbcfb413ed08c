-- ===== src/Embed/Lossless.antt =====
-- That the generated arrays hold the files.
use mathlib.Core.Option
use text.Mathlib.Text.{◌==◌}
use p4rt_standalone.Prelude.{
  Option, none, some, ◌&&◌, if◌then◌else◌, ℕ, zero, suc, ◌≤◌, ◌≡◌, refl, ap, ◌∙◌, String, List, [],
  ◌∷◌, ◌++◌, arith, length, take, drop, take-append-drop, length-take-le, length-drop-le,
}
use p4rt_standalone.Embed.Api.{TextApi}
use p4rt_standalone.Embed.Text.{lines, quoted, data_lines, max_bytes_per_line}

abbrev join : List (List ℕ) → List ℕ
join [] = []
join (line ∷ rest) = line ++ join rest

-- The loop cuts off nothing but the lines, and with fuel for every byte it comes to the end.
join-lines : (fuel n : ℕ) (bs : List ℕ) → length bs ≤ fuel → join (lines fuel (suc n) bs) ≡ bs
unfolding lines
join-lines zero n [] h = refl
join-lines zero n (b ∷ bs) h = absurd (omega arith)
join-lines (suc fuel) n [] h = refl
join-lines (suc fuel) n (b ∷ bs) h =
    ap (λ (rest : List ℕ). b ∷ take n bs ++ rest)
      (join-lines fuel n (drop (length (take n bs)) bs)
        (omega (arith, length-drop-le {0} (length (take n bs)) bs)))
    ∙ ap (◌∷◌ b) (take-append-drop n bs)

-- Every line is as long as it should be.
abbrev LineSizes : ℕ → List (List ℕ) → Type 0
LineSizes n [] = Unit {0}
LineSizes n (line ∷ rest) = (1 ≤ length line) × (length line ≤ n) × LineSizes n rest

lines-LineSizes : (fuel n : ℕ) (bs : List ℕ) → LineSizes (suc n) (lines fuel (suc n) bs)
unfolding lines
lines-LineSizes zero n bs = tt
lines-LineSizes (suc fuel) n [] = tt
lines-LineSizes (suc fuel) n (b ∷ bs) = (
  omega arith,
  omega (arith, length-take-le {0} n bs),
  lines-LineSizes fuel n (drop (length (take n bs)) bs),
)

module _ ⦃api : TextApi⦄ where
  -- What a compiler reads: on each line a literal between two quotes, and adjacent ones are joined;
  -- nothing if a quote or the end of a line is missing.
  abbrev pub read_back : List String → Option (List ℕ)
  read_back [] = some []
  read_back (quote ∷ text ∷ end ∷ rest) =
      let later = read_back rest in
      if (quote == "\"") && (end == "\"\n")
      then Option.map (λ bytes. api.literal text ++ bytes) later
      else none
  read_back _ = none

  -- The texts are literals on lines of their own, each of which denotes 1 to `n` bytes.
  abbrev pub LiteralSizes : ℕ → List String → Type 0
  LiteralSizes n [] = Unit {0}
  LiteralSizes n (quote ∷ text ∷ end ∷ rest) =
      (quote ≡ "\"")
      × (end ≡ "\"\n")
      × (1 ≤ length (api.literal text))
      × (length (api.literal text) ≤ n)
      × LiteralSizes n rest
  LiteralSizes n _ = ⊥

  read_back-quoted : (ls : List (List ℕ)) → read_back (quoted ls) ≡ some (join ls)
  read_back-quoted [] = refl
  read_back-quoted (l ∷ ls) =
      rw (read_back-quoted ls)
        (ap (λ (bytes : List ℕ). some (bytes ++ join ls)) (api.literal-c_hex_escape l))

  quoted-LiteralSizes : (n : ℕ) (ls : List (List ℕ)) → LineSizes n ls → LiteralSizes n (quoted ls)
  quoted-LiteralSizes n [] h = tt
  quoted-LiteralSizes n (l ∷ ls) h =
      rw (api.literal-c_hex_escape l) (refl, refl, h.0, h.1, quoted-LiteralSizes n ls h.2)

  -- The texts that are generated for a file are literals between quotes, each on a line of its own,
  -- which denote, joined, the bytes of the file; and each of them denotes 1 to 1024 bytes, so that
  -- an empty file has none.
  pub data_lines-lossless :
      (contents : List ℕ)
      → (read_back (data_lines contents) ≡ some contents) × LiteralSizes 1024 (data_lines contents)
  unfolding data_lines
  data_lines-lossless contents = (
    read_back-quoted (lines (length contents) max_bytes_per_line contents)
        ∙ ap some (join-lines (length contents) 1023 contents (omega arith)),
    quoted-LiteralSizes 1024 (lines (length contents) max_bytes_per_line contents)
        (lines-LineSizes (length contents) 1023 contents),
  )
