-- ===== src/Embed/Exit.antt =====
-- The exit code of the generator.
use p4rt_standalone.Prelude.{
  ℕ, suc, ◌≤◌, ◌≡◌, ◌≢◌, ◌↔◌, refl, String, true, false, none, some, List, [], ◌∷◌, map, arith, ltb,
  Bool-cases, Option-cases, inl, inr, ◌⊎◌,
}
use text.Mathlib.Text.{◌==◌ as str_eq}
use text.Mathlib.TextEquality.{eq_iff}
use p4rt_standalone.Embed.Api.{TextApi, FileApi, Flags}
use p4rt_standalone.Embed.Generate.{
  max_size, slurp_file, arrays, generate_header, header_text, generate_impl,
}
use p4rt_standalone.Embed.Main.{toc_name, write_impl, main}

module _ ⦃files : FileApi⦄ where
  -- The file's size is at most 100 million bytes, and it can be read.
  abbrev Readable : String → Type 0
  Readable file_name =
      (size : ℕ) × (files.size file_name ≡ some size)
      × (size ≤ 100000000)
      × ((bytes : List ℕ) × (files.bytes file_name size ≡ some bytes))

  abbrev AllReadable : List String → Type 0
  AllReadable [] = Unit {0}
  AllReadable (input ∷ inputs) = Readable input × AllReadable inputs

  slurp_file-Readable :
      (file_name : String) {bytes : List ℕ} → slurp_file file_name ≡ some bytes → Readable file_name
  unfolding slurp_file
  slurp_file-Readable file_name {bytes} h = elim (Option-cases (files.size file_name)) [
    | inl e ↦ cc (rw (e, slurp_file) at h)
    | inr (size, e) ↦ elim (Bool-cases (ltb max_size size)) [
      | inl big ↦ cc (rw (e, slurp_file, big) at h)
      | inr fits ↦ (size, e, ground arith, (bytes, rw (e, slurp_file, fits) at h))
    ]
  ]

  Readable-slurp_file : (file_name : String) → Readable file_name → slurp_file file_name ≢ none
  unfolding slurp_file
  Readable-slurp_file file_name (size, e, fits, (bytes, f)) h = ground arith

  module _ ⦃api : TextApi⦄ (flags : Flags) where
    -- The arrays are generated exactly if all files can be read.
    arrays_iff :
        (i : ℕ) (inputs : List String) → ((arrays flags i inputs).0 ≡ true) ↔ AllReadable inputs
    unfolding arrays
    arrays_iff i [] = (λ _. tt, λ _. refl)
    arrays_iff i (input ∷ inputs) = elim (Option-cases (slurp_file input)) [
      | inl e ↦ (λ h. cc (rw (e, arrays) at h), λ (r, _). absurd (Readable-slurp_file input r e))
      | inr (contents, e) ↦ (
        λ h. (slurp_file-Readable input e, (arrays_iff (suc i) inputs).0 (rw (e, arrays) at h)),
        λ (_, rs). rw (e, arrays) ((arrays_iff (suc i) inputs).1 rs),
      )
    ]

    abbrev names : List String → List String
    names inputs = map (toc_name flags) inputs

    -- An output is not asked for, or it is written and its stream is good in the end.
    abbrev HeaderFine : List String → Type 0
    HeaderFine inputs =
        (flags.output_header ≡ "")
        ⊎ (files.good flags.output_header (header_text flags (names inputs)) ≡ true)

    abbrev ImplFine : List String → Type 0
    ImplFine inputs =
        (flags.output_impl ≡ "")
        ⊎ (AllReadable inputs
            × (files.good flags.output_impl (generate_impl flags inputs (names inputs)).1 ≡ true))

    generate_impl_iff :
        (inputs tocs : List String)
        → ((generate_impl flags inputs tocs).0 ≡ true) ↔ (
            AllReadable inputs
            × (files.good flags.output_impl (generate_impl flags inputs tocs).1 ≡ true))
    unfolding generate_impl
    generate_impl_iff inputs tocs = elim (Bool-cases (arrays flags 0 inputs).0) [
      | inl e ↦ (
        λ h. ((arrays_iff 0 inputs).0 e, rw e (rw (e, generate_impl) at h)),
        λ (_, g). rw e (rw (e, generate_impl) at g),
      )
      | inr e ↦ (λ h. cc (rw (e, generate_impl) at h), λ (r, _). cc (e, (arrays_iff 0 inputs).1 r))
    ]

    -- How the generator ends.
    pub data Exit (inputs : List String) (code : ℕ) : Type 0 where
      done : code ≡ 0 → HeaderFine inputs → ImplFine inputs → Exit inputs code
      no_header : code ≡ 1 → ¬ HeaderFine inputs → Exit inputs code
      no_impl : code ≡ 2 → HeaderFine inputs → ¬ ImplFine inputs → Exit inputs code

    write_impl-Exit :
        (inputs : List String) (written : List (String × List String))
        → HeaderFine inputs
        → Exit inputs (write_impl flags inputs written).0
    unfolding write_impl
    write_impl-Exit inputs written header = elim (Bool-cases (str_eq flags.output_impl "")) [
      | inl e ↦ done (rw e refl) header (inl ((eq_iff flags.output_impl "").0 e))
      | inr asked ↦ elim (Bool-cases (generate_impl flags inputs (names inputs)).0) [
        | inl e ↦
            done (rw (asked, e) refl) header (inr ((generate_impl_iff inputs (names inputs)).0 e))
        | inr e ↦ no_impl (rw (asked, e) refl) header (failed asked e)
      ]
    ]
      where
        failed :
            str_eq flags.output_impl "" ≡ false
            → (generate_impl flags inputs (names inputs)).0 ≡ false
            → ¬ ImplFine inputs
        failed asked e (inl absent) = cc (asked, (eq_iff flags.output_impl "").1 absent)
        failed asked e (inr fine) = cc (e, (generate_impl_iff inputs (names inputs)).1 fine)

    -- The exit code is 0 exactly if each output that is asked for is written, the implementation
    -- from files that can all be read and have at most 100 million bytes; it is 1 exactly if the
    -- header is not, and 2 exactly if the header is and the implementation is not.
    pub main-Exit : (inputs : List String) → Exit inputs (main flags inputs).0
    unfolding main generate_header
    main-Exit inputs = elim (Bool-cases (str_eq flags.output_header "")) [
      | inl e ↦ rw e (write_impl-Exit inputs [] (inl ((eq_iff flags.output_header "").0 e)))
      | inr asked ↦
          elim (Bool-cases (files.good flags.output_header (header_text flags (names inputs)))) [
            | inl e ↦
                rw (asked, e)
                  (write_impl-Exit inputs
                    ((flags.output_header, header_text flags (names inputs)) ∷ []) (inr e))
            | inr e ↦ rw (asked, e) (no_header refl (failed asked e))
          ]
    ]
      where
        failed :
            str_eq flags.output_header "" ≡ false
            → files.good flags.output_header (header_text flags (names inputs)) ≡ false
            → ¬ HeaderFine inputs
        failed asked e (inl absent) = cc (asked, (eq_iff flags.output_header "").1 absent)
        failed asked e (inr fine) = cc (e, fine)
