-- ===== src/Embed/Main.antt =====
-- `main`, behind the parsing of the command line.
use p4rt_standalone.Prelude.{ℕ, String, not, none, some, List, [], ◌∷◌, ◌++◌, map, if◌then◌else◌}
use mathlib.Core.List.{get_last?}
use text.Mathlib.Text.{◌==◌ as str_eq}
use p4rt_standalone.Embed.Api.{TextApi, FileApi, Flags}
use p4rt_standalone.Embed.Generate.{generate_header, generate_impl}

-- `comps.back()`; a split has one component at least.
abbrev pub back : List String → String
back comps = elim (get_last? comps) [ none ↦ "" | some comp ↦ comp ]

module _ ⦃api : TextApi⦄ where
  -- The name of a file in the table of contents.
  unfoldable pub toc_name : Flags → String → String
  toc_name flags input_file =
      let stripped =
        if not (str_eq flags.strip_prefix "")
        then api.strip_prefix input_file flags.strip_prefix
        else input_file in
      if flags.flatten then back (api.split_any stripped "/\\") else stripped

  module _ ⦃files : FileApi⦄ where
    -- The outputs that were written, with their texts.
    abbrev pub Written : Type 0
    Written = List (String × List String)

    unfoldable pub write_impl : Flags → List String → Written → ℕ × Written
    unfolding toc_name
    write_impl flags inputs written =
        if str_eq flags.output_impl ""
        then (0, written)
        else let (good, text) = generate_impl flags inputs (map (toc_name flags) inputs) in
          (if good then 0 else 2, written ++ (flags.output_impl, text) ∷ [])

    -- The exit code and the outputs.
    unfoldable pub main : Flags → List String → ℕ × Written
    unfolding write_impl
    main flags inputs =
        if str_eq flags.output_header ""
        then write_impl flags inputs []
        else let (good, text) = generate_header flags (map (toc_name flags) inputs) in
          let written = (flags.output_header, text) ∷ [] in
          if good then write_impl flags inputs written else (1, written)
