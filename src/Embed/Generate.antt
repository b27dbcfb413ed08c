-- ===== src/Embed/Generate.antt =====
-- `SlurpFile`, `GenerateHeader` and `GenerateImpl`: whether they succeed, and what they stream into
-- the output file.
use p4rt_standalone.Prelude.{
  ℕ, suc, String, Bool, true, false, Option, none, some, List, [], ◌∷◌, ◌++◌, length, ltb,
  if◌then◌else◌,
}
use p4rt_standalone.Embed.Api.{TextApi, FileApi, Flags}
use p4rt_standalone.Embed.Text.{
  generate_toc_struct, generate_namespace_open, generate_namespace_close, array_start, data_lines,
  toc_entries,
}

abbrev pub max_size : ℕ
max_size = 100000000

module _ ⦃files : FileApi⦄ where
  unfoldable pub slurp_file : String → Option (List ℕ)
  slurp_file file_name = elim (files.size file_name) [
    | none ↦ none
    | some size ↦ if ltb max_size size then none else files.bytes file_name size
  ]

  module _ ⦃api : TextApi⦄ (flags : Flags) where
    abbrev pub header_text : List String → List String
    header_text toc_files =
        "#pragma once\n" ∷ "#include <cstddef>\n" ∷ generate_toc_struct
        ++ (generate_namespace_open flags
            ++ ("extern const struct ::gutil::FileToc* "
                ∷ flags.identifier
                ∷ "_create();\n"
                ∷ "static inline std::size_t "
                ∷ flags.identifier
                ∷ "_size() { \n"
                ∷ "  return "
                ∷ api.decimal (length toc_files)
                ∷ ";\n"
                ∷ "}\n"
                ∷ generate_namespace_close flags))

    unfoldable pub generate_header : List String → Bool × List String
    generate_header toc_files =
        (files.good flags.output_header (header_text toc_files), header_text toc_files)

    -- The loop over the input files, at `i`: the first that cannot be read ends it.
    unfoldable pub arrays : ℕ → List String → Bool × List String
    unfolding slurp_file
    arrays i [] = (true, [])
    arrays i (input ∷ inputs) =
        let (read, rest) = arrays (suc i) inputs in
        elim (slurp_file input) [
          | none ↦ (false, array_start i)
          | some contents ↦ (read, array_start i ++ (data_lines contents ++ ("};\n" ∷ rest)))
        ]

    abbrev impl_start : List String
    impl_start = "#include <cstddef>\n" ∷ generate_toc_struct ++ generate_namespace_open flags

    -- The text behind the arrays.
    abbrev impl_end : List String → List String → List String
    impl_end inputs toc_files =
        "static const struct ::gutil::FileToc toc[] = {\n" ∷ toc_entries 0 inputs toc_files
        ++ ("  {nullptr, nullptr, 0},\n"
            ∷ "};\n"
            ∷ "const struct ::gutil::FileToc* "
            ∷ flags.identifier
            ∷ "_create() {\n"
            ∷ "  return &toc[0];\n"
            ∷ "}\n"
            ∷ generate_namespace_close flags)

    unfoldable pub generate_impl : List String → List String → Bool × List String
    unfolding arrays
    generate_impl inputs toc_files =
        let (read, text) = arrays 0 inputs in
        let written = impl_start ++ (text ++ impl_end inputs toc_files) in
        if read
        then (files.good flags.output_impl written, written)
        else (false, impl_start ++ text)
