-- ===== src/Embed/Text.antt =====
-- The texts that the generator streams into its outputs: a list has one entry for each `<<`.
use p4rt_standalone.Prelude.{ℕ, zero, suc, String, List, [], ◌∷◌, length, take, drop, if◌then◌else◌}
use text.Mathlib.Text.{◌==◌ as str_eq}
use p4rt_standalone.Embed.Api.{TextApi, Flags}

unfoldable pub generate_toc_struct : List String
generate_toc_struct =
    "#ifndef GUTIL_FILE_TOC\n" ∷ "#define GUTIL_FILE_TOC\n" ∷ "namespace gutil {\n"
    ∷ "struct FileToc {\n" ∷ "  const char* name;             // the file's original name\n"
    ∷ "  const char* data;             // beginning of the file\n"
    ∷ "  std::size_t size;             // length of the file\n" ∷ "};\n" ∷ "}  // namespace gutil\n"
    ∷ "#endif  // GUTIL_FILE_TOC\n" ∷ []

-- The loops over `ns_comps`.
abbrev open_all : List String → List String
open_all [] = []
open_all (comp ∷ comps) = "namespace " ∷ comp ∷ " {\n" ∷ open_all comps

abbrev close_all : List String → List String
close_all [] = []
close_all (comp ∷ comps) = "}\n" ∷ close_all comps

-- The bytes of a line of the output, at most.
abbrev pub max_bytes_per_line : ℕ
max_bytes_per_line = 1024

-- The loop `while (!remaining_contents.empty())`, for lines of `n` bytes: the lines that it cuts
-- off. The first number is fuel.
unfoldable pub lines : ℕ → ℕ → List ℕ → List (List ℕ)
lines zero n remaining = []
lines (suc fuel) n [] = []
lines (suc fuel) n (b ∷ bs) =
    let line = take n (b ∷ bs) in line ∷ lines fuel n (drop (length line) (b ∷ bs))

module _ ⦃api : TextApi⦄ where
  unfoldable pub generate_namespace_open : Flags → List String
  generate_namespace_open flags =
      if str_eq flags.cpp_namespace "" then [] else open_all (api.split flags.cpp_namespace "::")

  unfoldable pub generate_namespace_close : Flags → List String
  generate_namespace_close flags =
      if str_eq flags.cpp_namespace "" then [] else close_all (api.split flags.cpp_namespace "::")

  abbrev pub quoted : List (List ℕ) → List String
  quoted [] = []
  quoted (line ∷ rest) = "\"" ∷ api.c_hex_escape line ∷ "\"\n" ∷ quoted rest

  -- The text between the braces of an array; every round cuts off a byte at least, so that the
  -- length is fuel enough.
  unfoldable pub data_lines : List ℕ → List String
  unfolding lines
  data_lines contents = quoted (lines (length contents) max_bytes_per_line contents)

  abbrev pub array_start : ℕ → List String
  array_start i =
      "alignas(alignof(void*)) static char const file_" ∷ api.decimal i ∷ "[] = {\n" ∷ []

  -- The loop over the entries of `toc`, at `i`. That a file has no name in `toc_files` is excluded
  -- by an `assert`.
  unfoldable pub toc_entries : ℕ → List String → List String → List String
  toc_entries i [] toc_files = []
  toc_entries i (input ∷ inputs) [] = []
  toc_entries i (input ∷ inputs) (toc_file ∷ toc_files) =
      "  {\n"
      ∷ "    \""
      ∷ api.c_escape toc_file
      ∷ "\",\n"
      ∷ "    file_"
      ∷ api.decimal i
      ∷ ",\n"
      ∷ "    sizeof(file_"
      ∷ api.decimal i
      ∷ ") - 1\n"
      ∷ "  },\n"
      ∷ toc_entries (suc i) inputs toc_files
