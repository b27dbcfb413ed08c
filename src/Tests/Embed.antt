-- ===== src/Tests/Embed.antt =====
-- The theorems on the generator at concrete files.
use Prim.Native.Char.{code}
use p4rt_standalone.Prelude.{
  ℕ, zero, suc, ◌+◌, ◌*◌, ◌≤◌, ◌≡◌, refl, ap, ◌∙◌, String, true, false, some, List, [], ◌∷◌, arith,
  same_number, length,
}
use p4rt_standalone.Embed.Rounds.{lines_terminate}
use p4rt_standalone.Embed.Api.{TextApi, FileApi, Flags}
use p4rt_standalone.Embed.Text.{lines, data_lines}
use p4rt_standalone.Embed.Generate.{generate_header, generate_impl}
use p4rt_standalone.Embed.Main.{main}
use p4rt_standalone.Embed.Lossless.{read_back, LiteralSizes, data_lines-lossless}
use p4rt_standalone.Embed.Exit.{Exit, main-Exit}

-- An escape in which each byte is written in unary.
abbrev escape_byte : ℕ → String → String
escape_byte zero rest = String.◌∷◌ "b" rest
escape_byte (suc n) rest = String.◌∷◌ "a" (escape_byte n rest)

abbrev escape : List ℕ → String
escape [] = ""
escape (n ∷ ns) = escape_byte n (escape ns)

abbrev denoted : ℕ → String → List ℕ
denoted n String.[] = []
denoted n (String.◌∷◌ c s) = elim (same_number (code c) b'a') [
  | true ↦ denoted (suc n) s
  | false ↦ n ∷ denoted 0 s
]

denoted-escape_byte :
    (m n : ℕ) (rest : String) → denoted m (escape_byte n rest) ≡ (m + n) ∷ denoted 0 rest
denoted-escape_byte m zero rest = ap (λ (k : ℕ). k ∷ denoted 0 rest) (omega arith)
denoted-escape_byte m (suc n) rest =
    denoted-escape_byte (suc m) n rest ∙ ap (λ (k : ℕ). k ∷ denoted 0 rest) (omega arith)

denoted-escape : (ns : List ℕ) → denoted 0 (escape ns) ≡ ns
denoted-escape [] = refl
denoted-escape (n ∷ ns) =
    denoted-escape_byte 0 n (escape ns)
    ∙ ap (λ (l : List ℕ). (0 + n) ∷ l) (denoted-escape ns)
    ∙ ap (λ (k : ℕ). k ∷ ns) (omega arith)

instance abbrev unary : TextApi
unary = record {
  split = λ text separator. text ∷ [];
  split_any = λ text delimiters. text ∷ [];
  strip_prefix = λ text prefix. text;
  c_hex_escape = escape;
  c_escape = λ text. text;
  decimal = λ n. "a number";
  literal = denoted 0;
  literal-c_hex_escape = denoted-escape;
}

-- Every file has three bytes, and every output can be written.
instance abbrev disk : FileApi
disk = record {
  size = λ file_name. some 3;
  bytes = λ file_name size. some (1 ∷ 2 ∷ 3 ∷ []);
  good = λ file_name texts. true;
}

abbrev flags : Flags
flags = record {
  identifier = "resources";
  output_header = "out.h";
  output_impl = "out.cc";
  cpp_namespace = "foo";
  strip_prefix = "";
  flatten = false;
}

data_lines-lossless_example :
    (read_back (data_lines (5 ∷ 0 ∷ 7 ∷ [])) ≡ some (5 ∷ 0 ∷ 7 ∷ []))
    × LiteralSizes 1024 (data_lines (5 ∷ 0 ∷ 7 ∷ []))
data_lines-lossless_example = data_lines-lossless (5 ∷ 0 ∷ 7 ∷ [])

-- An empty file has an array with no literal between its braces.
data_lines_empty : data_lines [] ≡ []
unfolding data_lines
data_lines_empty = refl

main-Exit_example : Exit flags ("a.txt" ∷ []) (main flags ("a.txt" ∷ [])).0
main-Exit_example = main-Exit flags ("a.txt" ∷ [])

exits_with_zero : (main flags ("a.txt" ∷ [])).0 ≡ 0
unfolding main generate_header generate_impl
exits_with_zero = refl

-- Three bytes are one line.
lines_terminate_example :
    (lines 7 1024 (1 ∷ 2 ∷ 3 ∷ []) ≡ lines 3 1024 (1 ∷ 2 ∷ 3 ∷ []))
    × (3 ≤ length (lines 7 1024 (1 ∷ 2 ∷ 3 ∷ [])) * 1024)
    × (length (lines 7 1024 (1 ∷ 2 ∷ 3 ∷ [])) * 1024 ≤ 3 + 1023)
lines_terminate_example = lines_terminate 7 (1 ∷ 2 ∷ 3 ∷ []) (omega arith)
