-- ===== src/Embed/Api.antt =====
-- What the generator uses of Abseil and of file streams, and its command line flags.
use p4rt_standalone.Prelude.{ℕ, ◌≡◌, String, Bool, Option, List}

-- `split` and `split_any` are `absl::StrSplit` by a string and by any of its characters;
-- `strip_prefix`, `c_hex_escape` and `c_escape` are Abseil's; `literal` gives the bytes that a C++
-- string literal with this text denotes, which are those that were escaped.
pub record TextApi : Type 0 where
  pub split : String → String → List String
  pub split_any : String → String → List String
  pub strip_prefix : String → String → String
  pub c_hex_escape : List ℕ → String
  pub c_escape : String → String
  pub decimal : ℕ → String
  pub literal : String → List ℕ
  pub literal-c_hex_escape : (bytes : List ℕ) → literal (c_hex_escape bytes) ≡ bytes

-- `size` is what `tellg` gives at the end of a file, or nothing if the stream is not good after the
-- seeks; `bytes` is what `read` and `close` give at that size, or nothing if the stream is not good
-- then; `good` is `f.good()` after a file was opened, written with these texts, and closed.
pub record FileApi : Type 0 where
  pub size : String → Option ℕ
  pub bytes : String → ℕ → Option (List ℕ)
  pub good : String → List String → Bool

-- The `ABSL_FLAG`s.
pub record Flags : Type 0 where
  pub identifier : String
  pub output_header : String
  pub output_impl : String
  pub cpp_namespace : String
  pub strip_prefix : String
  pub flatten : Bool
