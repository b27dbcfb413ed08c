-- ===== src/Files/Io.antt =====
-- gutil/io.cc.
use Prim.Native.String.{◌++◌}
use p4rt_standalone.Prelude.{ℕ, ◌≡◌, String, Bool, ◌||◌, if◌then◌else◌, same_number}
use p4rt_standalone.Status.Code.{StatusCode, AbslStatus, StatusApi, StatusOr, value, failure}

-- A file stream `F` of the standard library: each operation gives the stream that it leaves.
-- `read_all` collects what an `istreambuf_iterator` delivers, `insert` is `<<`, and `errno` what
-- errno is after the last operation on the stream. `close` reports a failure by the fail bit, which
-- `bad` does not look at.
pub record FstreamApi (F : Type 0) : Type 0 where
  pub open_in : String → F
  pub open_out : String → F
  pub fail : F → Bool
  pub bad : F → Bool
  pub read_all : F → String × F
  pub insert : String → F → F
  pub close : F → F
  pub errno : F → ℕ
  pub bad-close : (f : F) → bad (close f) ≡ bad f

-- `EACCES`, `ENOENT`, `strerror`, and the text of a number.
pub record ErrnoApi : Type 0 where
  pub eacces : ℕ
  pub enoent : ℕ
  pub strerror : ℕ → String
  pub decimal : ℕ → String

module _ ⦃errors : ErrnoApi⦄ ⦃api : StatusApi⦄ where
  -- `ErrorNoToAbsl`, at the value of `errno`.
  unfoldable pub error_no_to_absl : String → String → ℕ → AbslStatus
  error_no_to_absl operation path errno =
      if same_number errno errors.eacces || same_number errno errors.enoent
      then api.status StatusCode.not_found (errors.strerror errno ++ (": " ++ path))
      else api.status StatusCode.unknown (
          "Cannot "
          ++ (operation ++ (" file " ++ (path ++ (", errno = " ++ errors.decimal errno)))))

  module _ {F : Type 0} (files : FstreamApi F) where
    unfoldable pub read_file : String → StatusOr String
    read_file path =
        let f = files.open_in path in
        if files.fail f
        then failure (error_no_to_absl "open" path (files.errno f))
        else let (result, f') = files.read_all f in
          if files.bad f'
          then failure (error_no_to_absl "read" path (files.errno f'))
          else value result

    unfoldable pub write_file : String → String → AbslStatus
    write_file content path =
        let f = files.open_out path in
        if files.fail f
        then error_no_to_absl "open" path (files.errno f)
        else let f' = files.close (files.insert content f) in
          if files.bad f'
          then error_no_to_absl "write" path (files.errno f')
          else api.status StatusCode.ok ""
