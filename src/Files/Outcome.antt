-- ===== src/Files/Outcome.antt =====
-- How reading and writing a file end, with the codes of the errors.
use p4rt_standalone.Prelude.{
  ℕ, ◌≡◌, ◌||◌, true, false, String, inl, inr, Bool-cases, same_number, if◌then◌else◌,
}
use p4rt_standalone.Status.Code.{StatusCode, AbslStatus, StatusApi, StatusOr, value, failure}
use p4rt_standalone.Files.Io.{FstreamApi, ErrnoApi, error_no_to_absl, read_file, write_file}

module _ ⦃errors : ErrnoApi⦄ ⦃api : StatusApi⦄ where
  -- The code is NOT_FOUND at two values of `errno`, and UNKNOWN at every other.
  abbrev errno_code : ℕ → StatusCode
  errno_code errno =
      if same_number errno errors.eacces || same_number errno errors.enoent
      then StatusCode.not_found
      else StatusCode.unknown

  error_no_to_absl_code :
      (operation path : String) (errno : ℕ)
      → (error_no_to_absl operation path errno).code ≡ errno_code errno
  unfolding error_no_to_absl
  error_no_to_absl_code operation path errno =
      elim (Bool-cases (same_number errno errors.eacces || same_number errno errors.enoent)) [
        | inl e ↦ rw e (api.status_code _ _)
        | inr e ↦ rw e (api.status_code _ _)
      ]

  module _ {F : Type 0} (files : FstreamApi F) where
    -- How reading a file ends.
    pub data Read (path : String) : StatusOr String → Type 0 where
      complete :
          files.fail (files.open_in path) ≡ false
          → files.bad (files.read_all (files.open_in path)).1 ≡ false
          → Read path (value (files.read_all (files.open_in path)).0)
      not_opened :
          (s : AbslStatus)
          → files.fail (files.open_in path) ≡ true
          → s.code ≡ errno_code (files.errno (files.open_in path))
          → Read path (failure s)
      not_read :
          (s : AbslStatus)
          → files.fail (files.open_in path) ≡ false
          → files.bad (files.read_all (files.open_in path)).1 ≡ true
          → s.code ≡ errno_code (files.errno (files.read_all (files.open_in path)).1)
          → Read path (failure s)

    -- ReadFile gives the whole text exactly if the file opens and reading it does not break the
    -- stream; otherwise it gives a status with NOT_FOUND, if errno is EACCES or ENOENT then, or
    -- UNKNOWN.
    read_file-Read : (path : String) → Read path (read_file files path)
    unfolding read_file
    read_file-Read path = elim (Bool-cases (files.fail (files.open_in path))) [
      | inl e ↦ rw e (not_opened _ e (error_no_to_absl_code _ _ _))
      | inr e ↦ elim (Bool-cases (files.bad (files.read_all (files.open_in path)).1)) [
        | inl f ↦ rw (e, f) (not_read _ e f (error_no_to_absl_code _ _ _))
        | inr f ↦ rw (e, f) (complete e f)
      ]
    ]

    -- How writing a file ends.
    pub data Written (content path : String) (s : AbslStatus) : Type 0 where
      accepted :
          files.fail (files.open_out path) ≡ false
          → files.bad (files.insert content (files.open_out path)) ≡ false
          → s.code ≡ StatusCode.ok
          → Written content path s
      not_opened :
          files.fail (files.open_out path) ≡ true
          → s.code ≡ errno_code (files.errno (files.open_out path))
          → Written content path s
      not_inserted :
          files.fail (files.open_out path) ≡ false
          → files.bad (files.insert content (files.open_out path)) ≡ true
          → s.code
            ≡ errno_code (files.errno (files.close (files.insert content (files.open_out path))))
          → Written content path s

    -- WriteFile answers OK exactly if the file opens and inserting the content does not break the
    -- stream, whether or not closing it fails; otherwise the code is NOT_FOUND, if errno is EACCES
    -- or ENOENT then, or UNKNOWN.
    pub write_file-Written :
        (content path : String) → Written content path (write_file files content path)
    unfolding write_file
    write_file-Written content path = elim (Bool-cases (files.fail (files.open_out path))) [
      | inl e ↦ not_opened e (rw e (error_no_to_absl_code _ _ _))
      | inr e ↦ elim (Bool-cases (files.bad (files.insert content (files.open_out path)))) [
        | inl f ↦ not_inserted e f (
            rw (e, files.bad-close (files.insert content (files.open_out path)), f)
              (error_no_to_absl_code _ _ _))
        | inr f ↦ accepted e f (
            rw (e, files.bad-close (files.insert content (files.open_out path)), f)
              (api.status_code _ _))
      ]
    ]
