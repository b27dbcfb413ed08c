-- ===== src/Tests/Status.antt =====
-- The theorems on chains of steps and on builders at concrete ones.
use p4rt_standalone.Prelude.{refl, ℕ, suc, ◌≡◌, [], ◌∷◌}
use p4rt_standalone.Status.Code.{StatusCode, GrpcStatus, AbslStatus}
use p4rt_standalone.Status.Builder.{
  StatusBuilder, copy_builder, from_status, append_text, log_error, get_status_and_log,
}
use p4rt_standalone.Tests.Program.{program}
use p4rt_standalone.Status.Chains.{chain, Ends, chain-Ends}
use p4rt_standalone.Tests.Samples.{absl, make_status}

-- A step that counts, and one that fails.
abbrev count : ℕ → AbslStatus × ℕ
count n = (make_status StatusCode.ok "", suc n)

abbrev fail : ℕ → AbslStatus × ℕ
fail n = (make_status StatusCode.not_found "no table", n)

chain-Ends_example :
    Ends "Write" (count ∷ fail ∷ count ∷ []) 0 (chain "Write" (count ∷ fail ∷ count ∷ []) 0)
chain-Ends_example = chain-Ends "Write" (count ∷ fail ∷ count ∷ []) 0

abbrev logging : StatusBuilder
logging =
    append_text "Write" (log_error (from_status (make_status StatusCode.not_found "no table")))

-- A copy prints the line of the builder that it was copied from.
copy_logs : (get_status_and_log (copy_builder logging)).0 ≡ "no table; Write" ∷ []
unfolding program copy_builder
copy_logs = refl

abbrev lost : GrpcStatus
lost = record { error_code = StatusCode.internal; error_message = "lost" }
