-- ===== src/Tests/Registry.antt =====
-- The theorems on the registry, and on the messages of an arbitration, at concrete states.
use mathlib.Core.Bool.{false≢true}
use p4rt_standalone.Prelude.{true, some, arith}
use p4rt_standalone.Controller.Arbitration.{handle_arbitration_update}
use p4rt_standalone.Controller.Views.Answered.{Wrote, handle-Wrote}
use p4rt_standalone.Controller.Registry.{Arbitrated}
use p4rt_standalone.Controller.Registry.View.{registry}
use p4rt_standalone.Controller.Registry.Arbitrates.{handle-Arbitrated}
use p4rt_standalone.Tests.Program.{program}
use p4rt_standalone.Tests.Samples.{machine, update, one, two, one-IsValid}

-- Controller 1 has ID 5, and controller 2 wants 9.
handle-Arbitrated_example : Arbitrated (registry one) 2 (some "sdn") (some 9) true (registry two)
unfolding program
handle-Arbitrated_example =
    handle-Arbitrated (update (some "sdn") (some 9)) 2 one one-IsValid
      (λ h. absurd (false≢true h), λ m. ground arith)

handle-Wrote_example :
    Wrote one 2
      (some "sdn")
      (some 9)
      (handle_arbitration_update (update (some "sdn") (some 9)) 2 one)
unfolding program
handle-Wrote_example =
    handle-Wrote (update (some "sdn") (some 9)) 2 one (λ h. absurd (false≢true h))
