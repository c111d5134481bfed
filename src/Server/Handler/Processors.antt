-- ===== src/Server/Handler/Processors.antt =====
-- The loop over the processors.
use pmap.Base.{◌≡◌, refl, Option, none, some, List, [], ◌∷◌, ◌++◌, arith}
use pmap.Errors.{Err}
use pmap.Server.Handler.{Processor, run_processors}

module _ {T : Type 0} where
  -- What the loop does with the processors that are left after a run.
  abbrev pub go_on : List (Processor T) → Option Err × T → Option Err × T
  go_on gs (none, p) = run_processors gs p
  go_on gs (some e, p) = (some e, p)

  -- Two lists of processors, one behind the other: the second one goes on from the message that
  -- the first one left, and does not run if the first one failed.
  pub run_processors-append :
      (fs gs : List (Processor T)) (p : T)
      → run_processors (fs ++ gs) p ≡ go_on gs (run_processors fs p)
  unfolding run_processors
  run_processors-append [] gs p = refl
  run_processors-append (f ∷ fs) gs p = ground (arith, run_processors-append fs gs (f.process p).1)
