-- ===== src/Counter/Tests.antt =====
-- Runs of two processes, and the theorems at concrete inputs.
use cs_primer.Prelude.{sum, ℕ, ◌+◌, ◌≡◌, refl, List, [], ◌∷◌, ◌++◌, replicate, arith}
use cs_primer.Threads.{total}
use cs_primer.Threads.Machine.{System, run}
use cs_primer.Counter.{Shared, Process, move, init}
use cs_primer.Counter.Inv.{countdown}
use cs_primer.Counter.Laws.{no_lost_increment}

-- Both enter the loop, then the second waits for the first.
abbrev schedule : List ℕ
schedule = 0 ∷ 1 ∷ 0 ∷ 1 ∷ 0 ∷ 1 ∷ replicate 20 0 ++ replicate 10 1

abbrev final : System Shared Process
final = run move (init 5 (2 ∷ 1 ∷ [])) schedule

no_lost_increment_example :
    (final.mem.count ≡ 5 + sum (2 ∷ 1 ∷ [])) × (final.mem.printed ≡ countdown 5 (sum (2 ∷ 1 ∷ [])))
unfolding run move total sum
no_lost_increment_example = no_lost_increment 5 (2 ∷ 1 ∷ []) schedule (omega arith) refl
