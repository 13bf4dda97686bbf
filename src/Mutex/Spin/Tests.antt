-- ===== src/Mutex/Spin/Tests.antt =====
-- Runs of mutex_prodcons2.c, and the theorems at concrete inputs.
use cs_primer.Prelude.{ℕ, ◌≤◌, ◌<◌, ◌≡◌, List, [], ◌++◌, replicate}
use cs_primer.Threads.{total}
use cs_primer.Threads.Machine.{System, run}
use cs_primer.Mutex.Spin.{Shared, Thread, move, init}
use cs_primer.Mutex.Spin.Inv.{critical}
use cs_primer.Mutex.Spin.Laws.{prodcons2_safe}

-- The consumer polls once in vain, then the producer runs to its end.
abbrev schedule : List ℕ
schedule = replicate 4 1 ++ replicate 20 0 ++ replicate 20 1

abbrev final : System Shared Thread
final = run (move 2) (init 1) schedule

prodcons2_safe_example :
    (total critical final.threads ≤ 1)
    × (final.mem.i ≤ final.mem.nput)
    × (final.mem.nput ≤ 2)
    × ((k : ℕ) → k < final.mem.nput → final.mem.buf k ≡ k)
    × (final.mem.errors ≡ [])
prodcons2_safe_example = prodcons2_safe 1 2 schedule
