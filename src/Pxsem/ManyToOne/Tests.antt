-- ===== src/Pxsem/ManyToOne/Tests.antt =====
-- Runs of sem_prodcons3.c, and the theorems at concrete inputs.
use cs_primer.Prelude.{◌+◌, ◌≤◌, ◌≡◌, [], ◌++◌, replicate}
use cs_primer.Threads.{total}
use cs_primer.Threads.Machine.{System, run}
use cs_primer.Pxsem.ManyToOne.{Shared, Thread, move, init, nbuff}
use cs_primer.Pxsem.ManyToOne.Weights.{critical}
use cs_primer.Pxsem.ManyToOne.Safety.{prodcons3_safe}

-- The producer until it waits for a slot, the consumer, and the producer again.
abbrev final : System Shared Thread
final =
    run (move 12) (init 1) (replicate 100 0 ++ replicate 100 1 ++ replicate 50 0 ++ replicate 50 1)

prodcons3_safe_example :
    (total critical final.threads ≤ 1)
    × (final.mem.nput ≤ final.mem.i + nbuff)
    × (final.mem.i ≤ final.mem.nput)
    × (final.mem.nput ≤ 12)
    × (final.mem.errors ≡ [])
prodcons3_safe_example =
    prodcons3_safe 1 12 (replicate 100 0 ++ replicate 100 1 ++ replicate 50 0 ++ replicate 50 1)
