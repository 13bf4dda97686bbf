-- ===== src/Pxsem/OneToOne/Tests.antt =====
-- A run of sem_prodcons2.c with twelve items.
use cs_primer.Prelude.{ℕ, ◌≡◌, ◌⊎◌, List, [], ◌++◌, replicate}
use cs_primer.Threads.{total}
use cs_primer.Threads.Machine.{System, run, CanMove}
use cs_primer.Pxsem.OneToOne.{Shared, Thread, move, init}
use cs_primer.Pxsem.OneToOne.Laws.{left, running, one_to_one_ends}

abbrev schedule : List ℕ
schedule = replicate 80 0 ++ replicate 40 1 ++ replicate 40 0 ++ replicate 60 1

abbrev final : System Shared Thread
final = run (move 12) init schedule

one_to_one_ends_example :
    (final.mem.errors ≡ [])
    × (CanMove (move 12) final
        ⊎ ((total running final.threads ≡ 0) × (total (left 12) final.threads ≡ 0)))
one_to_one_ends_example = one_to_one_ends 12 schedule
