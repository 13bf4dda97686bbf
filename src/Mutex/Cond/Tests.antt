-- ===== src/Mutex/Cond/Tests.antt =====
-- Runs of mutex_prodcons3.c, and the theorems at concrete inputs.
use cs_primer.Prelude.{ℕ, ◌+◌, ◌≤◌, ◌<◌, ◌≡◌, ◌⊎◌, List, [], ◌∷◌, ◌++◌, replicate, arith}
use cs_primer.Threads.{total}
use cs_primer.Threads.Machine.{System, run, CanMove}
use cs_primer.Mutex.Cond.{Shared, Thread, move, init}
use cs_primer.Mutex.Cond.Weights.{running, in_put, in_ready}
use cs_primer.Mutex.Cond.Laws.{cond_no_deadlock, cond_safe}

-- The consumer falls asleep, the system wakes it in vain, then the producer runs to its end.
abbrev schedule : List ℕ
schedule = replicate 4 1 ++ (2 ∷ []) ++ replicate 4 1 ++ replicate 40 0 ++ replicate 30 1

abbrev final : System Shared Thread
final = run (move 2) (init 1 1) schedule

cond_no_deadlock_example : CanMove (move 2) final ⊎ (total running final.threads ≡ 0)
cond_no_deadlock_example = cond_no_deadlock 1 1 2 schedule (omega arith)

cond_safe_example :
    (total in_put final.threads ≤ 1)
    × (total in_ready final.threads ≤ 1)
    × (final.mem.nready + final.mem.i ≤ final.mem.nput)
    × (final.mem.nput ≤ 2)
    × ((k : ℕ) → k < final.mem.nput → final.mem.buf k ≡ k)
    × (final.mem.errors ≡ [])
cond_safe_example = cond_safe 1 1 2 schedule
