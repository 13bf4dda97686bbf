-- ===== src/Pxsem/ManyToOne/Safety.antt =====
-- What the threads of sem_prodcons3.c share after a schedule.
use cs_primer.Prelude.{ℕ, ◌+◌, ◌≤◌, ◌≡◌, List, [], arith}
use cs_primer.Threads.{total, total_mono, total-add}
use cs_primer.Threads.Machine.{run}
use cs_primer.Pxsem.ManyToOne.{Thread, put, get, move, init, nbuff, wait_nempty, test_i}
use cs_primer.Pxsem.ManyToOne.Weights.{
  critical, running, put_count, put_count_due, is_get, get_over,
}
use cs_primer.Pxsem.ManyToOne.Inv.{run-Inv}

-- After every schedule at most one thread is between its wait for the mutex and its post, the ring
-- holds at most ten items, the consumer is at most at the next item put, and it has printed no
-- error.
pub prodcons3_safe :
    (np nitems : ℕ) (sched : List ℕ)
    → let s = run (move nitems) (init np) sched in
      (total critical s.threads ≤ 1)
      × (s.mem.nput ≤ s.mem.i + nbuff)
      × (s.mem.i ≤ s.mem.nput)
      × (s.mem.nput ≤ nitems)
      × (s.mem.errors ≡ [])
prodcons3_safe np nitems sched = ground (arith, run-Inv np nitems sched)

put_due-le : (t : Thread) → put_count_due t ≤ running t
put_due-le (put wait_nempty c) = omega arith
put_due-le (put p c) = omega arith
put_due-le (get p) = omega arith

is_get-le : (t : Thread) → is_get t ≤ get_over t + running t
is_get-le (put p c) = omega arith
is_get-le (get test_i) = omega arith
is_get-le (get p) = omega arith

-- When all threads have returned, the consumer has been through `nitems` items, and the counts
-- that `main` prints for the producers add up to `nitems`.
pub prodcons3_counts :
    (np nitems : ℕ) (sched : List ℕ)
    → total running (run (move nitems) (init np) sched).threads ≡ 0
    → ((run (move nitems) (init np) sched).mem.i ≡ nitems)
      × (total put_count (run (move nitems) (init np) sched).threads ≡ nitems)
prodcons3_counts np nitems sched over =
    let ts = (run (move nitems) (init np) sched).threads in
    let inv = run-Inv np nitems sched in
    ground (
      arith,
      over,
      inv.put_counts,
      inv.all_got,
      inv.consumers,
      inv.tokens,
      inv.put_le,
      total_mono put_count_due running put_due-le ts,
      total_mono is_get (λ t. get_over t + running t) is_get-le ts,
      total-add get_over running ts,
    )
