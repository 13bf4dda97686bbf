-- ===== src/Pxsem/ManyToMany/Safety.antt =====
-- What the threads of sem_prodcons4.c share after a schedule.
use cs_primer.Prelude.{ℕ, ◌+◌, ◌%◌, ◌≤◌, ◌<◌, ◌≡◌, List, [], arith}
use cs_primer.Threads.{total-add, total, total_mono}
use cs_primer.Threads.Machine.{run}
use cs_primer.Pxsem.ManyToMany.{Thread, put, get, move, init, nbuff, wait_nempty, wait_nstored}
use cs_primer.Pxsem.ManyToMany.Weights.{
  critical, running, put_count, get_count, put_count_due, get_count_due, is_put, is_get, extra,
  get_over,
}
use cs_primer.Pxsem.ManyToMany.Inv.{run-Inv}

-- At most one thread is between its `sem_wait(&shared.mutex)` and `sem_post(&shared.mutex)`, the
-- ring never holds more than its ten items, items are got only after they are put, and no more
-- than `nitems` are put.
pub ring_bounds :
    (np nc nitems : ℕ) (sched : List ℕ)
    → let s = run (move nitems) (init np nc) sched in
      (total critical s.threads ≤ 1)
      × (s.mem.nput ≤ s.mem.nget + nbuff)
      × (s.mem.nget ≤ s.mem.nput)
      × (s.mem.nput ≤ nitems)
ring_bounds np nc nitems sched = ground (arith, run-Inv np nc nitems sched)

-- No consumer ever finds a value other than the one due and prints an error; the items put and not
-- yet got stand in the ring, each at its number modulo ten.
pub consumers_silent :
    (np nc nitems : ℕ) (sched : List ℕ)
    → let m = (run (move nitems) (init np nc) sched).mem in
      (m.errors ≡ []) × ((k : ℕ) → m.nget ≤ k → k < m.nput → m.buf (k % nbuff) ≡ k)
consumers_silent np nc nitems sched =
    let inv = run-Inv np nc nitems sched in (inv.silent, λ k lo hi. inv.content k lo (omega arith))

-- What a thread that has returned says of its counter.
put_due-le : (t : Thread) → put_count_due t ≤ running t
put_due-le (put wait_nempty c) = omega arith
put_due-le (put p c) = omega arith
put_due-le (get p c) = omega arith

get_due-le : (t : Thread) → get_count_due t ≤ running t
get_due-le (put p c) = omega arith
get_due-le (get wait_nstored c) = omega arith
get_due-le (get p c) = omega arith

is_put-le : (t : Thread) → is_put t ≤ extra t + running t
is_put-le (put wait_nempty c) = omega arith
is_put-le (put p c) = omega arith
is_put-le (get p c) = omega arith

is_get-le : (t : Thread) → is_get t ≤ get_over t + running t
is_get-le (put p c) = omega arith
is_get-le (get wait_nstored c) = omega arith
is_get-le (get p c) = omega arith

-- When all threads have returned, with a producer and a consumer at least, `nitems` items have
-- been put and got, and the counts that `main` prints add up to `nitems` on either side.
pub all_items_pass :
    (np nc nitems : ℕ) (sched : List ℕ)
    → 0 < np
    → 0 < nc
    → let s = run (move nitems) (init np nc) sched in
      total running s.threads ≡ 0
      → (s.mem.nput ≡ nitems)
        × (s.mem.nget ≡ nitems)
        × (total put_count s.threads ≡ nitems)
        × (total get_count s.threads ≡ nitems)
all_items_pass np nc nitems sched hp hc over =
    let s = run (move nitems) (init np nc) sched in
    let ts = s.threads in
    let inv = run-Inv np nc nitems sched in
    ground (
      arith,
      over,
      inv.put_counts,
      inv.get_counts,
      inv.early,
      inv.all_got,
      inv.producers,
      inv.consumers,
      inv.put_le,
      inv.get_le,
      total_mono put_count_due running put_due-le ts,
      total_mono get_count_due running get_due-le ts,
      total_mono is_put (λ t. extra t + running t) is_put-le ts,
      total_mono is_get (λ t. get_over t + running t) is_get-le ts,
      total-add extra running ts,
      total-add get_over running ts,
    )
