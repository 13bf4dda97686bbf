-- ===== src/Mutex/Spin/Laws.antt =====
-- The items, the counts and the progress of the threads of mutex_prodcons2.c.
use cs_primer.Prelude.{ℕ, ◌+◌, ◌≤◌, ◌<◌, ◌≡◌, ◌⊎◌, inl, inr, List, [], ◌∷◌, arith}
use cs_primer.Threads.{total, total_mono, total-add}
use cs_primer.Threads.Machine.{run, CanMove, Blocked, move_or_Blocked}
use cs_primer.Mutex.Spin.{Shared, Thread, put, get, move, init, lock_put, test_i}
use cs_primer.Mutex.Spin.Inv.{run-Inv, critical, running, count, count_due, is_get, get_over}

-- After every schedule at most one thread is between its lock of the mutex and its unlock, the
-- consumer is at most at the next item put, no more than `nitems` are put, every item put stands in
-- its place, and the consumer has printed no error.
pub prodcons2_safe :
    (np nitems : ℕ) (sched : List ℕ)
    → let s = run (move nitems) (init np) sched in
      (total critical s.threads ≤ 1)
      × (s.mem.i ≤ s.mem.nput)
      × (s.mem.nput ≤ nitems)
      × ((k : ℕ) → k < s.mem.nput → s.mem.buf k ≡ k)
      × (s.mem.errors ≡ [])
prodcons2_safe np nitems sched =
    let inv = run-Inv np nitems sched in
    (
      omega (arith, inv.exclusive),
      omega (arith, inv.behind),
      omega (arith, inv.put_le),
      λ k h. inv.content k (omega (arith, h)),
      inv.silent,
    )

pub count_due-le : (t : Thread) → count_due t ≤ running t
count_due-le (put lock_put c) = omega arith
count_due-le (put p c) = omega arith
count_due-le (get p) = omega arith

is_get-le : (t : Thread) → is_get t ≤ get_over t + running t
is_get-le (put p c) = omega arith
is_get-le (get test_i) = omega arith
is_get-le (get p) = omega arith

-- When all threads have returned, the consumer has been through `nitems` items, and the counts
-- that `main` prints for the producers add up to `nitems`.
pub prodcons2_counts :
    (np nitems : ℕ) (sched : List ℕ)
    → total running (run (move nitems) (init np) sched).threads ≡ 0
    → ((run (move nitems) (init np) sched).mem.i ≡ nitems)
      × (total count (run (move nitems) (init np) sched).threads ≡ nitems)
prodcons2_counts np nitems sched over =
    let ts = (run (move nitems) (init np) sched).threads in
    let inv = run-Inv np nitems sched in
    ground (
      arith,
      over,
      inv.put_counts,
      inv.all_got,
      inv.consumers,
      inv.behind,
      inv.put_le,
      total_mono count_due running count_due-le ts,
      total_mono is_get (λ t. get_over t + running t) is_get-le ts,
      total-add get_over running ts,
    )

module _ (nitems : ℕ) (m : Shared) where
  pub Blocked-critical : (ts : List Thread) → Blocked (move nitems) m ts → total critical ts ≡ 0
  unfolding total move
  Blocked-critical [] b = omega arith
  Blocked-critical (put lock_put c ∷ ts) b = ground (arith, Blocked-critical ts b.1)
  Blocked-critical (put p c ∷ ts) b = ground (arith, Blocked-critical ts b.1)
  Blocked-critical (get test_i ∷ ts) b = ground (arith, Blocked-critical ts b.1)
  Blocked-critical (get p ∷ ts) b = ground (arith, Blocked-critical ts b.1)

  pub Blocked-running :
      m.mutex ≡ 1 → (ts : List Thread) → Blocked (move nitems) m ts → total running ts ≡ 0
  unfolding total move
  Blocked-running free [] b = omega arith
  Blocked-running free (put lock_put c ∷ ts) b = ground (arith, Blocked-running free ts b.1)
  Blocked-running free (put p c ∷ ts) b = ground (arith, Blocked-running free ts b.1)
  Blocked-running free (get test_i ∷ ts) b = ground (arith, Blocked-running free ts b.1)
  Blocked-running free (get p ∷ ts) b = ground (arith, Blocked-running free ts b.1)

-- After every schedule some thread can move, or all threads have returned.
pub prodcons2_no_deadlock :
    (np nitems : ℕ) (sched : List ℕ)
    → CanMove (move nitems) (run (move nitems) (init np) sched)
      ⊎ (total running (run (move nitems) (init np) sched).threads ≡ 0)
prodcons2_no_deadlock np nitems sched =
    let s = run (move nitems) (init np) sched in
    let inv = run-Inv np nitems sched in
    elim (move_or_Blocked (move nitems) s.mem s.threads) [
      | inl moves ↦ inl moves
      | inr b ↦ inr (
          Blocked-running nitems s.mem
            (omega (arith, inv.exclusive, Blocked-critical nitems s.mem s.threads b)) s.threads b)
    ]
