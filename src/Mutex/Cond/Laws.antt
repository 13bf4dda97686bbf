-- ===== src/Mutex/Cond/Laws.antt =====
-- The items, the counts and the progress of the threads of mutex_prodcons3.c.
use cs_primer.Prelude.{ℕ, ◌+◌, ◌≤◌, ◌<◌, ◌≡◌, ◌⊎◌, inl, inr, List, [], ◌∷◌, arith}
use cs_primer.Threads.{total, total_mono, total-add}
use cs_primer.Threads.Machine.{run, CanMove, Blocked, move_or_Blocked}
use cs_primer.Mutex.Cond.{Shared, Thread, put, get, waker, move, init, lock_put, test_i, asleep}
use cs_primer.Mutex.Cond.Weights.{
  in_put, in_ready, running, count, count_due, ready_due, taken, getting, is_put, is_get, put_over,
  get_over,
}
use cs_primer.Mutex.Cond.Inv.{run-Inv}

-- After every schedule of mutex_prodcons3.c at most one thread is between its lock and its unlock of
-- either mutex, the items that are ready and those that the consumer has been through are items
-- put, every item put stands in its place, and the consumer has printed no error; the system may
-- also wake the consumer without a signal.
pub cond_safe :
    (np wakers nitems : ℕ) (sched : List ℕ)
    → let s = run (move nitems) (init np wakers) sched in
      (total in_put s.threads ≤ 1)
      × (total in_ready s.threads ≤ 1)
      × (s.mem.nready + s.mem.i ≤ s.mem.nput)
      × (s.mem.nput ≤ nitems)
      × ((k : ℕ) → k < s.mem.nput → s.mem.buf k ≡ k)
      × (s.mem.errors ≡ [])
cond_safe np wakers nitems sched =
    let inv = run-Inv np wakers nitems sched in
    (
      omega (arith, inv.put_exclusive),
      omega (arith, inv.ready_exclusive),
      omega (arith, inv.items),
      omega (arith, inv.put_le),
      λ k h. inv.content k (omega (arith, h)),
      inv.silent,
    )

count_due-le : (t : Thread) → count_due t ≤ running t
count_due-le (put lock_put c) = omega arith
count_due-le (put p c) = omega arith
count_due-le (get p) = omega arith
count_due-le waker = omega arith

is_get-le : (t : Thread) → is_get t ≤ get_over t + running t
is_get-le (put p c) = omega arith
is_get-le (get test_i) = omega arith
is_get-le (get p) = omega arith
is_get-le waker = omega arith

-- When all threads of mutex_prodcons3.c have returned, the consumer has been through `nitems` items,
-- none is left as ready, and the counts that `main` prints for the producers add up to `nitems`.
pub cond_counts :
    (np wakers nitems : ℕ) (sched : List ℕ)
    → total running (run (move nitems) (init np wakers) sched).threads ≡ 0
    → ((run (move nitems) (init np wakers) sched).mem.i ≡ nitems)
      × ((run (move nitems) (init np wakers) sched).mem.nready ≡ 0)
      × (total count (run (move nitems) (init np wakers) sched).threads ≡ nitems)
cond_counts np wakers nitems sched over =
    let ts = (run (move nitems) (init np wakers) sched).threads in
    let inv = run-Inv np wakers nitems sched in
    ground (
      arith,
      over,
      inv.put_counts,
      inv.all_got,
      inv.consumers,
      inv.items,
      inv.put_le,
      total_mono count_due running count_due-le ts,
      total_mono is_get (λ t. get_over t + running t) is_get-le ts,
      total-add get_over running ts,
    )

module _ (nitems : ℕ) (m : Shared) where
  -- The holders of the mutexes never wait.
  Blocked-in_put :
      (ts : List Thread) → Blocked (move nitems) m ts → total in_put ts + total in_ready ts ≡ 0
  unfolding total move
  Blocked-in_put [] b = omega arith
  Blocked-in_put (put lock_put c ∷ ts) b = ground (arith, Blocked-in_put ts b.1)
  Blocked-in_put (put p c ∷ ts) b = ground (arith, Blocked-in_put ts b.1)
  Blocked-in_put (get test_i ∷ ts) b = ground (arith, Blocked-in_put ts b.1)
  Blocked-in_put (get p ∷ ts) b = ground (arith, Blocked-in_put ts b.1)
  Blocked-in_put (waker ∷ ts) b = ground (arith, Blocked-in_put ts b.1)

  abbrev sleeping : Thread → ℕ
  sleeping (get asleep) = 1
  sleeping _ = 0

  -- With both mutexes free, all threads have returned, but for a consumer that sleeps.
  Blocked-running :
      m.put_mutex ≡ 1
      → m.ready_mutex ≡ 1
      → (ts : List Thread) → Blocked (move nitems) m ts
      → (total running ts ≡ total sleeping ts)
        × (total is_put ts ≡ total put_over ts)
        × (total ready_due ts + total taken ts ≡ 0)
        × (total sleeping ts ≤ total getting ts)
        × ((total sleeping ts ≡ 0) ⊎ (0 < m.waiting))
  unfolding total move
  Blocked-running f g [] b = ground arith
  Blocked-running f g (put lock_put c ∷ ts) b = ground (arith, Blocked-running f g ts b.1)
  Blocked-running f g (put p c ∷ ts) b = ground (arith, Blocked-running f g ts b.1)
  Blocked-running f g (get test_i ∷ ts) b = ground (arith, Blocked-running f g ts b.1)
  Blocked-running f g (get p ∷ ts) b = ground (arith, Blocked-running f g ts b.1)
  Blocked-running f g (waker ∷ ts) b = ground (arith, Blocked-running f g ts b.1)

-- With a producer at least, after every schedule of mutex_prodcons3.c some thread can move, or all
-- threads have returned: the consumer never sleeps for ever, also where the system never wakes it
-- without a signal.
pub cond_no_deadlock :
    (np wakers nitems : ℕ) (sched : List ℕ)
    → 0 < np
    → CanMove (move nitems) (run (move nitems) (init np wakers) sched)
      ⊎ (total running (run (move nitems) (init np wakers) sched).threads ≡ 0)
cond_no_deadlock np wakers nitems sched pos =
    let s = run (move nitems) (init np wakers) sched in
    let inv = run-Inv np wakers nitems sched in
    elim (move_or_Blocked (move nitems) s.mem s.threads) [
      | inl moves ↦ inl moves
      | inr b ↦
          let free = Blocked-in_put nitems s.mem s.threads b in
          let (a, c, d, e, f) =
            Blocked-running nitems s.mem (omega (arith, inv.put_exclusive, free))
              (omega (arith, inv.ready_exclusive, free)) s.threads b in
          inr (
            omega (
              arith, a, c, d, e, f, pos, inv.items, inv.all_put, inv.left, inv.sleeps,
              inv.producers,
            ))
    ]
