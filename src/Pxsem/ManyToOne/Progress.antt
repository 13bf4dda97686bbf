-- ===== src/Pxsem/ManyToOne/Progress.antt =====
-- The progress of the threads of sem_prodcons3.c.
use cs_primer.Prelude.{ℕ, ◌+◌, ◌<◌, ◌≤◌, ◌≡◌, ◌⊎◌, inl, inr, List, [], ◌∷◌, arith}
use cs_primer.Threads.{total}
use cs_primer.Threads.Machine.{run, CanMove, Blocked, move_or_Blocked}
use cs_primer.Pxsem.ManyToOne.{
  Shared, Thread, put, get, move, init, wait_nempty, wait_nstored, test_i,
}
use cs_primer.Pxsem.ManyToOne.Weights.{
  critical, slot, token, getting, put_over, get_over, is_put, is_get, running,
}
use cs_primer.Pxsem.ManyToOne.Inv.{Inv, run-Inv}

abbrev waits_put : Thread → ℕ
waits_put (put wait_nempty _) = 1
waits_put _ = 0

abbrev waits_get : Thread → ℕ
waits_get (get wait_nstored) = 1
waits_get _ = 0

-- What a blocked thread says of the sums, where the mutex is free.
record Stuck (m : Shared) (ts : List Thread) : Type 0 where
  no_slot : total slot ts ≡ 0
  no_token : total token ts ≡ 0
  puts : total is_put ts ≡ total waits_put ts + total put_over ts
  gets : total is_get ts ≡ total waits_get ts + total get_over ts
  leaves : total waits_get ts ≤ total getting ts
  runs : total running ts ≡ total waits_put ts + total waits_get ts
  full : (total waits_put ts ≡ 0) ⊎ (m.nempty ≡ 0)
  empty : (total waits_get ts ≡ 0) ⊎ (m.nstored ≡ 0)

module _ (nitems : ℕ) (m : Shared) where
  Blocked-critical : (ts : List Thread) → Blocked (move nitems) m ts → total critical ts ≡ 0
  unfolding total move
  Blocked-critical [] b = omega arith
  Blocked-critical (put wait_nempty c ∷ ts) b = ground (arith, Blocked-critical ts b.1)
  Blocked-critical (put p c ∷ ts) b = ground (arith, Blocked-critical ts b.1)
  Blocked-critical (get test_i ∷ ts) b = ground (arith, Blocked-critical ts b.1)
  Blocked-critical (get p ∷ ts) b = ground (arith, Blocked-critical ts b.1)

  Blocked-Stuck : m.mutex ≡ 1 → (ts : List Thread) → Blocked (move nitems) m ts → Stuck m ts
  unfolding total move
  Blocked-Stuck free [] b = ground arith
  Blocked-Stuck free (put wait_nempty c ∷ ts) b = ground (arith, Blocked-Stuck free ts b.1)
  Blocked-Stuck free (put p c ∷ ts) b = ground (arith, Blocked-Stuck free ts b.1)
  Blocked-Stuck free (get test_i ∷ ts) b = ground (arith, Blocked-Stuck free ts b.1)
  Blocked-Stuck free (get p ∷ ts) b = ground (arith, Blocked-Stuck free ts b.1)

  Blocked-returned :
      (np : ℕ) (ts : List Thread)
      → 0 < np
      → Inv np nitems m ts
      → Blocked (move nitems) m ts
      → total running ts ≡ 0
  Blocked-returned np ts hp inv b =
      let cs = Blocked-critical ts b in
      let st = Blocked-Stuck (omega (arith, inv.exclusive, cs)) ts b in ground (arith, st)

-- With a producer at least, no schedule reaches a deadlock: after it some thread can move, or all
-- threads have returned.
pub prodcons3_no_deadlock :
    (np nitems : ℕ) (sched : List ℕ)
    → 0 < np
    → CanMove (move nitems) (run (move nitems) (init np) sched)
      ⊎ (total running (run (move nitems) (init np) sched).threads ≡ 0)
prodcons3_no_deadlock np nitems sched hp =
    let s = run (move nitems) (init np) sched in
    elim (move_or_Blocked (move nitems) s.mem s.threads) [
      | inl moves ↦ inl moves
      | inr b ↦ inr (Blocked-returned nitems s.mem np s.threads hp (run-Inv np nitems sched) b)
    ]
