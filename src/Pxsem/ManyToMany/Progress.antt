-- ===== src/Pxsem/ManyToMany/Progress.antt =====
-- The progress of the threads of sem_prodcons4.c.
use cs_primer.Prelude.{
  ℕ, ◌+◌, ◌-◌, ◌*◌, ◌≤◌, ◌<◌, ◌≡◌, ◌⊎◌, inl, inr, List, [], ◌∷◌, some, arith, get_elem?, set,
  length,
}
use cs_primer.Threads.{weight-le-total, total, total-set}
use cs_primer.Threads.Machine.{
  System, run, CanMove, Blocked, move_or_Blocked, Effective, step_effective,
}
use cs_primer.Pxsem.ManyToMany.{
  Shared, Thread, put, get, move, init, wait_nempty, lock_put, test_nput, store, inc_nput,
  inc_nputval, unlock_put, post_nstored, add_put, quit_nstored, quit_put, quit_nempty, returned_put,
  wait_nstored, lock_get, test_nget, check, inc_nget, inc_ngetval, unlock_get, post_nempty, add_get,
  pass_nstored, quit_get, returned_get,
}
use cs_primer.Pxsem.ManyToMany.Weights.{
  putting, getting, critical, slot, token, extra, get_over, is_put, is_get, running,
}
use cs_primer.Pxsem.ManyToMany.Inv.{total-start, Inv, InvS, Inv-init, move-Inv, run-Inv}

abbrev waits_put : Thread → ℕ
waits_put (put wait_nempty _) = 1
waits_put _ = 0

abbrev waits_get : Thread → ℕ
waits_get (get wait_nstored _) = 1
waits_get _ = 0

-- What a blocked thread says of the sums, where the mutex is free.
record Stuck (m : Shared) (ts : List Thread) : Type 0 where
  no_slot : total slot ts ≡ 0
  no_token : total token ts ≡ 0
  puts : total is_put ts ≡ total waits_put ts + total extra ts
  gets : total is_get ts ≡ total waits_get ts + total get_over ts
  runs : total running ts ≡ total waits_put ts + total waits_get ts
  full : (total waits_put ts ≡ 0) ⊎ (m.nempty ≡ 0)
  empty : (total waits_get ts ≡ 0) ⊎ (m.nstored ≡ 0)

module _ (nitems : ℕ) (m : Shared) where
  Blocked-critical : (ts : List Thread) → Blocked (move nitems) m ts → total critical ts ≡ 0
  unfolding total move
  Blocked-critical [] b = omega arith
  Blocked-critical (put wait_nempty c ∷ ts) b = ground (arith, Blocked-critical ts b.1)
  Blocked-critical (put p c ∷ ts) b = ground (arith, Blocked-critical ts b.1)
  Blocked-critical (get wait_nstored c ∷ ts) b = ground (arith, Blocked-critical ts b.1)
  Blocked-critical (get p c ∷ ts) b = ground (arith, Blocked-critical ts b.1)

  Blocked-Stuck : m.mutex ≡ 1 → (ts : List Thread) → Blocked (move nitems) m ts → Stuck m ts
  unfolding total move
  Blocked-Stuck free [] b = ground arith
  Blocked-Stuck free (put wait_nempty c ∷ ts) b = ground (arith, Blocked-Stuck free ts b.1)
  Blocked-Stuck free (put p c ∷ ts) b = ground (arith, Blocked-Stuck free ts b.1)
  Blocked-Stuck free (get wait_nstored c ∷ ts) b = ground (arith, Blocked-Stuck free ts b.1)
  Blocked-Stuck free (get p c ∷ ts) b = ground (arith, Blocked-Stuck free ts b.1)

  Blocked-returned :
      (np nc : ℕ) (ts : List Thread)
      → 0 < np
      → 0 < nc
      → Inv np nc nitems m ts
      → Blocked (move nitems) m ts
      → total running ts ≡ 0
  Blocked-returned np nc ts hp hc inv b =
      let cs = Blocked-critical ts b in
      let st = Blocked-Stuck (omega (arith, inv.exclusive, cs)) ts b in ground (arith, st)

-- With a producer and a consumer at least, no schedule reaches a deadlock: after it some thread can
-- move, or all threads have returned.
pub no_deadlock :
    (np nc nitems : ℕ) (sched : List ℕ)
    → 0 < np
    → 0 < nc
    → CanMove (move nitems) (run (move nitems) (init np nc) sched)
      ⊎ (total running (run (move nitems) (init np nc) sched).threads ≡ 0)
no_deadlock np nc nitems sched hp hc =
    let s = run (move nitems) (init np nc) sched in
    elim (move_or_Blocked (move nitems) s.mem s.threads) [
      | inl moves ↦ inl moves
      | inr b ↦
          inr (Blocked-returned nitems s.mem np nc s.threads hp hc (run-Inv np nc nitems sched) b)
    ]

-- How many moves a thread has left before it tests for the end again.
abbrev rank : Thread → ℕ
rank (put inc_nputval _) = 12
rank (put unlock_put _) = 11
rank (put post_nstored _) = 10
rank (put add_put _) = 9
rank (put wait_nempty _) = 8
rank (put lock_put _) = 7
rank (put test_nput _) = 6
rank (put store _) = 5
rank (put inc_nput _) = 4
rank (put quit_nstored _) = 3
rank (put quit_put _) = 2
rank (put quit_nempty _) = 1
rank (put returned_put _) = 0
rank (get inc_ngetval _) = 12
rank (get unlock_get _) = 11
rank (get post_nempty _) = 10
rank (get add_get _) = 9
rank (get wait_nstored _) = 8
rank (get lock_get _) = 7
rank (get test_nget _) = 6
rank (get check _) = 5
rank (get inc_nget _) = 4
rank (get pass_nstored _) = 2
rank (get quit_get _) = 1
rank (get returned_get _) = 0

-- A bound on the moves that are left.
abbrev moves_left : ℕ → System Shared Thread → ℕ
moves_left nitems s = total rank s.threads + 16 * (nitems - s.mem.nput) + 16 * (nitems - s.mem.nget)

module _ {np nc nitems : ℕ} (s : System Shared Thread) (i : ℕ) (inv : InvS np nc nitems s) where
  move-falls :
      (t : Thread) (m : Shared) (t' : Thread)
      → get_elem? s.threads i ≡ some t
      → move nitems s.mem t ≡ some (m, t')
      → moves_left nitems (record { mem = m; threads = set s.threads i t' }) < moves_left nitems s
  unfolding move
  move-falls (put wait_nempty c) m t' e h = ground (arith, total-set rank s.threads i _ t' e)
  move-falls (put inc_nput c) m t' e h = ground (
    arith,
    total-set rank s.threads i _ t' e,
    weight-le-total putting s.threads i _ e,
    inv.put_le,
  )
  move-falls (put p c) m t' e h = ground (arith, total-set rank s.threads i _ t' e)
  move-falls (get wait_nstored c) m t' e h = ground (arith, total-set rank s.threads i _ t' e)
  move-falls (get inc_nget c) m t' e h = ground (
    arith,
    total-set rank s.threads i _ t' e,
    weight-le-total getting s.threads i _ e,
    inv.put_le,
    inv.get_le,
  )
  move-falls (get p c) m t' e h = ground (arith, total-set rank s.threads i _ t' e)

Effective-le :
    (np nc nitems : ℕ) (sched : List ℕ) (s : System Shared Thread)
    → InvS np nc nitems s
    → Effective (move nitems) s sched
    → length sched ≤ moves_left nitems s
Effective-le np nc nitems [] s inv eff = omega arith
Effective-le np nc nitems (i ∷ is) s inv ((t, next, e, go), eff) =
    let m = next.0 in
    let t' = next.1 in
    let s' : System Shared Thread = record { mem = m; threads = set s.threads i t' } in
    let same = step_effective (move nitems) s i t next e go in
    let rest = Effective-le np nc nitems is s' (move-Inv s i t m t' e go inv) (rw same at eff) in
    omega (arith, rest, move-falls s i inv t m t' e go)

-- Whatever the schedule, the threads make at most `8 * (producers + consumers) + 32 * nitems`
-- moves: no thread loops for ever.
pub moves_bounded :
    (np nc nitems : ℕ) (sched : List ℕ)
    → Effective (move nitems) (init np nc) sched
    → length sched ≤ 8 * (np + nc) + 32 * nitems
moves_bounded np nc nitems sched eff = omega (
  arith,
  Effective-le np nc nitems sched (init np nc) (Inv-init np nc nitems) eff,
  total-start rank np nc,
)
