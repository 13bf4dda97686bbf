-- ===== src/Counter/Laws.antt =====
-- What the processes print and where the counter ends.
use cs_primer.Prelude.{
  sum, ℕ, zero, suc, ◌+◌, ◌*◌, ◌^◌, ◌≤◌, ◌<◌, ◌≡◌, ◌⊎◌, inl, inr, List, [], ◌∷◌, some, arith, set,
  length, ◌∙◌, ap,
}
use cs_primer.Threads.{total, total_mono, total-set}
use cs_primer.Threads.Machine.{
  System, run, CanMove, Blocked, Effective, step_effective, move_or_Blocked,
}
use cs_primer.Counter.{
  Shared, Process, test, wait_mutex, load, post, store, print, returned, move, init, processes,
}
use cs_primer.Counter.Inv.{run-Inv, printing-le, critical, left, printing, running, countdown}

-- Where the counter stays below 2^31, under every schedule the processes print consecutive numbers
-- from `c0` on, whichever of them prints, and at most one of them holds the semaphore.
pub prints_consecutive :
    (c0 : ℕ) (nloops sched : List ℕ)
    → c0 + sum nloops < 2 ^ 31
    → let s = run move (init c0 nloops) sched in
      (s.mem.printed ≡ countdown c0 (length s.mem.printed))
      × (s.mem.count ≤ c0 + length s.mem.printed + 1)
      × (total critical s.threads ≤ 1)
prints_consecutive c0 nloops sched fits =
    let s = run move (init c0 nloops) sched in
    let inv = run-Inv c0 nloops sched fits in
    (
      inv.lines,
      omega (
        arith,
        inv.lines_count,
        inv.exclusive,
        total_mono printing critical printing-le s.threads,
      ),
      omega (arith, inv.exclusive),
    )

left-le : (t : Process) → running t ≡ 0 → left t + printing t ≡ 0
left-le returned e = omega arith
left-le (test n) e = omega (arith, e)
left-le t e = ground arith

returned_sums :
    (ts : List Process) → total running ts ≡ 0 → (total left ts ≡ 0) × (total printing ts ≡ 0)
unfolding total
returned_sums [] e = ground arith
returned_sums (t ∷ ts) e =
    let h = left-le t (omega (arith, e)) in
    let r = returned_sums ts (omega (arith, e)) in (omega (arith, h, r.0), omega (arith, h, r.1))

-- When all processes have returned, and the start and all rounds together are below 2^31, no
-- increment is lost: the counter has grown by the sum of the rounds, and each number from `c0` up to
-- there has been printed once, in order.
pub no_lost_increment :
    (c0 : ℕ) (nloops sched : List ℕ)
    → c0 + sum nloops < 2 ^ 31
    → let s = run move (init c0 nloops) sched in
      total running s.threads ≡ 0
      → (s.mem.count ≡ c0 + sum nloops) × (s.mem.printed ≡ countdown c0 (sum nloops))
no_lost_increment c0 nloops sched fits over =
    let s = run move (init c0 nloops) sched in
    let inv = run-Inv c0 nloops sched fits in
    let r = returned_sums s.threads over in
    let all : length s.mem.printed ≡ sum nloops =
      omega (arith, inv.lines_count, inv.rounds, r.0, r.1) in
    (omega (arith, inv.rounds, r.0), inv.lines ∙ ap (countdown c0) all)

Blocked-critical : (m : Shared) (ts : List Process) → Blocked move m ts → total critical ts ≡ 0
unfolding total move
Blocked-critical m [] b = omega arith
Blocked-critical m (test zero ∷ ts) b = ground (arith, Blocked-critical m ts b.1)
Blocked-critical m (test (suc n) ∷ ts) b = ground (arith, Blocked-critical m ts b.1)
Blocked-critical m (t ∷ ts) b = ground (arith, Blocked-critical m ts b.1)

Blocked-running :
    (m : Shared) (ts : List Process) → m.mutex ≡ 1 → Blocked move m ts → total running ts ≡ 0
unfolding total move
Blocked-running m [] free b = omega arith
Blocked-running m (test zero ∷ ts) free b = ground (arith, Blocked-running m ts free b.1)
Blocked-running m (test (suc n) ∷ ts) free b = ground (arith, Blocked-running m ts free b.1)
Blocked-running m (t ∷ ts) free b = ground (arith, Blocked-running m ts free b.1)

-- Where the counter stays below 2^31, after every schedule some process can move, or all have returned.
pub counter_no_deadlock :
    (c0 : ℕ) (nloops sched : List ℕ)
    → c0 + sum nloops < 2 ^ 31
    → CanMove move (run move (init c0 nloops) sched)
      ⊎ (total running (run move (init c0 nloops) sched).threads ≡ 0)
counter_no_deadlock c0 nloops sched fits =
    let s = run move (init c0 nloops) sched in
    let inv = run-Inv c0 nloops sched fits in
    elim (move_or_Blocked move s.mem s.threads) [
      | inl moves ↦ inl moves
      | inr b ↦ inr (
          Blocked-running s.mem s.threads
            (omega (arith, inv.exclusive, Blocked-critical s.mem s.threads b)) b)
    ]

-- How many steps a process has to go.
abbrev rank : Process → ℕ
rank (test n) = 6 * n + 1
rank (wait_mutex n) = 6 * n + 6
rank (load n) = 6 * n + 5
rank (store v n) = 6 * n + 4
rank (print v n) = 6 * n + 3
rank (post n) = 6 * n + 2
rank returned = 0

rank_falls :
    (m : Shared) (t : Process) (m' : Shared) (t' : Process)
    → move m t ≡ some (m', t')
    → rank t ≡ suc (rank t')
unfolding move
rank_falls m (test zero) m' t' e = ground arith
rank_falls m (test (suc n)) m' t' e = ground arith
rank_falls m t m' t' e = ground arith

Effective-rank :
    (sched : List ℕ) (s : System Shared Process)
    → Effective move s sched
    → length sched ≤ total rank s.threads
Effective-rank [] s eff = omega arith
Effective-rank (i ∷ is) s ((t, (m, t'), e, go), eff) =
    let s' : System Shared Process = record { mem = m; threads = set s.threads i t' } in
    let same = step_effective move s i t (m, t') e go in
    let rest = Effective-rank is s' (rw same at eff) in
    omega (arith, rest, rank_falls s.mem t m t' go, total-set rank s.threads i t t' e)

total-rank : (ns : List ℕ) → total rank (processes ns) ≡ 6 * sum ns + length ns
unfolding total sum
total-rank [] = omega arith
total-rank (n ∷ ns) = omega (arith, total-rank ns)

-- Six steps a round and one to return: the processes make no more moves than that.
pub counter_moves_bounded :
    (c0 : ℕ) (nloops sched : List ℕ)
    → Effective move (init c0 nloops) sched
    → length sched ≤ 6 * sum nloops + length nloops
counter_moves_bounded c0 nloops sched eff =
    omega (arith, Effective-rank sched (init c0 nloops) eff, total-rank nloops)
