-- ===== src/MessageLog/Laws.antt =====
-- The counts and the progress of client2.c and server2.c after a schedule.
use cs_primer.Prelude.{ℕ, ◌+◌, ◌≤◌, ◌<◌, ◌≡◌, ◌⊎◌, inl, inr, List, [], ◌∷◌, arith, length, sum}
use cs_primer.Threads.{total, total_mono, total-add}
use cs_primer.Threads.Machine.{run, CanMove, Blocked, move_or_Blocked}
use cs_primer.MessageLog.{nmsg, Shared, Thread, client, server, move, init, try_wait, returned}
use cs_primer.MessageLog.Inv.{
  in_mutex, in_overflow, due, left, is_server, early, off_count, astray, running, run-Inv,
}

early-le : (t : Thread) → early t ≤ left t + off_count t
early-le (client try_wait c) = omega arith
early-le (client p c) = ground arith
early-le (server p s) = omega arith

-- After every schedule of client2.c and server2.c at most one thread holds each mutex, no more than
-- `nmsg` slots are empty or stored, all offsets lie within the messages, and the lines printed, the
-- messages that are stored and the overflows counted are no more than the rounds of the clients.
pub log_safe :
    (loops sched : List ℕ)
    → let s = run move (init loops) sched in
      (total in_mutex s.threads ≤ 1)
      × (total in_overflow s.threads ≤ 1)
      × (s.mem.nempty + s.mem.nstored ≤ nmsg)
      × (s.mem.nput < nmsg)
      × (total astray s.threads ≡ 0)
      × (length s.mem.printed + s.mem.nstored + s.mem.noverflow ≤ sum loops)
log_safe loops sched =
    let s = run move (init loops) sched in
    let inv = run-Inv loops sched in
    (
      omega (arith, inv.exclusive),
      omega (arith, inv.count_exclusive),
      omega (arith, inv.slots),
      inv.ring,
      inv.inside,
      omega (
        arith,
        inv.accounts,
        inv.counted,
        total_mono early (λ t. left t + off_count t) early-le s.threads,
        total-add left off_count s.threads,
      ),
    )

module _ (m : Shared) where
  Blocked-in_mutex :
      (ts : List Thread) → Blocked move m ts → total in_mutex ts + total in_overflow ts ≡ 0
  unfolding total move
  Blocked-in_mutex [] b = omega arith
  Blocked-in_mutex (client try_wait c ∷ ts) b = ground (arith, Blocked-in_mutex ts b.1)
  Blocked-in_mutex (client p c ∷ ts) b = ground (arith, Blocked-in_mutex ts b.1)
  Blocked-in_mutex (server p s ∷ ts) b = ground (arith, Blocked-in_mutex ts b.1)

  -- With both mutexes free, the clients have returned and the server waits for a message.
  Blocked-running :
      m.mutex ≡ 1
      → m.noverflowmutex ≡ 1
      → (ts : List Thread) → Blocked move m ts
      → (total running ts ≡ 0)
        × (total due ts + total early ts ≡ 0)
        × ((total is_server ts ≡ 0) ⊎ (m.nstored ≡ 0))
  unfolding total move
  Blocked-running f g [] b = ground arith
  Blocked-running f g (client try_wait c ∷ ts) b = ground (arith, Blocked-running f g ts b.1)
  Blocked-running f g (client p c ∷ ts) b = ground (arith, Blocked-running f g ts b.1)
  Blocked-running f g (server p s ∷ ts) b = ground (arith, Blocked-running f g ts b.1)

returned-left :
    (ts : List Thread) → total running ts ≡ 0 → total off_count ts ≡ 0 → total left ts ≡ 0
unfolding total
returned-left [] a b = omega arith
returned-left (client returned c ∷ ts) a b =
    ground (arith, returned-left ts (omega (arith, a)) (omega (arith, b)), b)
returned-left (client p c ∷ ts) a b = absurd (omega (arith, a))
returned-left (server p s ∷ ts) a b =
    omega (arith, returned-left ts (omega (arith, a)) (omega (arith, b)))

-- After every schedule of client2.c and server2.c some thread can move, or all clients have
-- returned, the server waits for a message, none is stored, and the lines printed and the overflows
-- counted add up to the rounds of the clients.
pub log_accounts :
    (loops sched : List ℕ)
    → CanMove move (run move (init loops) sched)
      ⊎ ((total running (run move (init loops) sched).threads ≡ 0)
          × ((run move (init loops) sched).mem.nstored ≡ 0)
          × (length (run move (init loops) sched).mem.printed
                + (run move (init loops) sched).mem.noverflow
              ≡ sum loops))
log_accounts loops sched =
    let s = run move (init loops) sched in
    let inv = run-Inv loops sched in
    elim (move_or_Blocked move s.mem s.threads) [
      | inl moves ↦ inl moves
      | inr b ↦
          let none_inside = Blocked-in_mutex s.mem s.threads b in
          let (over, quiet, empty) =
            Blocked-running s.mem (omega (arith, inv.exclusive, none_inside))
              (omega (arith, inv.count_exclusive, none_inside)) s.threads b in
          let no_round = returned-left s.threads over inv.counted in
          let drained : s.mem.nstored ≡ 0 = omega (arith, empty, inv.one_server) in
          inr (over, drained, omega (arith, inv.accounts, quiet, no_round, drained))
    ]
