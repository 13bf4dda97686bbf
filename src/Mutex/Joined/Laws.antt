-- ===== src/Mutex/Joined/Laws.antt =====
-- The producers of mutex_prodcons1.c up to their joins, and its consumer after them.
use cs_primer.Prelude.{
  ℕ, zero, suc, ◌+◌, ◌*◌, ◌≤◌, ◌<◌, ◌≡◌, ◌⊎◌, ◌∙◌, inl, inr, ap, List, [], ◌∷◌, map, arith, refl,
  sum,
}
use cs_primer.Threads.{total, total_mono, total-add, total-replicate}
use cs_primer.Threads.Machine.{run, run_inv, CanMove, move_or_Blocked}
use cs_primer.Mutex.Spin.{Thread, put, get, move, lock_put, quit_put}
use cs_primer.Mutex.Spin.Inv.{
  Inv, move-Inv, critical, running, count, count_due, val_due, putting, stored, getting, found,
  is_put, is_get, put_over, get_over,
}
use cs_primer.Mutex.Spin.Laws.{count_due-le, Blocked-critical, Blocked-running}
use cs_primer.Mutex.Joined.{producers_only, check_items, after_join}

start : (w : Thread → ℕ) (np : ℕ) → total w (producers_only np).threads ≡ np * w (put lock_put 0)
start w np = total-replicate w np (put lock_put 0)

Inv-init : (np nitems : ℕ) → Inv np 0 nitems (producers_only np).mem (producers_only np).threads
Inv-init np nitems = record {
  exclusive = omega (arith, start critical np);
  all_put = omega (arith, start put_over np);
  all_got = omega (arith, start get_over np);
  left = omega (arith, start getting np);
  behind = omega (arith, start found np);
  put_counts = omega (arith, start count np, start count_due np);
  put_val = omega (arith, start val_due np);
  put_le = omega (arith, start putting np);
  producers = omega (arith, start is_put np);
  consumers = omega (arith, start is_get np);
  one = omega arith;
  silent = refl;
  content = λ k h. absurd (omega (arith, h, start stored np));
}

joined-Inv :
    (np nitems : ℕ) (sched : List ℕ)
    → let s = run (move nitems) (producers_only np) sched in Inv np 0 nitems s.mem s.threads
joined-Inv np nitems sched =
    run_inv (move nitems) (λ s. Inv np 0 nitems s.mem s.threads) move-Inv (producers_only np) sched
      (Inv-init np nitems)

is_put-le : (t : Thread) → is_put t ≤ put_over t + running t
is_put-le (put quit_put c) = omega arith
is_put-le (put p c) = omega arith
is_put-le (get p) = omega arith

total-map : (ts : List Thread) → sum (map count ts) ≡ total count ts
unfolding sum total
total-map [] = refl
total-map (t ∷ ts) = ap (λ n. count t + n) (total-map ts)

check_items_silent :
    (n : ℕ) (buf : ℕ → ℕ) (i : ℕ) → ((k : ℕ) → k < i + n → buf k ≡ k) → check_items n buf i ≡ []
unfolding check_items
check_items_silent zero buf i h = refl
check_items_silent (suc n) buf i h =
    let rest = check_items_silent n buf (i + 1) (λ k a. h k (omega (arith, a))) in
    ground (arith, rest, h i)

-- With a producer at least: when all producers of mutex_prodcons1.c have returned, the counts that
-- `main` prints add up to `nitems`, and the consumer that runs then prints no error.
pub prodcons1_complete :
    (np nitems : ℕ) (sched : List ℕ)
    → 0 < np
    → total running (run (move nitems) (producers_only np) sched).threads ≡ 0
    → let o = after_join nitems (run (move nitems) (producers_only np) sched) in
      (sum o.counts ≡ nitems) × (o.errors ≡ [])
unfolding after_join
prodcons1_complete np nitems sched some_producer over =
    let s = run (move nitems) (producers_only np) sched in
    let inv = joined-Inv np nitems sched in
    let all : s.mem.nput ≡ nitems = ground (
      arith,
      over,
      inv.all_put,
      inv.producers,
      inv.put_le,
      total_mono is_put (λ t. put_over t + running t) is_put-le s.threads,
      total-add put_over running s.threads,
      some_producer,
    ) in
    let counted : total count s.threads ≡ nitems =
      omega
        (arith, all, inv.put_counts, total_mono count_due running count_due-le s.threads, over) in
    (
      total-map s.threads ∙ counted,
      check_items_silent nitems s.mem.buf 0 (λ k a. inv.content k (omega (arith, a, all))),
    )

-- After every schedule some producer of mutex_prodcons1.c can move, or all have returned.
pub prodcons1_no_deadlock :
    (np nitems : ℕ) (sched : List ℕ)
    → CanMove (move nitems) (run (move nitems) (producers_only np) sched)
      ⊎ (total running (run (move nitems) (producers_only np) sched).threads ≡ 0)
prodcons1_no_deadlock np nitems sched =
    let s = run (move nitems) (producers_only np) sched in
    let inv = joined-Inv np nitems sched in
    elim (move_or_Blocked (move nitems) s.mem s.threads) [
      | inl moves ↦ inl moves
      | inr b ↦ inr (
          Blocked-running nitems s.mem
            (omega (arith, inv.exclusive, Blocked-critical nitems s.mem s.threads b)) s.threads b)
    ]
