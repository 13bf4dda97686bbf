-- ===== src/Pxsem/OneToOne/Laws.antt =====
-- The items and the progress of the two threads of sem_prodcons2.c.
use cs_primer.Prelude.{ℕ, ◌-◌, ◌≡◌, ◌⊎◌, inl, inr, List, [], ◌∷◌, arith, ap, ◌∙◌}
use cs_primer.Threads.{total}
use cs_primer.Threads.Pair.{Blocked-of}
use cs_primer.Threads.Machine.{run, CanMove, Blocked, move_or_Blocked}
use cs_primer.Pxsem.OneToOne.{
  Shared, PutPc, GetPc, Thread, put, get, move, init, returned_put, returned_get, lock_put,
  lock_get,
}
use cs_primer.Pxsem.OneToOne.Inv.{Inv, run-Reached}

-- The items that the threads have still to be through.
abbrev pub left : ℕ → Thread → ℕ
left nitems (put _ i) = nitems - i
left nitems (get _ i) = nitems - i

abbrev pub running : Thread → ℕ
running (put returned_put _) = 0
running (get returned_get _) = 0
running _ = 1

module _ {nitems : ℕ} {m : Shared} {i j : ℕ} where
  -- Where no thread can move.
  stuck :
      (p : PutPc) (q : GetPc)
      → Inv nitems m p i q j
      → Blocked (move nitems) m (put p i ∷ get q j ∷ [])
      → (total running (put p i ∷ get q j ∷ []) ≡ 0)
        × (total (left nitems) (put p i ∷ get q j ∷ []) ≡ 0)
  unfolding total move
  stuck lock_put q inv b = ground (arith, b.0, b.1.0)
  stuck p lock_get inv b = ground (arith, b.0, b.1.0)
  stuck p q inv b = ground (arith, b.0, b.1.0)

-- After every schedule of sem_prodcons2.c the consumer has printed no error, and some thread can move,
-- or both have returned and have been through all `nitems` items.
pub one_to_one_ends :
    (nitems : ℕ) (sched : List ℕ)
    → let s = run (move nitems) init sched in
      (s.mem.errors ≡ [])
      × (CanMove (move nitems) s
          ⊎ ((total running s.threads ≡ 0) × (total (left nitems) s.threads ≡ 0)))
one_to_one_ends nitems sched =
    let s = run (move nitems) init sched in
    let r = run-Reached nitems sched in
    (
      r.inv.silent,
      elim (move_or_Blocked (move nitems) s.mem s.threads) [
        | inl moves ↦ inl moves
        | inr b ↦
            let (over, none_left) =
              stuck r.p r.q r.inv (Blocked-of (move nitems) s.mem s.threads _ r.threads b) in
            inr
              (ap (total running) r.threads ∙ over, ap (total (left nitems)) r.threads ∙ none_left)
      ],
    )
