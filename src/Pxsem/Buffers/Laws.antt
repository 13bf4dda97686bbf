-- ===== src/Pxsem/Buffers/Laws.antt =====
-- The chunks that pass through the ring of sem_multibuffer.c, and the progress of its threads.
use cs_primer.Prelude.{
  ℕ, ◌-◌, ◌<◌, ◌≡◌, ◌⊎◌, inl, inr, List, [], ◌∷◌, Option, none, some, true, arith, length, ap, sym,
  ◌∙◌, Option-cases,
}
use cs_primer.Threads.{total}
use cs_primer.Threads.Pair.{Blocked-of}
use cs_primer.Threads.Machine.{System, run, CanMove, Blocked, move_or_Blocked}
use cs_primer.Pxsem.Buffers.{
  Shared, PutPc, GetPc, Thread, put, get, move, init, returned_put, returned_get, read_file,
}
use cs_primer.Pxsem.Buffers.Inv.{bytes_read, first, Inv, run-Reached}

abbrev pub running : Thread → ℕ
running (put returned_put _) = 0
running (get returned_get _) = 0
running _ = 1

-- The file has `n` chunks: the reads answer them, and then nothing.
abbrev pub IsFile : (ℕ → Option (List ℕ)) → ℕ → Type 0
IsFile chunk n = ((k : ℕ) → k < n → 0 < length (bytes_read chunk k)) × (chunk n ≡ some [])

module _ {chunk : ℕ → Option (List ℕ)} {m : Shared} {i j w : ℕ} where
  returned-IsFile :
      (p : PutPc) (q : GetPc) (n : ℕ)
      → Inv chunk m p i q j w
      → IsFile chunk n
      → total running (put p i ∷ get q j ∷ []) ≡ 0
      → w ≡ n
  unfolding total
  returned-IsFile returned_put returned_get n inv file over =
      ground (arith, file.0 w, file.1, inv.written_full n, inv.saw_end)
  returned-IsFile returned_put q n inv file over = ground arith
  returned-IsFile p q n inv file over = ground arith

  -- Where no thread can move.
  stuck :
      (p : PutPc) (q : GetPc)
      → Inv chunk m p i q j w
      → Blocked (move chunk) m (put p i ∷ get q j ∷ [])
      → (total running (put p i ∷ get q j ∷ []) ≡ 0) ⊎ ((m.exited ≡ true) × (chunk m.reads ≡ none))
  unfolding total move
  stuck read_file q inv b = elim (Option-cases (chunk m.reads)) [
    | inl failed ↦ ground (arith, failed, b.0)
    | inr (d, ok) ↦ ground (arith, ok, b.0)
  ]
  stuck returned_put q inv b = ground (arith, b.1.0, inv.written_full (m.reads - 1), inv.full w)
  stuck p q inv b = ground (arith, b.0, b.1.0, inv.full w)

module _ (chunk : ℕ → Option (List ℕ)) (sched : List ℕ) where
  abbrev s : System Shared Thread
  s = run (move chunk) init sched

  -- After every schedule of sem_multibuffer.c, what has been given to `write` is the first so many
  -- chunks of the file, in order, each of which a read has answered and is not empty.
  pub copy_in_order :
      (w : ℕ) × (s.mem.written ≡ first chunk w)
      × ((k : ℕ)
          → k < w
          → (chunk k ≡ some (bytes_read chunk k)) × (0 < length (bytes_read chunk k)))
  copy_in_order =
      let r = run-Reached chunk sched in
      let inv = r.inv in
      (
        r.w,
        inv.output,
        λ k h. (inv.answered k (omega (arith, h, inv.posted)), inv.written_full k h),
      )

  -- When both threads of sem_multibuffer.c have returned, and the file has `n` chunks, these have
  -- been given to `write`, in order, and nothing else.
  pub copy_complete :
      (n : ℕ) → IsFile chunk n → total running s.threads ≡ 0 → s.mem.written ≡ first chunk n
  unfolding total
  copy_complete n file over =
      let r = run-Reached chunk sched in
      let over' = sym (ap (total running) r.threads) ∙ over in
      r.inv.output ∙ ap (first chunk) (returned-IsFile r.p r.q n r.inv file over')

  -- After every schedule of sem_multibuffer.c some thread can move, or both have returned, or the
  -- process has exited since a read has failed.
  pub copy_no_deadlock :
      CanMove (move chunk) s
      ⊎ (total running s.threads ≡ 0)
      ⊎ ((s.mem.exited ≡ true) × (chunk s.mem.reads ≡ none))
  copy_no_deadlock =
      let r = run-Reached chunk sched in
      elim (move_or_Blocked (move chunk) s.mem s.threads) [
        | inl moves ↦ inl moves
        | inr b ↦
            elim (stuck r.p r.q r.inv (Blocked-of (move chunk) s.mem s.threads _ r.threads b)) [
              | inl over ↦ inr (inl (ap (total running) r.threads ∙ over))
              | inr failed ↦ inr (inr failed)
            ]
      ]
