-- ===== src/Pxsem/Buffers/Inv.antt =====
-- The invariant of sem_multibuffer.c, and that each statement of each thread keeps it.
use cs_primer.Prelude.{
  ℕ, zero, suc, ◌+◌, ◌-◌, ◌%◌, ◌≤◌, ◌<◌, ◌≡◌, ◌⊎◌, inl, inr, List, [], ◌∷◌, ◌++◌, Option, none,
  some, false, arith, length, refl, Option-cases,
}
use cs_primer.Threads.Machine.{System, run}
use cs_primer.Threads.Pair.{run-Pair}
use cs_primer.Pxsem.Buffers.{
  nbuff, Shared, PutPc, GetPc, Thread, put, get, move, start, init, wait_nempty, lock_put,
  unlock_put, read_file, test_end, post_nstored, post_last, returned_put, wait_nstored, lock_get,
  unlock_get, test_n, write_out, post_nempty, returned_get,
}

-- Has taken an empty buffer that it has not yet posted as stored.
abbrev pub holds : PutPc → ℕ
holds wait_nempty = 0
holds returned_put = 0
holds _ = 1

-- Has taken a stored buffer that it has not yet posted as empty.
abbrev pub took : GetPc → ℕ
took wait_nstored = 0
took _ = 1

-- The buffer that it has taken is not yet written.
abbrev pub unwritten : GetPc → ℕ
unwritten wait_nstored = 0
unwritten post_nempty = 0
unwritten _ = 1

-- Read, but not yet posted.
abbrev pub due : PutPc → ℕ
due test_end = 1
due post_nstored = 1
due post_last = 1
due _ = 0

-- The last chunk read is not yet known to be a chunk of the file; it is known to be the end.
abbrev pub late : PutPc → ℕ
late test_end = 1
late post_last = 1
late returned_put = 1
late _ = 0

abbrev pub ending : PutPc → ℕ
ending post_last = 1
ending returned_put = 1
ending _ = 0

abbrev pub in_put : PutPc → ℕ
in_put unlock_put = 1
in_put _ = 0

abbrev pub in_get : GetPc → ℕ
in_get unlock_get = 1
in_get _ = 0

abbrev pub stopped : GetPc → ℕ
stopped returned_get = 1
stopped _ = 0

abbrev writing : GetPc → ℕ
writing write_out = 1
writing _ = 0

module _ (chunk : ℕ → Option (List ℕ)) where
  -- What the n-th read has put in the buffer.
  abbrev pub bytes_read : ℕ → List ℕ
  bytes_read n = elim (chunk n) [ none ↦ [] | some d ↦ d ]

  -- The first `n` chunks, in order.
  unfoldable pub first : ℕ → List (List ℕ)
  first zero = []
  first (suc n) = first n ++ bytes_read n ∷ []

  pub record Inv (m : Shared) (p : PutPc) (i : ℕ) (q : GetPc) (j w : ℕ) : Type 0 where
    pub exclusive : m.mutex + in_put p + in_get q ≡ 1
    pub buffers : m.nempty + m.nstored + holds p + took q ≡ nbuff
    pub posted : m.nstored + w + unwritten q + due p ≡ m.reads
    pub put_at : (late p ≤ m.reads) × (i ≡ (m.reads - late p) % nbuff)
    pub get_at : j ≡ w % nbuff
    pub output : m.written ≡ first w
    pub content : (k : ℕ) → w ≤ k → k < m.reads → bytes_read k ≡ m.buff (k % nbuff)
    pub answered : (k : ℕ) → k < m.reads → chunk k ≡ some (bytes_read k)
    pub full : (k : ℕ) → k + late p < m.reads → 0 < length (bytes_read k)
    pub written_full : (k : ℕ) → k < w → 0 < length (bytes_read k)
    pub at_end : (ending p ≡ 0) ⊎ (length (bytes_read (m.reads - 1)) ≡ 0)
    pub saw_end : (stopped q ≡ 0) ⊎ (length (bytes_read w) ≡ 0)
    pub saw_more : (writing q ≡ 0) ⊎ (0 < length (bytes_read w))
    pub exit : (m.exited ≡ false) ⊎ (chunk m.reads ≡ none)

  module _ {m : Shared} {i j w : ℕ} where
    producer-Inv :
        (p : PutPc) (q : GetPc) (m' : Shared) (p' : PutPc) (i' : ℕ)
        → Inv m p i q j w
        → move chunk m (put p i) ≡ some (m', put p' i')
        → Inv m' p' i' q j w
    unfolding move
    producer-Inv wait_nempty q m' p' i' inv e = ground arith
    producer-Inv lock_put q m' p' i' inv e = ground arith
    producer-Inv unlock_put q m' p' i' inv e = ground arith
    producer-Inv post_nstored q m' p' i' inv e = ground arith
    producer-Inv post_last q m' p' i' inv e = ground arith
    producer-Inv returned_put q m' p' i' inv e = ground arith
    producer-Inv test_end q m' p' i' inv e = ground (arith, inv.content (m.reads - 1))
    producer-Inv read_file q m' p' i' inv e = elim (Option-cases (chunk m.reads)) [
      | inl failed ↦ ground (arith, failed)
      | inr (d, ok) ↦ ground (arith, ok)
    ]

    consumer-Inv :
        (p : PutPc) (q : GetPc) (m' : Shared) (q' : GetPc) (j' : ℕ)
        → Inv m p i q j w
        → move chunk m (get q j) ≡ some (m', get q' j')
        → Inv m' p i q' j' (w + writing q)
    unfolding move first
    consumer-Inv p wait_nstored m' q' j' inv e = ground arith
    consumer-Inv p lock_get m' q' j' inv e = ground arith
    consumer-Inv p unlock_get m' q' j' inv e = ground arith
    consumer-Inv p test_n m' q' j' inv e = ground (arith, inv.content w)
    consumer-Inv p write_out m' q' j' inv e = ground (arith, inv.content w, inv.written_full)
    consumer-Inv p post_nempty m' q' j' inv e = ground arith
    consumer-Inv p returned_get m' q' j' inv e = ground arith

  -- The first thread is a producer, the second a consumer, and the invariant holds of them.
  abbrev Holds : Shared → Thread → Thread → Type 0
  Holds m (put p i) (get q j) = (w : ℕ) × Inv m p i q j w
  Holds m _ _ = ⊥

  producer_stays :
      (m : Shared) (p : PutPc) (i : ℕ) (m' : Shared) (q : GetPc) (j : ℕ)
      → move chunk m (put p i) ≡ some (m', get q j)
      → ⊥
  unfolding move
  producer_stays m read_file i m' q j e = elim (Option-cases (chunk m.reads)) [
    | inl failed ↦ ground (arith, failed)
    | inr (d, ok) ↦ ground (arith, ok)
  ]
  producer_stays m p i m' q j e = ground arith

  consumer_stays :
      (m : Shared) (q : GetPc) (j : ℕ) (m' : Shared) (p : PutPc) (i : ℕ)
      → move chunk m (get q j) ≡ some (m', put p i)
      → ⊥
  unfolding move
  consumer_stays m q j m' p i e = ground arith

  left :
      (m : Shared) (t u : Thread) (m' : Shared) (t' : Thread)
      → move chunk m t ≡ some (m', t')
      → Holds m t u
      → Holds m' t' u
  left m (put p i) (get q j) m' (put p' i') e (w, inv) = (w, producer-Inv p q m' p' i' inv e)
  left m (put p i) (get q j) m' (get q' j') e h = absurd (producer_stays m p i m' q' j' e)
  left m (put p i) (put _ _) m' _ e h = absurd h
  left m (get _ _) u m' _ e h = absurd h

  right :
      (m : Shared) (t u : Thread) (m' : Shared) (u' : Thread)
      → move chunk m u ≡ some (m', u')
      → Holds m t u
      → Holds m' t u'
  right m (put p i) (get q j) m' (get q' j') e (w, inv) =
      (w + writing q, consumer-Inv p q m' q' j' inv e)
  right m (put p i) (get q j) m' (put p' i') e h = absurd (consumer_stays m q j m' p' i' e)
  right m (put p i) (put _ _) m' _ e h = absurd h
  right m (get _ _) u m' _ e h = absurd h

  start-Inv : Inv start wait_nempty 0 wait_nstored 0 0
  unfolding first
  start-Inv = record {
    exclusive = refl;
    buffers = refl;
    posted = refl;
    put_at = (omega arith, refl);
    get_at = refl;
    output = refl;
    content = λ k a b. absurd (omega (arith, b));
    answered = λ k b. absurd (omega (arith, b));
    full = λ k b. absurd (omega (arith, b));
    written_full = λ k b. absurd (omega (arith, b));
    at_end = inl refl;
    saw_end = inl refl;
    saw_more = inl refl;
    exit = inl refl;
  }

  -- The two threads of a state, for which the invariant holds.
  pub record Reached (s : System Shared Thread) : Type 0 where
    pub p : PutPc
    pub i : ℕ
    pub q : GetPc
    pub j : ℕ
    pub w : ℕ
    pub threads : s.threads ≡ put p i ∷ get q j ∷ []
    pub inv : Inv s.mem p i q j w

  Holds-Reached :
      (s : System Shared Thread) (t u : Thread)
      → s.threads ≡ t ∷ u ∷ []
      → Holds s.mem t u
      → Reached s
  Holds-Reached s (put p i) (get q j) e (w, inv) = record {
    p = p;
    i = i;
    q = q;
    j = j;
    w = w;
    threads = e;
    inv = inv;
  }
  Holds-Reached s (put p i) (put _ _) e h = absurd h
  Holds-Reached s (get _ _) u e h = absurd h

  -- The invariant holds after every schedule.
  pub run-Reached : (sched : List ℕ) → Reached (run (move chunk) init sched)
  run-Reached sched =
      let (t, u, e, h) =
        run-Pair (move chunk) Holds left right start (put wait_nempty 0) (get wait_nstored 0) sched
          (0, start-Inv) in
      Holds-Reached (run (move chunk) init sched) t u e h
