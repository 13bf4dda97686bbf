-- ===== src/Pxsem/OneToOne/Inv.antt =====
-- The invariant of sem_prodcons2.c, and that each statement of each thread keeps it.
use cs_primer.Prelude.{ℕ, ◌+◌, ◌%◌, ◌≤◌, ◌<◌, ◌≡◌, ◌⊎◌, inl, List, [], ◌∷◌, some, arith, refl}
use cs_primer.Threads.Machine.{System, run}
use cs_primer.Threads.Pair.{run-Pair}
use cs_primer.Pxsem.OneToOne.{
  nbuff, Shared, PutPc, GetPc, Thread, put, get, move, start, init, test_put, wait_nempty, store,
  unlock_put, post_nstored, returned_put, test_get, wait_nstored, check, unlock_get, returned_get,
}

abbrev in_put : PutPc → ℕ
in_put store = 1
in_put unlock_put = 1
in_put _ = 0

abbrev in_get : GetPc → ℕ
in_get check = 1
in_get unlock_get = 1
in_get _ = 0

-- Has a slot that is neither empty nor stored.
abbrev holds : PutPc → ℕ
holds test_put = 0
holds wait_nempty = 0
holds returned_put = 0
holds _ = 1

abbrev took : GetPc → ℕ
took test_get = 0
took wait_nstored = 0
took returned_get = 0
took _ = 1

-- The item `i` stands in the buffer, but is not yet posted.
abbrev stored : PutPc → ℕ
stored unlock_put = 1
stored post_nstored = 1
stored _ = 0

-- In the body of the loop; and past the loop.
abbrev put_body : PutPc → ℕ
put_body test_put = 0
put_body returned_put = 0
put_body _ = 1

abbrev get_body : GetPc → ℕ
get_body test_get = 0
get_body returned_get = 0
get_body _ = 1

abbrev put_over : PutPc → ℕ
put_over returned_put = 1
put_over _ = 0

abbrev get_over : GetPc → ℕ
get_over returned_get = 1
get_over _ = 0

pub record Inv (nitems : ℕ) (m : Shared) (p : PutPc) (i : ℕ) (q : GetPc) (j : ℕ) : Type 0 where
  pub exclusive : m.mutex + in_put p + in_get q ≡ 1
  pub slots : m.nempty + m.nstored + holds p + took q ≡ nbuff
  pub items : m.nstored + j + took q ≡ i
  pub put_le : i + put_body p ≤ nitems
  pub get_le : j + get_body q ≤ nitems
  pub all_put : (put_over p ≡ 0) ⊎ (nitems ≤ i)
  pub all_got : (get_over q ≡ 0) ⊎ (nitems ≤ j)
  pub content : (k : ℕ) → j ≤ k → k < i + stored p → m.buf (k % nbuff) ≡ k
  pub silent : m.errors ≡ []

module _ {nitems : ℕ} {m : Shared} {i j : ℕ} where
  producer-Inv :
      (p : PutPc) (q : GetPc) (m' : Shared) (p' : PutPc) (i' : ℕ)
      → Inv nitems m p i q j
      → move nitems m (put p i) ≡ some (m', put p' i')
      → Inv nitems m' p' i' q j
  unfolding move
  producer-Inv p q m' p' i' inv e = ground arith

  consumer-Inv :
      (p : PutPc) (q : GetPc) (m' : Shared) (q' : GetPc) (j' : ℕ)
      → Inv nitems m p i q j
      → move nitems m (get q j) ≡ some (m', get q' j')
      → Inv nitems m' p i q' j'
  unfolding move
  consumer-Inv p check m' q' j' inv e = ground (arith, inv.content j)
  consumer-Inv p q m' q' j' inv e = ground arith

module _ (nitems : ℕ) where
  abbrev Holds : Shared → Thread → Thread → Type 0
  Holds m (put p i) (get q j) = Inv nitems m p i q j
  Holds m _ _ = ⊥

  producer_stays :
      (m : Shared) (p : PutPc) (i : ℕ) (m' : Shared) (q : GetPc) (j : ℕ)
      → move nitems m (put p i) ≡ some (m', get q j)
      → ⊥
  unfolding move
  producer_stays m p i m' q j e = ground arith

  consumer_stays :
      (m : Shared) (q : GetPc) (j : ℕ) (m' : Shared) (p : PutPc) (i : ℕ)
      → move nitems m (get q j) ≡ some (m', put p i)
      → ⊥
  unfolding move
  consumer_stays m q j m' p i e = ground arith

  left :
      (m : Shared) (t u : Thread) (m' : Shared) (t' : Thread)
      → move nitems m t ≡ some (m', t')
      → Holds m t u
      → Holds m' t' u
  left m (put p i) (get q j) m' (put p' i') e inv = producer-Inv p q m' p' i' inv e
  left m (put p i) (get q j) m' (get q' j') e h = absurd (producer_stays m p i m' q' j' e)
  left m (put p i) (put _ _) m' _ e h = absurd h
  left m (get _ _) u m' _ e h = absurd h

  right :
      (m : Shared) (t u : Thread) (m' : Shared) (u' : Thread)
      → move nitems m u ≡ some (m', u')
      → Holds m t u
      → Holds m' t u'
  right m (put p i) (get q j) m' (get q' j') e inv = consumer-Inv p q m' q' j' inv e
  right m (put p i) (get q j) m' (put p' i') e h = absurd (consumer_stays m q j m' p' i' e)
  right m (put p i) (put _ _) m' _ e h = absurd h
  right m (get _ _) u m' _ e h = absurd h

  start-Inv : Inv nitems start test_put 0 test_get 0
  start-Inv = record {
    exclusive = refl;
    slots = refl;
    items = refl;
    put_le = omega arith;
    get_le = omega arith;
    all_put = inl refl;
    all_got = inl refl;
    content = λ k a b. absurd (omega (arith, b));
    silent = refl;
  }

  -- The two threads of a state, for which the invariant holds.
  pub record Reached (s : System Shared Thread) : Type 0 where
    pub p : PutPc
    pub i : ℕ
    pub q : GetPc
    pub j : ℕ
    pub threads : s.threads ≡ put p i ∷ get q j ∷ []
    pub inv : Inv nitems s.mem p i q j

  Holds-Reached :
      (s : System Shared Thread) (t u : Thread)
      → s.threads ≡ t ∷ u ∷ []
      → Holds s.mem t u
      → Reached s
  Holds-Reached s (put p i) (get q j) e inv = record {
    p = p;
    i = i;
    q = q;
    j = j;
    threads = e;
    inv = inv;
  }
  Holds-Reached s (put p i) (put _ _) e h = absurd h
  Holds-Reached s (get _ _) u e h = absurd h

  -- The invariant holds after every schedule.
  pub run-Reached : (sched : List ℕ) → Reached (run (move nitems) init sched)
  run-Reached sched =
      let (t, u, e, h) =
        run-Pair (move nitems) Holds left right start (put test_put 0) (get test_get 0) sched
          start-Inv in
      Holds-Reached (run (move nitems) init sched) t u e h
