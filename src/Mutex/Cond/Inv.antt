-- ===== src/Mutex/Cond/Inv.antt =====
-- The invariant of mutex_prodcons3.c, and that each statement of each thread keeps it.
use cs_primer.Prelude.{
  ℕ, ◌+◌, ◌*◌, ◌≤◌, ◌<◌, ◌≡◌, ◌⊎◌, inl, List, [], ◌∷◌, some, arith, get_elem?, set, refl, replicate,
}
use cs_primer.Threads.{total, total-append, total-replicate, Sums, sums, Rests, rests}
use cs_primer.Threads.Machine.{System, run, run_inv}
use cs_primer.Mutex.Cond.{
  Shared, Thread, put, get, waker, move, init, PutPc, GetPc, lock_put, test_i, check,
}
use cs_primer.Mutex.Cond.Weights.{
  in_put, in_ready, count, ready_due, count_due, putting, stored, readying, getting, taken, sleepy,
  taking, is_put, is_get, put_over, get_over, weights, put-Below, ready-Below, get-Below,
}

pub record Inv (np nitems : ℕ) (m : Shared) (ts : List Thread) : Type 0 where
  pub put_exclusive : m.put_mutex + total in_put ts ≡ 1
  pub ready_exclusive : m.ready_mutex + total in_ready ts ≡ 1
  pub items : m.nready + total ready_due ts + m.i + total taken ts ≡ m.nput
  pub put_counts : total count ts + total count_due ts ≡ m.nput
  pub put_le : m.nput + total putting ts ≤ nitems
  pub all_put : (total put_over ts ≡ 0) ⊎ (nitems ≤ m.nput)
  pub all_got : (total get_over ts ≡ 0) ⊎ (nitems ≤ m.i)
  pub left : (total getting ts ≡ 0) ⊎ (m.i < nitems)
  pub sleeps : (m.waiting ≡ 0) ⊎ ((m.nready ≡ 0) × (total readying ts ≡ 0))
  pub falls_asleep : (total sleepy ts ≡ 0) ⊎ (m.nready ≡ 0)
  pub takes : (total taking ts ≡ 0) ⊎ (0 < m.nready)
  pub producers : total is_put ts ≡ np
  pub consumers : total is_get ts ≡ 1
  pub silent : m.errors ≡ []
  pub content : (k : ℕ) → k < m.nput + total stored ts → m.buf k ≡ k

-- What a step of the thread `t` to `t'` does to the sums.
abbrev Step : List Thread → ℕ → Thread → Thread → Type 0
Step ts i t t' =
    Sums weights ts i t t'
    × Rests in_put (putting ∷ stored ∷ []) ts t
    × Rests in_ready (readying ∷ sleepy ∷ taking ∷ []) ts t
    × Rests is_get (getting ∷ taken ∷ []) ts t

to_Step : (ts : List Thread) (i : ℕ) (t t' : Thread) → get_elem? ts i ≡ some t → Step ts i t t'
to_Step ts i t t' e = (
  sums weights ts i t t' e,
  rests in_put (putting ∷ stored ∷ []) put-Below ts i t e,
  rests in_ready (readying ∷ sleepy ∷ taking ∷ []) ready-Below ts i t e,
  rests is_get (getting ∷ taken ∷ []) get-Below ts i t e,
)

module _ {np nitems : ℕ} {m : Shared} {ts : List Thread} (inv : Inv np nitems m ts) (i : ℕ) where
  producer-Inv :
      (p : PutPc) (c : ℕ) (m' : Shared) (t' : Thread)
      → Step ts i (put p c) t'
      → move nitems m (put p c) ≡ some (m', t')
      → Inv np nitems m' (set ts i t')
  unfolding move
  producer-Inv lock_put c m' t' f e = ground arith
  producer-Inv p c m' t' f e = ground arith

  consumer-Inv :
      (p : GetPc) (m' : Shared) (t' : Thread)
      → Step ts i (get p) t'
      → move nitems m (get p) ≡ some (m', t')
      → Inv np nitems m' (set ts i t')
  unfolding move
  consumer-Inv check m' t' f e = ground (arith, inv.content m.i)
  consumer-Inv p m' t' f e = ground arith

  waker-Inv :
      (m' : Shared) (t' : Thread)
      → Step ts i waker t'
      → move nitems m waker ≡ some (m', t')
      → Inv np nitems m' (set ts i t')
  unfolding move
  waker-Inv m' t' f e = ground arith

move-Inv :
    {np nitems : ℕ} (s : System Shared Thread) (i : ℕ) (t : Thread) (m : Shared) (t' : Thread)
    → get_elem? s.threads i ≡ some t
    → move nitems s.mem t ≡ some (m, t')
    → Inv np nitems s.mem s.threads
    → Inv np nitems m (set s.threads i t')
move-Inv s i (put p c) m t' e go inv = producer-Inv inv i p c m t' (to_Step s.threads i _ t' e) go
move-Inv s i (get p) m t' e go inv = consumer-Inv inv i p m t' (to_Step s.threads i _ t' e) go
move-Inv s i waker m t' e go inv = waker-Inv inv i m t' (to_Step s.threads i _ t' e) go

start :
    (w : Thread → ℕ) (np k : ℕ)
    → total w (init np k).threads ≡ np * w (put lock_put 0) + (w (get test_i) + k * w waker)
unfolding total
start w np k = omega (
  arith,
  total-append w (replicate np (put lock_put 0)) (get test_i ∷ replicate k waker),
  total-replicate w np (put lock_put 0),
  total-replicate w k waker,
)

Inv-init : (np k nitems : ℕ) → Inv np nitems (init np k).mem (init np k).threads
Inv-init np k nitems = record {
  put_exclusive = omega (arith, start in_put np k);
  ready_exclusive = omega (arith, start in_ready np k);
  items = omega (arith, start ready_due np k, start taken np k);
  put_counts = omega (arith, start count np k, start count_due np k);
  put_le = omega (arith, start putting np k);
  all_put = omega (arith, start put_over np k);
  all_got = omega (arith, start get_over np k);
  left = omega (arith, start getting np k);
  sleeps = inl refl;
  falls_asleep = omega (arith, start sleepy np k);
  takes = omega (arith, start taking np k);
  producers = omega (arith, start is_put np k);
  consumers = omega (arith, start is_get np k);
  silent = refl;
  content = λ j h. absurd (omega (arith, start stored np k));
}

-- The invariant holds after every schedule.
pub run-Inv :
    (np k nitems : ℕ) (sched : List ℕ)
    → let s = run (move nitems) (init np k) sched in Inv np nitems s.mem s.threads
run-Inv np k nitems sched =
    run_inv (move nitems) (λ s. Inv np nitems s.mem s.threads) move-Inv (init np k) sched
      (Inv-init np k nitems)
