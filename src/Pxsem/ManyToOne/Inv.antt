-- ===== src/Pxsem/ManyToOne/Inv.antt =====
-- The invariant of sem_prodcons3.c, and that each statement of each thread keeps it.
use cs_primer.Prelude.{
  ◌*◌, ℕ, ◌+◌, ◌%◌, ◌≤◌, ◌<◌, ◌≡◌, ◌⊎◌, List, [], ◌∷◌, some, arith, get_elem?, set, refl,
}
use cs_primer.Threads.{total, total-start, Sums, sums, Rests, rests}
use cs_primer.Threads.Machine.{System, run, run_inv}
use cs_primer.Pxsem.ManyToOne.{
  Shared, Thread, put, get, move, init, nbuff, wait_nempty, test_i, check, GetPc, PutPc,
}
use cs_primer.Pxsem.ManyToOne.Weights.{
  critical, slot, token, put_val_due, putting, getting, stored, put_over, get_over, put_count,
  put_count_due, is_put, is_get, weights, small, small-Below, getting-Below,
}

pub record Inv (np nitems : ℕ) (m : Shared) (ts : List Thread) : Type 0 where
  pub exclusive : m.mutex + total critical ts ≡ 1
  pub slots : m.nempty + total slot ts + m.nput ≡ nbuff + m.i
  pub tokens : m.nstored + total token ts + m.i ≡ m.nput
  pub all_put : (total put_over ts ≡ 0) ⊎ (nitems ≤ m.nput)
  pub all_got : (total get_over ts ≡ 0) ⊎ (nitems ≤ m.i)
  pub left : (total getting ts ≡ 0) ⊎ (m.i < nitems)
  pub put_counts : total put_count ts + total put_count_due ts ≡ m.nput
  pub put_val : m.nputval + total put_val_due ts ≡ m.nput
  pub put_le : m.nput + total putting ts ≤ nitems
  pub producers : total is_put ts ≡ np
  pub consumers : total is_get ts ≡ 1
  pub silent : m.errors ≡ []
  pub content : (k : ℕ) → m.i ≤ k → k < m.nput + total stored ts → m.buf (k % nbuff) ≡ k

abbrev pub InvS : ℕ → ℕ → System Shared Thread → Type 0
InvS np nitems s = Inv np nitems s.mem s.threads

module _ {np nitems : ℕ} {m : Shared} {ts : List Thread} (inv : Inv np nitems m ts) (i : ℕ) where
  producer-Inv :
      (p : PutPc) (c : ℕ) (m' : Shared) (t' : Thread)
      → Sums weights ts i (put p c) t'
      → Rests critical small ts (put p c)
      → move nitems m (put p c) ≡ some (m', t')
      → Inv np nitems m' (set ts i t')
  unfolding move
  producer-Inv wait_nempty c m' t' f g e = ground arith
  producer-Inv p c m' t' f g e = ground arith

  consumer-Inv :
      (p : GetPc) (m' : Shared) (t' : Thread)
      → Sums weights ts i (get p) t'
      → Rests critical small ts (get p)
      → Rests is_get (getting ∷ []) ts (get p)
      → move nitems m (get p) ≡ some (m', t')
      → Inv np nitems m' (set ts i t')
  unfolding move
  consumer-Inv check m' t' f g h e = ground (arith, inv.content m.i)
  consumer-Inv p m' t' f g h e = ground arith

pub move-Inv :
    {np nitems : ℕ} (s : System Shared Thread) (i : ℕ) (t : Thread) (m : Shared) (t' : Thread)
    → get_elem? s.threads i ≡ some t
    → move nitems s.mem t ≡ some (m, t')
    → InvS np nitems s
    → Inv np nitems m (set s.threads i t')
move-Inv s i (put p c) m t' e go inv =
    producer-Inv inv i p c m t' (sums weights s.threads i _ t' e)
      (rests critical small small-Below s.threads i _ e) go
move-Inv s i (get p) m t' e go inv =
    consumer-Inv inv i p m t' (sums weights s.threads i _ t' e)
      (rests critical small small-Below s.threads i _ e)
      (rests is_get (getting ∷ []) getting-Below s.threads i _ e) go

pub start :
    (w : Thread → ℕ) (np : ℕ)
    → total w (init np).threads ≡ np * w (put wait_nempty 0) + 1 * w (get test_i)
start w np = total-start w np 1 (put wait_nempty 0) (get test_i)

pub Inv-init : (np nitems : ℕ) → InvS np nitems (init np)
Inv-init np nitems = record {
  exclusive = omega (arith, start critical np);
  slots = omega (arith, start slot np);
  tokens = omega (arith, start token np);
  all_put = omega (arith, start put_over np);
  all_got = omega (arith, start get_over np);
  left = omega (arith, start getting np);
  put_counts = omega (arith, start put_count np, start put_count_due np);
  put_val = omega (arith, start put_val_due np);
  put_le = omega (arith, start putting np);
  producers = omega (arith, start is_put np);
  consumers = omega (arith, start is_get np);
  silent = refl;
  content = λ k lo hi. absurd (omega (arith, start stored np));
}

-- The invariant holds after every schedule.
pub run-Inv : (np nitems : ℕ) (sched : List ℕ) → InvS np nitems (run (move nitems) (init np) sched)
run-Inv np nitems sched =
    run_inv (move nitems) (InvS np nitems) move-Inv (init np) sched (Inv-init np nitems)
