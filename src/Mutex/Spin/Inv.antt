-- ===== src/Mutex/Spin/Inv.antt =====
-- The invariant of mutex_prodcons2.c, and that each statement of each thread keeps it.
use cs_primer.Prelude.{
  ℕ, ◌+◌, ◌*◌, ◌≤◌, ◌<◌, ◌≡◌, ◌⊎◌, List, [], ◌∷◌, some, arith, get_elem?, set, refl,
}
use cs_primer.Threads.{total, total-start, Sums, sums, Rests, rests, Below}
use cs_primer.Threads.Machine.{System, run, run_inv}
use cs_primer.Mutex.Spin.{
  Shared, Thread, put, get, move, init, PutPc, GetPc, lock_put, store, inc_nput, inc_nval,
  unlock_put, add_put, quit_put, returned_put, test_i, test_stored, unlock_found, unlock_again,
  check, returned_get,
}

abbrev pub critical : Thread → ℕ
critical (put lock_put _) = 0
critical (put add_put _) = 0
critical (put returned_put _) = 0
critical (put _ _) = 1
critical (get test_stored) = 1
critical (get unlock_found) = 1
critical (get unlock_again) = 1
critical (get _) = 0

abbrev pub running : Thread → ℕ
running (put returned_put _) = 0
running (get returned_get) = 0
running _ = 1

abbrev pub count : Thread → ℕ
count (put _ c) = c
count _ = 0

-- Put, but not yet counted.
abbrev pub count_due : Thread → ℕ
count_due (put inc_nval _) = 1
count_due (put unlock_put _) = 1
count_due (put add_put _) = 1
count_due _ = 0

abbrev pub val_due : Thread → ℕ
val_due (put inc_nval _) = 1
val_due _ = 0

abbrev pub putting : Thread → ℕ
putting (put store _) = 1
putting (put inc_nput _) = 1
putting _ = 0

abbrev pub stored : Thread → ℕ
stored (put inc_nput _) = 1
stored _ = 0

-- The consumer, in the body of its loop; and there past its wait.
abbrev pub getting : Thread → ℕ
getting (get test_i) = 0
getting (get returned_get) = 0
getting (get _) = 1
getting _ = 0

abbrev pub found : Thread → ℕ
found (get unlock_found) = 1
found (get check) = 1
found _ = 0

abbrev pub is_put : Thread → ℕ
is_put (put _ _) = 1
is_put _ = 0

abbrev pub is_get : Thread → ℕ
is_get (get _) = 1
is_get _ = 0

abbrev pub put_over : Thread → ℕ
put_over (put quit_put _) = 1
put_over (put returned_put _) = 1
put_over _ = 0

abbrev pub get_over : Thread → ℕ
get_over (get returned_get) = 1
get_over _ = 0

abbrev weights : List (Thread → ℕ)
weights =
    critical ∷ count ∷ count_due ∷ val_due ∷ putting ∷ stored ∷ getting ∷ found ∷ is_put ∷ is_get
    ∷ put_over ∷ get_over ∷ []

abbrev small : List (Thread → ℕ)
small = val_due ∷ putting ∷ stored ∷ []

val_due-le : (t : Thread) → val_due t ≤ critical t
val_due-le (put lock_put _) = omega arith
val_due-le (put p _) = omega arith
val_due-le (get p) = omega arith

putting-le : (t : Thread) → putting t ≤ critical t
putting-le (put lock_put _) = omega arith
putting-le (put p _) = omega arith
putting-le (get p) = omega arith

stored-le : (t : Thread) → stored t ≤ critical t
stored-le (put lock_put _) = omega arith
stored-le (put p _) = omega arith
stored-le (get p) = omega arith

getting-le : (t : Thread) → getting t ≤ is_get t
getting-le (put p _) = omega arith
getting-le (get test_i) = omega arith
getting-le (get p) = omega arith

found-le : (t : Thread) → found t ≤ is_get t
found-le (put p _) = omega arith
found-le (get test_i) = omega arith
found-le (get p) = omega arith

small-Below : Below critical small
small-Below = (val_due-le, (putting-le, (stored-le, tt)))

one_Below : Below is_get (getting ∷ found ∷ [])
one_Below = (getting-le, (found-le, tt))

pub record Inv (np nc nitems : ℕ) (m : Shared) (ts : List Thread) : Type 0 where
  pub exclusive : m.mutex + total critical ts ≡ 1
  pub all_put : (total put_over ts ≡ 0) ⊎ (nitems ≤ m.nput)
  pub all_got : (total get_over ts ≡ 0) ⊎ (nitems ≤ m.i)
  pub left : (total getting ts ≡ 0) ⊎ (m.i < nitems)
  pub behind : m.i + total found ts ≤ m.nput
  pub put_counts : total count ts + total count_due ts ≡ m.nput
  pub put_val : m.nval + total val_due ts ≡ m.nput
  pub put_le : m.nput + total putting ts ≤ nitems
  pub producers : total is_put ts ≡ np
  pub consumers : total is_get ts ≡ nc
  pub one : nc ≤ 1
  pub silent : m.errors ≡ []
  pub content : (k : ℕ) → k < m.nput + total stored ts → m.buf k ≡ k

module _ {np nc nitems : ℕ} {m : Shared} {ts : List Thread} (inv : Inv np nc nitems m ts)
    (i : ℕ) where
  producer-Inv :
      (p : PutPc) (c : ℕ) (m' : Shared) (t' : Thread)
      → Sums weights ts i (put p c) t'
      → Rests critical small ts (put p c)
      → move nitems m (put p c) ≡ some (m', t')
      → Inv np nc nitems m' (set ts i t')
  unfolding move
  producer-Inv lock_put c m' t' f g e = ground arith
  producer-Inv p c m' t' f g e = ground arith

  consumer-Inv :
      (p : GetPc) (m' : Shared) (t' : Thread)
      → Sums weights ts i (get p) t'
      → Rests critical small ts (get p)
      → Rests is_get (getting ∷ found ∷ []) ts (get p)
      → move nitems m (get p) ≡ some (m', t')
      → Inv np nc nitems m' (set ts i t')
  unfolding move
  consumer-Inv check m' t' f g h e = ground (arith, inv.content m.i)
  consumer-Inv p m' t' f g h e = ground arith

pub move-Inv :
    {np nc nitems : ℕ} (s : System Shared Thread) (i : ℕ) (t : Thread) (m : Shared) (t' : Thread)
    → get_elem? s.threads i ≡ some t
    → move nitems s.mem t ≡ some (m, t')
    → Inv np nc nitems s.mem s.threads
    → Inv np nc nitems m (set s.threads i t')
move-Inv s i (put p c) m t' e go inv =
    producer-Inv inv i p c m t' (sums weights s.threads i _ t' e)
      (rests critical small small-Below s.threads i _ e) go
move-Inv s i (get p) m t' e go inv =
    consumer-Inv inv i p m t' (sums weights s.threads i _ t' e)
      (rests critical small small-Below s.threads i _ e)
      (rests is_get (getting ∷ found ∷ []) one_Below s.threads i _ e) go

start :
    (w : Thread → ℕ) (np : ℕ)
    → total w (init np).threads ≡ np * w (put lock_put 0) + 1 * w (get test_i)
start w np = total-start w np 1 (put lock_put 0) (get test_i)

Inv-init : (np nitems : ℕ) → Inv np 1 nitems (init np).mem (init np).threads
Inv-init np nitems = record {
  exclusive = omega (arith, start critical np);
  all_put = omega (arith, start put_over np);
  all_got = omega (arith, start get_over np);
  left = omega (arith, start getting np);
  behind = omega (arith, start found np);
  put_counts = omega (arith, start count np, start count_due np);
  put_val = omega (arith, start val_due np);
  put_le = omega (arith, start putting np);
  producers = omega (arith, start is_put np);
  consumers = omega (arith, start is_get np);
  one = omega arith;
  silent = refl;
  content = λ k h. absurd (omega (arith, start stored np));
}

-- The invariant holds after every schedule.
pub run-Inv :
    (np nitems : ℕ) (sched : List ℕ)
    → let s = run (move nitems) (init np) sched in Inv np 1 nitems s.mem s.threads
run-Inv np nitems sched =
    run_inv (move nitems) (λ s. Inv np 1 nitems s.mem s.threads) move-Inv (init np) sched
      (Inv-init np nitems)
