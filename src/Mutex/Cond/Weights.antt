-- ===== src/Mutex/Cond/Weights.antt =====
-- What the threads of mutex_prodcons3.c hold and owe, as weights.
use cs_primer.Prelude.{ℕ, ◌≤◌, List, [], ◌∷◌, arith}
use cs_primer.Threads.{Below}
use cs_primer.Mutex.Cond.{
  Thread, put, get, waker, lock_put, store, inc_nput, inc_nval, unlock_put, quit_put, returned_put,
  lock_ready, test_nready, cond_signal, inc_nready, unlock_ready, add_put, test_nput, test_i,
  test_wait, cond_wait, dec_nready, unlock_get, check, returned_get,
}

-- Between the lock of `put.mutex` and its unlock; and of `nready.mutex`.
abbrev pub in_put : Thread → ℕ
in_put (put test_nput _) = 1
in_put (put store _) = 1
in_put (put inc_nput _) = 1
in_put (put inc_nval _) = 1
in_put (put unlock_put _) = 1
in_put (put quit_put _) = 1
in_put _ = 0

abbrev pub in_ready : Thread → ℕ
in_ready (put test_nready _) = 1
in_ready (put cond_signal _) = 1
in_ready (put inc_nready _) = 1
in_ready (put unlock_ready _) = 1
in_ready (get test_wait) = 1
in_ready (get cond_wait) = 1
in_ready (get dec_nready) = 1
in_ready (get unlock_get) = 1
in_ready _ = 0

abbrev pub running : Thread → ℕ
running (put returned_put _) = 0
running (get returned_get) = 0
running waker = 0
running _ = 1

abbrev pub count : Thread → ℕ
count (put _ c) = c
count _ = 0

-- Put, but not yet ready; and not yet counted.
abbrev pub ready_due : Thread → ℕ
ready_due (put inc_nval _) = 1
ready_due (put unlock_put _) = 1
ready_due (put lock_ready _) = 1
ready_due (put test_nready _) = 1
ready_due (put cond_signal _) = 1
ready_due (put inc_nready _) = 1
ready_due _ = 0

abbrev pub count_due : Thread → ℕ
count_due (put unlock_ready _) = 1
count_due (put add_put _) = 1
count_due t = ready_due t

abbrev pub putting : Thread → ℕ
putting (put store _) = 1
putting (put inc_nput _) = 1
putting _ = 0

abbrev pub stored : Thread → ℕ
stored (put inc_nput _) = 1
stored _ = 0

-- About to count an item as ready, without a signal that could still come.
abbrev pub readying : Thread → ℕ
readying (put inc_nready _) = 1
readying _ = 0

-- The consumer, in the body of its loop; with an item that it has taken; about to sleep; about to
-- take an item.
abbrev pub getting : Thread → ℕ
getting (get test_i) = 0
getting (get returned_get) = 0
getting (get _) = 1
getting _ = 0

abbrev pub taken : Thread → ℕ
taken (get unlock_get) = 1
taken (get check) = 1
taken _ = 0

abbrev pub sleepy : Thread → ℕ
sleepy (get cond_wait) = 1
sleepy _ = 0

abbrev pub taking : Thread → ℕ
taking (get dec_nready) = 1
taking _ = 0

abbrev pub is_put : Thread → ℕ
is_put (put _ _) = 1
is_put _ = 0

abbrev pub is_get : Thread → ℕ
is_get (get _) = 1
is_get _ = 0

abbrev pub put_over : Thread → ℕ
put_over (put quit_put _) = 1
put_over (put returned_put _) = 1
put_over _ = 0

abbrev pub get_over : Thread → ℕ
get_over (get returned_get) = 1
get_over _ = 0

abbrev pub weights : List (Thread → ℕ)
weights =
    in_put ∷ in_ready ∷ count ∷ ready_due ∷ count_due ∷ putting ∷ stored ∷ readying ∷ getting
    ∷ taken ∷ sleepy ∷ taking ∷ is_put ∷ is_get ∷ put_over ∷ get_over ∷ []

putting-le : (t : Thread) → putting t ≤ in_put t
putting-le (put lock_put _) = omega arith
putting-le (put p _) = omega arith
putting-le (get p) = omega arith
putting-le waker = omega arith

stored-le : (t : Thread) → stored t ≤ in_put t
stored-le (put lock_put _) = omega arith
stored-le (put p _) = omega arith
stored-le (get p) = omega arith
stored-le waker = omega arith

pub put-Below : Below in_put (putting ∷ stored ∷ [])
put-Below = (putting-le, (stored-le, tt))

readying-le : (t : Thread) → readying t ≤ in_ready t
readying-le (put lock_put _) = omega arith
readying-le (put p _) = omega arith
readying-le (get p) = omega arith
readying-le waker = omega arith

sleepy-le : (t : Thread) → sleepy t ≤ in_ready t
sleepy-le (put lock_put _) = omega arith
sleepy-le (put p _) = omega arith
sleepy-le (get test_i) = omega arith
sleepy-le (get p) = omega arith
sleepy-le waker = omega arith

taking-le : (t : Thread) → taking t ≤ in_ready t
taking-le (put lock_put _) = omega arith
taking-le (put p _) = omega arith
taking-le (get test_i) = omega arith
taking-le (get p) = omega arith
taking-le waker = omega arith

pub ready-Below : Below in_ready (readying ∷ sleepy ∷ taking ∷ [])
ready-Below = (readying-le, (sleepy-le, (taking-le, tt)))

getting-le : (t : Thread) → getting t ≤ is_get t
getting-le (put p _) = omega arith
getting-le (get test_i) = omega arith
getting-le (get p) = omega arith
getting-le waker = omega arith

taken-le : (t : Thread) → taken t ≤ is_get t
taken-le (put p _) = omega arith
taken-le (get test_i) = omega arith
taken-le (get p) = omega arith
taken-le waker = omega arith

pub get-Below : Below is_get (getting ∷ taken ∷ [])
get-Below = (getting-le, (taken-le, tt))
