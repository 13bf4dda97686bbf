-- ===== src/Pxsem/ManyToOne/Weights.antt =====
-- What each thread counts for in the invariant.
use cs_primer.Prelude.{ℕ, ◌≤◌, arith, List, [], ◌∷◌}
use cs_primer.Threads.{Below}
use cs_primer.Pxsem.ManyToOne.{
  wait_nempty, lock_put, test_nput, store, inc_nput, inc_nputval, unlock_put, post_nstored, add_put,
  quit_nempty, quit_put, returned_put, test_i, lock_get, check, unlock_get, post_nempty,
  returned_get, Thread, put, get,
}

-- Between `sem_wait(&shared.mutex)` and `sem_post(&shared.mutex)`.
abbrev pub critical : Thread → ℕ
critical (put test_nput _) = 1
critical (put store _) = 1
critical (put inc_nput _) = 1
critical (put inc_nputval _) = 1
critical (put unlock_put _) = 1
critical (put quit_nempty _) = 1
critical (put quit_put _) = 1
critical (get check) = 1
critical (get unlock_get) = 1
critical _ = 0

-- Holds a slot of the ring that neither `nempty` nor `nput` counts.
abbrev pub slot : Thread → ℕ
slot (put lock_put _) = 1
slot (put test_nput _) = 1
slot (put store _) = 1
slot (put inc_nput _) = 1
slot (put quit_nempty _) = 1
slot _ = 0

-- Owes a post of `nstored`, or has taken one for the item that it is at.
abbrev pub token : Thread → ℕ
token (put inc_nputval _) = 1
token (put unlock_put _) = 1
token (put post_nstored _) = 1
token (get lock_get) = 1
token (get check) = 1
token (get unlock_get) = 1
token (get post_nempty) = 1
token _ = 0

abbrev pub put_val_due : Thread → ℕ
put_val_due (put inc_nputval _) = 1
put_val_due _ = 0

-- Has seen that there are items left, and has not counted its own.
abbrev pub putting : Thread → ℕ
putting (put store _) = 1
putting (put inc_nput _) = 1
putting _ = 0

-- Has stored a value past the last counted item.
abbrev pub stored : Thread → ℕ
stored (put inc_nput _) = 1
stored _ = 0

-- The consumer has seen that there are items left.
abbrev pub getting : Thread → ℕ
getting (get test_i) = 0
getting (get returned_get) = 0
getting (get _) = 1
getting _ = 0

abbrev pub put_over : Thread → ℕ
put_over (put quit_nempty _) = 1
put_over (put quit_put _) = 1
put_over (put returned_put _) = 1
put_over _ = 0

abbrev pub get_over : Thread → ℕ
get_over (get returned_get) = 1
get_over _ = 0

abbrev pub put_count : Thread → ℕ
put_count (put _ c) = c
put_count _ = 0

abbrev pub put_count_due : Thread → ℕ
put_count_due (put inc_nputval _) = 1
put_count_due (put unlock_put _) = 1
put_count_due (put post_nstored _) = 1
put_count_due (put add_put _) = 1
put_count_due _ = 0

abbrev pub is_put : Thread → ℕ
is_put (put _ _) = 1
is_put _ = 0

abbrev pub is_get : Thread → ℕ
is_get (get _) = 1
is_get _ = 0

-- Has not returned.
abbrev pub running : Thread → ℕ
running (put returned_put _) = 0
running (get returned_get) = 0
running _ = 1

abbrev pub weights : List (Thread → ℕ)
weights =
    critical ∷ slot ∷ token ∷ put_val_due ∷ putting ∷ stored ∷ getting ∷ put_over ∷ get_over
    ∷ put_count ∷ put_count_due ∷ is_put ∷ is_get ∷ []

abbrev pub small : List (Thread → ℕ)
small = put_val_due ∷ putting ∷ stored ∷ []

put_val_due-le : (t : Thread) → put_val_due t ≤ critical t
put_val_due-le (put wait_nempty _) = omega arith
put_val_due-le (put p _) = omega arith
put_val_due-le (get p) = omega arith

putting-le : (t : Thread) → putting t ≤ critical t
putting-le (put wait_nempty _) = omega arith
putting-le (put p _) = omega arith
putting-le (get p) = omega arith

stored-le : (t : Thread) → stored t ≤ critical t
stored-le (put wait_nempty _) = omega arith
stored-le (put p _) = omega arith
stored-le (get p) = omega arith

pub small-Below : Below critical small
small-Below = (put_val_due-le, (putting-le, (stored-le, tt)))

getting-le : (t : Thread) → getting t ≤ is_get t
getting-le (put p _) = omega arith
getting-le (get test_i) = omega arith
getting-le (get p) = omega arith

pub getting-Below : Below is_get (getting ∷ [])
getting-Below = (getting-le, tt)
