-- ===== src/Pxsem/ManyToMany/Weights.antt =====
-- What each thread counts for in the invariant.
use cs_primer.Prelude.{ℕ, ◌≤◌, arith}
use cs_primer.Pxsem.ManyToMany.{
  wait_nempty, lock_put, test_nput, store, inc_nput, inc_nputval, unlock_put, post_nstored, add_put,
  quit_nstored, quit_put, quit_nempty, returned_put, wait_nstored, lock_get, test_nget, check,
  inc_nget, inc_ngetval, unlock_get, post_nempty, add_get, pass_nstored, quit_get, returned_get,
  Thread, put, get,
}

-- Between `sem_wait(&shared.mutex)` and `sem_post(&shared.mutex)`.
abbrev pub critical : Thread → ℕ
critical (put test_nput _) = 1
critical (put store _) = 1
critical (put inc_nput _) = 1
critical (put inc_nputval _) = 1
critical (put unlock_put _) = 1
critical (put quit_nstored _) = 1
critical (put quit_put _) = 1
critical (get test_nget _) = 1
critical (get check _) = 1
critical (get inc_nget _) = 1
critical (get inc_ngetval _) = 1
critical (get unlock_get _) = 1
critical (get pass_nstored _) = 1
critical (get quit_get _) = 1
critical _ = 0

-- Holds a slot of the ring that neither `nempty` nor the numbers of items count.
abbrev pub slot : Thread → ℕ
slot (put lock_put _) = 1
slot (put test_nput _) = 1
slot (put store _) = 1
slot (put inc_nput _) = 1
slot (put quit_nstored _) = 1
slot (put quit_put _) = 1
slot (put quit_nempty _) = 1
slot (get inc_ngetval _) = 1
slot (get unlock_get _) = 1
slot (get post_nempty _) = 1
slot _ = 0

-- Owes a post of `nstored`, or holds one that it has taken.
abbrev pub token : Thread → ℕ
token (put inc_nputval _) = 1
token (put unlock_put _) = 1
token (put post_nstored _) = 1
token (get lock_get _) = 1
token (get test_nget _) = 1
token (get check _) = 1
token (get inc_nget _) = 1
token (get pass_nstored _) = 1
token _ = 0

abbrev pub put_val_due : Thread → ℕ
put_val_due (put inc_nputval _) = 1
put_val_due _ = 0

abbrev pub get_val_due : Thread → ℕ
get_val_due (get inc_ngetval _) = 1
get_val_due _ = 0

-- Has seen that there are items left, and has not counted its own.
abbrev pub putting : Thread → ℕ
putting (put store _) = 1
putting (put inc_nput _) = 1
putting _ = 0

abbrev pub getting : Thread → ℕ
getting (get check _) = 1
getting (get inc_nget _) = 1
getting _ = 0

-- Has stored a value past the last counted item.
abbrev pub stored : Thread → ℕ
stored (put inc_nput _) = 1
stored _ = 0

-- Has seen that no item is left to put.
abbrev pub put_over : Thread → ℕ
put_over (put quit_nstored _) = 1
put_over (put quit_put _) = 1
put_over (put quit_nempty _) = 1
put_over (put returned_put _) = 1
put_over _ = 0

-- Has posted `nstored` once more on its way out, to let a consumer go.
abbrev pub extra : Thread → ℕ
extra (put quit_put _) = 1
extra (put quit_nempty _) = 1
extra (put returned_put _) = 1
extra _ = 0

-- Has seen that no item is left to get.
abbrev pub get_over : Thread → ℕ
get_over (get pass_nstored _) = 1
get_over (get quit_get _) = 1
get_over (get returned_get _) = 1
get_over _ = 0

-- What `main` prints for a thread: the items that it has put, or got.
abbrev pub put_count : Thread → ℕ
put_count (put _ c) = c
put_count _ = 0

abbrev pub get_count : Thread → ℕ
get_count (get _ c) = c
get_count _ = 0

abbrev pub put_count_due : Thread → ℕ
put_count_due (put inc_nputval _) = 1
put_count_due (put unlock_put _) = 1
put_count_due (put post_nstored _) = 1
put_count_due (put add_put _) = 1
put_count_due _ = 0

abbrev pub get_count_due : Thread → ℕ
get_count_due (get inc_ngetval _) = 1
get_count_due (get unlock_get _) = 1
get_count_due (get post_nempty _) = 1
get_count_due (get add_get _) = 1
get_count_due _ = 0

abbrev pub is_put : Thread → ℕ
is_put (put _ _) = 1
is_put _ = 0

abbrev pub is_get : Thread → ℕ
is_get (get _ _) = 1
is_get _ = 0

-- Has not returned.
abbrev pub running : Thread → ℕ
running (put returned_put _) = 0
running (get returned_get _) = 0
running _ = 1

module _ (w : Thread → ℕ) where
  abbrev Small : Type 0
  Small = (t : Thread) → w t ≤ critical t

pub put_val_due-le : Small put_val_due
put_val_due-le (put wait_nempty _) = omega arith
put_val_due-le (put p _) = omega arith
put_val_due-le (get p _) = omega arith

pub get_val_due-le : Small get_val_due
get_val_due-le (put p _) = omega arith
get_val_due-le (get wait_nstored _) = omega arith
get_val_due-le (get p _) = omega arith

pub putting-le : Small putting
putting-le (put wait_nempty _) = omega arith
putting-le (put p _) = omega arith
putting-le (get p _) = omega arith

pub getting-le : Small getting
getting-le (put p _) = omega arith
getting-le (get wait_nstored _) = omega arith
getting-le (get p _) = omega arith

pub stored-le : Small stored
stored-le (put wait_nempty _) = omega arith
stored-le (put p _) = omega arith
stored-le (get p _) = omega arith
