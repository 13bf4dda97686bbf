-- ===== src/Mutex/Spin.antt =====
-- ipc/src/mutex/mutex_prodcons2.c: any number of producers fill an array under a mutex while one
-- consumer polls for each item. A step is one access to what the threads share.
pub mod Inv
pub mod Laws
mod Tests
use cs_primer.Prelude.{
  update, ℕ, ◌+◌, ◌-◌, List, [], ◌∷◌, ◌++◌, Option, none, some, ◌==◌, leb, ltb, if◌then◌else◌,
  replicate,
}
use cs_primer.Threads.Machine.{System}

-- `shared`, the mutex being 1 where it is free, with the local `i` of the one consumer and the lines
-- that it prints.
pub record Shared : Type 0 where
  pub buf : ℕ → ℕ
  pub nput : ℕ
  pub nval : ℕ
  pub mutex : ℕ
  pub i : ℕ
  pub errors : List (ℕ × ℕ)

-- The statement of `producer` that comes next.
pub data PutPc : Type 0 where
  lock_put test_nput store inc_nput inc_nval unlock_put add_put quit_put returned_put : PutPc

-- The statement of `consumer`, or of `consumer_wait` where it is called, that comes next.
pub data GetPc : Type 0 where
  test_i lock_get test_stored unlock_found unlock_again check returned_get : GetPc

-- A producer comes with the counter that its argument points to.
pub data Thread : Type 0 where
  put : PutPc → ℕ → Thread
  get : GetPc → Thread

abbrev lock : Shared → Thread → Option (Shared × Thread)
lock m t = if m.mutex == 0 then none else some (record m { mutex = m.mutex - 1 }, t)

producer : ℕ → Shared → PutPc → ℕ → Option (Shared × Thread)
producer nitems m lock_put c = lock m (put test_nput c)
producer nitems m test_nput c = some (m, if leb nitems m.nput then put quit_put c else put store c)
producer nitems m store c = some (record m { buf = update m.buf m.nput m.nval }, put inc_nput c)
producer nitems m inc_nput c = some (record m { nput = m.nput + 1 }, put inc_nval c)
producer nitems m inc_nval c = some (record m { nval = m.nval + 1 }, put unlock_put c)
producer nitems m unlock_put c = some (record m { mutex = m.mutex + 1 }, put add_put c)
producer nitems m add_put c = some (m, put lock_put (c + 1))
producer nitems m quit_put c = some (record m { mutex = m.mutex + 1 }, put returned_put c)
producer nitems m returned_put c = none

-- `consumer` with `consumer_wait` in its place; `++i` goes with the last statement of the body.
consumer : ℕ → Shared → GetPc → Option (Shared × Thread)
consumer nitems m test_i = some (m, if leb nitems m.i then get returned_get else get lock_get)
consumer nitems m lock_get = lock m (get test_stored)
consumer nitems m test_stored =
    some (m, if ltb m.i m.nput then get unlock_found else get unlock_again)
consumer nitems m unlock_found = some (record m { mutex = m.mutex + 1 }, get check)
consumer nitems m unlock_again = some (record m { mutex = m.mutex + 1 }, get lock_get)
consumer nitems m check =
    let v = m.buf m.i in
    let errors' = if v == m.i then m.errors else m.errors ++ (m.i, v) ∷ [] in
    some (record m { errors = errors'; i = m.i + 1 }, get test_i)
consumer nitems m returned_get = none

unfoldable pub move : ℕ → Shared → Thread → Option (Shared × Thread)
unfolding producer consumer
move nitems m (put p c) = producer nitems m p c
move nitems m (get p) = consumer nitems m p

-- `main` once it has started the threads.
abbrev pub init : ℕ → System Shared Thread
init nthreads = record {
  mem = record { buf = λ _. 0; nput = 0; nval = 0; mutex = 1; i = 0; errors = [] };
  threads = replicate nthreads (put lock_put 0) ++ replicate 1 (get test_i);
}
