-- ===== src/Mutex/Cond.antt =====
-- ipc/src/mutex/mutex_prodcons3.c: any number of producers fill an array under one mutex and count
-- the items that are ready under another; one consumer waits for them with a condition variable. A
-- step is one access to what the threads share.
pub mod Weights
pub mod Inv
pub mod Laws
mod Tests
use cs_primer.Prelude.{
  ℕ, ◌+◌, ◌-◌, List, [], ◌∷◌, ◌++◌, Option, none, some, ◌==◌, leb, if◌then◌else◌, replicate, update,
}
use cs_primer.Threads.Machine.{System}

-- `put` and `nready` with their mutexes, which are 1 where they are free. `waiting` is 1 while the
-- consumer sleeps on the condition; `i` is its local variable, `errors` the lines that it prints.
pub record Shared : Type 0 where
  pub buf : ℕ → ℕ
  pub put_mutex : ℕ
  pub nput : ℕ
  pub nval : ℕ
  pub ready_mutex : ℕ
  pub nready : ℕ
  pub waiting : ℕ
  pub i : ℕ
  pub errors : List (ℕ × ℕ)

-- The statement of `producer` that comes next.
pub data PutPc : Type 0 where
  lock_put test_nput store inc_nput inc_nval unlock_put quit_put returned_put : PutPc
  lock_ready test_nready cond_signal inc_nready unlock_ready add_put : PutPc

-- The statement of `consumer` that comes next. `pthread_cond_wait` unlocks the mutex and sleeps in
-- one step, and locks it again once the sleeper is woken.
pub data GetPc : Type 0 where
  test_i lock_get test_wait cond_wait asleep dec_nready unlock_get check returned_get : GetPc

-- A producer comes with the counter that its argument points to. `waker` stands for the system,
-- which may wake a sleeper without a signal.
pub data Thread : Type 0 where
  put : PutPc → ℕ → Thread
  get : GetPc → Thread
  waker : Thread

abbrev lock : ℕ → Shared → Thread → Option (Shared × Thread)
lock mutex m t = if mutex == 0 then none else some (m, t)

producer : ℕ → Shared → PutPc → ℕ → Option (Shared × Thread)
producer nitems m lock_put c =
    lock m.put_mutex (record m { put_mutex = m.put_mutex - 1 }) (put test_nput c)
producer nitems m test_nput c = some (m, if leb nitems m.nput then put quit_put c else put store c)
producer nitems m quit_put c = some (record m { put_mutex = m.put_mutex + 1 }, put returned_put c)
producer nitems m returned_put c = none
producer nitems m store c = some (record m { buf = update m.buf m.nput m.nput }, put inc_nput c)
producer nitems m inc_nput c = some (record m { nput = m.nput + 1 }, put inc_nval c)
producer nitems m inc_nval c = some (record m { nval = m.nval + 1 }, put unlock_put c)
producer nitems m unlock_put c = some (record m { put_mutex = m.put_mutex + 1 }, put lock_ready c)
producer nitems m lock_ready c =
    lock m.ready_mutex (record m { ready_mutex = m.ready_mutex - 1 }) (put test_nready c)
producer nitems m test_nready c =
    some (m, if m.nready == 0 then put cond_signal c else put inc_nready c)
producer nitems m cond_signal c = some (record m { waiting = 0 }, put inc_nready c)
producer nitems m inc_nready c = some (record m { nready = m.nready + 1 }, put unlock_ready c)
producer nitems m unlock_ready c =
    some (record m { ready_mutex = m.ready_mutex + 1 }, put add_put c)
producer nitems m add_put c = some (m, put lock_put (c + 1))

-- `++i` goes with the last statement of the body.
consumer : ℕ → Shared → GetPc → Option (Shared × Thread)
consumer nitems m test_i = some (m, if leb nitems m.i then get returned_get else get lock_get)
consumer nitems m lock_get =
    lock m.ready_mutex (record m { ready_mutex = m.ready_mutex - 1 }) (get test_wait)
consumer nitems m test_wait = some (m, if m.nready == 0 then get cond_wait else get dec_nready)
consumer nitems m cond_wait =
    some (record m { ready_mutex = m.ready_mutex + 1; waiting = 1 }, get asleep)
consumer nitems m asleep =
    if m.waiting == 0
    then lock m.ready_mutex (record m { ready_mutex = m.ready_mutex - 1 }) (get test_wait)
    else none
consumer nitems m dec_nready = some (record m { nready = m.nready - 1 }, get unlock_get)
consumer nitems m unlock_get = some (record m { ready_mutex = m.ready_mutex + 1 }, get check)
consumer nitems m check =
    let v = m.buf m.i in
    let errors' = if v == m.i then m.errors else m.errors ++ (m.i, v) ∷ [] in
    some (record m { errors = errors'; i = m.i + 1 }, get test_i)
consumer nitems m returned_get = none

unfoldable pub move : ℕ → Shared → Thread → Option (Shared × Thread)
unfolding producer consumer
move nitems m (put p c) = producer nitems m p c
move nitems m (get p) = consumer nitems m p
move nitems m waker = if m.waiting == 0 then none else some (record m { waiting = 0 }, waker)

-- `main` once it has started the threads, with wakers of the system.
abbrev pub init : ℕ → ℕ → System Shared Thread
init nthreads wakers = record {
  mem = record {
    buf = λ _. 0;
    put_mutex = 1;
    nput = 0;
    nval = 0;
    ready_mutex = 1;
    nready = 0;
    waiting = 0;
    i = 0;
    errors = [];
  };
  threads = replicate nthreads (put lock_put 0) ++ (get test_i ∷ replicate wakers waker);
}
