-- ===== src/Pxsem/ManyToOne.antt =====
-- ipc/src/pxsem/sem_prodcons3.c: any number of producers and one consumer over a ring of ten
-- integers and three semaphores. A step is one access to what the threads share.
mod Weights
pub mod Inv
pub mod Progress
pub mod Safety
mod Tests
use cs_primer.Prelude.{
  update, ℕ, ◌+◌, ◌-◌, ◌%◌, List, [], ◌∷◌, ◌++◌, Option, none, some, ◌==◌, leb, if◌then◌else◌,
  replicate,
}
use cs_primer.Threads.Machine.{System}

abbrev pub nbuff : ℕ
nbuff = 10

-- `shared`, with the local `i` of the one consumer and the lines that it prints.
pub record Shared : Type 0 where
  pub buf : ℕ → ℕ
  pub nput : ℕ
  pub nputval : ℕ
  pub mutex : ℕ
  pub nempty : ℕ
  pub nstored : ℕ
  pub i : ℕ
  pub errors : List (ℕ × ℕ)

-- Where a producer stands: the statement of `producer` that it executes next.
pub data PutPc : Type 0 where
  wait_nempty lock_put test_nput store inc_nput inc_nputval unlock_put post_nstored add_put : PutPc
  quit_nempty quit_put returned_put : PutPc

-- The same for `consumer`.
pub data GetPc : Type 0 where
  test_i wait_nstored lock_get check unlock_get post_nempty returned_get : GetPc

-- A producer comes with the counter that its argument points to.
pub data Thread : Type 0 where
  put : PutPc → ℕ → Thread
  get : GetPc → Thread

-- `sem_wait` on a semaphore of value `v`: blocked at 0.
abbrev wait : ℕ → Shared × Thread → Option (Shared × Thread)
wait v next = if v == 0 then none else some next

-- The loop of `producer`, a statement at a time.
producer : ℕ → Shared → PutPc → ℕ → Option (Shared × Thread)
producer nitems m wait_nempty c = wait m.nempty (record m { nempty = m.nempty - 1 }, put lock_put c)
producer nitems m lock_put c = wait m.mutex (record m { mutex = m.mutex - 1 }, put test_nput c)
producer nitems m test_nput c =
    some (m, if leb nitems m.nput then put quit_nempty c else put store c)
producer nitems m store c =
    some (record m { buf = update m.buf (m.nput % nbuff) m.nputval }, put inc_nput c)
producer nitems m inc_nput c = some (record m { nput = m.nput + 1 }, put inc_nputval c)
producer nitems m inc_nputval c = some (record m { nputval = m.nputval + 1 }, put unlock_put c)
producer nitems m unlock_put c = some (record m { mutex = m.mutex + 1 }, put post_nstored c)
producer nitems m post_nstored c = some (record m { nstored = m.nstored + 1 }, put add_put c)
producer nitems m add_put c = some (m, put wait_nempty (c + 1))
producer nitems m quit_nempty c = some (record m { nempty = m.nempty + 1 }, put quit_put c)
producer nitems m quit_put c = some (record m { mutex = m.mutex + 1 }, put returned_put c)
producer nitems m returned_put c = none

-- The loop of `consumer`; `++i` goes with the last statement of the body.
consumer : ℕ → Shared → GetPc → Option (Shared × Thread)
consumer nitems m test_i = some (m, if leb nitems m.i then get returned_get else get wait_nstored)
consumer nitems m wait_nstored = wait m.nstored (record m { nstored = m.nstored - 1 }, get lock_get)
consumer nitems m lock_get = wait m.mutex (record m { mutex = m.mutex - 1 }, get check)
consumer nitems m check =
    let v = m.buf (m.i % nbuff) in
    let errors' = if v == m.i then m.errors else m.errors ++ (m.i, v) ∷ [] in
    some (record m { errors = errors' }, get unlock_get)
consumer nitems m unlock_get = some (record m { mutex = m.mutex + 1 }, get post_nempty)
consumer nitems m post_nempty = some (record m { nempty = m.nempty + 1; i = m.i + 1 }, get test_i)
consumer nitems m returned_get = none

unfoldable pub move : ℕ → Shared → Thread → Option (Shared × Thread)
unfolding producer consumer
move nitems m (put p c) = producer nitems m p c
move nitems m (get p) = consumer nitems m p

-- `main` once it has made the semaphores and the threads.
abbrev pub init : ℕ → System Shared Thread
init nproducers = record {
  mem = record {
    buf = λ _. 0;
    nput = 0;
    nputval = 0;
    mutex = 1;
    nempty = nbuff;
    nstored = 0;
    i = 0;
    errors = [];
  };
  threads = replicate nproducers (put wait_nempty 0) ++ replicate 1 (get test_i);
}
