-- ===== src/Pxsem/ManyToMany.antt =====
-- ipc/src/pxsem/sem_prodcons4.c: any number of producers and of consumers over a ring of ten
-- integers and three semaphores. A step is one access to what the threads share.
pub mod Weights
pub mod Inv
pub mod Progress
pub mod Safety
mod Tests
use cs_primer.Prelude.{
  update, ℕ, ◌+◌, ◌-◌, ◌%◌, List, [], ◌∷◌, ◌++◌, Option, none, some, ◌==◌, leb, if◌then◌else◌,
  replicate,
}
use cs_primer.Threads.Machine.{System}

abbrev pub nbuff : ℕ
nbuff = 10

-- `shared`. A semaphore is its value; `errors` holds the lines that a consumer prints.
pub record Shared : Type 0 where
  pub buf : ℕ → ℕ
  pub nput : ℕ
  pub nputval : ℕ
  pub nget : ℕ
  pub ngetval : ℕ
  pub mutex : ℕ
  pub nempty : ℕ
  pub nstored : ℕ
  pub errors : List (ℕ × ℕ)

-- Where a producer stands: the statement of `producer` that it executes next.
pub data PutPc : Type 0 where
  wait_nempty lock_put test_nput store inc_nput inc_nputval unlock_put post_nstored add_put : PutPc
  quit_nstored quit_put quit_nempty returned_put : PutPc

-- The same for `consumer`.
pub data GetPc : Type 0 where
  wait_nstored lock_get test_nget check inc_nget inc_ngetval unlock_get post_nempty add_get : GetPc
  pass_nstored quit_get returned_get : GetPc

-- A thread with the counter that its argument points to.
pub data Thread : Type 0 where
  put : PutPc → ℕ → Thread
  get : GetPc → ℕ → Thread

-- `sem_wait` on a semaphore of value `v`: blocked at 0.
abbrev wait : ℕ → Shared × Thread → Option (Shared × Thread)
wait v next = if v == 0 then none else some next

-- The loop of `producer`, a statement at a time.
producer : ℕ → Shared → PutPc → ℕ → Option (Shared × Thread)
producer nitems m wait_nempty c = wait m.nempty (record m { nempty = m.nempty - 1 }, put lock_put c)
producer nitems m lock_put c = wait m.mutex (record m { mutex = m.mutex - 1 }, put test_nput c)
producer nitems m test_nput c =
    some (m, if leb nitems m.nput then put quit_nstored c else put store c)
producer nitems m store c =
    some (record m { buf = update m.buf (m.nput % nbuff) m.nputval }, put inc_nput c)
producer nitems m inc_nput c = some (record m { nput = m.nput + 1 }, put inc_nputval c)
producer nitems m inc_nputval c = some (record m { nputval = m.nputval + 1 }, put unlock_put c)
producer nitems m unlock_put c = some (record m { mutex = m.mutex + 1 }, put post_nstored c)
producer nitems m post_nstored c = some (record m { nstored = m.nstored + 1 }, put add_put c)
producer nitems m add_put c = some (m, put wait_nempty (c + 1))
producer nitems m quit_nstored c = some (record m { nstored = m.nstored + 1 }, put quit_put c)
producer nitems m quit_put c = some (record m { mutex = m.mutex + 1 }, put quit_nempty c)
producer nitems m quit_nempty c = some (record m { nempty = m.nempty + 1 }, put returned_put c)
producer nitems m returned_put c = none

-- The loop of `consumer`, a statement at a time.
consumer : ℕ → Shared → GetPc → ℕ → Option (Shared × Thread)
consumer nitems m wait_nstored c =
    wait m.nstored (record m { nstored = m.nstored - 1 }, get lock_get c)
consumer nitems m lock_get c = wait m.mutex (record m { mutex = m.mutex - 1 }, get test_nget c)
consumer nitems m test_nget c =
    some (m, if leb nitems m.nget then get pass_nstored c else get check c)
consumer nitems m check c =
    let i = m.nget % nbuff in
    let errors' = if m.buf i == m.ngetval then m.errors else m.errors ++ (i, m.buf i) ∷ [] in
    some (record m { errors = errors' }, get inc_nget c)
consumer nitems m inc_nget c = some (record m { nget = m.nget + 1 }, get inc_ngetval c)
consumer nitems m inc_ngetval c = some (record m { ngetval = m.ngetval + 1 }, get unlock_get c)
consumer nitems m unlock_get c = some (record m { mutex = m.mutex + 1 }, get post_nempty c)
consumer nitems m post_nempty c = some (record m { nempty = m.nempty + 1 }, get add_get c)
consumer nitems m add_get c = some (m, get wait_nstored (c + 1))
consumer nitems m pass_nstored c = some (record m { nstored = m.nstored + 1 }, get quit_get c)
consumer nitems m quit_get c = some (record m { mutex = m.mutex + 1 }, get returned_get c)
consumer nitems m returned_get c = none

unfoldable pub move : ℕ → Shared → Thread → Option (Shared × Thread)
unfolding producer consumer
move nitems m (put p c) = producer nitems m p c
move nitems m (get p c) = consumer nitems m p c

-- `main` once it has made the semaphores and the threads.
abbrev pub init : ℕ → ℕ → System Shared Thread
init nproducers nconsumers = record {
  mem = record {
    buf = λ _. 0;
    nput = 0;
    nputval = 0;
    nget = 0;
    ngetval = 0;
    mutex = 1;
    nempty = nbuff;
    nstored = 0;
    errors = [];
  };
  threads = replicate nproducers (put wait_nempty 0) ++ replicate nconsumers (get wait_nstored 0);
}
