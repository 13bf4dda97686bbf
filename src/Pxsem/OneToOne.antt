-- ===== src/Pxsem/OneToOne.antt =====
-- `producer` and `consumer` of ipc/src/pxsem/sem_prodcons2.c, one of each; those of sem_prodcons1.c
-- are the same over named semaphores. A step is one access to what the threads share.
pub mod Inv
pub mod Laws
mod Tests
use cs_primer.Prelude.{
  ℕ, ◌+◌, ◌-◌, ◌%◌, List, [], ◌∷◌, ◌++◌, Option, none, some, ◌==◌, ltb, if◌then◌else◌, update,
}
use cs_primer.Threads.Machine.{System}

abbrev pub nbuff : ℕ
nbuff = 10

-- `shared`, with the lines that the consumer prints.
pub record Shared : Type 0 where
  pub buf : ℕ → ℕ
  pub mutex : ℕ
  pub nempty : ℕ
  pub nstored : ℕ
  pub errors : List (ℕ × ℕ)

-- The statement of `producer` that comes next, and that of `consumer`.
pub data PutPc : Type 0 where
  test_put wait_nempty lock_put store unlock_put post_nstored returned_put : PutPc

pub data GetPc : Type 0 where
  test_get wait_nstored lock_get check unlock_get post_nempty returned_get : GetPc

-- A thread comes with its local `i`.
pub data Thread : Type 0 where
  put : PutPc → ℕ → Thread
  get : GetPc → ℕ → Thread

abbrev wait : ℕ → Shared → Thread → Option (Shared × Thread)
wait n m t = if n == 0 then none else some (m, t)

-- `++i` goes with the last statement of the body.
producer : ℕ → Shared → PutPc → ℕ → Option (Shared × Thread)
producer nitems m test_put i =
    some (m, if ltb i nitems then put wait_nempty i else put returned_put i)
producer nitems m wait_nempty i =
    wait m.nempty (record m { nempty = m.nempty - 1 }) (put lock_put i)
producer nitems m lock_put i = wait m.mutex (record m { mutex = m.mutex - 1 }) (put store i)
producer nitems m store i = some (record m { buf = update m.buf (i % nbuff) i }, put unlock_put i)
producer nitems m unlock_put i = some (record m { mutex = m.mutex + 1 }, put post_nstored i)
producer nitems m post_nstored i = some (record m { nstored = m.nstored + 1 }, put test_put (i + 1))
producer nitems m returned_put i = none

consumer : ℕ → Shared → GetPc → ℕ → Option (Shared × Thread)
consumer nitems m test_get i =
    some (m, if ltb i nitems then get wait_nstored i else get returned_get i)
consumer nitems m wait_nstored i =
    wait m.nstored (record m { nstored = m.nstored - 1 }) (get lock_get i)
consumer nitems m lock_get i = wait m.mutex (record m { mutex = m.mutex - 1 }) (get check i)
consumer nitems m check i =
    let v = m.buf (i % nbuff) in
    let errors' = if v == i then m.errors else m.errors ++ (i, v) ∷ [] in
    some (record m { errors = errors' }, get unlock_get i)
consumer nitems m unlock_get i = some (record m { mutex = m.mutex + 1 }, get post_nempty i)
consumer nitems m post_nempty i = some (record m { nempty = m.nempty + 1 }, get test_get (i + 1))
consumer nitems m returned_get i = none

unfoldable pub move : ℕ → Shared → Thread → Option (Shared × Thread)
unfolding producer consumer
move nitems m (put p i) = producer nitems m p i
move nitems m (get q i) = consumer nitems m q i

abbrev pub start : Shared
start = record { buf = λ _. 0; mutex = 1; nempty = nbuff; nstored = 0; errors = [] }

-- `main` once it has started the threads.
abbrev pub init : System Shared Thread
init = record { mem = start; threads = put test_put 0 ∷ get test_get 0 ∷ [] }
