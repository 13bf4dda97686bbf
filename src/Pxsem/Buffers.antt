-- ===== src/Pxsem/Buffers.antt =====
-- ipc/src/pxsem/sem_multibuffer.c: a producer reads a file into a ring of eight buffers while a
-- consumer writes them out. A step is one access to what the threads share. The file is a
-- parameter: `chunk n` is what the n-th `read` answers, nothing at its end, and `none` if it fails.
pub mod Inv
pub mod Laws
mod Tests
use cs_primer.Prelude.{
  update, ℕ, ◌+◌, ◌-◌, List, [], ◌∷◌, ◌++◌, Option, none, some, Bool, true, false, ◌==◌, leb,
  if◌then◌else◌, length,
}
use cs_primer.Threads.Machine.{System}

abbrev pub nbuff : ℕ
nbuff = 8

-- `shared`, with a buffer as its first `n` bytes; how often the file has been read; what has been
-- given to `write`; and whether the process has exited.
pub record Shared : Type 0 where
  pub buff : ℕ → List ℕ
  pub mutex : ℕ
  pub nempty : ℕ
  pub nstored : ℕ
  pub reads : ℕ
  pub written : List (List ℕ)
  pub exited : Bool

-- The statement of `producer` that comes next.
pub data PutPc : Type 0 where
  wait_nempty lock_put unlock_put read_file test_end post_nstored post_last returned_put : PutPc

-- The statement of `consumer` that comes next.
pub data GetPc : Type 0 where
  wait_nstored lock_get unlock_get test_n write_out post_nempty returned_get : GetPc

-- A thread comes with its local `i`.
pub data Thread : Type 0 where
  put : PutPc → ℕ → Thread
  get : GetPc → ℕ → Thread

-- `if(++i >= NBUFF) i = 0`
abbrev pub next : ℕ → ℕ
next i = if leb nbuff (i + 1) then 0 else i + 1

abbrev wait : ℕ → Shared → Thread → Option (Shared × Thread)
wait n m t = if n == 0 then none else some (m, t)

module _ (chunk : ℕ → Option (List ℕ)) where
  unfoldable pub producer : Shared → PutPc → ℕ → Option (Shared × Thread)
  producer m wait_nempty i = wait m.nempty (record m { nempty = m.nempty - 1 }) (put lock_put i)
  producer m lock_put i = wait m.mutex (record m { mutex = m.mutex - 1 }) (put unlock_put i)
  producer m unlock_put i = some (record m { mutex = m.mutex + 1 }, put read_file i)
  producer m read_file i = elim (chunk m.reads) [
    | none ↦ some (record m { exited = true }, put read_file i)
    | some d ↦ some (record m { buff = update m.buff i d; reads = m.reads + 1 }, put test_end i)
  ]
  producer m test_end i =
      some (m, if length (m.buff i) == 0 then put post_last i else put post_nstored (next i))
  producer m post_nstored i = some (record m { nstored = m.nstored + 1 }, put wait_nempty i)
  producer m post_last i = some (record m { nstored = m.nstored + 1 }, put returned_put i)
  producer m returned_put i = none

  unfoldable pub consumer : Shared → GetPc → ℕ → Option (Shared × Thread)
  consumer m wait_nstored i = wait m.nstored (record m { nstored = m.nstored - 1 }) (get lock_get i)
  consumer m lock_get i = wait m.mutex (record m { mutex = m.mutex - 1 }) (get unlock_get i)
  consumer m unlock_get i = some (record m { mutex = m.mutex + 1 }, get test_n i)
  consumer m test_n i =
      some (m, if length (m.buff i) == 0 then get returned_get i else get write_out i)
  consumer m write_out i =
      some (record m { written = m.written ++ m.buff i ∷ [] }, get post_nempty (next i))
  consumer m post_nempty i = some (record m { nempty = m.nempty + 1 }, get wait_nstored i)
  consumer m returned_get i = none

  -- A read that fails ends the process, and all threads with it.
  unfoldable pub move : Shared → Thread → Option (Shared × Thread)
  unfolding producer consumer
  move m (put p i) = if m.exited then none else producer m p i
  move m (get q i) = if m.exited then none else consumer m q i

-- `main` once it has started the threads.
abbrev pub start : Shared
start = record {
  buff = λ _. [];
  mutex = 1;
  nempty = nbuff;
  nstored = 0;
  reads = 0;
  written = [];
  exited = false;
}

abbrev pub init : System Shared Thread
init = record { mem = start; threads = put wait_nempty 0 ∷ get wait_nstored 0 ∷ [] }
