-- ===== src/Counter.antt =====
-- A counter in shared memory that several processes increment: the loops of
-- ipc/src/pxshm/client1.c and of parent and child in ipc/src/shm/incr.c, with one semaphore that
-- all of them share. A step is one access to the semaphore, the counter or stdout.
pub mod Inv
pub mod Laws
mod Tests
use cs_primer.Prelude.{
  ℕ, zero, suc, ◌+◌, ◌-◌, ◌%◌, ◌^◌, List, [], ◌∷◌, Option, none, some, ◌==◌, if◌then◌else◌,
}
use cs_primer.Threads.Machine.{System}

-- `ptr->count`, the semaphore, and the numbers printed, the latest first. The count is an `int`, kept
-- as a word of 32 bits, with wrap-around where C leaves the overflow open.
pub record Shared : Type 0 where
  pub count : ℕ
  pub mutex : ℕ
  pub printed : List ℕ

-- Where a process stands, with the rounds it has to go after this one. `count++` in the argument of
-- `printf` is a load and a store.
pub data Process : Type 0 where
  test : ℕ → Process
  wait_mutex load post : ℕ → Process
  store print : ℕ → ℕ → Process
  returned : Process

unfoldable pub move : Shared → Process → Option (Shared × Process)
move m (test zero) = some (m, returned)
move m (test (suc n)) = some (m, wait_mutex n)
move m (wait_mutex n) =
    if m.mutex == 0 then none else some (record m { mutex = m.mutex - 1 }, load n)
move m (load n) = some (m, store m.count n)
move m (store v n) = some (record m { count = (v + 1) % 2 ^ 32 }, print v n)
move m (print v n) = some (record m { printed = v ∷ m.printed }, post n)
move m (post n) = some (record m { mutex = m.mutex + 1 }, test n)
move m returned = none

abbrev pub processes : List ℕ → List Process
processes [] = []
processes (n ∷ nloops) = test n ∷ processes nloops

-- The counter starts at `c0`; each process comes with its `nloop`.
abbrev pub init : ℕ → List ℕ → System Shared Process
init c0 nloops = record {
  mem = record { count = c0; mutex = 1; printed = [] };
  threads = processes nloops;
}
