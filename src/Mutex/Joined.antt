-- ===== src/Mutex/Joined.antt =====
-- ipc/src/mutex/mutex_prodcons1.c: the producers of mutex_prodcons2.c, statement by statement, and a
-- consumer that starts when all of them have returned.
pub mod Laws
mod Tests
use cs_primer.Prelude.{ℕ, zero, suc, ◌+◌, List, [], ◌∷◌, ◌==◌, if◌then◌else◌, replicate, map}
use cs_primer.Threads.Machine.{System}
use cs_primer.Mutex.Spin.{Shared, Thread, put, lock_put}
use cs_primer.Mutex.Spin.Inv.{count}

-- `main` once it has started the producers.
abbrev pub producers_only : ℕ → System Shared Thread
producers_only nthreads = record {
  mem = record { buf = λ _. 0; nput = 0; nval = 0; mutex = 1; i = 0; errors = [] };
  threads = replicate nthreads (put lock_put 0);
}

-- The loop of `consumer` from `i`, with `n` rounds to go: the lines that it prints.
unfoldable pub check_items : ℕ → (ℕ → ℕ) → ℕ → List (ℕ × ℕ)
check_items zero buf i = []
check_items (suc n) buf i =
    let rest = check_items n buf (i + 1) in if buf i == i then rest else (i, buf i) ∷ rest

-- What `main` prints of the producers once it has joined them, and what the consumer prints then.
pub record Output : Type 0 where
  pub counts : List ℕ
  pub errors : List (ℕ × ℕ)

unfoldable pub after_join : ℕ → System Shared Thread → Output
after_join nitems s = record {
  counts = map count s.threads;
  errors = check_items nitems s.mem.buf 0;
}
