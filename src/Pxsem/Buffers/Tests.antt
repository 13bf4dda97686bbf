-- ===== src/Pxsem/Buffers/Tests.antt =====
-- Runs of sem_multibuffer.c, and the theorems at concrete inputs.
use cs_primer.Prelude.{
  arith, ℕ, ◌<◌, ◌≡◌, ◌⊎◌, none, true, refl, List, [], ◌∷◌, ◌++◌, replicate, Option, some, length,
  suc, zero,
}
use cs_primer.Threads.{total}
use cs_primer.Threads.Machine.{System, run, CanMove}
use cs_primer.Pxsem.Buffers.{Shared, Thread, move, init}
use cs_primer.Pxsem.Buffers.Inv.{bytes_read, first}
use cs_primer.Pxsem.Buffers.Laws.{running, IsFile, copy_complete, copy_no_deadlock}

-- A file of two chunks.
abbrev file : ℕ → Option (List ℕ)
file zero = some (1 ∷ 2 ∷ [])
file (suc zero) = some (3 ∷ [])
file (suc (suc n)) = some []

-- The producer reads the first chunk, the consumer writes it, and each runs to its end.
abbrev schedule : List ℕ
schedule = replicate 6 0 ++ replicate 7 1 ++ replicate 20 0 ++ replicate 20 1

abbrev final : System Shared Thread
final = run (move file) init schedule

file-IsFile : IsFile file 2
file-IsFile = (in_file, refl)
  where
    in_file : (k : ℕ) → k < 2 → 0 < length (bytes_read file k)
    in_file zero h = omega arith
    in_file (suc zero) h = omega arith
    in_file (suc (suc k)) h = absurd (omega (arith, h))

copy_complete_example : final.mem.written ≡ ((1 ∷ 2 ∷ []) ∷ (3 ∷ []) ∷ [])
unfolding first run move total
copy_complete_example = copy_complete file schedule 2 file-IsFile refl

copy_no_deadlock_example :
    CanMove (move file) final
    ⊎ (total running final.threads ≡ 0)
    ⊎ ((final.mem.exited ≡ true) × (file final.mem.reads ≡ none))
copy_no_deadlock_example = copy_no_deadlock file schedule
