-- ===== src/Pxsem/ManyToMany/Tests.antt =====
-- Runs of sem_prodcons4.c, and the theorems at concrete inputs.
use cs_primer.Prelude.{
  ℕ, ◌+◌, ◌*◌, ◌≤◌, ◌≡◌, ◌⊎◌, refl, List, [], ◌∷◌, ◌++◌, arith, length, replicate,
}
use cs_primer.Threads.{total}
use cs_primer.Threads.Machine.{System, run, CanMove}
use cs_primer.Pxsem.ManyToMany.{Shared, Thread, move, init, nbuff}
use cs_primer.Pxsem.ManyToMany.Weights.{critical, running, put_count, get_count}
use cs_primer.Pxsem.ManyToMany.Progress.{no_deadlock, moves_bounded}
use cs_primer.Pxsem.ManyToMany.Safety.{ring_bounds, all_items_pass}

abbrev end_to_end : List ℕ
end_to_end = replicate 15 0 ++ replicate 15 1

abbrev final : System Shared Thread
final = run (move 1) (init 1 1) end_to_end

final_state : (final.mem.nget ≡ 1) × (final.mem.errors ≡ []) × (final.mem.nempty ≡ 10)
unfolding run move
final_state = (refl, refl, refl)

ring_bounds_example :
    (total critical final.threads ≤ 1)
    × (final.mem.nput ≤ final.mem.nget + nbuff)
    × (final.mem.nget ≤ final.mem.nput)
    × (final.mem.nput ≤ 1)
ring_bounds_example = ring_bounds 1 1 1 end_to_end

all_items_pass_example :
    (final.mem.nput ≡ 1)
    × (final.mem.nget ≡ 1)
    × (total put_count final.threads ≡ 1)
    × (total get_count final.threads ≡ 1)
unfolding run move total
all_items_pass_example = all_items_pass 1 1 1 end_to_end (omega arith) (omega arith) refl

no_deadlock_example : CanMove (move 1) final ⊎ (total running final.threads ≡ 0)
no_deadlock_example = no_deadlock 1 1 1 end_to_end (omega arith) (omega arith)

moves_bounded_example : length {A = ℕ} (0 ∷ 1 ∷ []) ≤ 8 * (2 + 1) + 32 * 3
unfolding run move
moves_bounded_example =
    moves_bounded 2 1 3 (0 ∷ 1 ∷ []) ((_, _, refl, refl), ((_, _, refl, refl), tt))
