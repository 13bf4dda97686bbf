-- ===== src/Mutex/Joined/Tests.antt =====
-- A run of mutex_prodcons1.c with two producers.
use cs_primer.Prelude.{ℕ, ◌≡◌, List, [], ◌++◌, ◌∷◌, replicate, refl, arith, sum}
use cs_primer.Threads.{total}
use cs_primer.Threads.Machine.{System, run}
use cs_primer.Mutex.Spin.{Shared, Thread, move}
use cs_primer.Mutex.Spin.Inv.{running}
use cs_primer.Mutex.Joined.{producers_only, after_join}
use cs_primer.Mutex.Joined.Laws.{prodcons1_complete}

-- The first producer puts an item, then the second one the rest.
abbrev schedule : List ℕ
schedule = replicate 7 0 ++ replicate 20 1 ++ replicate 5 0

abbrev final : System Shared Thread
final = run (move 3) (producers_only 2) schedule

final_over : total running final.threads ≡ 0
unfolding run total move
final_over = refl

final_counts : (after_join 3 final).counts ≡ 1 ∷ 2 ∷ []
unfolding after_join run move
final_counts = refl

prodcons1_complete_example : let o = after_join 3 final in (sum o.counts ≡ 3) × (o.errors ≡ [])
prodcons1_complete_example = prodcons1_complete 2 3 schedule (omega arith) final_over
