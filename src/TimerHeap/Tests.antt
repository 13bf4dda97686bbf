-- ===== src/TimerHeap/Tests.antt =====
-- Runs of TimerHeap on small heaps.
use cs_primer.Prelude.{ℕ, ◌≡◌, [], ◌∷◌, true, false, some, none, refl, arith, map}
use cs_primer.TimerHeap.{
  Timer, TimerHeap, TimerId, add_timer, cancel_timer, get_expired_timers, expire, up_heap,
  swap_heap, remove_timer, repair, down_heap, min_child,
}
use cs_primer.TimerHeap.Swap.{Has}
use cs_primer.TimerHeap.Remove.{IsValid, Without}
use cs_primer.TimerHeap.Laws.{Added, add_timer-Added, cancel_timer_exact}
use cs_primer.TimerHeap.Expire.{Expired, get_expired_timers-Expired, empty_heap, empty_heap-IsValid}

abbrev timer_of : ℕ → ℕ → Timer
timer_of deadline id = record { callback = 7; deadline = deadline; interval = 0; id = id }

abbrev add : ℕ → TimerHeap → TimerHeap
add deadline h = (add_timer 7 deadline 0 h).2

abbrev no_timers : TimerHeap
no_timers = empty_heap (timer_of 0 0)

abbrev one_timer : TimerHeap
one_timer = add 50 no_timers

abbrev two_timers : TimerHeap
two_timers = add 30 one_timer

abbrev three_timers : TimerHeap
three_timers = add 40 two_timers

one_timer-IsValid : IsValid one_timer
one_timer-IsValid =
    (add_timer-Added no_timers 7 50 0 (empty_heap-IsValid (timer_of 0 0)) (omega arith)).valid

two_timers-Added :
    Added
      (timer_of 30 2)
      one_timer
      true
      (record { timer = some (timer_of 30 2); id = 2 })
      two_timers
unfolding add_timer up_heap
two_timers-Added = add_timer-Added one_timer 7 30 0 one_timer-IsValid (omega arith)

add_timer-Added_example :
    Added
      (timer_of 40 3)
      two_timers
      false
      (record { timer = some (timer_of 40 3); id = 3 })
      three_timers
unfolding add_timer up_heap swap_heap
add_timer-Added_example = add_timer-Added two_timers 7 40 0 two_timers-Added.valid (omega arith)

cancel_timer_exact_example :
    let t = timer_of 30 2 in
    let handle : TimerId = record { timer = some t; id = 2 } in
    let cleared : TimerId = record { timer = none; id = 0 } in
    (Has two_timers t
      → let (handle', h') = cancel_timer handle two_timers in
        (handle' ≡ cleared) × Without t two_timers h')
    × (two_timers.active 2 ≡ false → cancel_timer handle two_timers ≡ (handle, two_timers))
cancel_timer_exact_example = cancel_timer_exact two_timers (timer_of 30 2) two_timers-Added.valid

get_expired_timers-Expired_example :
    let (ts, h') = get_expired_timers 40 three_timers in Expired 40 three_timers ts h'
get_expired_timers-Expired_example =
    get_expired_timers-Expired three_timers 40 add_timer-Added_example.valid

expired_deadlines :
    map (λ (t : Timer). t.deadline) (get_expired_timers 40 three_timers).0 ≡ (30 ∷ 40 ∷ [])
unfolding get_expired_timers expire add_timer up_heap swap_heap remove_timer repair down_heap
    min_child
expired_deadlines = refl
