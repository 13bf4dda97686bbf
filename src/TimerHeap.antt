-- ===== src/TimerHeap.antt =====
-- ds/timer-heap/timer_heap.cc: timers in a binary heap, the next one to expire at the root. The heap
-- holds pointers to timers; a timer's `heap_index_`, the one field that changes while it is in the
-- heap, is kept apart, by the timer's id. No two timers have the same id.
pub mod Time
pub mod Swap
pub mod Up
pub mod Down
pub mod Remove
pub mod Laws
pub mod Expire
mod Tests
use cs_primer.Prelude.{
  update, ℕ, zero, suc, ◌+◌, ◌-◌, ◌*◌, ◌/◌, ◌%◌, ◌≡◌, List, [], ◌∷◌, Option, none, some, Bool, true,
  false, ◌&&◌, ◌||◌, not, ltb, leb, ◌==◌, if◌then◌else◌,
}
use cs_primer.TimerHeap.Time.{word, span_greater, add_timespan}

pub record Timer : Type 0 where
  pub callback : ℕ
  pub deadline : ℕ
  pub interval : ℕ
  pub id : ℕ

pub record TimerHeap : Type 0 where
  pub size : ℕ
  pub at : ℕ → Timer
  pub heap_index : ℕ → ℕ
  pub active : ℕ → Bool
  pub counter : ℕ

-- The handle of a timer: a weak pointer and an id.
pub record TimerId : Type 0 where
  pub timer : Option Timer
  pub id : ℕ

abbrev pub dl : TimerHeap → ℕ → ℕ
dl h i = (h.at i).deadline

abbrev pub parent : ℕ → ℕ
parent c = (c - 1) / 2

unfoldable pub restart : ℕ → Timer → Timer
restart now t = record t {
  deadline = if span_greater t.interval 0 then add_timespan now t.interval else 0;
}

unfoldable pub swap_heap : ℕ → ℕ → TimerHeap → TimerHeap
swap_heap i j h = record h {
  at = update (update h.at i (h.at j)) j (h.at i);
  heap_index = update (update h.heap_index (h.at j).id i) (h.at i).id j;
}

-- The loop of `UpHeap`, with a round to go for each index up to `i`: at index 0 it ends.
unfoldable pub up_heap : ℕ → TimerHeap → ℕ → TimerHeap
up_heap zero h i = h
up_heap (suc n) h i =
    let rest = up_heap n (swap_heap i (parent i) h) (parent i) in
    if ltb 0 i then (if leb (dl h (parent i)) (dl h i) then h else rest) else h

unfoldable pub min_child : TimerHeap → ℕ → ℕ
min_child h child =
    if child + 1 == h.size || ltb (dl h child) (dl h (child + 1)) then child else child + 1

-- The loop of `DownHeap`, with a round to go for each index from `i` on: past the end it ends.
unfoldable pub down_heap : ℕ → TimerHeap → ℕ → TimerHeap
down_heap zero h i = h
down_heap (suc n) h i =
    let m = min_child h (i * 2 + 1) in
    let rest = down_heap n (swap_heap i m h) m in
    if ltb (i * 2 + 1) h.size then (if ltb (dl h i) (dl h m) then h else rest) else h

abbrev pub pop_back : TimerHeap → TimerHeap
pop_back h = record h { size = h.size - 1 }

-- The end of `RemoveTimer`: the timer that has come to `index` moves up or down.
unfoldable pub repair : ℕ → TimerHeap → TimerHeap
repair index h =
    if ltb 0 index && ltb (dl h index) (dl h (parent index))
    then up_heap index h index
    else down_heap (h.size - index) h index

-- `RemoveTimer`, once the weak pointer is locked.
unfoldable pub remove_timer : Timer → TimerHeap → TimerHeap
remove_timer t h =
    let h0 = record h { active = update h.active t.id false } in
    let index = h0.heap_index t.id in
    if index == h0.size - 1
    then pop_back h0
    else repair index (pop_back (swap_heap index (h0.size - 1) h0))

-- The result is what the method returns, the handle, and the heap.
unfoldable pub add_timer : ℕ → ℕ → ℕ → TimerHeap → Bool × TimerId × TimerHeap
add_timer cb deadline interval h =
    let first = not (h.size == 0) && ltb deadline (dl h 0) in
    let id = (h.counter + 1) % word in
    let t : Timer = record { callback = cb; deadline = deadline; interval = interval; id = id } in
    let grown : TimerHeap = record {
      size = h.size + 1;
      at = update h.at h.size t;
      heap_index = update h.heap_index id h.size;
      active = update h.active id true;
      counter = id;
    } in
    (first, record { timer = some t; id = id }, up_heap h.size grown h.size)

-- The timer of an active id is in the heap, which owns it, so that the pointer to it can be locked.
unfoldable pub cancel_timer : TimerId → TimerHeap → TimerId × TimerHeap
cancel_timer handle h =
    if not (h.size == 0) && h.active handle.id
    then (
      record { timer = none; id = 0 },
      elim handle.timer [ none ↦ h | some t ↦ remove_timer t h ],
    )
    else (handle, h)

-- The loop of `GetExpiredTimers`, with a round to go for each timer in the heap.
unfoldable pub expire : ℕ → ℕ → TimerHeap → List Timer × TimerHeap
expire zero now h = ([], h)
expire (suc n) now h =
    let (rest, h') = expire n now (remove_timer (h.at 0) h) in
    if not (h.size == 0) && leb (dl h 0) now then (h.at 0 ∷ rest, h') else ([], h)

unfoldable pub get_expired_timers : ℕ → TimerHeap → List Timer × TimerHeap
get_expired_timers now h = expire h.size now h

-- `GetNextExpire` tests for the wrong thing: on a heap with timers it answers 0, and on an empty one
-- it reads the front, which is undefined.
unfoldable pub get_next_expire : TimerHeap → Option ℕ
get_next_expire h = if not (h.size == 0) then some 0 else none
