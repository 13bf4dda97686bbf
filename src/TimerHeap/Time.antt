-- ===== src/TimerHeap/Time.antt =====
-- ds/timer-heap/timestamp.cc, timespan.cc and their headers. A Timestamp is a word of 64 bits, in
-- microseconds; a Timespan is a signed one, kept as its word in two's complement.
use cs_primer.Prelude.{ℕ, ◌+◌, ◌%◌, ◌^◌, Bool, ◌&&◌, ◌||◌, not, ltb, leb, if◌then◌else◌}

abbrev pub word : ℕ
word = 2 ^ 64

-- A signed word reads in the order of the words once half the range is added.
abbrev pub biased : ℕ → ℕ
biased w = (w + 2 ^ 63) % word

abbrev pub span_less_or_equal : ℕ → ℕ → Bool
span_less_or_equal v w = leb (biased v) (biased w)

abbrev pub span_greater : ℕ → ℕ → Bool
span_greater v w = not (span_less_or_equal v w)

-- `Timestamp::AddTimespan`: the value that it stores in the timestamp. It has no return statement,
-- though it is declared to return a reference, and C++ leaves open what such a call does: the
-- model takes it to come back once the value is stored.
unfoldable pub add_timespan : ℕ → ℕ → ℕ
add_timespan stamp span =
    let sum = (stamp + span) % word in
    let is_positive = span_greater span 0 in
    if (is_positive && ltb sum stamp) || (not is_positive && ltb stamp sum) then 0 else sum
