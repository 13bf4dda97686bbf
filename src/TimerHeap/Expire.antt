-- ===== src/TimerHeap/Expire.antt =====
-- `GetExpiredTimers` of TimerHeap.
use cs_primer.Prelude.{
  ℕ, zero, suc, ◌+◌, ◌<◌, ◌≤◌, ◌≡◌, ◌⊎◌, List, [], ◌∷◌, false, ◌&&◌, not, leb, ◌==◌, refl, sym, ap,
  ◌∙◌, arith, Bool-cases, inl, inr, length,
}
use cs_primer.TimerHeap.{Timer, TimerHeap, dl, remove_timer, expire, get_expired_timers}
use cs_primer.TimerHeap.Swap.{Has}
use cs_primer.TimerHeap.Remove.{IsValid, Without, remove_timer-Without}
use cs_primer.TimerHeap.Laws.{root_least}

-- `t` is in the list.
unfoldable pub In : Timer → List Timer → Type 0
In t [] = ⊥
In t (x ∷ xs) = (x ≡ t) ⊎ In t xs

-- No deadline is before `d` or before that of the timer in front of it.
unfoldable pub Ascending : ℕ → List Timer → Type 0
Ascending d [] = Unit
Ascending d (x ∷ xs) = (d ≤ x.deadline) × Ascending x.deadline xs

-- `ts` are the timers of `h` whose deadline is not after `now`, those that expire first in front,
-- and `h'` is a heap of the others.
pub record Expired (now : ℕ) (h : TimerHeap) (ts : List Timer) (h' : TimerHeap) : Type 0 where
  pub valid : IsValid h'
  pub count : length ts + h'.size ≡ h.size
  pub in_order : (d : ℕ) → ((u : Timer) → Has h u → d ≤ u.deadline) → Ascending d ts
  pub split :
      (u : Timer) → Has h u → (In u ts × (u.deadline ≤ now)) ⊎ (Has h' u × (now < u.deadline))
  pub only : (u : Timer) → In u ts ⊎ Has h' u → Has h u

nothing-Expired :
    (now : ℕ) (h : TimerHeap) → IsValid h → (h.size ≡ 0) ⊎ (now < dl h 0) → Expired now h [] h
unfolding In Ascending
nothing-Expired now h v why = record {
  valid = v;
  count = omega arith;
  in_order = λ d least. tt;
  split = λ u m. inr (m, omega (arith, why, m.1, root_least h u v.ordered m));
  only = λ u m. elim m [ inl a ↦ absurd a | inr c ↦ c ];
}

-- The timer at the root comes out; the rest is what expires of the others.
module _ (now : ℕ) (h h1 : TimerHeap) (v : IsValid h) (lt : 0 < h.size)
    (w : Without (h.at 0) h h1) where
  others : (u : Timer) → Has h u → (h.at 0 ≡ u) ⊎ Has h1 u
  others u (zero, p, e) = inl e
  others u (suc i, p, e) = inr (
      w.to u (suc i, p, e)
        λ f.
          let same =
            sym (v.indexed (suc i) p)
            ∙ ap h.heap_index (ap (λ (t : Timer). t.id) e ∙ f)
            ∙ v.indexed 0 lt in
          absurd (omega (arith, same)))

  rest-Expired :
      (ts : List Timer) (h' : TimerHeap)
      → dl h 0 ≤ now
      → Expired now h1 ts h'
      → Expired now h (h.at 0 ∷ ts) h'
  unfolding In Ascending
  rest-Expired ts h' due x = record {
    valid = x.valid;
    count = omega (arith, x.count, w.size);
    in_order = λ d least. (
      least (h.at 0) (0, lt, refl),
      x.in_order (dl h 0) (λ u m. root_least h u v.ordered (w.from u m).0),
    );
    split = λ u m. elim (others u m) [
      | inl e ↦ inl (inl e, omega (arith, due, ap (λ (t : Timer). t.deadline) e))
      | inr m' ↦ elim (x.split u m') [ inl (a, b) ↦ inl (inr a, b) | inr c ↦ inr c ]
    ];
    only = λ u m. elim m [
      | inl a ↦ elim a [ inl e ↦ (0, lt, e) | inr b ↦ (w.from u (x.only u (inl b))).0 ]
      | inr c ↦ (w.from u (x.only u (inr c))).0
    ];
  }

expire-Expired :
    (n : ℕ) (now : ℕ) (h : TimerHeap)
    → IsValid h
    → h.size ≤ n
    → let (ts, h') = expire n now h in Expired now h ts h'
unfolding expire
expire-Expired zero now h v le = nothing-Expired now h v (inl (omega (arith, le)))
expire-Expired (suc n) now h v le = elim (Bool-cases (not (h.size == 0) && leb (dl h 0) now)) [
  | inl go ↦
      let lt : 0 < h.size = ground (arith, go) in
      let w = remove_timer-Without h (h.at 0) v (0, lt, refl) in
      let h1 = remove_timer (h.at 0) h in
      let rest = expire-Expired n now h1 w.valid (omega (arith, w.size, le)) in
      rw go (
        rest-Expired now h h1 v lt w (expire n now h1).0 (expire n now h1).1 (ground (arith, go))
          rest)
  | inr stop ↦ rw stop (nothing-Expired now h v (ground (arith, stop)))
]

-- `GetExpiredTimers` on a valid heap takes out exactly the timers whose deadline is not after `now`,
-- each once, those that expire first in front, and leaves a valid heap of the others.
pub get_expired_timers-Expired :
    (h : TimerHeap) (now : ℕ)
    → IsValid h
    → let (ts, h') = get_expired_timers now h in Expired now h ts h'
unfolding get_expired_timers
get_expired_timers-Expired h now v = expire-Expired h.size now h v (omega arith)

-- A heap without a timer.
abbrev pub empty_heap : Timer → TimerHeap
empty_heap t = record {
  size = 0;
  at = λ _. t;
  heap_index = λ _. 0;
  active = λ _. false;
  counter = 0;
}

pub empty_heap-IsValid : (t : Timer) → IsValid (empty_heap t)
empty_heap-IsValid t = record {
  ordered = λ c p q. absurd (omega (arith, q));
  indexed = λ c q. absurd (omega (arith, q));
  owned = λ u (c, q, e). absurd (omega (arith, q));
  listed = λ id live. ground (arith, live);
}
