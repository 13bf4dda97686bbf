-- ===== src/TimerHeap/Swap.antt =====
-- What a swap of two pointers keeps: the timers in the heap, and the indices that they hold.
use cs_primer.Prelude.{
  ℕ, ◌<◌, ◌≤◌, ◌≡◌, ◌==◌, if◌then◌else◌, refl, sym, ap, ◌∙◌, arith, Bool-cases, inl, inr,
}
use cs_primer.TimerHeap.{Timer, TimerHeap, dl, parent, swap_heap}

-- `t` is in the heap.
abbrev pub Has : TimerHeap → Timer → Type 0
Has h t = (i : ℕ) × (i < h.size) × (h.at i ≡ t)

-- Each timer in the heap holds its index.
abbrev pub IsIndexed : TimerHeap → Type 0
IsIndexed h = (i : ℕ) → i < h.size → h.heap_index (h.at i).id ≡ i

-- No timer expires before its parent.
abbrev pub IsHeap : TimerHeap → Type 0
IsHeap h = (c : ℕ) → 0 < c → c < h.size → dl h (parent c) ≤ dl h c

-- `b` holds the timers of `a`, in some order.
pub record Rearranged (a b : TimerHeap) : Type 0 where
  pub same_size : b.size ≡ a.size
  pub same_active : b.active ≡ a.active
  pub same_counter : b.counter ≡ a.counter
  pub to : (t : Timer) → Has a t → Has b t
  pub from : (t : Timer) → Has b t → Has a t
  pub indexed : IsIndexed a → IsIndexed b

pub Rearranged-refl : (a : TimerHeap) → Rearranged a a
Rearranged-refl a = record {
  same_size = refl;
  same_active = refl;
  same_counter = refl;
  to = λ t m. m;
  from = λ t m. m;
  indexed = λ i. i;
}

pub Rearranged-trans : {a b c : TimerHeap} → Rearranged a b → Rearranged b c → Rearranged a c
Rearranged-trans p q = record {
  same_size = q.same_size ∙ p.same_size;
  same_active = q.same_active ∙ p.same_active;
  same_counter = q.same_counter ∙ p.same_counter;
  to = λ t m. q.to t (p.to t m);
  from = λ t m. p.from t (q.from t m);
  indexed = λ i. q.indexed (p.indexed i);
}

-- Where the pointer at `c` comes from.
abbrev pub across : ℕ → ℕ → ℕ → ℕ
across i j c = if j == c then i else if i == c then j else c

pub across_twice : (i j c : ℕ) → across i j (across i j c) ≡ c
across_twice i j c = ground arith

across_lt : (i j c n : ℕ) → i < n → j < n → c < n → across i j c < n
across_lt i j c n hi hj hc = ground arith

module _ (h : TimerHeap) (i j : ℕ) where
  pub swap-at : (c : ℕ) → (swap_heap i j h).at c ≡ h.at (across i j c)
  unfolding swap_heap
  swap-at c = elim (Bool-cases (j == c)) [
    | inl e ↦ rw e refl
    | inr e ↦ elim (Bool-cases (i == c)) [ inl f ↦ rw (e, f) refl | inr f ↦ rw (e, f) refl ]
  ]

  pub swap-dl : (c : ℕ) → dl (swap_heap i j h) c ≡ dl h (across i j c)
  swap-dl c = ap (λ (t : Timer). t.deadline) (swap-at c)

  pub swap-Rearranged : i < h.size → j < h.size → Rearranged h (swap_heap i j h)
  unfolding swap_heap
  swap-Rearranged hi hj = record {
    same_size = refl;
    same_active = refl;
    same_counter = refl;
    to = λ t (c, lt, e). (
      across i j c,
      across_lt i j c h.size hi hj lt,
      swap-at (across i j c) ∙ ap h.at (across_twice i j c) ∙ e,
    );
    from = λ t (c, lt, e). (across i j c, across_lt i j c h.size hi hj lt, sym (swap-at c) ∙ e);
    indexed = λ ix c lt. ground (arith, ix i hi, ix j hj, ix c lt);
  }
