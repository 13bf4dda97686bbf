-- ===== src/TimerHeap/Laws.antt =====
-- What the methods of TimerHeap do with the set of timers.
use cs_primer.Prelude.{
  update, ℕ, zero, suc, ◌+◌, ◌%◌, ◌<◌, ◌≤◌, ◌≡◌, ◌≢◌, ◌⊎◌, some, none, Bool, true, false, ◌==◌,
  refl, sym, ap, ◌∙◌, arith, Bool-cases, inl, inr,
}
use cs_primer.TimerHeap.{Timer, TimerHeap, TimerId, dl, parent, up_heap, add_timer, cancel_timer}
use cs_primer.TimerHeap.Time.{word}
use cs_primer.TimerHeap.Swap.{Has, IsIndexed, IsHeap, Rearranged}
use cs_primer.TimerHeap.Up.{UpInv, up_heap_restores}
use cs_primer.TimerHeap.Remove.{IsValid, Without, remove_timer-Without}

root_least_below : (n : ℕ) (h : TimerHeap) (i : ℕ) → IsHeap h → i < n → i < h.size → dl h 0 ≤ dl h i
root_least_below zero h i heap f p = absurd (omega arith)
root_least_below (suc n) h zero heap f p = omega arith
root_least_below (suc n) h (suc i) heap f p = omega (
  arith,
  heap (suc i) (omega arith) p,
  root_least_below n h (parent (suc i)) heap (omega (arith, f)) (omega (arith, p)),
)

-- The timer at the root is the first to expire.
pub root_least : (h : TimerHeap) (t : Timer) → IsHeap h → Has h t → dl h 0 ≤ t.deadline
root_least h t heap (i, lt, e) =
    omega
      (arith, root_least_below (suc i) h i heap (omega arith) lt, ap (λ (t : Timer). t.deadline) e)

-- What `AddTimer` of the timer `t` makes of `h`.
pub record Added (t : Timer) (h : TimerHeap) (first : Bool) (handle : TimerId) (h' : TimerHeap)
    : Type 0 where
  pub valid : IsValid h'
  pub size : h'.size ≡ h.size + 1
  pub handed_out : handle ≡ record { timer = some t; id = t.id }
  pub new : Has h' t
  pub to : (u : Timer) → Has h u → Has h' u
  pub from : (u : Timer) → Has h' u → Has h u ⊎ (u ≡ t)
  pub is_first : first ≡ true → (u : Timer) → Has h u → t.deadline < u.deadline
  pub on_empty : h.size ≡ 0 → first ≡ false
  pub not_first : first ≡ false → (h.size ≡ 0) ⊎ (dl h 0 ≤ t.deadline)

module _ (h : TimerHeap) (v : IsValid h) (t : Timer) (fresh : t.id ≡ h.counter + 1) where
  abbrev grown : TimerHeap
  grown = record {
    size = h.size + 1;
    at = update h.at h.size t;
    heap_index = update h.heap_index t.id h.size;
    active = update h.active t.id true;
    counter = t.id;
  }

  grown_at : (c : ℕ) → c < h.size → grown.at c ≡ h.at c
  grown_at c lt = let other : (h.size == c) ≡ false = ground (arith, lt) in rw other refl

  grown_new : grown.at h.size ≡ t
  grown_new = let same : (h.size == h.size) ≡ true = ground arith in rw same refl

  grown-dl : (c : ℕ) → c < h.size → dl grown c ≡ dl h c
  grown-dl c lt = ap (λ (t : Timer). t.deadline) (grown_at c lt)

  older : (u : Timer) → Has h u → u.id ≢ t.id
  older u m e = omega (arith, (v.owned u m).1, fresh, e)

  grown_from : (u : Timer) → Has grown u → Has h u ⊎ (u ≡ t)
  grown_from u (c, lt, e) = elim (Bool-cases (h.size == c)) [
    | inl last ↦ inr (sym e ∙ rw last refl)
    | inr inner ↦
        let lt' : c < h.size = ground (arith, inner, lt) in inl (c, lt', sym (grown_at c lt') ∙ e)
  ]

  grown-IsIndexed : IsIndexed grown
  grown-IsIndexed c lt = elim (Bool-cases (h.size == c)) [
    | inl last ↦
        let same : (t.id == t.id) ≡ true = ground arith in rw (last, same) (ground (arith, last))
    | inr inner ↦
        let lt' : c < h.size = ground (arith, inner, lt) in
        let old = older (h.at c) (c, lt', refl) in
        let other : (t.id == (h.at c).id) ≡ false = ground (arith, old) in
        rw (inner, other) (v.indexed c lt')
  ]

  grown-UpInv : UpInv grown h.size
  grown-UpInv = record {
    inside = omega arith;
    edges = λ c p q r. ground (arith, grown-dl c, grown-dl (parent c), v.ordered c, p, q, r);
    bridged = λ c p q r s. omega (arith, q, r);
  }

  -- The heap in order again.
  grown-IsValid :
      let h' = up_heap h.size grown h.size in
      IsValid h' × (h'.size ≡ h.size + 1) × Rearranged grown h'
  grown-IsValid =
      let (heap, r) = up_heap_restores h.size grown h.size (omega arith) grown-UpInv in
      (
        record {
          ordered = heap;
          indexed = r.indexed grown-IsIndexed;
          owned = λ u m. elim (grown_from u (r.from u m)) [
            | inl old ↦
                let (live, below) = v.owned u old in
                let at = ap (λ (f : ℕ → Bool). f u.id) r.same_active in
                (ground (arith, at, live), omega (arith, below, fresh, r.same_counter))
            | inr e ↦
                let at = ap (λ (f : ℕ → Bool). f u.id) r.same_active in
                let same = ap (λ (t : Timer). t.id) e in
                (ground (arith, at, same), omega (arith, same, r.same_counter))
          ];
          listed = λ id live.
              let at = ap (λ (f : ℕ → Bool). f id) r.same_active in
              elim (Bool-cases (t.id == id)) [
                | inl mine ↦ (t, r.to t (h.size, omega arith, grown_new), ground (arith, mine))
                | inr other ↦
                    let (u, (c, lt, e), f) = v.listed id (ground (arith, at, live, other)) in
                    (u, r.to u (c, omega (arith, lt), grown_at c lt ∙ e), f)
              ];
        },
        r.same_size,
        r,
      )

-- `AddTimer` on a valid heap whose ids are not used up puts in exactly the new timer and hands out
-- its id. It says that the timer is the first to expire only if it expires before all others; on an
-- empty heap it does not say so.
pub add_timer-Added :
    (h : TimerHeap) (cb deadline interval : ℕ)
    → IsValid h
    → h.counter + 1 < word
    → let t : Timer = record {
      callback = cb;
      deadline = deadline;
      interval = interval;
      id = h.counter + 1;
    } in
      let (first, handle, h') = add_timer cb deadline interval h in Added t h first handle h'
unfolding add_timer
add_timer-Added h cb deadline interval v room =
    let exact : (h.counter + 1) % word ≡ h.counter + 1 = omega (arith, room) in
    let t : Timer = record {
      callback = cb;
      deadline = deadline;
      interval = interval;
      id = h.counter + 1;
    } in
    let (valid, size, r) = grown-IsValid h v t refl in
    rw exact record {
      valid = valid;
      size = size;
      handed_out = refl;
      new = r.to t (h.size, omega arith, grown_new h v t refl);
      to = λ u (c, lt, e). r.to u (c, omega (arith, lt), grown_at h v t refl c lt ∙ e);
      from = λ u m. grown_from h v t refl u (r.from u m);
      is_first = λ yes u m. ground (arith, yes, root_least h u v.ordered m);
      on_empty = λ none_yet. ground (arith, none_yet);
      not_first = λ no. ground (arith, no);
    }

-- `CancelTimer` on a valid heap takes out the timer of the handle, if it is in the heap, and clears
-- the handle; if the id is not active, nothing changes.
pub cancel_timer_exact :
    (h : TimerHeap) (t : Timer)
    → IsValid h
    → let handle : TimerId = record { timer = some t; id = t.id } in
      let cleared : TimerId = record { timer = none; id = 0 } in
      (Has h t → let (handle', h') = cancel_timer handle h in (handle' ≡ cleared) × Without t h h')
      × (h.active t.id ≡ false → cancel_timer handle h ≡ (handle, h))
unfolding cancel_timer
cancel_timer_exact h t v = (
  λ (i, lt, e).
      let live = (v.owned t (i, lt, e)).0 in
      let some_timer : (h.size == 0) ≡ false = ground (arith, lt) in
      rw (some_timer, live) (refl, remove_timer-Without h t v (i, lt, e)),
  λ idle. elim (Bool-cases (h.size == 0)) [ inl e ↦ rw e refl | inr e ↦ rw (e, idle) refl ],
)
