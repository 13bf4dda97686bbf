-- ===== src/TimerHeap/Remove.antt =====
-- `RemoveTimer`, and the well-formed heaps.
use cs_primer.Prelude.{
  update, ℕ, ◌+◌, ◌-◌, ◌<◌, ◌≤◌, ◌≡◌, ◌≢◌, Bool, true, false, ◌&&◌, ltb, ◌==◌, if◌then◌else◌, refl,
  sym, ap, ◌∙◌, arith, Bool-cases, inl, inr,
}
use cs_primer.TimerHeap.{Timer, TimerHeap, dl, parent, swap_heap, pop_back, repair, remove_timer}
use cs_primer.TimerHeap.Swap.{
  Has, IsIndexed, IsHeap, Rearranged, Rearranged-refl, swap-at, swap-dl, swap-Rearranged, across,
  across_twice,
}
use cs_primer.TimerHeap.Up.{UpInv, up_heap_restores}
use cs_primer.TimerHeap.Down.{DownInv, down_heap_restores}

-- A heap in order, whose timers know where they are; the active ids are those of its timers, and the
-- ids that are still to come are larger.
pub record IsValid (h : TimerHeap) : Type 0 where
  pub ordered : IsHeap h
  pub indexed : IsIndexed h
  pub owned : (t : Timer) → Has h t → (h.active t.id ≡ true) × (t.id ≤ h.counter)
  pub listed : (id : ℕ) → h.active id ≡ true → (t : Timer) × Has h t × (t.id ≡ id)

-- `b` is a valid heap of the timers of `a` without `t`.
pub record Without (t : Timer) (a b : TimerHeap) : Type 0 where
  pub valid : IsValid b
  pub size : b.size + 1 ≡ a.size
  pub counter : b.counter ≡ a.counter
  pub to : (u : Timer) → Has a u → u.id ≢ t.id → Has b u
  pub from : (u : Timer) → Has b u → Has a u × (u.id ≢ t.id)

-- The heap without its last timer: the state before the order is repaired.
record Cut (t : Timer) (a b : TimerHeap) : Type 0 where
  indexed : IsIndexed b
  size : b.size + 1 ≡ a.size
  counter : b.counter ≡ a.counter
  active : b.active ≡ update a.active t.id false
  to : (u : Timer) → Has a u → u.id ≢ t.id → Has b u
  from : (u : Timer) → Has b u → Has a u × (u.id ≢ t.id)

Cut-Without :
    {t : Timer} {a b c : TimerHeap}
    → IsValid a
    → Cut t a b
    → IsHeap c
    → Rearranged b c
    → Without t a c
Cut-Without {t} {a} {b} {c} v cut heap r = record {
  valid = record {
    ordered = heap;
    indexed = r.indexed cut.indexed;
    owned = λ u m.
        let (inside, other) = cut.from u (r.from u m) in
        let (live, old) = v.owned u inside in
        let at = ap (λ (f : ℕ → Bool). f u.id) (r.same_active ∙ cut.active) in
        (ground (arith, at, live, other), omega (arith, old, r.same_counter, cut.counter));
    listed = λ id live.
        let at = ap (λ (f : ℕ → Bool). f id) (r.same_active ∙ cut.active) in
        let old : a.active id ≡ true = ground (arith, at, live) in
        let other : id ≢ t.id = ground (arith, at, live) in
        let (u, m, e) = v.listed id old in (u, r.to u (cut.to u m (λ f. other (sym e ∙ f))), e);
  };
  size = omega (arith, r.same_size, cut.size);
  counter = r.same_counter ∙ cut.counter;
  to = λ u m other. r.to u (cut.to u m other);
  from = λ u m. cut.from u (r.from u m);
}

module _ (h : TimerHeap) (v : IsValid h) (i : ℕ) (hi : i < h.size) where
  -- Two timers with one id stand at one index.
  same_index : (c : ℕ) → c < h.size → (h.at c).id ≡ (h.at i).id → c ≡ i
  same_index c lt e = sym (v.indexed c lt) ∙ ap h.heap_index e ∙ v.indexed i hi

  abbrev erased : TimerHeap
  erased = record h { active = update h.active (h.at i).id false }

  abbrev last : ℕ
  last = h.size - 1

  abbrev cut : TimerHeap
  cut = pop_back (swap_heap i last erased)

  cut-Cut : Cut (h.at i) h cut
  unfolding swap_heap
  cut-Cut =
      let r = swap-Rearranged erased i last hi (omega arith) in
      let at = swap-at erased i last in
      record {
        indexed = λ c lt. r.indexed v.indexed c (omega (arith, lt));
        size = omega arith;
        counter = refl;
        active = refl;
        to = λ u (c, lt, e) other.
            let apart : c ≢ i =
              λ f. other (ap (λ (t : Timer). t.id) (sym e) ∙ ap (λ k. (h.at k).id) f) in
            (
              across i last c,
              ground (arith, lt, hi, apart),
              at (across i last c) ∙ ap h.at (across_twice i last c) ∙ e,
            );
        from = λ u (c, lt, e).
            let here : h.at (across i last c) ≡ u = sym (at c) ∙ e in
            let inside : across i last c < h.size = ground (arith, lt, hi) in
            (
              (across i last c, inside, here),
              λ f.
                  let same =
                    same_index (across i last c) inside (ap (λ (t : Timer). t.id) here ∙ f) in
                  ground (arith, same, lt),
            );
      }

  cut-dl : (c : ℕ) → dl cut c ≡ dl h (across i last c)
  unfolding swap_heap
  cut-dl = swap-dl erased i last

  cut-size : cut.size ≡ last
  unfolding swap_heap
  cut-size = refl

  cut-UpInv : i ≢ last → 0 < i → dl cut i < dl cut (parent i) → UpInv cut i
  cut-UpInv inner pos below = record {
    inside = omega (arith, inner, hi, cut-size);
    edges = λ c p q r. ground (
      arith,
      cut-dl c,
      cut-dl (parent c),
      cut-dl i,
      cut-dl (parent i),
      v.ordered c,
      v.ordered i,
      hi,
      inner,
      q,
      cut-size,
      below,
    );
    bridged = λ c p q r s. ground (
      arith,
      cut-dl c,
      cut-dl i,
      cut-dl (parent i),
      v.ordered c,
      v.ordered i,
      hi,
      inner,
      q,
      cut-size,
    );
  }

  cut-DownInv : i ≢ last → (0 < i → dl cut (parent i) ≤ dl cut i) → DownInv cut i
  cut-DownInv inner settled = record {
    edges = λ c p q r. ground (
      arith,
      cut-dl c,
      cut-dl (parent c),
      cut-dl i,
      cut-dl (parent i),
      v.ordered c,
      settled,
      hi,
      inner,
      q,
      cut-size,
    );
    bridged = λ c p q r s. ground (
      arith,
      cut-dl c,
      cut-dl i,
      cut-dl (parent i),
      v.ordered c,
      v.ordered i,
      hi,
      inner,
      q,
      cut-size,
    );
  }

  pop-Cut : i ≡ last → Cut (h.at i) h (pop_back erased)
  pop-Cut e = record {
    indexed = λ c lt. v.indexed c (omega (arith, lt));
    size = omega (arith, hi);
    counter = refl;
    active = refl;
    to = λ u (c, lt, f) other.
        let apart : c ≢ i =
          λ g. other (ap (λ (t : Timer). t.id) (sym f) ∙ ap (λ k. (h.at k).id) g) in
        (c, omega (arith, lt, apart, e), f);
    from = λ u (c, lt, f). (
      (c, omega (arith, lt), f),
      λ g.
          let same = same_index c (omega (arith, lt)) (ap (λ (t : Timer). t.id) f ∙ g) in
          omega (arith, same, lt, e),
    );
  }

  repair_restores : i ≢ last → IsHeap (repair i cut) × Rearranged cut (repair i cut)
  unfolding repair
  repair_restores inner = elim (Bool-cases (ltb 0 i && ltb (dl cut i) (dl cut (parent i)))) [
    | inl up ↦ rw up (
        up_heap_restores i cut i (omega arith)
          (cut-UpInv inner (ground (arith, up)) (ground (arith, up))))
    | inr down ↦ rw down (
        down_heap_restores (cut.size - i) cut i (omega arith)
          (cut-DownInv inner (λ pos. ground (arith, down, pos))))
  ]

  remove_at : Without (h.at i) h (if i == last then pop_back erased else repair i cut)
  remove_at = elim (Bool-cases (i == last)) [
    | inl e ↦ rw e (
        Cut-Without v (pop-Cut (ground (arith, e))) (λ c p q. v.ordered c p (omega (arith, q)))
          (Rearranged-refl _))
    | inr e ↦ let r = repair_restores (ground (arith, e)) in rw e (Cut-Without v cut-Cut r.0 r.1)
  ]

-- `RemoveTimer` on a timer in a valid heap leaves a valid heap of exactly the others.
pub remove_timer-Without :
    (h : TimerHeap) (t : Timer) → IsValid h → Has h t → Without t h (remove_timer t h)
unfolding remove_timer
remove_timer-Without h t v (i, hi, e) = rw (sym e, v.indexed i hi) (remove_at h v i hi)
