-- ===== src/TimerHeap/Down.antt =====
-- `DownHeap`, on a heap in which only the edges below one index may be out of order.
use cs_primer.Prelude.{
  ℕ, zero, suc, ◌+◌, ◌*◌, ◌<◌, ◌≤◌, ◌≡◌, ◌≢◌, ◌⊎◌, ltb, arith, Bool-cases, inl, inr,
}
use cs_primer.TimerHeap.{TimerHeap, dl, parent, swap_heap, min_child, down_heap}
use cs_primer.TimerHeap.Swap.{
  IsHeap, Rearranged, Rearranged-refl, Rearranged-trans, swap-dl, swap-Rearranged,
}

pub record DownInv (h : TimerHeap) (i : ℕ) : Type 0 where
  pub edges : (c : ℕ) → 0 < c → c < h.size → parent c ≢ i → dl h (parent c) ≤ dl h c
  pub bridged : (c : ℕ) → 0 < c → c < h.size → parent c ≡ i → 0 < i → dl h (parent i) ≤ dl h c

-- `m` is the child of `i` that expires first.
record IsMinChild (h : TimerHeap) (i m : ℕ) : Type 0 where
  inside : m < h.size
  child : (m ≡ i * 2 + 1) ⊎ (m ≡ i * 2 + 2)
  least : (c : ℕ) → 0 < c → c < h.size → parent c ≡ i → dl h m ≤ dl h c

min_child-IsMinChild :
    (h : TimerHeap) (i : ℕ) → i * 2 + 1 < h.size → IsMinChild h i (min_child h (i * 2 + 1))
unfolding min_child
min_child-IsMinChild h i lt = record {
  inside = ground (arith, lt);
  child = ground (arith, lt);
  least = λ c p q r.
      let two : (c ≡ i * 2 + 1) ⊎ (c ≡ i * 2 + 1 + 1) = omega arith in ground (arith, two);
}

swap-DownInv :
    (h : TimerHeap) (i m : ℕ)
    → DownInv h i
    → IsMinChild h i m
    → dl h m ≤ dl h i
    → DownInv (swap_heap i m h) m
unfolding swap_heap
swap-DownInv h i m v s below =
    let at = swap-dl h i m in
    record {
      edges = λ c p q r. ground (
        arith,
        at c,
        at (parent c),
        v.edges c,
        v.bridged c,
        v.bridged m,
        s.least c,
        s.child,
        s.inside,
      );
      bridged = λ c p q r t. ground (arith, at c, at (parent m), v.edges c, s.child, s.inside);
    }

-- `DownHeap` makes a heap of the same timers, with the rounds that it is given.
pub down_heap_restores :
    (n : ℕ) (h : TimerHeap) (i : ℕ)
    → h.size ≤ n + i
    → DownInv h i
    → IsHeap (down_heap n h i) × Rearranged h (down_heap n h i)
unfolding down_heap swap_heap
down_heap_restores zero h i le v =
    ((λ c p q. v.edges c p q (omega (arith, le, p, q))), Rearranged-refl h)
down_heap_restores (suc n) h i le v = elim (Bool-cases (ltb (i * 2 + 1) h.size)) [
  | inr leaf ↦ rw leaf ((λ c p q. v.edges c p q (ground (arith, leaf, p, q))), Rearranged-refl h)
  | inl inner ↦
      let m = min_child h (i * 2 + 1) in
      let s = min_child-IsMinChild h i (ground (arith, inner)) in
      elim (Bool-cases (ltb (dl h i) (dl h m))) [
        | inl settled ↦
            rw (inner, settled)
              ((λ c p q. ground (arith, v.edges c, s.least c, settled)), Rearranged-refl h)
        | inr below ↦
            let smaller : dl h m ≤ dl h i = ground (arith, below) in
            let hi : i < h.size = omega (arith, s.child, s.inside) in
            let next =
              down_heap_restores n (swap_heap i m h) m (omega (arith, le, s.child))
                (swap-DownInv h i m v s smaller) in
            rw (inner, below) (next.0, Rearranged-trans (swap-Rearranged h i m hi s.inside) next.1)
      ]
]
