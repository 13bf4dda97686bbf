-- ===== src/TimerHeap/Up.antt =====
-- `UpHeap`, on a heap in which only the edge above one index may be out of order.
use cs_primer.Prelude.{ℕ, zero, suc, ◌<◌, ◌≤◌, ◌≡◌, ◌≢◌, ltb, leb, arith, Bool-cases, inl, inr}
use cs_primer.TimerHeap.{TimerHeap, dl, parent, swap_heap, up_heap}
use cs_primer.TimerHeap.Swap.{
  IsHeap, Rearranged, Rearranged-refl, Rearranged-trans, swap-dl, swap-Rearranged,
}

-- What `UpHeap` starts from at `i`: its children do not expire before its parent either.
pub record UpInv (h : TimerHeap) (i : ℕ) : Type 0 where
  pub inside : i < h.size
  pub edges : (c : ℕ) → 0 < c → c < h.size → c ≢ i → dl h (parent c) ≤ dl h c
  pub bridged : (c : ℕ) → 0 < c → c < h.size → parent c ≡ i → 0 < i → dl h (parent i) ≤ dl h c

swap-UpInv :
    (h : TimerHeap) (i : ℕ)
    → UpInv h i
    → 0 < i
    → dl h i < dl h (parent i)
    → UpInv (swap_heap i (parent i) h) (parent i)
unfolding swap_heap
swap-UpInv h i v pos below =
    let at = swap-dl h i (parent i) in
    record {
      inside = omega (arith, v.inside);
      edges = λ c p q r. ground (arith, at c, at (parent c), v.edges c, v.bridged c, v.inside);
      bridged = λ c p q r s.
          ground (arith, at c, at (parent (parent i)), v.edges c, v.edges (parent i), v.inside);
    }

-- `UpHeap` makes a heap of the same timers, with the rounds that it is given.
pub up_heap_restores :
    (n : ℕ) (h : TimerHeap) (i : ℕ)
    → i ≤ n
    → UpInv h i
    → IsHeap (up_heap n h i) × Rearranged h (up_heap n h i)
unfolding up_heap
up_heap_restores zero h i le v =
    ((λ c p q. v.edges c p q (omega (arith, le, p))), Rearranged-refl h)
up_heap_restores (suc n) h i le v = elim (Bool-cases (ltb 0 i)) [
  | inr root ↦ rw root ((λ c p q. v.edges c p q (ground (arith, root, p))), Rearranged-refl h)
  | inl pos ↦ elim (Bool-cases (leb (dl h (parent i)) (dl h i))) [
    | inl settled ↦
        rw (pos, settled) ((λ c p q. ground (arith, v.edges c, settled)), Rearranged-refl h)
    | inr below ↦
        let smaller : dl h i < dl h (parent i) = ground (arith, below) in
        let above : 0 < i = ground (arith, pos) in
        let next =
          up_heap_restores n (swap_heap i (parent i) h) (parent i) (omega (arith, le, above))
            (swap-UpInv h i v above smaller) in
        rw (pos, below)
          (
            next.0,
            Rearranged-trans (swap-Rearranged h i (parent i) v.inside (omega (arith, v.inside)))
                next.1,
          )
  ]
]
