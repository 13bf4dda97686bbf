-- ===== src/LoserTree/Reopen.antt =====
-- A finished tree, opened again at a leaf whose value has changed.
use cs_primer.Prelude.{
  ℕ, ◌+◌, ◌/◌, ◌<◌, ◌≤◌, ◌≡◌, ◌≢◌, ◌⊎◌, inl, inr, ap, arith, ◌==◌, update, Bool-cases,
}
use cs_primer.LoserTree.{LoserTree}
use cs_primer.LoserTree.Paths.{OnPath, path_start, path-le, path_half, path-cases}
use cs_primer.LoserTree.Tree.{Settled, Full, Half}

-- `w` has won all the way from the leaf `i` to the root, and only nodes of this path may have come
-- out of order.
pub Full-Half :
    (k n m i w : ℕ) (t t' : LoserTree) (win : ℕ → ℕ)
    → Full k n t win
    → i < k
    → t'.loser ≡ t.loser
    → ((d : ℕ) → OnPath (i + k) d → 0 < d → win d ≡ w)
    → ((q : ℕ) → 0 < q → q < k → Settled t' win q ⊎ OnPath ((i + k) / 2) q)
    → ((j : ℕ) → m ≤ j → j < k → j ≢ i → n ≤ j)
    → ((j : ℕ) → j < m → (j < n) × (j ≢ i))
    → Half k m t' (update win (i + k) i) (i + k) i
Full-Half k n m i w t t' win h a same won order upper lower = record {
  leaves = record {
    entered = λ j b c. elim (Bool-cases (j == i)) [
      | inl e ↦ ground arith
      | inr e ↦ ground (arith, h.leaves.entered j (upper j b c (ground arith)) c)
    ];
    missing = λ j b c. let (x, y) = lower j b in ground (arith, h.leaves.missing j x c, y);
    bounded = λ q b c. ground (arith, a, h.leaves.bounded q b c);
  };
  here = ground arith;
  settled = λ q b c. elim (Bool-cases (q == (i + k) / 2)) [
    | inl e ↦ inr (path_start (ground arith))
    | inr e ↦ elim (order q b c) [ inl st ↦ inl (ground (arith, st)) | inr on ↦ inr on ]
  ];
  path = λ d on b.
      let st = h.settled (d / 2) (omega (arith, b)) (omega (arith, path-le on, a)) in
      let keeps : t'.loser (d / 2) ≡ t.loser (d / 2) = ap (λ f. f (d / 2)) same in
      elim (path-cases on) [
        | inl e ↦ ground (arith, e, b, st, keeps, won d on, won (d / 2) (path_half (i + k) on))
        | inr above ↦
            ground
              (arith, path-le above, b, st, keeps, won d on, won (d / 2) (path_half (i + k) on))
      ];
}
