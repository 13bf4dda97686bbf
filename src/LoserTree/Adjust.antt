-- ===== src/LoserTree/Adjust.antt =====
-- `Adjust`, from a leaf to the root.
use cs_primer.Prelude.{
  ℕ, zero, suc, ◌+◌, ◌*◌, ◌/◌, ◌<◌, ◌≤◌, ◌≡◌, ◌≢◌, ◌⊎◌, inl, inr, refl, ap, arith, ltb, ◌==◌,
  update, Bool-cases,
}
use cs_primer.LoserTree.{LoserTree, adjust_loop, adjust}
use mathlib.Core.Path.{subst}
use cs_primer.LoserTree.Paths.{
  OnPath, path_start, path_longer, path-le, path-cases, path_none, sibling,
}
use cs_primer.LoserTree.Tree.{Settled, Full, Half}

module _ {k n : ℕ} {t : LoserTree} {win : ℕ → ℕ} {c s : ℕ} (h : Half k n t win c s) (inner : 1 < c)
    (inside : c < 2 * k) where
  abbrev p : ℕ
  p = c / 2

  abbrev other : ℕ
  other = t.loser p

  other-sibling : other ≡ win (sibling c)
  other-sibling = h.path c (path_start refl) inner

  -- What one round of `Adjust` leaves, where `winner` of the two goes on and `beaten` stays.
  module _ (winner beaten : ℕ) (t' : LoserTree) (same : t'.leaf ≡ t.leaf)
      (stays : (q : ℕ) → t'.loser q ≡ update t.loser p beaten q)
      (both : ((winner ≡ s) × (beaten ≡ other)) ⊎ ((winner ≡ other) × (beaten ≡ s)))
      (le : t.leaf winner ≤ t.leaf beaten) where
    abbrev win' : ℕ → ℕ
    win' = update win p winner

    leaf_at : (i : ℕ) → t'.leaf i ≡ t.leaf i
    leaf_at i = ap (λ f. f i) same

    here-Settled : Settled t' win' p
    here-Settled =
        ground (arith, both, le, stays p, leaf_at winner, leaf_at beaten, other-sibling, h.here)

    kept-Settled : (q : ℕ) → 0 < q → q < k → q ≢ p → q ≢ p / 2 → Settled t win q → Settled t' win' q
    kept-Settled q a b x y z =
        ground (arith, x, y, z, stays q, leaf_at (win q), leaf_at (t.loser q))

    round-Settled : (q : ℕ) → 0 < q → q < k → Settled t' win' q ⊎ OnPath (p / 2) q
    round-Settled q a b = elim (Bool-cases (q == p)) [
      | inl e ↦ let e' : p ≡ q = ground arith in inl (subst (Settled t' win') e' here-Settled)
      | inr x ↦ elim (Bool-cases (q == p / 2)) [
        | inl e ↦ inr (path_start (ground arith))
        | inr y ↦ elim (h.settled q a b) [
          | inl st ↦ inl (kept-Settled q a b (ground arith) (ground arith) st)
          | inr on ↦ elim (path-cases on) [ inl e ↦ inr (ground arith) | inr on' ↦ inr on' ]
        ]
      ]
    ]

    round_path : (d : ℕ) → OnPath p d → 1 < d → t'.loser (d / 2) ≡ win' (sibling d)
    round_path d on a =
        let old = h.path d (path_longer c on) a in
        let below = path-le on in
        elim (path-cases on) [
          | inl e ↦ ground (arith, old, below, e, stays (d / 2))
          | inr on' ↦ ground (arith, old, below, path-le on', stays (d / 2))
        ]

    round-Half : Half k n t' win' p winner
    round-Half = record {
      leaves = record {
        entered = λ i a b. ground (arith, h.leaves.entered i a b, inside);
        missing = λ i a b. ground (arith, h.leaves.missing i a b, inside);
        bounded = λ q a b. ground (
          arith,
          h.leaves.bounded q a b,
          both,
          h.here,
          other-sibling,
          h.leaves.bounded c,
          h.leaves.bounded (sibling c),
        );
      };
      here = ground arith;
      settled = round-Settled;
      path = round_path;
    }

pub adjust_loop-leaf : (n : ℕ) (t : LoserTree) (s p : ℕ) → (adjust_loop n t s p).leaf ≡ t.leaf
unfolding adjust_loop
adjust_loop-leaf zero t s p = refl
adjust_loop-leaf (suc n) t s p = elim (Bool-cases (p == 0)) [
  | inl z ↦ rw z refl
  | inr z ↦ elim (Bool-cases (ltb (t.leaf (t.loser p)) (t.leaf s))) [
    | inl e ↦
        rw (z, e) (adjust_loop-leaf n (record t { loser = update t.loser p s }) (t.loser p) (p / 2))
    | inr e ↦ rw (z, e) (adjust_loop-leaf n t s (p / 2))
  ]
]

module _ {k n : ℕ} where
  at_root :
      {t : LoserTree} {win : ℕ → ℕ} {s : ℕ} (c : ℕ)
      → Half k n t win c s
      → 0 < c
      → c / 2 ≡ 0
      → Full k n (record t { loser = update t.loser 0 s }) win
  at_root {t} {win} {s} c h a z = record {
    leaves = h.leaves;
    settled = λ q b d. elim (h.settled q b d) [
      | inl st ↦ ground (arith, st)
      | inr on ↦ ground (arith, path_none (subst (λ x. OnPath x q) z on))
    ];
    root = ground (arith, h.here);
  }

  pub adjust_loop-Full :
      (fuel : ℕ) (t : LoserTree) (win : ℕ → ℕ) (c s : ℕ)
      → Half k n t win c s
      → 0 < c
      → c < 2 * k
      → c / 2 ≤ fuel
      → (win' : ℕ → ℕ) × Full k n (adjust_loop fuel t s (c / 2)) win'
  unfolding adjust_loop
  adjust_loop-Full zero t win c s h a b le = (win, at_root c h a (omega arith))
  adjust_loop-Full (suc m) t win c s h a b le = elim (Bool-cases (c / 2 == 0)) [
    | inl z ↦ rw z (win, at_root c h a (ground arith))
    | inr z ↦ elim (Bool-cases (ltb (t.leaf (t.loser (c / 2))) (t.leaf s))) [
      | inl e ↦
          rw (z, e)
            (let t' = record t { loser = update t.loser (c / 2) s } in
              let q = t.loser (c / 2) in
              adjust_loop-Full m t' (update win (c / 2) q) (c / 2) q
                (round-Half h (ground arith) b q s t' refl (λ x. refl) (inr (refl, refl))
                  (ground arith))
                (ground arith) (omega arith) (omega arith))
      | inr e ↦
          rw (z, e)
            (let q = t.loser (c / 2) in
              adjust_loop-Full m t (update win (c / 2) s) (c / 2) s
                (round-Half h (ground arith) b s q t refl (λ x. ground arith) (inl (refl, refl))
                  (ground arith))
                (ground arith) (omega arith) (omega arith))
    ]
  ]

  pub adjust-Full :
      (t : LoserTree) (win : ℕ → ℕ) (s : ℕ)
      → s < k
      → Half k n t win (s + k) s
      → (win' : ℕ → ℕ) × Full k n (adjust k s t) win'
  unfolding adjust
  adjust-Full t win s a h =
      adjust_loop-Full (s + k) t win (s + k) s h (omega arith) (omega arith) (omega arith)

pub adjust-leaf : (k s : ℕ) (t : LoserTree) → (adjust k s t).leaf ≡ t.leaf
unfolding adjust
adjust-leaf k s t = adjust_loop-leaf (s + k) t s ((s + k) / 2)
