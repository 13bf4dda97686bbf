-- ===== src/LoserTree/Winner.antt =====
-- The winner of a finished tree, and the tree once its value has changed.
use mathlib.Core.Path.{subst}
use cs_primer.Prelude.{
  ℕ, zero, suc, ◌+◌, ◌*◌, ◌/◌, ◌-◌, ◌<◌, ◌≤◌, ◌≡◌, ◌≢◌, ◌⊎◌, inl, inr, refl, ap, sym, ◌∙◌, arith,
  ltb, ◌==◌, update, Bool-cases,
}
use cs_primer.LoserTree.{LoserTree, adjust}
use cs_primer.LoserTree.Paths.{
  OnPath, path_start, path_up, path_down, path_root, path_half, path-le, path-cases, path-siblings,
  sibling,
}
use cs_primer.LoserTree.Tree.{Settled, Full}
use cs_primer.LoserTree.Adjust.{adjust-Full}
use cs_primer.LoserTree.Reopen.{Full-Half}

module _ {k : ℕ} {t : LoserTree} {win : ℕ → ℕ} (h : Full k 0 t win) where
  -- The winner at a node has come up from its own leaf.
  below : (m d : ℕ) → 2 * k ≤ m + d → 0 < d → d < 2 * k → (win d < k) × OnPath (win d + k) d
  below zero d a b c = (omega (arith, a, c), path_start (omega (arith, a, c)))
  below (suc m) d a b c = elim (Bool-cases (ltb d k)) [
    | inr e ↦
        let leaf : win (d - k + k) ≡ d - k =
          h.leaves.entered (d - k) (omega arith) (ground arith) in
        let same : d - k + k ≡ d = ground arith in
        let won : win d ≡ d - k = sym (ap win same) ∙ leaf in
        (ground arith, path_start (omega (arith, won, same)))
    | inl e ↦
        let (left, from_left) =
          below m (2 * d) (omega (arith, a, b)) (omega (arith, b)) (ground arith) in
        let (right, from_right) =
          below m (2 * d + 1) (omega (arith, a, b)) (omega arith) (ground arith) in
        let (children, _) = h.settled d b (ground arith) in
        elim children [
          | inl (x, y) ↦
              let up : OnPath (win (2 * d) + k) d =
                subst (OnPath (win (2 * d) + k)) (omega arith)
                  (path_half (win (2 * d) + k) from_left) in
              (omega (arith, x, left), subst (λ i. OnPath (i + k) d) (sym x) up)
          | inr (x, y) ↦
              let up : OnPath (win (2 * d + 1) + k) d =
                subst (OnPath (win (2 * d + 1) + k)) (omega arith)
                  (path_half (win (2 * d + 1) + k) from_right) in
              (omega (arith, x, right), subst (λ i. OnPath (i + k) d) (sym x) up)
        ]
  ]

  won_at : (w d : ℕ) → win d ≡ w → 0 < d → d < 2 * k → (w < k) × OnPath (w + k) d
  won_at w d e a b =
      let (x, on) = below (2 * k) d (omega arith) a b in
      (omega (arith, x, e), subst (λ i. OnPath (i + k) d) e on)

  module _ (some_list : 0 < k) where
    pub winner_inside : t.loser 0 < k
    winner_inside =
        let (x, _) = won_at (t.loser 0) 1 (sym h.root) (omega arith) (omega (arith, some_list)) in x

    pub winner_least : (i : ℕ) → i < k → t.leaf (t.loser 0) ≤ t.leaf i
    winner_least i a =
        let top =
          path_up (λ d. t.leaf (win d) ≤ t.leaf i) (i + k)
            (omega (arith, ap t.leaf (h.leaves.entered i (omega arith) a)))
            (λ d on b x.
              ground
                (arith, x, b, h.settled (d / 2) (omega (arith, b)) (omega (arith, path-le on, a))))
            1 (path_root (i + k) (omega (arith, a))) (omega arith) in
        omega (arith, top, ap t.leaf h.root)

    winner_path : (d : ℕ) → OnPath (t.loser 0 + k) d → 0 < d → win d ≡ t.loser 0
    winner_path =
        path_down (λ d. win d ≡ t.loser 0) (t.loser 0 + k)
          (path_root (t.loser 0 + k) (omega (arith, some_list))) (sym h.root)
          (λ d on b x.
            let below_2k : d < 2 * k = omega (arith, path-le on, winner_inside) in
            elim (Bool-cases (win d == t.loser 0)) [
              | inl e ↦ ground arith
              | inr e ↦
                  let other : win (sibling d) ≡ t.loser 0 = ground (
                    arith,
                    e,
                    x,
                    b,
                    h.settled (d / 2) (omega (arith, b)) (omega (arith, below_2k)),
                  ) in
                  let (_, on') =
                    won_at (t.loser 0) (sibling d) other (ground (arith, b))
                      (ground (arith, below_2k)) in
                  omega (arith, path-siblings (t.loser 0 + k) d b on on')
            ])

    module _ (t' : LoserTree) (same : t'.loser ≡ t.loser)
        (kept : (i : ℕ) → i ≢ t.loser 0 → t'.leaf i ≡ t.leaf i) where
      inner_path : (q : ℕ) → q < k → OnPath (t.loser 0 + k) q → OnPath ((t.loser 0 + k) / 2) q
      inner_path q a on = elim (path-cases on) [
        | inl e ↦ subst (OnPath ((t.loser 0 + k) / 2)) (omega (arith, a, e)) (path_start refl)
        | inr on' ↦ on'
      ]

      order : (q : ℕ) → 0 < q → q < k → Settled t' win q ⊎ OnPath ((t.loser 0 + k) / 2) q
      order q a b = elim (Bool-cases (win q == t.loser 0)) [
        | inl e ↦
            let (_, on) = won_at (t.loser 0) q (ground arith) a (omega (arith, b)) in
            inr (inner_path q b on)
        | inr e ↦ elim (Bool-cases (t.loser q == t.loser 0)) [
          | inl f ↦
              let lost : t.loser q ≡ t.loser 0 = ground arith in
              let (children, _) = h.settled q a b in
              elim children [
                | inl (x, y) ↦
                    let (_, on) =
                      won_at (t.loser 0) (2 * q + 1) (sym y ∙ lost) (omega arith)
                        (omega (arith, b)) in
                    inr (
                      inner_path q b (
                        subst (OnPath (t.loser 0 + k)) (omega arith)
                          (path_half (t.loser 0 + k) on)))
                | inr (x, y) ↦
                    let (_, on) =
                      won_at (t.loser 0) (2 * q) (sym y ∙ lost) (omega (arith, a))
                        (omega (arith, b)) in
                    inr (
                      inner_path q b (
                        subst (OnPath (t.loser 0 + k)) (omega arith)
                          (path_half (t.loser 0 + k) on)))
              ]
          | inr f ↦ inl (
              ground
                (arith, e, f, h.settled q a b, ap (λ f. f q) same, kept (win q), kept (t.loser q)))
        ]
      ]

      pub adjust_winner-Full : (win' : ℕ → ℕ) × Full k 0 (adjust k (t.loser 0) t') win'
      adjust_winner-Full =
          adjust-Full t' (update win (t.loser 0 + k) (t.loser 0)) (t.loser 0) winner_inside (
            Full-Half k 0 0 (t.loser 0) (t.loser 0) t t' win h winner_inside same winner_path order
              (λ j b c x. b) (λ j b. omega (arith, b)))
