-- ===== src/LoserTree/Tree.antt =====
-- The tree of winners that a tree of losers stands for. The children of the node `p` are `2 * p` and
-- `2 * p + 1`, the leaf `i` is the node `i + k`.
use cs_primer.Prelude.{ℕ, ◌+◌, ◌*◌, ◌/◌, ◌<◌, ◌≤◌, ◌≡◌, ◌⊎◌}
use cs_primer.LoserTree.Paths.{OnPath, sibling}
use cs_primer.LoserTree.{LoserTree}

-- The winner and the loser at `q` are those of its children, the winner not above the loser.
abbrev pub Settled : LoserTree → (ℕ → ℕ) → ℕ → Type 0
Settled t win q =
    (((win q ≡ win (2 * q)) × (t.loser q ≡ win (2 * q + 1)))
      ⊎ ((win q ≡ win (2 * q + 1)) × (t.loser q ≡ win (2 * q))))
    × (t.leaf (win q) ≤ t.leaf (t.loser q))

-- The leaves from `n` on have entered; for the others the sentinel `k` stands in, and no other
-- index wins.
pub record Leaves (k n : ℕ) (win : ℕ → ℕ) : Type 0 where
  pub entered : (i : ℕ) → n ≤ i → i < k → win (i + k) ≡ i
  pub missing : (i : ℕ) → i < n → i < k → win (i + k) ≡ k
  pub bounded : (q : ℕ) → 0 < q → q < 2 * k → win q ≤ k

-- A tree of losers, with its winners.
pub record Full (k n : ℕ) (t : LoserTree) (win : ℕ → ℕ) : Type 0 where
  pub leaves : Leaves k n win
  pub settled : (q : ℕ) → 0 < q → q < k → Settled t win q
  pub root : t.loser 0 ≡ win 1

-- The tree while `Adjust` has settled the nodes up to `c`, where `s` is the winner now; on the path
-- above it the losers are the winners of the other children.
pub record Half (k n : ℕ) (t : LoserTree) (win : ℕ → ℕ) (c s : ℕ) : Type 0 where
  pub leaves : Leaves k n win
  pub here : win c ≡ s
  pub settled : (q : ℕ) → 0 < q → q < k → Settled t win q ⊎ OnPath (c / 2) q
  pub path : (d : ℕ) → OnPath c d → 1 < d → t.loser (d / 2) ≡ win (sibling d)
