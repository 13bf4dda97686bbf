-- ===== src/LoserTree/Create.antt =====
-- `CreateLoserTree` on leaves none of which has the value of the sentinel.
use cs_primer.Prelude.{ℕ, zero, suc, ◌+◌, ◌/◌, ◌<◌, ◌≤◌, ◌≡◌, inl, refl, ap, ◌∙◌, arith, update}
use cs_primer.LoserTree.{LoserTree, int_min, adjust, adjust_all, create_loser_tree}
use cs_primer.LoserTree.Paths.{OnPath, path_up, path-le}
use cs_primer.LoserTree.Tree.{Full}
use cs_primer.LoserTree.Adjust.{adjust-Full, adjust-leaf}
use cs_primer.LoserTree.Reopen.{Full-Half}

-- The sentinel's value is below every other.
record Sentinel (k : ℕ) (t : LoserTree) : Type 0 where
  pub least : t.leaf k ≡ int_min
  pub above : (i : ℕ) → i < k → int_min < t.leaf i

won_path :
    (k n i : ℕ) (t : LoserTree) (win : ℕ → ℕ)
    → Full k n t win
    → Sentinel k t
    → i < n
    → i < k
    → (d : ℕ) → OnPath (i + k) d
    → 0 < d
    → win d ≡ k
won_path k n i t win h v a b =
    path_up (λ d. win d ≡ k) (i + k) (h.leaves.missing i a b)
      (λ d on c e. ground (
        arith,
        e,
        c,
        v.least,
        v.above (win (d / 2)),
        h.settled (d / 2) (omega (arith, c)) (omega (arith, path-le on, b)),
        h.leaves.bounded (d / 2) (omega (arith, c)) (omega (arith, path-le on, b)),
      ))

adjust_all-Full :
    (k n : ℕ) (t : LoserTree) (win : ℕ → ℕ)
    → n ≤ k
    → Full k n t win
    → Sentinel k t
    → (win' : ℕ → ℕ) × Full k 0 (adjust_all k n t) win'
unfolding adjust_all
adjust_all-Full k zero t win a h v = (win, h)
adjust_all-Full k (suc i) t win a h v =
    let half =
      Full-Half k (suc i) i i k t t win h (omega (arith, a)) refl
        (won_path k (suc i) i t win h v (omega arith) (omega (arith, a)))
        (λ q b c. inl (h.settled q b c)) (λ j b c x. omega (arith, b, x))
        (λ j b. (omega (arith, b), omega (arith, b))) in
    let (win', h') = adjust-Full t (update win (i + k) i) i (omega (arith, a)) half in
    let v' : Sentinel k (adjust k i t) = record {
      least = ap (λ f. f k) (adjust-leaf k i t) ∙ v.least;
      above = λ j b. omega (arith, v.above j b, ap (λ f. f j) (adjust-leaf k i t));
    } in
    adjust_all-Full k i (adjust k i t) win' (omega (arith, a)) h' v'

adjust_all-leaf : (k n : ℕ) (t : LoserTree) → (adjust_all k n t).leaf ≡ t.leaf
unfolding adjust_all
adjust_all-leaf k zero t = refl
adjust_all-leaf k (suc i) t = adjust_all-leaf k i (adjust k i t) ∙ adjust-leaf k i t

pub create-leaf : (k : ℕ) (t : LoserTree) → (create_loser_tree k t).leaf ≡ update t.leaf k int_min
unfolding create_loser_tree
create-leaf k t = adjust_all-leaf k k _

pub create-Full :
    (k : ℕ) (t : LoserTree)
    → 0 < k
    → ((i : ℕ) → i < k → int_min < t.leaf i)
    → (win : ℕ → ℕ) × Full k 0 (create_loser_tree k t) win
unfolding create_loser_tree
create-Full k t a above =
    adjust_all-Full k k _ (λ _. k) (omega arith)
      (record {
        leaves = record {
          entered = λ i b c. omega (arith, b, c);
          missing = λ i b c. refl;
          bounded = λ q b c. omega arith;
        };
        settled = λ q b c. ground arith;
        root = ground arith;
      })
      (record { least = ground arith; above = λ i b. ground (arith, above i b) })
