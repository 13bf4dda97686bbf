-- ===== src/LoserTree/Leaves.antt =====
-- What `mergeKLists` has in the leaves before its loop.
use cs_primer.Prelude.{
  ℕ, zero, suc, ◌+◌, ◌<◌, ◌≤◌, ◌≡◌, inl, inr, refl, ap, ◌∙◌, arith, List, [], ◌∷◌, Option, none,
  some, ◌==◌, Bool-cases, get_elem?, length,
}
use cs_primer.LoserTree.{
  LoserTree, int_min, int_max, head_or_max, input, input_all, create_loser_tree,
}
use cs_primer.LoserTree.Create.{create-leaf}
use cs_primer.LoserTree.Values.{All, All-get_elem?}

-- A value that neither the sentinel nor the end of a list stands for.
abbrev pub IsValue : ℕ → Type 0
IsValue x = (int_min < x) × (x < int_max)

-- The leaves hold the heads of the lists.
abbrev pub Loaded : List (List ℕ) → LoserTree → Type 0
Loaded lists t = (i : ℕ) → i < length lists → t.leaf i ≡ head_or_max (get_elem? lists i)

pub elem-length :
    (lists : List (List ℕ)) (i : ℕ) (l : List ℕ) → get_elem? lists i ≡ some l → i < length lists
elem-length [] i l e = grind (arith, e)
elem-length (x ∷ xs) zero l e = omega arith
elem-length (x ∷ xs) (suc i) l e = omega (arith, elem-length xs i l e)

absurd_lt : {i : ℕ} {o : Option (List ℕ)} → i < 0 → none ≡ o
absurd_lt a = grind (arith, a)

pub get_elem-some :
    (lists : List (List ℕ)) (i : ℕ) → i < length lists → (l : List ℕ) × (get_elem? lists i ≡ some l)
get_elem-some [] i a = ([], absurd_lt a)
get_elem-some (x ∷ xs) zero a = (x, refl)
get_elem-some (x ∷ xs) (suc i) a = get_elem-some xs i (omega (arith, a))

input_all-before :
    (lists : List (List ℕ)) (n i j : ℕ) (t : LoserTree)
    → j < i
    → (input_all lists n i t).leaf j ≡ t.leaf j
unfolding input_all input
input_all-before lists zero i j t a = refl
input_all-before lists (suc n) i j t a =
    input_all-before lists n (i + 1) j (input lists i t) (omega (arith, a)) ∙ ground arith

input_all-loaded :
    (lists : List (List ℕ)) (n i j : ℕ) (t : LoserTree)
    → i ≤ j
    → j < i + n
    → (input_all lists n i t).leaf j ≡ head_or_max (get_elem? lists j)
unfolding input_all input
input_all-loaded lists zero i j t a b = omega (arith, a, b)
input_all-loaded lists (suc n) i j t a b = elim (Bool-cases (i == j)) [
  | inl e ↦ ground (arith, e, input_all-before lists n (i + 1) j (input lists i t))
  | inr e ↦ input_all-loaded lists n (i + 1) j (input lists i t) (ground arith) (omega (arith, b))
]

head-above : (l : List ℕ) → All IsValue l → int_min < head_or_max (some l)
head-above [] h = omega arith
head-above (v ∷ vs) ((a, _), _) = a

module _ (t : LoserTree) (l : List ℕ) (ls : List (List ℕ))
    (values : All (All IsValue) (l ∷ ls)) where
  abbrev pub k_ways : ℕ
  k_ways = length (l ∷ ls)

  abbrev pub loaded_tree : LoserTree
  loaded_tree = input_all (l ∷ ls) k_ways 0 t

  pub above_min : (i : ℕ) → i < k_ways → int_min < loaded_tree.leaf i
  above_min i a =
      let (x, e) = get_elem-some (l ∷ ls) i a in
      omega (
        arith,
        head-above x (All-get_elem? _ (l ∷ ls) i x values e),
        ap head_or_max e,
        input_all-loaded (l ∷ ls) k_ways 0 i t (omega arith) (omega (arith, a)),
      )

  pub created-Loaded : Loaded (l ∷ ls) (create_loser_tree k_ways loaded_tree)
  created-Loaded i a =
      ap (λ f. f i) (create-leaf k_ways loaded_tree)
      ∙ ground (arith, a, input_all-loaded (l ∷ ls) k_ways 0 i t (omega arith) (omega (arith, a)))
