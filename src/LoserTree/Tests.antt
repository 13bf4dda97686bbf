-- ===== src/LoserTree/Tests.antt =====
-- Runs of `mergeKLists`. The number `int n` stands for the int `n`.
use mathlib.Core.List.{flatten}
use cs_primer.Prelude.{ℕ, ◌+◌, ◌^◌, ◌≡◌, refl, arith, List, [], ◌∷◌, some, none}
use cs_primer.LoserTree.{
  LoserTree, int_min, int_max, adjust_loop, adjust, adjust_all, create_loser_tree, input, input_all,
  merge_loop, merge_k_lists,
}
use cs_primer.LoserTree.Merge.{Merged, merge_k_lists-Merged}

abbrev int : ℕ → ℕ
int n = 2 ^ 31 + n

abbrev fresh : LoserTree
fresh = record { loser = λ _. 0; leaf = λ _. 0 }

abbrev three_lists : List (List ℕ)
three_lists =
    (int 1 ∷ int 4 ∷ int 5 ∷ []) ∷ (int 1 ∷ int 3 ∷ int 4 ∷ []) ∷ (int 2 ∷ int 6 ∷ []) ∷ []

three_lists_merged :
    merge_k_lists fresh three_lists
    ≡ some (int 1 ∷ int 1 ∷ int 2 ∷ int 3 ∷ int 4 ∷ int 4 ∷ int 5 ∷ int 6 ∷ [])
unfolding merge_k_lists merge_loop flatten create_loser_tree adjust_all adjust adjust_loop input_all
    input
three_lists_merged = refl

-- The largest int is taken for the end of its list.
int_max_lost :
    merge_k_lists fresh ((int 5 ∷ int_max ∷ []) ∷ (int 6 ∷ []) ∷ []) ≡ some (int 5 ∷ int 6 ∷ [])
unfolding merge_k_lists merge_loop flatten create_loser_tree adjust_all adjust adjust_loop input_all
    input
int_max_lost = refl

-- Beside the smallest int the sentinel wins, whose index no list has.
int_min_fails : merge_k_lists fresh ((int 5 ∷ []) ∷ (int_min ∷ []) ∷ []) ≡ none
unfolding merge_k_lists merge_loop flatten create_loser_tree adjust_all adjust adjust_loop input_all
    input
int_min_fails = refl

merge_k_lists-Merged_example : Merged three_lists (merge_k_lists fresh three_lists)
merge_k_lists-Merged_example = merge_k_lists-Merged fresh three_lists (omega arith)
