-- ===== src/LoserTree.antt =====
-- ds/loser-tree/loser-tree.hpp: k linked lists merged by a tree of losers. An `int` is given by its
-- distance from INT_MIN, a list of nodes by its values.
pub mod Paths
pub mod Tree
pub mod Adjust
pub mod Reopen
pub mod Values
pub mod Create
pub mod Winner
pub mod Leaves
pub mod Merge
mod Tests
use mathlib.Core.List.{flatten}
use cs_primer.Prelude.{
  ℕ, zero, suc, ◌+◌, ◌-◌, ◌/◌, ◌^◌, List, [], ◌∷◌, Option, none, some, ltb, ◌==◌, if◌then◌else◌,
  update, get_elem?, set, length,
}

abbrev pub int_min : ℕ
int_min = 0

abbrev pub int_max : ℕ
int_max = 2 ^ 32 - 1

pub record LoserTree : Type 0 where
  pub loser : ℕ → ℕ
  pub leaf : ℕ → ℕ

-- The loop of `Adjust` at the node `p`, with a round to go for each node up to `p`: at 0 it ends.
unfoldable pub adjust_loop : ℕ → LoserTree → ℕ → ℕ → LoserTree
adjust_loop zero t s p = record t { loser = update t.loser 0 s }
adjust_loop (suc n) t s p =
    let q = t.loser p in
    let swaps = ltb (t.leaf q) (t.leaf s) in
    let t' = if swaps then record t { loser = update t.loser p s } else t in
    let rest = adjust_loop n t' (if swaps then q else s) (p / 2) in
    if p == 0 then record t { loser = update t.loser 0 s } else rest

unfoldable pub adjust : ℕ → ℕ → LoserTree → LoserTree
adjust k_ways s t = adjust_loop (s + k_ways) t s ((s + k_ways) / 2)

-- `for (int i = kWays - 1; i >= 0; --i) Adjust(i);`, with `n` rounds to go.
unfoldable pub adjust_all : ℕ → ℕ → LoserTree → LoserTree
adjust_all k_ways zero t = t
adjust_all k_ways (suc i) t = adjust_all k_ways i (adjust k_ways i t)

unfoldable pub create_loser_tree : ℕ → LoserTree → LoserTree
create_loser_tree k_ways t = adjust_all k_ways k_ways (record t {
  leaf = update t.leaf k_ways int_min;
  loser = λ i. if ltb i k_ways then k_ways else t.loser i;
})

abbrev pub head_or_max : Option (List ℕ) → ℕ
head_or_max (some (v ∷ vs)) = v
head_or_max _ = int_max

unfoldable pub input : List (List ℕ) → ℕ → LoserTree → LoserTree
input lists i t = record t { leaf = update t.leaf i (head_or_max (get_elem? lists i)) }

-- `for (int i = 0; i < kWays; ++i) input(lists, i);`, with `n` rounds to go.
unfoldable pub input_all : List (List ℕ) → ℕ → ℕ → LoserTree → LoserTree
input_all lists zero i t = t
input_all lists (suc n) i t = input_all lists n (i + 1) (input lists i t)

-- What `output` takes off: there is no node to take from a list that is empty or not there.
abbrev pub first_node : Option (List ℕ) → Option (ℕ × List ℕ)
first_node (some (v ∷ vs)) = some (v, vs)
first_node _ = none

abbrev pub append_node : ℕ → Option (List ℕ) → Option (List ℕ)
append_node v none = none
append_node v (some out) = some (v ∷ out)

-- The loop of `mergeKLists`. `rest` are the nodes behind the tail of the result, which are still
-- those of the list that it comes from; the result is `none` where a null pointer is followed, or
-- the fuel is used up.
unfoldable pub merge_loop : ℕ → List (List ℕ) → LoserTree → List ℕ → Option (List ℕ)
merge_loop zero lists t rest = none
merge_loop (suc n) lists t rest =
    let w = t.loser 0 in
    if t.leaf w == int_max then some rest else elim (first_node (get_elem? lists w)) [
      | none ↦ none
      | some (v, vs) ↦
          let lists' = set lists w vs in
          append_node v (merge_loop n lists' (adjust (length lists) w (input lists' w t)) vs)
    ]

-- `t` is the object as the calls before have left it.
unfoldable pub merge_k_lists : LoserTree → List (List ℕ) → Option (List ℕ)
merge_k_lists t [] = some []
merge_k_lists t (l ∷ ls) =
    let lists = l ∷ ls in
    let k_ways = length lists in
    merge_loop (length (flatten lists) + 1) lists
      (create_loser_tree k_ways (input_all lists k_ways 0 t)) []
