-- ===== src/LoserTree/Merge.antt =====
-- The loop of `mergeKLists`, and its result.
use mathlib.Core.List.{Perm, flatten}
use mathlib.Core.List.Perm
use mathlib.Core.Path.{subst}
use cs_primer.Prelude.{
  ℕ, zero, suc, ◌<◌, ◌≤◌, ◌≡◌, ◌≢◌, ◌⊎◌, inl, inr, refl, ap, sym, ◌∙◌, arith, List, [], ◌∷◌, Option,
  some, ◌==◌, Bool-cases, get_elem?, set, length, length-set,
}
use cs_primer.LoserTree.Leaves.{
  IsValue, Loaded, elem-length, get_elem-some, above_min, loaded_tree, created-Loaded,
}
use cs_primer.LoserTree.{
  LoserTree, int_max, head_or_max, append_node, adjust, input, merge_loop, merge_k_lists,
}
use cs_primer.LoserTree.Tree.{Full}
use cs_primer.LoserTree.Adjust.{adjust-leaf}
use cs_primer.LoserTree.Create.{create-Full}
use cs_primer.LoserTree.Winner.{winner_inside, winner_least, adjust_winner-Full}
use cs_primer.LoserTree.Values.{
  All, IsSorted, All-get_elem?, All-set, All-flatten, All-intro, All-perm, get_elem?-set,
  flatten-set, length-flatten-set, flatten_none,
}

pub record Merged (lists : List (List ℕ)) (result : Option (List ℕ)) : Type 0 where
  pub merged : List ℕ
  pub returned : result ≡ some merged
  pub permuted : Perm merged (flatten lists)
  pub sorted : All IsSorted lists → IsSorted merged

-- What is behind the tail is what is left of one of the lists, or nothing.
abbrev Rest : List (List ℕ) → List ℕ → Type 0
Rest lists rest = (rest ≡ []) ⊎ ((i : ℕ) × (get_elem? lists i ≡ some rest))

-- Only an empty list has the largest int for its head.
ended-nil : (l : List ℕ) → All IsValue l → int_max ≤ head_or_max (some l) → l ≡ []
ended-nil [] h a = refl
ended-nil (v ∷ vs) ((_, b), _) a = grind (arith, a, b)

head-le : (v : ℕ) (l : List ℕ) → IsSorted l → v ≤ head_or_max (some l) → All (λ y. v ≤ y) l
head-le v [] h a = tt
head-le v (x ∷ xs) (b, _) a = (a, raised xs b)
  where
    raised : (ys : List ℕ) → All (λ y. x ≤ y) ys → All (λ y. v ≤ y) ys
    raised [] c = tt
    raised (y ∷ ys) (c, d) = (omega (arith, a, c), raised ys d)

module _ (lists : List (List ℕ)) {t : LoserTree} {win : ℕ → ℕ} (h : Full (length lists) 0 t win)
    (some_list : 0 < length lists) (loaded : Loaded lists t) where
  least_head :
      (i : ℕ) (l : List ℕ) → get_elem? lists i ≡ some l → t.leaf (t.loser 0) ≤ head_or_max (some l)
  least_head i l e =
      let a = elem-length lists i l e in
      omega (arith, winner_least h some_list i a, loaded i a, ap head_or_max e)

  lists_ended : All (All IsValue) lists → t.leaf (t.loser 0) ≡ int_max → All (λ l. l ≡ []) lists
  lists_ended values e = All-intro _ lists (λ i l f.
      ended-nil l (All-get_elem? _ lists i l values f) (omega (arith, least_head i l f, e)))

  ended-Merged :
      (rest : List ℕ)
      → All (All IsValue) lists
      → Rest lists rest
      → t.leaf (t.loser 0) ≡ int_max
      → Merged lists (some rest)
  ended-Merged rest values from e =
      let none_left = lists_ended values e in
      let empty : rest ≡ [] = elim from [
        | inl f ↦ f
        | inr (i, f) ↦ All-get_elem? _ lists i rest none_left f
      ] in
      record {
        merged = rest;
        returned = refl;
        permuted = rw (empty, flatten_none lists none_left) Perm.rfl;
        sorted = λ _. subst IsSorted (sym empty) tt;
      }

  -- The list of the winner has a head, which is the value of its leaf.
  winner_head :
      t.leaf (t.loser 0) ≢ int_max
      → (v : ℕ) × (vs : List ℕ) × (get_elem? lists (t.loser 0) ≡ some (v ∷ vs))
  winner_head a =
      let inside = winner_inside h some_list in
      let (l, e) = get_elem-some lists (t.loser 0) inside in head_of l e (loaded (t.loser 0) inside)
    where
      head_of :
          (l : List ℕ)
          → get_elem? lists (t.loser 0) ≡ some l
          → t.leaf (t.loser 0) ≡ head_or_max (get_elem? lists (t.loser 0))
          → (v : ℕ) × (vs : List ℕ) × (get_elem? lists (t.loser 0) ≡ some (v ∷ vs))
      head_of [] e f = elim (a (f ∙ ap head_or_max e)) [ ]
      head_of (v ∷ vs) e f = (v, vs, e)

  module _ (v : ℕ) (vs : List ℕ) (e : get_elem? lists (t.loser 0) ≡ some (v ∷ vs)) where
    abbrev lists' : List (List ℕ)
    lists' = set lists (t.loser 0) vs

    -- What is taken off is not above anything that is left.
    least_value : All IsSorted lists → All (λ y. v ≤ y) (flatten lists')
    least_value s =
        let at_head : t.leaf (t.loser 0) ≡ v =
          loaded (t.loser 0) (winner_inside h some_list) ∙ ap head_or_max e in
        let (behind, _) = All-get_elem? IsSorted lists (t.loser 0) (v ∷ vs) s e in
        All-flatten (λ y. v ≤ y) lists'
          (All-set _ lists (t.loser 0) vs
            (All-intro _ lists (λ i l f.
              head-le v l (All-get_elem? IsSorted lists i l s f)
                (omega (arith, least_head i l f, at_head))))
            behind)

    taken-IsSorted : All IsSorted lists → All IsSorted lists'
    taken-IsSorted s =
        let (_, q) = All-get_elem? IsSorted lists (t.loser 0) (v ∷ vs) s e in
        All-set IsSorted lists (t.loser 0) vs s q

    step-Merged : {o : Option (List ℕ)} → Merged lists' o → Merged lists (append_node v o)
    step-Merged m = record {
      merged = v ∷ m.merged;
      returned = ap (append_node v) m.returned;
      permuted =
          Perm.trans (Perm.cons v m.permuted) (Perm.symm (flatten-set lists (t.loser 0) v vs e));
      sorted = λ s. (All-perm v m.permuted (least_value s), m.sorted (taken-IsSorted s));
    }

    abbrev next : LoserTree
    next = adjust (length lists) (t.loser 0) (input lists' (t.loser 0) t)

    next-Loaded : Loaded lists' next
    unfolding input
    next-Loaded i a =
        let same =
          ap (λ f. f i) (adjust-leaf (length lists) (t.loser 0) (input lists' (t.loser 0) t)) in
        let a' : i < length lists = omega (arith, a, length-set lists (t.loser 0) vs) in
        elim (Bool-cases (t.loser 0 == i)) [
          | inl f ↦
              let won : t.loser 0 ≡ i = ground arith in
              same ∙ rw f (ap (λ j. head_or_max (get_elem? lists' j)) won)
          | inr f ↦
              let kept = get_elem?-set lists (t.loser 0) i (v ∷ vs) vs e in
              same ∙ rw f (loaded i a' ∙ sym (ap head_or_max (rw f at kept)))
        ]

    next-Full : (win' : ℕ → ℕ) × Full (length lists') 0 next win'
    unfolding input
    next-Full =
        let (win', full) =
          adjust_winner-Full h some_list (input lists' (t.loser 0) t) refl
            (λ i a. ground (arith, a)) in
        (win', subst (λ k. Full k 0 next win') (sym (length-set lists (t.loser 0) vs)) full)

    next-Rest : Rest lists' vs
    next-Rest =
        inr (t.loser 0, get_elem?-set lists (t.loser 0) (t.loser 0) (v ∷ vs) vs e ∙ ground arith)

    next-values : All (All IsValue) lists → All (All IsValue) lists'
    next-values values =
        let (_, q) = All-get_elem? (All IsValue) lists (t.loser 0) (v ∷ vs) values e in
        All-set (All IsValue) lists (t.loser 0) vs values q

merge_loop-Merged :
    (n : ℕ) (lists : List (List ℕ)) (t : LoserTree) (win : ℕ → ℕ) (rest : List ℕ)
    → length (flatten lists) < n
    → Full (length lists) 0 t win
    → 0 < length lists
    → Loaded lists t
    → All (All IsValue) lists
    → Rest lists rest
    → Merged lists (merge_loop n lists t rest)
unfolding merge_loop
merge_loop-Merged zero lists t win rest a h some_list loaded values from =
    let none_left : ⊥ = omega (arith, a) in elim none_left [ ]
merge_loop-Merged (suc n) lists t win rest a h some_list loaded values from =
    elim (Bool-cases (t.leaf (t.loser 0) == int_max)) [
      | inl x ↦ rw x (ended-Merged lists h some_list loaded rest values from (ground arith))
      | inr x ↦
          let (v, vs, e) = winner_head lists h some_list loaded (ground arith) in
          let (win', full) = next-Full lists h some_list loaded v vs e in
          let lists' = set lists (t.loser 0) vs in
          rw (x, e)
            (step-Merged lists h some_list loaded v vs e (
              merge_loop-Merged n lists' _ win' vs
                (omega (arith, a, length-flatten-set lists (t.loser 0) v vs e)) full
                (omega (arith, some_list, length-set lists (t.loser 0) vs))
                (next-Loaded lists h some_list loaded v vs e)
                (next-values lists h some_list loaded v vs e values)
                (next-Rest lists h some_list loaded v vs e)))
    ]

-- `mergeKLists` returns for any lists whose values are strictly between INT_MIN and INT_MAX, and
-- whatever the object has been used for before: the result has the values of all lists, each as
-- often as they have it together, and is in order if each list is.
pub merge_k_lists-Merged :
    (t : LoserTree) (lists : List (List ℕ))
    → All (All IsValue) lists
    → Merged lists (merge_k_lists t lists)
unfolding merge_k_lists flatten
merge_k_lists-Merged t [] values = record {
  merged = [];
  returned = refl;
  permuted = Perm.rfl;
  sorted = λ _. tt;
}
merge_k_lists-Merged t (l ∷ ls) values =
    let (win, full) =
      create-Full (length (l ∷ ls)) (loaded_tree t l ls values) (omega arith)
        (above_min t l ls values) in
    merge_loop-Merged _ (l ∷ ls) _ win [] (omega arith) full (omega arith)
      (created-Loaded t l ls values) values (inl refl)
