-- ===== src/LoserTree/Values.antt =====
-- Lists of lists: what holds of each value, and what taking the head of one of them leaves.
use mathlib.Core.Logic.Or
use mathlib.Core.List.{
  Mem, Perm, not-mem-nil, perm_middle, flatten, mem-cons_self, mem-cons_of_mem,
  eq-or-mem_of_mem-cons,
}
use mathlib.Core.List.Perm
use native.Mathlib.Bridge.{le_prop}
use mathlib.Core.Path.{subst}
use mathlib.Core.Option.{some-injective}
use cs_primer.Prelude.{
  ℕ, zero, suc, ◌≤◌, ◌≡◌, refl, ap, ◌∙◌, arith, List, [], ◌∷◌, ◌++◌, some, ◌==◌, if◌then◌else◌,
  get_elem?, set, length, length-append,
}

abbrev pub All {ℓ} : {A : Type ℓ} → (A → Type 0) → List A → Type 0
All P [] = Unit
All P (x ∷ xs) = P x × All P xs

abbrev pub IsSorted : List ℕ → Type 0
IsSorted [] = Unit
IsSorted (x ∷ xs) = All (λ y. x ≤ y) xs × IsSorted xs

module _ {ℓ} {A : Type ℓ} (P : A → Type 0) where
  pub All-get_elem? : (xs : List A) (i : ℕ) (a : A) → All P xs → get_elem? xs i ≡ some a → P a
  All-get_elem? [] i a h e = grind (arith, e)
  All-get_elem? (x ∷ xs) zero a (p, h) e = subst P (some-injective x a e) p
  All-get_elem? (x ∷ xs) (suc i) a (p, h) e = All-get_elem? xs i a h e

  pub All-set : (xs : List A) (i : ℕ) (a : A) → All P xs → P a → All P (set xs i a)
  All-set [] i a h q = h
  All-set (x ∷ xs) zero a (p, h) q = (q, h)
  All-set (x ∷ xs) (suc i) a (p, h) q = (p, All-set xs i a h q)

  pub All-append : (xs ys : List A) → All P xs → All P ys → All P (xs ++ ys)
  All-append [] ys h q = q
  All-append (x ∷ xs) ys (p, h) q = (p, All-append xs ys h q)

  pub All-flatten : (ls : List (List A)) → All (All P) ls → All P (flatten ls)
  unfolding flatten
  All-flatten [] h = h
  All-flatten (l ∷ ls) (p, h) = All-append l (flatten ls) p (All-flatten ls h)

  pub All-intro : (xs : List A) → ((i : ℕ) (a : A) → get_elem? xs i ≡ some a → P a) → All P xs
  All-intro [] h = tt
  All-intro (x ∷ xs) h = (h 0 x refl, All-intro xs (λ i. h (suc i)))

All-mem : (v : ℕ) (xs : List ℕ) → All (λ y. v ≤ y) xs → (x : ℕ) → Mem x xs → v ≤ x
All-mem v [] h x m = elim (not-mem-nil m) [ ]
All-mem v (y ∷ ys) (p, h) x m =
    Or.elim le_prop (eq-or-mem_of_mem-cons m) (λ e. omega (arith, p, e)) (All-mem v ys h x)

mem-All : (v : ℕ) (xs : List ℕ) → ((x : ℕ) → Mem x xs → v ≤ x) → All (λ y. v ≤ y) xs
mem-All v [] h = tt
mem-All v (y ∷ ys) h = (h y mem-cons_self, mem-All v ys (λ x m. h x (mem-cons_of_mem y m)))

pub All-perm : (v : ℕ) {xs ys : List ℕ} → Perm xs ys → All (λ y. v ≤ y) ys → All (λ y. v ≤ y) xs
All-perm v {xs} {ys} p h = mem-All v xs (λ x m. All-mem v ys h x ((Perm.mem_iff p).0 m))

module _ {ℓ} {A : Type ℓ} where
  pub get_elem?-set :
      (xs : List A) (i j : ℕ) (a b : A)
      → get_elem? xs i ≡ some a
      → get_elem? (set xs i b) j ≡ (if i == j then some b else get_elem? xs j)
  get_elem?-set [] i j a b e = grind (arith, e)
  get_elem?-set (x ∷ xs) zero zero a b e = refl
  get_elem?-set (x ∷ xs) zero (suc j) a b e = ground arith
  get_elem?-set (x ∷ xs) (suc i) zero a b e = ground arith
  get_elem?-set (x ∷ xs) (suc i) (suc j) a b e = get_elem?-set xs i j a b e ∙ ground arith

  -- The head of one of the lists can be taken first.
  pub flatten-set :
      (ls : List (List A)) (w : ℕ) (v : A) (vs : List A)
      → get_elem? ls w ≡ some (v ∷ vs)
      → Perm (flatten ls) (v ∷ flatten (set ls w vs))
  unfolding flatten
  flatten-set [] w v vs e = grind (arith, e)
  flatten-set (l ∷ ls) zero v vs e = rw (some-injective l (v ∷ vs) e) Perm.rfl
  flatten-set (l ∷ ls) (suc w) v vs e =
      Perm.trans (Perm.append_left l (flatten-set ls w v vs e))
        (perm_middle l (flatten (set ls w vs)))

  pub length-flatten-set :
      (ls : List (List A)) (w : ℕ) (v : A) (vs : List A)
      → get_elem? ls w ≡ some (v ∷ vs)
      → length (flatten ls) ≡ suc (length (flatten (set ls w vs)))
  unfolding flatten
  length-flatten-set [] w v vs e = grind (arith, e)
  length-flatten-set (l ∷ ls) zero v vs e = omega (
    arith,
    ap length (some-injective l (v ∷ vs) e),
    length-append l (flatten ls),
    length-append vs (flatten ls),
  )
  length-flatten-set (l ∷ ls) (suc w) v vs e = omega (
    arith,
    length-append l (flatten ls),
    length-append l (flatten (set ls w vs)),
    length-flatten-set ls w v vs e,
  )

pub flatten_none : (ls : List (List ℕ)) → All (λ l. l ≡ []) ls → flatten ls ≡ []
unfolding flatten
flatten_none [] h = refl
flatten_none (l ∷ ls) (p, h) = rw (p, flatten_none ls h) refl
