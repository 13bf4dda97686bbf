-- ===== src/Threads.antt =====
-- A family of threads as a list of their local states: weighted sums over it, and how a step of
-- one thread changes them. The invariants of the thread programs are equations between such sums.
pub mod Machine
pub mod Pair
use mathlib.Core.Path.{ap₂}
use cs_primer.Prelude.{
  ◌∙◌, ℕ, zero, suc, ◌+◌, ◌≤◌, ◌≡◌, refl, List, [], ◌∷◌, Option, none, some, arith, get_elem?, set,
  replicate, ◌*◌, ◌++◌,
}

module _ {ℓ} {A : Type ℓ} where
  unfoldable pub total : (A → ℕ) → List A → ℕ
  total w [] = 0
  total w (t ∷ ts) = w t + total w ts

  pub total-set :
      (w : A → ℕ) (ts : List A) (i : ℕ) (p p' : A)
      → get_elem? ts i ≡ some p
      → total w (set ts i p') + w p ≡ total w ts + w p'
  unfolding total
  total-set w [] i p p' e = ground arith
  total-set w (t ∷ ts) zero p p' e = ground arith
  total-set w (t ∷ ts) (suc i) p p' e = omega (arith, total-set w ts i p p' e)

  pub weight-le-total :
      (w : A → ℕ) (ts : List A) (i : ℕ) (p : A) → get_elem? ts i ≡ some p → w p ≤ total w ts
  unfolding total
  weight-le-total w [] i p e = ground arith
  weight-le-total w (t ∷ ts) zero p e = ground arith
  weight-le-total w (t ∷ ts) (suc i) p e = omega (arith, weight-le-total w ts i p e)

  pub total_mono : (w v : A → ℕ) → ((t : A) → w t ≤ v t) → (ts : List A) → total w ts ≤ total v ts
  unfolding total
  total_mono w v le [] = omega arith
  total_mono w v le (t ∷ ts) = omega (arith, le t, total_mono w v le ts)

  -- The other threads weigh no more by `w` than they do by `v`.
  pub rest-le :
      (w v : A → ℕ)
      → ((t : A) → w t ≤ v t)
      → (ts : List A) (i : ℕ) (p : A) → get_elem? ts i ≡ some p
      → total w ts + v p ≤ total v ts + w p
  unfolding total
  rest-le w v le [] i p e = ground arith
  rest-le w v le (t ∷ ts) zero p e = ground (arith, total_mono w v le ts)
  rest-le w v le (t ∷ ts) (suc i) p e = omega (arith, le t, rest-le w v le ts i p e)

  pub total-add : (w v : A → ℕ) (ts : List A) → total (λ t. w t + v t) ts ≡ total w ts + total v ts
  unfolding total
  total-add w v [] = omega arith
  total-add w v (t ∷ ts) = omega (arith, total-add w v ts)

  pub total-append : (w : A → ℕ) (ts us : List A) → total w (ts ++ us) ≡ total w ts + total w us
  unfolding total
  total-append w [] us = omega arith
  total-append w (t ∷ ts) us = omega (arith, total-append w ts us)

  pub total-replicate : (w : A → ℕ) (n : ℕ) (t : A) → total w (replicate n t) ≡ n * w t
  unfolding total
  total-replicate w zero t = omega arith
  total-replicate w (suc n) t = grind (arith, total-replicate w n t)

-- The facts about a step of the thread `i` from `t` to `t'`, for several weights at once.
module _ {ℓ} {A : Type ℓ} where
  abbrev pub Sums : List (A → ℕ) → List A → ℕ → A → A → Type 0
  Sums [] ts i t t' = Unit
  Sums (w ∷ ws) ts i t t' =
      (total w (set ts i t') + w t ≡ total w ts + w t') × (w t ≤ total w ts) × Sums ws ts i t t'

  pub sums :
      (ws : List (A → ℕ)) (ts : List A) (i : ℕ) (t t' : A)
      → get_elem? ts i ≡ some t
      → Sums ws ts i t t'
  sums [] ts i t t' e = tt
  sums (w ∷ ws) ts i t t' e =
      (total-set w ts i t t' e, weight-le-total w ts i t e, sums ws ts i t t' e)

  -- The weights of `ws` are bounded by `v`, thread by thread.
  abbrev pub Below : (A → ℕ) → List (A → ℕ) → Type ℓ
  Below v [] = Unit
  Below v (w ∷ ws) = ((t : A) → w t ≤ v t) × Below v ws

  abbrev pub Rests : (A → ℕ) → List (A → ℕ) → List A → A → Type 0
  Rests v [] ts t = Unit
  Rests v (w ∷ ws) ts t = (total w ts + v t ≤ total v ts + w t) × Rests v ws ts t

  pub rests :
      (v : A → ℕ) (ws : List (A → ℕ))
      → Below v ws
      → (ts : List A) (i : ℕ) (t : A) → get_elem? ts i ≡ some t
      → Rests v ws ts t
  rests v [] below ts i t e = tt
  rests v (w ∷ ws) below ts i t e = (rest-le w v below.0 ts i t e, rests v ws below.1 ts i t e)

  pub total-start :
      (w : A → ℕ) (n k : ℕ) (t u : A) → total w (replicate n t ++ replicate k u) ≡ n * w t + k * w u
  total-start w n k t u =
      total-append w (replicate n t) _ ∙ ap₂ ◌+◌ (total-replicate w n t) (total-replicate w k u)
