-- ===== src/LoserTree/Paths.antt =====
-- The paths from the leaves of a tree to its root, which is the node 1: above the node `c` stands
-- `c / 2`.
use mathlib.Core.Path.{subst}
use cs_primer.Prelude.{
  ℕ, zero, suc, ◌+◌, ◌-◌, ◌/◌, ◌%◌, ◌<◌, ◌≤◌, ◌≡◌, ◌⊎◌, inl, inr, refl, ap, sym, ◌∙◌, arith, ltb,
  ◌==◌, if◌then◌else◌, Bool-cases,
}

-- The node `j` levels above `c`.
unfoldable pub ancestor : ℕ → ℕ → ℕ
ancestor zero c = c
ancestor (suc j) c = ancestor j (c / 2)

pub ancestor-le : (j c : ℕ) → ancestor j c ≤ c
unfolding ancestor
ancestor-le zero c = omega arith
ancestor-le (suc j) c = omega (arith, ancestor-le j (c / 2))

pub ancestor_none : (j : ℕ) → ancestor j 0 ≡ 0
ancestor_none j = omega (arith, ancestor-le j 0)

pub ancestor_up : (j c : ℕ) → ancestor (suc j) c ≡ ancestor j c / 2
unfolding ancestor
ancestor_up zero c = refl
ancestor_up (suc j) c = ancestor_up j (c / 2)

abbrev pub OnPath : ℕ → ℕ → Type 0
OnPath c d = (j : ℕ) × (ancestor j c ≡ d)

pub path_start : {c d : ℕ} → c ≡ d → OnPath c d
unfolding ancestor
path_start e = (0, e)

pub path_longer : (c : ℕ) {d : ℕ} → OnPath (c / 2) d → OnPath c d
unfolding ancestor
path_longer c (j, e) = (suc j, e)

pub path-le : {c d : ℕ} → OnPath c d → d ≤ c
path-le {c} (j, e) = omega (arith, ancestor-le j c, e)

pub path_none : {d : ℕ} → OnPath 0 d → d ≡ 0
path_none (j, e) = omega (arith, ancestor_none j, e)

pub path-cases : {c d : ℕ} → OnPath c d → (d ≡ c) ⊎ OnPath (c / 2) d
unfolding ancestor
path-cases (zero, e) = inl (sym e)
path-cases (suc j, e) = inr (j, e)

abbrev pub sibling : ℕ → ℕ
sibling d = if d % 2 == 0 then d + 1 else d - 1

pub path_half : (c : ℕ) {d : ℕ} → OnPath c d → OnPath c (d / 2)
path_half c (j, e) = (suc j, ancestor_up j c ∙ ap (λ (x : ℕ). x / 2) e)

-- A path reaches the root.
path_far : (n c : ℕ) → c ≤ n → 0 < c → OnPath c 1
path_far zero c a b = path_start (omega (arith, a, b))
path_far (suc n) c a b = elim (Bool-cases (c == 1)) [
  | inl e ↦ path_start (ground arith)
  | inr e ↦ path_longer c (path_far n (c / 2) (omega arith) (ground arith))
]

pub path_root : (c : ℕ) → 0 < c → OnPath c 1
path_root c a = path_far c c (omega arith) a

-- Of two nodes of a path one is above the other.
path_order : (i j c d e : ℕ) → ancestor i c ≡ d → ancestor j c ≡ e → OnPath d e ⊎ OnPath e d
unfolding ancestor
path_order zero j c d e x y = inl (j, sym (ap (ancestor j) x) ∙ y)
path_order (suc i) zero c d e x y = inr (suc i, sym (ap (ancestor (suc i)) y) ∙ x)
path_order (suc i) (suc j) c d e x y = path_order i j (c / 2) d e x y

above-sibling : {d : ℕ} → 1 < d → OnPath d (sibling d) → ◌≡◌ {A = ℕ} 0 1
above-sibling {d} a on = elim (path-cases on) [
  | inl e ↦ ground (arith, e, a)
  | inr on' ↦ ground (arith, path-le on', a)
]

pub path-siblings : (c d : ℕ) → 1 < d → OnPath c d → OnPath c (sibling d) → ◌≡◌ {A = ℕ} 0 1
path-siblings c d a (i, e) (j, f) = elim (path_order i j c d (sibling d) e f) [
  | inl on ↦ above-sibling a on
  | inr on ↦
      let back : sibling (sibling d) ≡ d = ground (arith, a) in
      above-sibling (ground (arith, a)) (subst (OnPath (sibling d)) (sym back) on)
]

module _ {ℓ} (P : ℕ → Type ℓ) (c : ℕ) where
  climb :
      P c
      → ((d : ℕ) → OnPath c d → 1 < d → P d → P (d / 2))
      → (j : ℕ) → 0 < ancestor j c
      → P (ancestor j c)
  unfolding ancestor
  climb start up zero a = start
  climb start up (suc j) a =
      let on =
        up (ancestor j c) (j, refl) (omega (arith, ancestor_up j c, a))
          (climb start up j (omega (arith, ancestor_up j c, a))) in
      subst P (sym (ancestor_up j c)) on

  -- What holds of a leaf, and goes up, holds of each node of its path.
  pub path_up :
      P c → ((d : ℕ) → OnPath c d → 1 < d → P d → P (d / 2)) → (d : ℕ) → OnPath c d → 0 < d → P d
  path_up start up d (j, e) a = subst P e (climb start up j (omega (arith, e, a)))

  sink :
      ((d : ℕ) → OnPath c d → 1 < d → P (d / 2) → P d)
      → (m j : ℕ) → j ≤ m
      → 0 < ancestor m c
      → P (ancestor m c)
      → P (ancestor j c)
  sink down zero j b a x = subst (λ i. P (ancestor i c)) (omega (arith, b)) x
  sink down (suc m) j b a x = elim (Bool-cases (j == suc m)) [
    | inl e ↦ let same : suc m ≡ j = ground arith in subst (λ i. P (ancestor i c)) same x
    | inr e ↦ sink down m j (ground arith) (omega (arith, ancestor_up m c, a)) (
        down (ancestor m c) (m, refl) (omega (arith, ancestor_up m c, a))
          (subst P (ancestor_up m c) x))
  ]

  beyond_root : (i j : ℕ) → ancestor i c ≡ 1 → i < j → ancestor j c ≡ 0
  beyond_root i zero e a = omega (arith, a)
  beyond_root i (suc j) e a = elim (Bool-cases (i == j)) [
    | inl x ↦
        let same : i ≡ j = ground arith in
        omega (arith, ancestor_up j c, e, ap (λ m. ancestor m c) same)
    | inr x ↦ omega (arith, ancestor_up j c, beyond_root i j e (ground arith))
  ]

  -- What holds of the root, and goes down along a path, holds of each node of it.
  pub path_down :
      OnPath c 1
      → P 1
      → ((d : ℕ) → OnPath c d → 1 < d → P (d / 2) → P d)
      → (d : ℕ) → OnPath c d
      → 0 < d
      → P d
  path_down (i, top) start down d (j, e) a = elim (Bool-cases (ltb i j)) [
    | inl x ↦ subst P (omega (arith, beyond_root i j top (ground arith), e, a)) start
    | inr x ↦
        subst P e (sink down i j (ground arith) (omega (arith, top)) (subst P (sym top) start))
  ]
