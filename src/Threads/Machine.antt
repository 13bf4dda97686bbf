-- ===== src/Threads/Machine.antt =====
-- Threads over one shared memory, interleaved in any order. A schedule is the list of the threads
-- that the system picks in turn; a thread that is blocked or has returned lets its turn pass.
use cs_primer.Prelude.{
  ℕ, suc, refl, ◌⊎◌, ◌≡◌, List, [], ◌∷◌, Option, none, some, get_elem?, set, Option-cases, inl, inr,
}

pub record System (M T : Type 0) : Type 0 where
  pub mem : M
  pub threads : List T

module _ {M T : Type 0} (move : M → T → Option (M × T)) where
  -- The turn of the thread `i` whose local state is `t`.
  unfoldable pub turn : System M T → ℕ → T → System M T
  turn s i t = elim (move s.mem t) [
    | none ↦ s
    | some (m, t') ↦ record { mem = m; threads = set s.threads i t' }
  ]

  unfoldable pub step : System M T → ℕ → System M T
  unfolding turn
  step s i = elim (get_elem? s.threads i) [ none ↦ s | some t ↦ turn s i t ]

  unfoldable pub run : System M T → List ℕ → System M T
  unfolding step
  run s [] = s
  run s (i ∷ is) = run (step s i) is

  -- Some thread can move.
  abbrev pub CanMove : System M T → Type 0
  CanMove s =
      (i : ℕ) × (t : T) × (next : M × T) × (get_elem? s.threads i ≡ some t)
      × (move s.mem t ≡ some next)

  abbrev pub Blocked : M → List T → Type 0
  Blocked m [] = Unit
  Blocked m (t ∷ ts) = (move m t ≡ none) × Blocked m ts

  -- Either some thread of the list moves or all are blocked.
  pub move_or_Blocked :
      (m : M) (ts : List T) → CanMove (record { mem = m; threads = ts }) ⊎ Blocked m ts
  move_or_Blocked m [] = inr tt
  move_or_Blocked m (t ∷ ts) = elim (Option-cases (move m t)) [
    | inr (n, moves) ↦ inl (0, t, n, refl, moves)
    | inl stuck ↦ elim (move_or_Blocked m ts) [
      | inl (i, u, n, e, moves) ↦ inl (suc i, u, n, e, moves)
      | inr rest ↦ inr (stuck, rest)
    ]
  ]

  -- A schedule that picks only threads that can move.
  abbrev pub Effective : System M T → List ℕ → Type 0
  Effective s [] = Unit
  Effective s (i ∷ is) =
      ((t : T) × (next : M × T) × (get_elem? s.threads i ≡ some t) × (move s.mem t ≡ some next))
      × Effective (step s i) is

  pub step_effective :
      (s : System M T) (i : ℕ) (t : T) (next : M × T)
      → get_elem? s.threads i ≡ some t
      → move s.mem t ≡ some next
      → step s i ≡ record { mem = next.0; threads = set s.threads i next.1 }
  unfolding step
  step_effective s i t (m, t') e moves = rw (e, step) (rw (moves, turn))

  -- A property that every move keeps holds after every schedule.
  module _ {κ} (P : System M T → Type κ)
      (keep : (s : System M T) (i : ℕ) (t : T) (m : M) (t' : T)
        → get_elem? s.threads i ≡ some t
        → move s.mem t ≡ some (m, t')
        → P s
        → P (record { mem = m; threads = set s.threads i t' })) where
    turn_inv :
        (s : System M T) (i : ℕ) (t : T) → get_elem? s.threads i ≡ some t → P s → P (turn s i t)
    unfolding turn
    turn_inv s i t e h = elim (Option-cases (move s.mem t)) [
      | inl stuck ↦ rw (stuck, turn) h
      | inr (mt, moved) ↦ rw (moved, turn) (keep s i t mt.0 mt.1 e moved h)
    ]

    step_inv : (s : System M T) (i : ℕ) → P s → P (step s i)
    unfolding step
    step_inv s i h = elim (Option-cases (get_elem? s.threads i)) [
      | inl out ↦ rw (out, step) h
      | inr (t, e) ↦ rw (e, step) (turn_inv s i t e h)
    ]

    pub run_inv : (s : System M T) (sched : List ℕ) → P s → P (run s sched)
    unfolding run
    run_inv s [] h = h
    run_inv s (i ∷ is) h = run_inv (step s i) is (step_inv s i h)
