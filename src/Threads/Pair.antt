-- ===== src/Threads/Pair.antt =====
-- Systems of two threads: a property of the memory and the two local states that each step of
-- either thread keeps.
use cs_primer.Prelude.{
  arith, ℕ, zero, suc, ◌≡◌, refl, sym, ap, ◌∙◌, List, [], ◌∷◌, Option, some, get_elem?, set,
}
use cs_primer.Threads.Machine.{System, run, run_inv, Blocked}

pub Blocked-of :
    {M T : Type 0} (move : M → T → Option (M × T)) (m : M) (ts us : List T)
    → ts ≡ us
    → Blocked move m ts
    → Blocked move m us
Blocked-of move m ts us e b = rw (sym e) b

module _ {M T : Type 0} (move : M → T → Option (M × T)) (P : M → T → T → Type 0) where
  -- The system has two threads, and `P` holds of it.
  abbrev pub Pair : System M T → Type 0
  Pair s = (t : T) × (u : T) × (s.threads ≡ t ∷ u ∷ []) × P s.mem t u

  module _
      (left : (m : M) (t u : T) (m' : M) (t' : T) → move m t ≡ some (m', t') → P m t u → P m' t' u)
      (right : (m : M) (t u : T) (m' : M) (u' : T)
        → move m u ≡ some (m', u')
        → P m t u
        → P m' t u') where
    keep-Pair :
        (s : System M T) (i : ℕ) (t : T) (m : M) (t' : T)
        → get_elem? s.threads i ≡ some t
        → move s.mem t ≡ some (m, t')
        → Pair s
        → Pair (record { mem = m; threads = set s.threads i t' })
    keep-Pair s i t m t' e moves (u, v, f, p) = at_index i (sym (ap (λ ts. get_elem? ts i) f) ∙ e)
      where
        at_index :
            (i : ℕ)
            → get_elem? (u ∷ v ∷ []) i ≡ some t
            → Pair (record { mem = m; threads = set s.threads i t' })
        at_index zero g =
            let here : u ≡ t = ground (arith, g) in
            (t', v, ap (λ ts. set ts 0 t') f, left s.mem u v m t' (rw here moves) p)
        at_index (suc zero) g =
            let here : v ≡ t = ground (arith, g) in
            (u, t', ap (λ ts. set ts 1 t') f, right s.mem u v m t' (rw here moves) p)
        at_index (suc (suc k)) g = ground (arith, g)

    -- The property holds after every schedule.
    pub run-Pair :
        (m : M) (t u : T) (sched : List ℕ)
        → P m t u
        → Pair (run move (record { mem = m; threads = t ∷ u ∷ [] }) sched)
    run-Pair m t u sched p =
        run_inv move Pair keep-Pair (record { mem = m; threads = t ∷ u ∷ [] }) sched (t, u, refl, p)
