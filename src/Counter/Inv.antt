-- ===== src/Counter/Inv.antt =====
-- The invariant of the counter, as long as it stays an `int`, and that each step keeps it.
use cs_primer.Prelude.{
  sum, ℕ, zero, suc, ◌+◌, ◌^◌, ◌≤◌, ◌<◌, ◌≡◌, List, [], ◌∷◌, some, arith, set, refl, length, ◌==◌,
  if◌then◌else◌,
}
use cs_primer.Threads.{total, Sums, sums, Rests, rests, Below}
use cs_primer.Threads.Machine.{run, run_inv}
use cs_primer.Counter.{
  Shared, Process, test, wait_mutex, load, post, store, print, returned, move, init, processes,
}

abbrev pub critical : Process → ℕ
critical (load _) = 1
critical (store _ _) = 1
critical (print _ _) = 1
critical (post _) = 1
critical _ = 0

-- The increments that a process has still to make.
abbrev pub left : Process → ℕ
left (test n) = n
left (wait_mutex n) = suc n
left (load n) = suc n
left (store _ n) = suc n
left (print _ n) = n
left (post n) = n
left returned = 0

abbrev pub printing : Process → ℕ
printing (print _ _) = 1
printing _ = 0

-- A process that is about to store after a load of something else than the counter holds.
abbrev stale : ℕ → Process → ℕ
stale c (store v _) = if v == c then 0 else 1
stale c _ = 0

-- A process that is about to print something else than the number due.
abbrev misprint : ℕ → Process → ℕ
misprint c (print v _) = if v == c then 0 else 1
misprint c _ = 0

abbrev pub running : Process → ℕ
running returned = 0
running _ = 1

-- The numbers from `c0`, `n` of them, the last first.
unfoldable pub countdown : ℕ → ℕ → List ℕ
countdown c0 zero = []
countdown c0 (suc n) = (c0 + n) ∷ countdown c0 n

pub record Inv (c0 loops : ℕ) (m : Shared) (ts : List Process) : Type 0 where
  pub fits : c0 + loops < 2 ^ 31
  pub exclusive : m.mutex + total critical ts ≡ 1
  pub current : total (stale m.count) ts ≡ 0
  pub due : total (misprint (c0 + length m.printed)) ts ≡ 0
  pub lines_count : c0 + length m.printed + total printing ts ≡ m.count
  pub rounds : total left ts + m.count ≡ c0 + loops
  pub lines : m.printed ≡ countdown c0 (length m.printed)

abbrev weights : ℕ → ℕ → List (Process → ℕ)
weights c n = critical ∷ printing ∷ left ∷ stale c ∷ misprint n ∷ []

abbrev small : ℕ → ℕ → List (Process → ℕ)
small c n = printing ∷ stale c ∷ misprint n ∷ []

pub printing-le : (t : Process) → printing t ≤ critical t
printing-le (print v n) = omega arith
printing-le t = omega arith

stale-le : (c : ℕ) (t : Process) → stale c t ≤ critical t
stale-le c (store v n) = ground arith
stale-le c t = omega arith

misprint-le : (c : ℕ) (t : Process) → misprint c t ≤ critical t
misprint-le c (print v n) = ground arith
misprint-le c t = omega arith

small-Below : (c n : ℕ) → Below critical (small c n)
small-Below c n = (printing-le, (stale-le c, (misprint-le n, tt)))

step-Inv :
    {c0 loops : ℕ} {m : Shared} {ts : List Process} (inv : Inv c0 loops m ts) (i : ℕ) (t : Process)
    (m' : Shared) (t' : Process)
    → Sums (weights m.count (c0 + length m.printed)) ts i t t'
    → Sums (weights m'.count (c0 + length m'.printed)) ts i t t'
    → Rests critical (small m'.count (c0 + length m'.printed)) ts t
    → move m t ≡ some (m', t')
    → Inv c0 loops m' (set ts i t')
unfolding move countdown
step-Inv inv i (test zero) m' t' f f' g e = ground arith
step-Inv inv i (print v n) m' t' f f' g e = ground arith
step-Inv inv i t m' t' f f' g e = ground arith

total_tests :
    (w : Process → ℕ) → ((n : ℕ) → w (test n) ≡ 0) → (ns : List ℕ) → total w (processes ns) ≡ 0
unfolding total
total_tests w zero_at [] = refl
total_tests w zero_at (n ∷ ns) = omega (arith, zero_at n, total_tests w zero_at ns)

total_left : (ns : List ℕ) → total left (processes ns) ≡ sum ns
unfolding total sum
total_left [] = refl
total_left (n ∷ ns) = omega (arith, total_left ns)

Inv-init :
    (c0 : ℕ) (nloops : List ℕ)
    → c0 + sum nloops < 2 ^ 31
    → Inv c0 (sum nloops) (init c0 nloops).mem (init c0 nloops).threads
unfolding countdown
Inv-init c0 nloops fits = record {
  fits = fits;
  exclusive = omega (arith, total_tests critical (λ n. refl) nloops);
  current = total_tests (stale c0) (λ n. refl) nloops;
  due = total_tests (misprint (c0 + 0)) (λ n. refl) nloops;
  lines_count = omega (arith, total_tests printing (λ n. refl) nloops);
  rounds = omega (arith, total_left nloops);
  lines = refl;
}

-- The invariant holds after every schedule.
pub run-Inv :
    (c0 : ℕ) (nloops : List ℕ) (sched : List ℕ)
    → c0 + sum nloops < 2 ^ 31
    → let s = run move (init c0 nloops) sched in Inv c0 (sum nloops) s.mem s.threads
run-Inv c0 nloops sched fits =
    run_inv move (λ s. Inv c0 (sum nloops) s.mem s.threads)
      (λ s i t m' t' e go inv.
        step-Inv inv i t m' t'
          (sums (weights s.mem.count (c0 + length s.mem.printed)) s.threads i t t' e)
          (sums (weights m'.count (c0 + length m'.printed)) s.threads i t t' e)
          (rests critical (small m'.count (c0 + length m'.printed))
            (small-Below m'.count (c0 + length m'.printed)) s.threads i t e)
          go)
      (init c0 nloops) sched (Inv-init c0 nloops fits)
