-- ===== src/Posix/Reports.antt =====
-- Programs that report every failure: what this means, and how it is kept from part to part.
use Prim.Native.String.{String}
use cs_primer.Prelude.{
  ℕ, suc, ◌+◌, List, [], ◌∷◌, Bool, true, false, if◌then◌else◌, none, ◌≡◌, refl, Option-cases,
  Bool-cases, inl, inr, length, ◌==◌,
}
use cs_primer.Posix.{Sys, Arg, did, Log, Kernel, Prog, and_then, Outcome, done, exited, running}
use cs_primer.Posix.Text.{Str}
use cs_primer.Posix.Calls.{must, error_exit, expect_argc, expect, getpid, Options, expect_operands}

-- The calls whose result the programs do not look at.
abbrev pub is_unchecked : Sys → Bool
is_unchecked Sys.printf = true
is_unchecked Sys.puts = true
is_unchecked Sys.fputs = true
is_unchecked Sys.msgctl = true
is_unchecked Sys.close = true
is_unchecked Sys.free = true
is_unchecked Sys.getpid = true
is_unchecked Sys.pause = true
is_unchecked Sys.pthread_setconcurrency = true
is_unchecked _ = false

-- How many of the checked calls have failed.
abbrev pub failures : Log → ℕ
failures [] = 0
failures (did s args none ∷ l) = if is_unchecked s then failures l else suc (failures l)
failures (_ ∷ l) = failures l

-- A program that has come to its end: with 0 and no failure behind it, or by `exit(1)`.
abbrev pub Reports : Outcome ℕ × Log → Type 0
Reports (done n, l) = (n ≡ 0) × (failures l ≡ 0)
Reports (exited n, l) = n ≡ 1
Reports (running, l) = ⊥

-- The same on the way: nothing has failed where the program goes on.
abbrev pub Clean : {A : Type 0} → Outcome A × Log → Type 0
Clean (done a, l) = failures l ≡ 0
Clean (exited n, l) = n ≡ 1
Clean (running, l) = ⊥

pub Clean-bind :
    {A : Type 0} (r : Outcome A × Log) (k : Kernel) (f : A → Prog ℕ)
    → Clean r
    → ((a : A) (l : Log) → failures l ≡ 0 → Reports (f a k l))
    → Reports (and_then r.0 k r.1 f)
Clean-bind (done a, l) k f h next = next a l h
Clean-bind (exited n, l) k f h next = h
Clean-bind (running, l) k f h next = absurd h

module _ (k : Kernel) (l : Log) (ok : failures l ≡ 0) where
  pub must-Clean : (s : Sys) (args : List Arg) (m : String) → Clean (must s args (error_exit m) k l)
  unfolding error_exit
  must-Clean s args m = elim (Option-cases (k.ret l s args)) [
    | inl e ↦ rw e refl
    | inr (n, e) ↦ rw e ok
  ]

  pub expect_argc-Clean :
      (argv : List Str) (n : ℕ) (usage : String) → Clean (expect_argc argv n usage k l)
  expect_argc-Clean argv n usage = elim (Bool-cases (length argv == n)) [
    | inl e ↦ rw e ok
    | inr e ↦ rw e refl
  ]

  pub expect-Clean : (b : Bool) (line : List Arg) → Clean (expect b line k l)
  expect-Clean true line = ok
  expect-Clean false line = refl

  -- A call that is not checked leaves things as they are.
  pub unchecked-clean :
      (s : Sys) (args : List Arg)
      → is_unchecked s ≡ true
      → failures (did s args (k.ret l s args) ∷ l) ≡ 0
  unchecked-clean s args u = elim (Option-cases (k.ret l s args)) [
    | inl e ↦ rw (e, u) ok
    | inr (n, e) ↦ rw e ok
  ]

  pub expect_operands-Clean :
      (o : Options) (argv : List Str) (n : ℕ) (usage : String)
      → Clean (expect_operands o argv n usage k l)
  expect_operands-Clean o argv n usage = elim (Bool-cases (o.optind + n == length argv)) [
    | inl e ↦ rw e ok
    | inr e ↦ rw e refl
  ]

  pub getpid-Clean : Clean (getpid k l)
  getpid-Clean = elim (Option-cases (k.ret l Sys.getpid [])) [
    | inl e ↦ rw e ok
    | inr (n, e) ↦ rw e ok
  ]

pub Clean-then :
    {A B : Type 0} (r : Outcome A × Log) (k : Kernel) (f : A → Prog B)
    → Clean r
    → ((a : A) (l : Log) → failures l ≡ 0 → Clean (f a k l))
    → Clean (and_then r.0 k r.1 f)
Clean-then (done a, l) k f h next = next a l h
Clean-then (exited n, l) k f h next = h
Clean-then (running, l) k f h next = absurd h
