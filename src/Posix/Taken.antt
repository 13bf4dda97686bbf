-- ===== src/Posix/Taken.antt =====
-- What `write` has taken: as many bytes from the front of its buffer as it answers.
use mathlib.Core.Path.{ap₂}
use cs_primer.Prelude.{
  ℕ, suc, List, [], ◌∷◌, ◌++◌, Option, none, some, Bool, true, false, ◌&&◌, ◌||◌, not, ◌==◌,
  if◌then◌else◌, ◌≡◌, ◌∙◌, take, arith, Bool-cases, inl, inr,
}
use cs_primer.Posix.{num, text, Event, did, Log}
use cs_primer.Posix.Loops.{is_write, output, sent, received, failed}
use cs_primer.Posix.Echoed.{IsEchoed}

abbrev pub intake : ℕ → Event → List ℕ
intake o (did s (num c ∷ text b ∷ num n ∷ []) (some r)) =
    if is_write s && (c == o) then take r b else []
intake o _ = []

abbrev pub taken : ℕ → Log → List ℕ
taken o [] = []
taken o (e ∷ l) = taken o l ++ intake o e

abbrev takes_all : Option ℕ → ℕ → Bool
takes_all none n = false
takes_all (some r) n = r == n

abbrev pub is_short : ℕ → Event → Bool
is_short o (did s (num c ∷ text b ∷ num n ∷ []) r) = is_write s && (c == o) && not (takes_all r n)
is_short o _ = false

-- How many calls of `write` on `o` failed or took less than they were given.
abbrev pub short : ℕ → Log → ℕ
short o [] = 0
short o (e ∷ l) = if is_short o e then suc (short o l) else short o l

intake_all : (o : ℕ) (e : Event) → is_short o e ≡ false → intake o e ≡ output is_write o e
intake_all o (did s (num c ∷ text b ∷ num n ∷ []) none) whole = ground (arith, whole)
intake_all o (did s (num c ∷ text b ∷ num n ∷ []) (some r)) whole = ground (arith, whole)
intake_all o e whole = ground arith

taken_all : (o : ℕ) (l : Log) → short o l ≡ 0 → taken o l ≡ sent is_write o l
taken_all o [] whole = ground arith
taken_all o (e ∷ l) whole = elim (Bool-cases (is_short o e)) [
  | inl x ↦ absurd (ground (arith, whole, x))
  | inr x ↦ ap₂ ◌++◌ (taken_all o l (ground (arith, whole, x))) (intake_all o e x)
]

-- What has been read from `c` has been handed to `write` for it, in order; and where each of these
-- calls has taken all it was given, it is what they have taken.
abbrev pub PassedOn : ℕ → Log → Type 0
PassedOn c l = (sent is_write c l ≡ received c l) × (short c l ≡ 0 → taken c l ≡ received c l)

pub IsEchoed-PassedOn :
    {strict : Bool}
    → (c : ℕ) (l : Log) → IsEchoed strict l
    → (strict || failed c l == 0) ≡ true
    → PassedOn c l
IsEchoed-PassedOn c l h clean = (h.echoed c clean, λ whole. taken_all c l whole ∙ h.echoed c clean)
