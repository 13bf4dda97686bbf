-- ===== src/Posix/Loops.antt =====
-- Loops that read a descriptor to its end, and what is handed on by them.
pub mod Relay
pub mod While
use cs_primer.Prelude.{
  ℕ, zero, suc, ◌+◌, ◌-◌, ◌<◌, ◌^◌, ◌≡◌, refl, ap, ◌∙◌, sym, Bool, true, false, ◌&&◌, List, [], ◌∷◌,
  ◌++◌, Option, none, some, arith, ◌==◌, if◌then◌else◌, length, take, drop,
}
use cs_primer.Posix.{
  Sys, Arg, num, text, Event, did, got, Log, Kernel, Outcome, done, running, Prog, and_then, ◌>>=◌,
  ◌>>◌, pure, out_of_fuel, call, fetch,
}
use cs_primer.Posix.Calls.{say}

-- The length -1, as the `size_t` that `write` takes.
abbrev pub minus_one : ℕ
minus_one = 2 ^ 64 - 1

-- A buffer after `bs` has been read into its front.
abbrev pub overlay : List ℕ → List ℕ → List ℕ
overlay bs buf = bs ++ drop (length bs) buf

-- `while((n = read(fd, buf, size)) != 0) body(buf, n);`: a failing read runs the body with -1.
-- The fuel bounds the number of reads.
unfoldable pub read_loop : ℕ → ℕ → ℕ → List ℕ → (List ℕ → ℕ → Prog (Unit {0})) → Prog (Unit {0})
read_loop zero fd size buf body = out_of_fuel
read_loop (suc fuel) fd size buf body = do
  r ← fetch Sys.read (num fd ∷ num size ∷ [])
  elim r [
    | none ↦ do body buf minus_one; read_loop fuel fd size buf body
    | some [] ↦ pure tt
    | some (b ∷ bs) ↦ do
      body (overlay (b ∷ bs) buf) (length (b ∷ bs))
      read_loop fuel fd size (overlay (b ∷ bs) buf) body
  ]

abbrev pub is_write : Sys → Bool
is_write Sys.write = true
is_write _ = false

abbrev pub is_fwrite : Sys → Bool
is_fwrite Sys.fwrite = true
is_fwrite _ = false

-- The bytes that a call of the kind `p` is handed for `o`, whatever it answers: output calls are
-- logged with the descriptor or stream first, then the buffer and the length.
abbrev pub output : (Sys → Bool) → ℕ → Event → List ℕ
output p o (did s (num c ∷ text b ∷ num n ∷ []) r) = if p s && (c == o) then take n b else []
output p o _ = []

-- All the bytes that have been handed to such calls, in order. How many of them the calls have
-- taken is in their answers.
abbrev pub sent : (Sys → Bool) → ℕ → Log → List ℕ
sent p o [] = []
sent p o (e ∷ l) = sent p o l ++ output p o e

abbrev pub is_read : Sys → Bool
is_read Sys.read = true
is_read _ = false

abbrev pub input : ℕ → Event → List ℕ
input fd (got s (num c ∷ args) (some bs)) = if is_read s && (c == fd) then bs else []
input fd _ = []

abbrev pub received : ℕ → Log → List ℕ
received fd [] = []
received fd (e ∷ l) = received fd l ++ input fd e

-- The number of reads of `fd`, and of those that failed.
abbrev pub reads : ℕ → Log → ℕ
reads fd [] = 0
reads fd (got s (num c ∷ args) r ∷ l) =
    if is_read s && (c == fd) then suc (reads fd l) else reads fd l
reads fd (_ ∷ l) = reads fd l

abbrev pub failed : ℕ → Log → ℕ
failed fd [] = 0
failed fd (got s (num c ∷ args) none ∷ l) =
    if is_read s && (c == fd) then suc (failed fd l) else failed fd l
failed fd (_ ∷ l) = failed fd l
