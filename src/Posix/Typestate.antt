-- ===== src/Posix/Typestate.antt =====
-- The order in which a server's sockets must be used: what makes a call legal after a log.
use cs_primer.Prelude.{
  ℕ, List, [], ◌∷◌, Bool, true, false, ◌&&◌, Option, some, none, ◌==◌, if◌then◌else◌, ◌≡◌,
}
pub mod Calls
pub mod Serve
use cs_primer.Posix.{
  Sys, Arg, num, Event, did, got, Log, Kernel, Outcome, done, exited, running, Prog, and_then,
}

-- What is known of a descriptor.
pub data Stage : Type 0 where
  closed fresh bound listening accepted : Stage

-- The stage of `fd` after an event, from that before.
abbrev pub stage_after : ℕ → Event → Stage → Stage
stage_after fd (did Sys.socket _ (some s)) st = if s == fd then fresh else st
stage_after fd (did Sys.accept _ (some s)) st = if s == fd then accepted else st
stage_after fd (did Sys.bind (num s ∷ _) (some _)) st = if s == fd then bound else st
stage_after fd (did Sys.listen (num s ∷ _) (some _)) st = if s == fd then listening else st
stage_after fd (did Sys.close (num s ∷ []) _) st = if s == fd then closed else st
stage_after fd _ st = st

abbrev pub stage : ℕ → Log → Stage
stage fd [] = closed
stage fd (e ∷ l) = stage_after fd e (stage fd l)

abbrev pub is_open : Stage → Bool
is_open closed = false
is_open _ = true

abbrev pub is_bound : Stage → Bool
is_bound bound = true
is_bound _ = false

abbrev pub is_listening : Stage → Bool
is_listening listening = true
is_listening _ = false

abbrev pub is_accepted : Stage → Bool
is_accepted accepted = true
is_accepted _ = false

-- `bind` wants an open socket, `listen` a bound one, `accept` a listening one; data moves only on
-- descriptors that `accept` has returned, those of clients, and only open ones are closed.
abbrev pub legal : Event → Log → Bool
legal (did Sys.bind (num s ∷ _) _) l = is_open (stage s l)
legal (did Sys.connect (num s ∷ _) _) l = is_open (stage s l)
legal (did Sys.listen (num s ∷ _) _) l = is_bound (stage s l)
legal (did Sys.accept (num s ∷ _) _) l = is_listening (stage s l)
legal (did Sys.write (num s ∷ _) _) l = is_accepted (stage s l)
legal (did Sys.close (num s ∷ _) _) l = is_open (stage s l)
legal (got Sys.read (num s ∷ _) _) l = is_accepted (stage s l)
legal _ l = true

abbrev pub disciplined : Log → Bool
disciplined [] = true
disciplined (e ∷ l) = legal e l && disciplined l

-- What POSIX says of `socket` and `accept`: the descriptor that they return is not open.
pub record FreshFds (k : Kernel) : Type 0 where
  pub socket_closed :
      (l : Log) (args : List Arg) (fd : ℕ) → k.ret l Sys.socket args ≡ some fd → stage fd l ≡ closed
  pub accept_closed :
      (l : Log) (args : List Arg) (fd : ℕ) → k.ret l Sys.accept args ≡ some fd → stage fd l ≡ closed

-- The stages that a log leaves behind, as a table; what is not in it is closed.
abbrev pub Table : Type 0
Table = List (ℕ × Stage)

abbrev pub find : ℕ → Table → Stage
find fd [] = closed
find fd ((s, st) ∷ a) = if s == fd then st else find fd a

abbrev pub Leaves : Log → Table → Type 0
Leaves l a = (fd : ℕ) → stage fd l ≡ find fd a

-- A program made only legal calls, exits only with status 1, and satisfies `Q` where it goes on.
abbrev pub After : {A : Type 0} → (A → Log → Type 0) → Outcome A × Log → Type 0
After Q (done a, l) = (disciplined l ≡ true) × Q a l
After Q (exited n, l) = (disciplined l ≡ true) × (n ≡ 1)
After Q (running, l) = disciplined l ≡ true

pub After-bind :
    {A B : Type 0} (Q : A → Log → Type 0) (R : B → Log → Type 0) (r : Outcome A × Log) (k : Kernel)
    (f : A → Prog B)
    → After Q r
    → ((a : A) (l : Log) → disciplined l ≡ true → Q a l → After R (f a k l))
    → After R (and_then r.0 k r.1 f)
After-bind Q R (done a, l) k f h next = next a l h.0 h.1
After-bind Q R (exited n, l) k f h next = h
After-bind Q R (running, l) k f h next = h
