-- ===== src/Sockets/Select/Room.antt =====
-- Descriptors that an `fd_set` has room for.
use Prim.Native.String.{String}
use cs_primer.Prelude.{
  ℕ, ◌<◌, ◌≡◌, true, ltb, List, [], ◌∷◌, some, Option-cases, inl, inr, arith, Bool,
}
use cs_primer.Posix.{
  Sys, Arg, num, lit, did, Log, Kernel, Outcome, done, exited, running, Prog, and_then,
}
use cs_primer.Posix.Text.{Str}
use cs_primer.Posix.Calls.{open_server, error_handler, port}
use cs_primer.Posix.Echoed.{IsEchoed, Keeps}
use cs_primer.Posix.Typestate.{After, disciplined}
use cs_primer.Sockets.Select.{fd_setsize}

-- The kernel makes only descriptors below FD_SETSIZE.
pub record HasRoom (k : Kernel) : Type 0 where
  pub accept_small :
      (l : Log) (args : List Arg) (c : ℕ) → k.ret l Sys.accept args ≡ some c → c < fd_setsize
  pub socket_small :
      (l : Log) (args : List Arg) (s : ℕ) → k.ret l Sys.socket args ≡ some s → s < fd_setsize

-- A program that comes back with such a descriptor, if it comes back.
abbrev pub InRoom : Outcome ℕ × Log → Type 0
InRoom (done s, l) = ltb s fd_setsize ≡ true
InRoom (exited n, l) = Unit
InRoom (running, l) = Unit

pub open_server-InRoom :
    (m1 m2 m3 : String) (service : Str) (k : Kernel) (l : Log)
    → HasRoom k
    → InRoom (open_server error_handler m1 m2 m3 service k l)
unfolding open_server error_handler
open_server-InRoom m1 m2 m3 service k l room =
    let protocol : List Arg = lit "PF_INET" ∷ lit "SOCK_STREAM" ∷ num 0 ∷ [] in
    elim (Option-cases (k.ret l Sys.socket protocol)) [
      | inl e ↦ rw e tt
      | inr (s, e) ↦
          let small = room.socket_small l protocol s e in
          let roomy : ltb s fd_setsize ≡ true = ground (arith, small) in
          let l1 : Log = did Sys.socket protocol (some s) ∷ l in
          let address : List Arg = num s ∷ lit "INADDR_ANY" ∷ num (port service) ∷ [] in
          elim (Option-cases (k.ret l1 Sys.bind address)) [
            | inl f ↦ rw (e, f) tt
            | inr (n, f) ↦
                let l2 : Log = did Sys.bind address (some n) ∷ l1 in
                elim (Option-cases (k.ret l2 Sys.listen (num s ∷ num 5 ∷ []))) [
                  | inl g ↦ rw (e, f, g) tt
                  | inr (n', g) ↦ rw (e, f, g) roomy
                ]
          ]
    ]

pub Keeps-bind_room :
    {strict : Bool}
    → {B : Type 0} (r : Outcome ℕ × Log) (k : Kernel) (f : ℕ → Prog B) → InRoom r
    → Keeps strict r
    → ((s : ℕ) (l : Log) → ltb s fd_setsize ≡ true → IsEchoed strict l → Keeps strict (f s k l))
    → Keeps strict (and_then r.0 k r.1 f)
Keeps-bind_room (done s, l) k f roomy h g = g s l roomy h.kept
Keeps-bind_room (exited n, l) k f roomy h g = record { kept = h.kept }
Keeps-bind_room (running, l) k f roomy h g = record { kept = h.kept }

pub After-bind_room :
    {B : Type 0} (Q : ℕ → Log → Type 0) (R : B → Log → Type 0) (r : Outcome ℕ × Log) (k : Kernel)
    (f : ℕ → Prog B)
    → InRoom r
    → After Q r
    → ((s : ℕ) (l : Log)
        → ltb s fd_setsize ≡ true
        → disciplined l ≡ true
        → Q s l
        → After R (f s k l))
    → After R (and_then r.0 k r.1 f)
After-bind_room Q R (done s, l) k f roomy h next = next s l roomy h.0 h.1
After-bind_room Q R (exited n, l) k f roomy h next = h
After-bind_room Q R (running, l) k f roomy h next = h
