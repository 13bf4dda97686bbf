-- ===== src/Sockets/Select.antt =====
-- The server of tcp-ip/socket/src/echo_selectserver.c, which serves all its clients in one loop. An
-- `fd_set` has room for FD_SETSIZE descriptors. `wild` is what the program does once `FD_SET` has
-- written outside of one: C gives that no meaning, and it is a parameter.
pub mod Room
pub mod Order
pub mod Relay
pub mod Ends
mod Tests
use cs_primer.Prelude.{
  ℕ, zero, suc, ◌+◌, List, [], ◌∷◌, ◌++◌, none, some, Bool, true, false, ◌||◌, ltb, ◌==◌,
  if◌then◌else◌, update, length,
}
use cs_primer.Posix.{Sys, num, text, lit, Prog, ◌>>=◌, ◌>>◌, pure, call, fetch, out_of_fuel}
use cs_primer.Posix.Text.{Str}
use cs_primer.Posix.Calls.{say, close, expect_argc, arg_at, open_server, error_handler}
use cs_primer.Posix.Loops.{minus_one, overlay}

-- `FD_SETSIZE`, as the GNU C library has it.
abbrev pub fd_setsize : ℕ
fd_setsize = 1024

-- The variables of `main` in its loop; a set is given by its test.
pub record State : Type 0 where
  pub reads : ℕ → Bool
  pub fd_max : ℕ
  pub buf : List ℕ

-- The descriptors below `n` of a set.
unfoldable pub members : ℕ → (ℕ → Bool) → List ℕ
members zero s = []
members (suc n) s = if s n then n ∷ members n s else members n s

-- `FD_ISSET`, on a set given by its members.
abbrev pub fd_isset : ℕ → List ℕ → Bool
fd_isset fd [] = false
fd_isset fd (i ∷ is) = fd == i || fd_isset fd is

-- `FD_SET`, which does not check that the set has room for the descriptor.
unfoldable pub fd_set : Prog (Unit {0}) → ℕ → (ℕ → Bool) → Prog (ℕ → Bool)
fd_set wild fd set =
    if ltb fd fd_setsize then pure (update set fd true) else (do wild; pure (update set fd true))

unfoldable pub accept_client : Prog (Unit {0}) → ℕ → State → Prog State
accept_client wild s st = do
  r ← call Sys.accept (num s ∷ [])
  elim r [
    | none ↦ pure st
    | some c ↦ do
      reads ← fd_set wild c st.reads
      say Sys.printf (lit "connected client: %d\n" ∷ num c ∷ [])
      pure (record st { reads = reads; fd_max = if ltb st.fd_max c then c else st.fd_max })
  ]

unfoldable pub echo_client : ℕ → State → Prog State
echo_client i st = do
  r ← fetch Sys.read (num i ∷ num 100 ∷ [])
  elim r [
    | none ↦ do say Sys.write (num i ∷ text st.buf ∷ num minus_one ∷ []); pure st
    | some [] ↦ do
      close i
      say Sys.printf (lit "closed client: %d" ∷ num i ∷ [])
      pure (record st { reads = update st.reads i false })
    | some (b ∷ bs) ↦ do
      say Sys.write (num i ∷ text (overlay (b ∷ bs) st.buf) ∷ num (length (b ∷ bs)) ∷ [])
      pure (record st { buf = overlay (b ∷ bs) st.buf })
  ]

unfoldable pub serve_fd : Prog (Unit {0}) → ℕ → List ℕ → ℕ → State → Prog State
serve_fd wild s cpy_reads i st =
    if fd_isset i cpy_reads
    then (if i == s then accept_client wild s st else echo_client i st)
    else pure st

-- The inner loop, at `i`. It goes on to the largest descriptor, which an accepted client may raise
-- on the way; `rounds` bounds it.
unfoldable pub serve_ready : Prog (Unit {0}) → ℕ → ℕ → List ℕ → ℕ → State → Prog State
serve_ready wild zero s cpy_reads i st = if ltb i (st.fd_max + 1) then out_of_fuel else pure st
serve_ready wild (suc rounds) s cpy_reads i st =
    if ltb i (st.fd_max + 1)
    then (do st' ← serve_fd wild s cpy_reads i st; serve_ready wild rounds s cpy_reads (i + 1) st')
    else pure st

-- `select` answers with the members that are ready, none of them when the time is up.
unfoldable pub select_loop : Prog (Unit {0}) → ℕ → ℕ → ℕ → State → Prog (Unit {0})
select_loop wild zero rounds s st = out_of_fuel
select_loop wild (suc fuel) rounds s st = do
  r ←
      fetch Sys.select
        (num (st.fd_max + 1) ∷ text (members (st.fd_max + 1) st.reads) ∷ num 5 ∷ num 5000 ∷ [])
  elim r [
    | none ↦ pure tt
    | some [] ↦ select_loop wild fuel rounds s st
    | some (i ∷ is) ↦ do
      st' ← serve_ready wild rounds s (i ∷ is) 0 st
      select_loop wild fuel rounds s st'
  ]

unfoldable pub echo_selectserver : Prog (Unit {0}) → ℕ → ℕ → List ℕ → List Str → Prog ℕ
echo_selectserver wild fuel rounds buf argv = do
  expect_argc argv 2 "usage: %s <port>\n"
  s ← open_server error_handler "socket() error" "bind() error" "listen() error" (arg_at argv 1)
  reads ← fd_set wild s (λ _. false)
  select_loop wild fuel rounds s (record { reads = reads; fd_max = s; buf = buf })
  close s
  pure 0
