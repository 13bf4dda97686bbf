-- ===== src/Sockets/Forking.antt =====
-- The servers that fork a child for each client: tcp-ip/socket/src/echo_mpserver.c and
-- echo_storeserver.c. A program is followed as the process that `fork` makes of it: the answer 0
-- makes it the child. The handler of SIGCHLD, which only collects children, does not run in it.
pub mod Order
pub mod Store
mod Tests
use cs_primer.Prelude.{
  ℕ, zero, suc, List, [], ◌∷◌, Option, none, some, ◌==◌, if◌then◌else◌, length, get_elem?,
}
use cs_primer.Posix.{Sys, num, text, lit, Prog, ◌>>=◌, ◌>>◌, pure, call, fetch, out_of_fuel}
use cs_primer.Posix.Text.{Str}
use cs_primer.Posix.Calls.{say, close, must, expect_argc, arg_at, open_server, error_handler}
use cs_primer.Posix.Loops.{minus_one, overlay}
use cs_primer.Sockets.Echo.{mp_child, store_child}

-- What comes of a client whose `fork` has answered `pid`: the child serves it, the parent closes its
-- descriptor and goes on.
abbrev pub after_fork : Option ℕ → ℕ → Prog ℕ → Prog ℕ → Prog ℕ
after_fork none c child goes_on = do close c; goes_on
after_fork (some zero) c child goes_on = child
after_fork (some (suc pid)) c child goes_on = do close c; goes_on

-- The accept loop with `child` for the child; `fuel` bounds its rounds.
unfoldable pub fork_loop : ℕ → (ℕ → Prog ℕ) → ℕ → Prog ℕ
fork_loop zero child s = out_of_fuel
fork_loop (suc fuel) child s = do
  r ← call Sys.accept (num s ∷ [])
  elim r [
    | none ↦ fork_loop fuel child s
    | some c ↦ do
      say Sys.puts (lit "new client connected..." ∷ [])
      pid ← call Sys.fork []
      after_fork pid c (child c) (fork_loop fuel child s)
  ]

unfoldable pub open_forking : Str → Prog ℕ
open_forking service = do
  say Sys.sigaction (lit "SIGCHLD" ∷ lit "read_childproc" ∷ [])
  open_server error_handler "socket() error" "bind() error" "listen() error" service

-- Behind the loop the source closes the server's socket, which it never comes to.
unfoldable pub echo_mpserver : ℕ → ℕ → List ℕ → List Str → Prog ℕ
echo_mpserver fuel reads msg argv = do
  expect_argc argv 2 "usage: %s <port>\n"
  s ← open_forking (arg_at argv 1)
  fork_loop fuel (mp_child reads msg s) s

-- The process that stores messages: `n` reads are left. A failing read stores with the length -1.
unfoldable pub store_messages : ℕ → List ℕ → ℕ → ℕ → Prog (Unit {0})
store_messages zero msgbuf fd fp = pure tt
store_messages (suc n) msgbuf fd fp = do
  r ← fetch Sys.read (num fd ∷ num 100 ∷ [])
  elim r [
    | none ↦ do
      say Sys.fwrite (num fp ∷ text msgbuf ∷ num minus_one ∷ [])
      store_messages n msgbuf fd fp
    | some bs ↦ do
      say Sys.fwrite (num fp ∷ text (overlay bs msgbuf) ∷ num (length bs) ∷ [])
      store_messages n (overlay bs msgbuf) fd fp
  ]

-- The stream of the file, or `NULL`, which is not checked.
abbrev pub stream : Option ℕ → ℕ
stream none = 0
stream (some fp) = fp

unfoldable pub store_process : List ℕ → ℕ → Prog ℕ
store_process msgbuf fd = do
  fp ← call Sys.fopen (lit "echomsg.txt" ∷ lit "wt" ∷ [])
  store_messages 3 msgbuf fd (stream fp)
  say Sys.fclose (num (stream fp) ∷ [])
  pure 0

-- The descriptor `i` of the pipe, which is not checked either.
abbrev pub pipe_end : Option (List ℕ) → ℕ → ℕ
pipe_end none i = 0
pipe_end (some fds) i = elim (get_elem? fds i) [ none ↦ 0 | some fd ↦ fd ]

unfoldable pub echo_storeserver : ℕ → ℕ → List ℕ → List ℕ → List Str → Prog ℕ
echo_storeserver fuel reads buf msgbuf argv = do
  expect_argc argv 2 "usage: %s <port>\n"
  s ← open_forking (arg_at argv 1)
  fds ← fetch Sys.pipe []
  pid ← must Sys.fork [] (error_handler "fork() error")
  if pid == 0
      then store_process msgbuf (pipe_end fds 0)
      else fork_loop fuel (store_child reads buf s (pipe_end fds 1)) s
