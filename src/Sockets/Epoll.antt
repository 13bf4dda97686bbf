-- ===== src/Sockets/Epoll.antt =====
-- The servers over epoll: tcp-ip/socket/src/echo_epollserver.c, echo_EPLTserver.c (level triggered)
-- and echo_EPETserver.c (edge triggered).
pub mod Relay
mod Tests
use cs_primer.Prelude.{ℕ, zero, suc, List, [], ◌∷◌, Option, none, some, ◌==◌, if◌then◌else◌, length}
use cs_primer.Posix.{Sys, Arg, num, text, lit, Prog, ◌>>=◌, ◌>>◌, pure, call, fetch, out_of_fuel}
use cs_primer.Posix.Text.{Str}
use cs_primer.Posix.Calls.{say, close, expect_argc, arg_at, open_server, error_handler}
use cs_primer.Posix.Loops.{minus_one, overlay}

abbrev pub epoll_size : ℕ
epoll_size = 50

abbrev pub epoll_ctl_add : ℕ
epoll_ctl_add = 1

abbrev pub epoll_ctl_del : ℕ
epoll_ctl_del = 2

-- A descriptor whose call has not been checked.
abbrev pub fd_arg : Option ℕ → Arg
fd_arg none = lit "-1"
fd_arg (some fd) = num fd

unfoldable pub add_client : Arg → ℕ → Prog (Unit {0})
add_client epfd s = do
  c ← call Sys.accept (num s ∷ [])
  say Sys.epoll_ctl (epfd ∷ num epoll_ctl_add ∷ fd_arg c ∷ lit "EPOLLIN" ∷ [])
  say Sys.printf (lit "connected client: %d\n" ∷ fd_arg c ∷ [])

unfoldable pub remove_client : Arg → ℕ → Prog (Unit {0})
remove_client epfd i = do
  say Sys.epoll_ctl (epfd ∷ num epoll_ctl_del ∷ num i ∷ lit "NULL" ∷ [])
  close i
  say Sys.printf (lit "closed client: %d\n" ∷ num i ∷ [])

-- The client `i` of the level triggered servers, with the buffer that is left.
unfoldable pub echo_once : ℕ → Arg → ℕ → List ℕ → Prog (List ℕ)
echo_once size epfd i buf = do
  r ← fetch Sys.read (num i ∷ num size ∷ [])
  elim r [
    | none ↦ do say Sys.write (num i ∷ text buf ∷ num minus_one ∷ []); pure buf
    | some [] ↦ do remove_client epfd i; pure buf
    | some (b ∷ bs) ↦ do
      say Sys.write (num i ∷ text (overlay (b ∷ bs) buf) ∷ num (length (b ∷ bs)) ∷ [])
      pure (overlay (b ∷ bs) buf)
  ]

-- The client `i` of the edge triggered server: it is read until there is nothing to read. `fuel`
-- bounds the reads.
unfoldable pub echo_all : ℕ → ℕ → Arg → ℕ → List ℕ → Prog (List ℕ)
echo_all zero size epfd i buf = out_of_fuel
echo_all (suc fuel) size epfd i buf = do
  r ← fetch Sys.read (num i ∷ num size ∷ [])
  elim r [
    | none ↦ pure buf
    | some [] ↦ do remove_client epfd i; pure buf
    | some (b ∷ bs) ↦ do
      say Sys.write (num i ∷ text (overlay (b ∷ bs) buf) ∷ num (length (b ∷ bs)) ∷ [])
      echo_all fuel size epfd i (overlay (b ∷ bs) buf)
  ]

unfoldable pub setnonblockingmode : Arg → Prog (Unit {0})
setnonblockingmode fd = do
  flag ← call Sys.fcntl (fd ∷ lit "F_GETFL" ∷ num 0 ∷ [])
  say Sys.fcntl (fd ∷ lit "F_SETFL" ∷ fd_arg flag ∷ lit "O_NONBLOCK" ∷ [])

-- The edge triggered server does not wait for clients.
unfoldable pub add_edge_client : Arg → ℕ → Prog (Unit {0})
add_edge_client epfd s = do
  c ← call Sys.accept (num s ∷ [])
  setnonblockingmode (fd_arg c)
  say Sys.epoll_ctl (epfd ∷ num epoll_ctl_add ∷ fd_arg c ∷ lit "EPOLLIN | EPOLLET" ∷ [])
  say Sys.printf (lit "connected client: %d\n" ∷ fd_arg c ∷ [])

-- What a server does with its events: with a client that comes, and with one that has sent.
pub record Handlers : Type 0 where
  pub joins : ℕ → Prog (Unit {0})
  pub serves : ℕ → List ℕ → Prog (List ℕ)

unfoldable pub handle_events : Handlers → ℕ → List ℕ → List ℕ → Prog (List ℕ)
handle_events hs s [] buf = pure buf
handle_events hs s (i ∷ is) buf =
    if i == s
    then (do hs.joins s; handle_events hs s is buf)
    else (do buf' ← hs.serves i buf; handle_events hs s is buf')

-- `epoll_wait` answers with the descriptors of the events; `wakes` is what the source prints then.
unfoldable pub epoll_loop : ℕ → Handlers → Prog (Unit {0}) → Arg → ℕ → List ℕ → Prog (Unit {0})
epoll_loop zero hs wakes epfd s buf = out_of_fuel
epoll_loop (suc fuel) hs wakes epfd s buf = do
  r ← fetch Sys.epoll_wait (epfd ∷ num epoll_size ∷ lit "-1" ∷ [])
  elim r [
    | none ↦ say Sys.puts (lit "epoll_wait() error" ∷ [])
    | some is ↦ do wakes; buf' ← handle_events hs s is buf; epoll_loop fuel hs wakes epfd s buf'
  ]

abbrev pub level_triggered : ℕ → Arg → Handlers
level_triggered size epfd = record { joins = add_client epfd; serves = echo_once size epfd }

abbrev pub edge_triggered : ℕ → Arg → Handlers
edge_triggered rounds epfd = record {
  joins = add_edge_client epfd;
  serves = echo_all rounds 4 epfd;
}

-- A server, where `opens` opens its socket and `prepares` is what is done with it before the loop.
unfoldable pub epoll_server :
    ℕ
    → (Arg → Handlers)
    → (ℕ → Prog (Unit {0}))
    → Prog (Unit {0})
    → List ℕ
    → List Str
    → Prog ℕ
    → Prog ℕ
epoll_server fuel handlers prepares wakes buf argv opens = do
  expect_argc argv 2 "usage: %s <port>\n"
  s ← opens
  epfd ← call Sys.epoll_create (num epoll_size ∷ [])
  prepares s
  say Sys.epoll_ctl (fd_arg epfd ∷ num epoll_ctl_add ∷ num s ∷ lit "EPOLLIN" ∷ [])
  epoll_loop fuel (handlers (fd_arg epfd)) wakes (fd_arg epfd) s buf
  close s
  say Sys.close (fd_arg epfd ∷ [])
  pure 0

unfoldable pub echo_epollserver : ℕ → List ℕ → List Str → Prog ℕ
echo_epollserver fuel buf argv =
    epoll_server fuel (level_triggered 100) (λ s. pure tt) (pure tt) buf argv
      (open_server error_handler "socket() error" "bind() error" "listen() error" (arg_at argv 1))

unfoldable pub echo_epltserver : ℕ → List ℕ → List Str → Prog ℕ
echo_epltserver fuel buf argv =
    epoll_server fuel (level_triggered 4) (λ s. pure tt)
      (say Sys.puts (lit "return epoll wait" ∷ [])) buf argv
      (open_server error_handler "socket() error" "bind() error" "listen() error" (arg_at argv 1))

-- A failing `listen` gets the message of `bind`.
unfoldable pub echo_epetserver : ℕ → ℕ → List ℕ → List Str → Prog ℕ
echo_epetserver fuel rounds buf argv =
    epoll_server fuel (edge_triggered rounds) (λ s. setnonblockingmode (num s))
      (say Sys.puts (lit "return epoll_wait" ∷ [])) buf argv
      (open_server error_handler "socket() error" "bind() error" "bind() error" (arg_at argv 1))
