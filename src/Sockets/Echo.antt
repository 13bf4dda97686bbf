-- ===== src/Sockets/Echo.antt =====
-- Servers that send back what they receive: tcp-ip/socket/src/echo_server.c, reuseaddr_eserver.c
-- and the children of echo_mpserver.c and echo_storeserver.c.
pub mod Order
pub mod Relay
use cs_primer.Prelude.{ℕ, List, [], ◌∷◌}
use cs_primer.Posix.{Sys, num, text, Prog, ◌>>=◌, ◌>>◌, pure, lit}
use cs_primer.Posix.Text.{Str}
use cs_primer.Posix.Calls.{
  say, expect_argc, arg_at, serve_one, error_handler, close, must, port, accept,
}
use cs_primer.Posix.Loops.{read_loop}

-- The body of the loop: `write(c, msg, msg_len)`.
abbrev pub write_back : ℕ → List ℕ → ℕ → Prog (Unit {0})
write_back c msg n = say Sys.write (num c ∷ text msg ∷ num n ∷ [])

-- `msg` is the buffer as `main` finds it, `fuel` bounds the reads.
unfoldable pub echo : ℕ → ℕ → List ℕ → ℕ → Prog (Unit {0})
echo fuel size msg c = read_loop fuel c size msg (write_back c)

unfoldable pub echo_server : ℕ → List ℕ → List Str → Prog ℕ
echo_server fuel msg argv = do
  expect_argc argv 2 "usage: %s <port>\n"
  serve_one error_handler "socket error" "bind error" "listen error" "accept error" (arg_at argv 1)
      (echo fuel 1024 msg)

-- The child that serves the client `c`, in echo_mpserver.c.
unfoldable pub mp_child : ℕ → List ℕ → ℕ → ℕ → Prog ℕ
mp_child fuel msg s c = do
  close s
  echo fuel 30 msg c
  close c
  say Sys.puts (lit "client disconnected..." ∷ [])
  pure 0

-- The child that serves the client `c`, in echo_storeserver.c: a copy goes into the pipe `pipe_in`.
abbrev pub write_both : ℕ → ℕ → List ℕ → ℕ → Prog (Unit {0})
write_both c pipe_in buf n = do
  say Sys.write (num c ∷ text buf ∷ num n ∷ [])
  say Sys.write (num pipe_in ∷ text buf ∷ num n ∷ [])

unfoldable pub store_child : ℕ → List ℕ → ℕ → ℕ → ℕ → Prog ℕ
store_child fuel buf s pipe_in c = do
  close s
  read_loop fuel c 100 buf (write_both c pipe_in)
  close c
  say Sys.puts (lit "client disconnected..." ∷ [])
  pure 0

-- reuseaddr_eserver.c: the address may be used again, and what is echoed goes to stdout as well.
unfoldable pub reuseaddr_eserver : ℕ → List ℕ → List Str → Prog ℕ
reuseaddr_eserver fuel msg argv = do
  expect_argc argv 2 "usage: %s <port>\n"
  s ←
      must Sys.socket (lit "PF_INET" ∷ lit "SOCK_STREAM" ∷ num 0 ∷ [])
        (error_handler "socket() error")
  must Sys.setsockopt (num s ∷ lit "SOL_SOCKET" ∷ lit "SO_REUSEADDR" ∷ num 1 ∷ [])
      (error_handler "setsockopt() error")
  must Sys.bind (num s ∷ lit "INADDR_ANY" ∷ num (port (arg_at argv 1)) ∷ [])
      (error_handler "bind() error")
  must Sys.listen (num s ∷ num 5 ∷ []) (error_handler "listen() error")
  c ← accept s (error_handler "accept() error")
  read_loop fuel c 30 msg (write_both c 1)
  close c
  close s
  pure 0
