-- ===== src/Sockets/Hello.antt =====
-- tcp-ip/socket/src/hello_server.c and tcp_server.c: servers that greet one client.
use Prim.Native.String.{String}
use cs_primer.Prelude.{
  ℕ, List, [], ◌∷◌, ◌++◌, length, arith, refl, Bool-cases, inl, inr, ◌==◌, if◌then◌else◌,
}
use cs_primer.Posix.{Sys, num, text, lit, Kernel, Prog, ◌>>◌, pure, exit}
use cs_primer.Posix.Text.{Str, codes}
use cs_primer.Posix.Calls.{say, expect_argc, arg_at, serve_one}
use cs_primer.Posix.Typestate.{FreshFds, Leaves, After, After-bind}
use cs_primer.Posix.Typestate.Calls.{Quits, expect_argc-After, write-After}
use cs_primer.Posix.Typestate.Serve.{AllClosed, Keeps, serve_one-After}

-- `fputs(msg, stdin)`: these programs hand the message to their standard input.
unfoldable pub error_handler : {A : Type 0} → String → Prog A
error_handler msg = do
  say Sys.fputs (lit "stdin" ∷ lit msg ∷ [])
  say Sys.fputc (lit "stdin" ∷ num 10 ∷ [])
  exit 1

-- `msg` with its final 0.
abbrev pub greeting : Str
greeting = codes "hello world!" ++ 0 ∷ []

abbrev pub greet : ℕ → Prog (Unit {0})
greet c = say Sys.write (num c ∷ text greeting ∷ num (length greeting) ∷ [])

unfoldable pub hello_server : List Str → Prog ℕ
hello_server argv = do
  expect_argc argv 2 "usage: %s <port>\n"
  serve_one error_handler "socket() error" "bind() error" "listen() error" "accept error"
      (arg_at argv 1) greet

unfoldable pub tcp_server : List Str → Prog ℕ
tcp_server argv = do
  if length argv == 2 then pure tt else error_handler "usage error!"
  serve_one error_handler "socket() error" "bind() error" "listen() error" "accept error"
      (arg_at argv 1) greet

handler-Quits :
    (k : Kernel) (message : String) {A : Type 0} → Quits k (error_handler {A = A} message)
unfolding error_handler
handler-Quits k message Q l legal = ground arith

greet-Keeps : (k : Kernel) → Keeps k greet
greet-Keeps k c l a ok h st =
    write-After k l ok a h c (text greeting ∷ num (length greeting) ∷ []) st

-- Whatever the arguments are and however the kernel answers, `hello_server` uses its descriptors
-- in order; it exits with status 1, or returns 0 with both sockets closed.
pub hello_server_in_order :
    (argv : List Str) (k : Kernel) → FreshFds k → After AllClosed (hello_server argv k [])
unfolding hello_server
hello_server_in_order argv k fresh_fds =
    After-bind _ _ _ k _ (expect_argc-After k [] refl [] (λ fd. refl) argv 2 _) λ _ l0 ok0 h0.
      serve_one-After k fresh_fds error_handler (λ m. handler-Quits k m) _ _ _ _ _ greet
        (greet-Keeps k) l0 ok0 h0

-- Whatever the arguments are and however the kernel answers, `tcp_server` uses its
-- descriptors in order; it exits with status 1, or returns 0 with both sockets closed.
pub tcp_server_in_order :
    (argv : List Str) (k : Kernel) → FreshFds k → After AllClosed (tcp_server argv k [])
unfolding tcp_server
tcp_server_in_order argv k fresh_fds =
    After-bind (λ _ l. Leaves l []) _ _ k _ usage
      λ _ l0 ok0 h0.
        serve_one-After k fresh_fds error_handler (λ m. handler-Quits k m) _ _ _ _ _ greet
          (greet-Keeps k) l0 ok0 h0
  where
    usage :
        After
          (λ _ l. Leaves l [])
          ((if length argv == 2 then pure tt else error_handler "usage error!") k [])
    usage = elim (Bool-cases (length argv == 2)) [
      | inl e ↦ rw e (refl, λ fd. refl)
      | inr e ↦ rw e (handler-Quits k _ _ _ refl)
    ]
