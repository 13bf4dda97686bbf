-- ===== src/Posix/Calls.antt =====
-- Calls with the checks that the sources write round them.
use Prim.Native.String.{String}
use cs_primer.Prelude.{
  ℕ, ◌+◌, List, [], ◌∷◌, Option, none, some, length, get_elem?, if◌then◌else◌, ◌==◌, ◌||◌, Bool,
  false,
}
use cs_primer.Posix.{Sys, Arg, num, text, lit, Prog, ◌>>=◌, ◌>>◌, pure, exit, call}
use cs_primer.Posix.Text.{Str, unsigned, atoi, htons}

-- Output, whose result the sources ignore.
abbrev pub say : Sys → List Arg → Prog (Unit {0})
say s args = do call s args; pure tt

-- `error_handler` of the socket programs: the message on stderr, a newline, and status 1.
unfoldable pub error_handler : {A : Type 0} → String → Prog A
error_handler msg = do
  say Sys.fputs (lit "stderr" ∷ lit msg ∷ [])
  say Sys.fputc (lit "stderr" ∷ num 10 ∷ [])
  exit 1

-- The macro `error_handler` of the IPC programs: the message on stdout, and status 1.
unfoldable pub error_exit : {A : Type 0} → String → Prog A
error_exit msg = do say Sys.printf (lit msg ∷ []); exit 1

-- `if((x = call) == -1) ...`, with what the source does then.
abbrev pub or_else : Option ℕ → Prog ℕ → Prog ℕ
or_else none handler = handler
or_else (some n) handler = pure n

abbrev pub must : Sys → List Arg → Prog ℕ → Prog ℕ
must s args handler = do r ← call s args; or_else r handler

-- `if(argc != n) { printf(usage); exit(1); }`
abbrev pub expect_argc : List Str → ℕ → String → Prog (Unit {0})
expect_argc argv n usage =
    if length argv == n then pure tt else (do say Sys.printf (lit usage ∷ []); exit 1)

-- `if(!ok) { printf(line); exit(1); }`
abbrev pub expect : Bool → List Arg → Prog (Unit {0})
expect ok line = if ok then pure tt else (do say Sys.printf line; exit 1)

-- `argv[i]`; the programs read it only where `argc` has been checked.
abbrev pub arg_at : List Str → ℕ → Str
arg_at argv i = elim (get_elem? argv i) [ none ↦ [] | some s ↦ s ]

-- `htons(atoi(s))`
abbrev pub port : Str → ℕ
port s = htons (unsigned 65536 (atoi s))

-- `inet_addr`, with INADDR_NONE for a text that is no address.
abbrev pub inet_addr : Str → Prog ℕ
inet_addr s = do
  r ← call Sys.inet_addr (text s ∷ [])
  elim r [ none ↦ pure 0xffff_ffff | some a ↦ pure a ]

abbrev pub close : ℕ → Prog (Unit {0})
close fd = say Sys.close (num fd ∷ [])

-- `socket`, `bind` to any address, `listen` with a backlog of 5; each failure has its message.
unfoldable pub open_server : (String → Prog ℕ) → String → String → String → Str → Prog ℕ
open_server handler no_socket no_bind no_listen service = do
  s ← must Sys.socket (lit "PF_INET" ∷ lit "SOCK_STREAM" ∷ num 0 ∷ []) (handler no_socket)
  must Sys.bind (num s ∷ lit "INADDR_ANY" ∷ num (port service) ∷ []) (handler no_bind)
  must Sys.listen (num s ∷ num 5 ∷ []) (handler no_listen)
  pure s

-- `accept` on a listening socket.
abbrev pub accept : ℕ → Prog ℕ → Prog ℕ
accept s handler = must Sys.accept (num s ∷ []) handler

-- `socket` and `connect` to a server.
unfoldable pub open_client : (String → Prog ℕ) → String → String → Str → Str → Prog ℕ
open_client handler no_socket no_connect host service = do
  s ← must Sys.socket (lit "PF_INET" ∷ lit "SOCK_STREAM" ∷ num 0 ∷ []) (handler no_socket)
  addr ← inet_addr host
  must Sys.connect (num s ∷ num addr ∷ num (port service) ∷ []) (handler no_connect)
  pure s

-- A server for one client: `body` talks to it, then both descriptors are closed.
unfoldable pub serve_one :
    (String → Prog ℕ) → String → String → String → String → Str → (ℕ → Prog (Unit {0})) → Prog ℕ
serve_one handler no_socket no_bind no_listen no_accept service body = do
  s ← open_server handler no_socket no_bind no_listen service
  c ← accept s (handler no_accept)
  body c
  close c
  close s
  pure 0

-- `getpid`, which always succeeds.
abbrev pub getpid : Prog ℕ
getpid = do r ← call Sys.getpid []; elim r [ none ↦ pure 0 | some pid ↦ pure pid ]

-- What `getopt` hands out until it answers -1: the options, each with its argument, and the index
-- of the first operand.
pub record Options : Type 0 where
  pub opts : List (ℕ × Str)
  pub optind : ℕ

-- `if(optind != argc - n) { printf(usage); exit(1); }`
abbrev pub expect_operands : Options → List Str → ℕ → String → Prog (Unit {0})
expect_operands o argv n usage =
    if o.optind + n == length argv then pure tt else (do say Sys.printf (lit usage ∷ []); exit 1)

abbrev pub has_option : ℕ → List (ℕ × Str) → Bool
has_option c [] = false
has_option c ((d, _) ∷ opts) = d == c || has_option c opts

-- The value of the last `-c`, or that from before.
abbrev pub last_value : {A : Type 0} → ℕ → A → (Str → A) → List (ℕ × Str) → A
last_value c v f [] = v
last_value c v f ((d, s) ∷ opts) = last_value c (if d == c then f s else v) f opts
