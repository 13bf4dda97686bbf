-- ===== src/Sockets/Select/Tests.antt =====
-- A run of the server over select, with one client that comes, sends two chunks and goes.
use mathlib.Core.Path.{subst}
use mathlib.Core.Option.{some-injective}
use cs_primer.Prelude.{
  ◌<◌, ◌==◌, ℕ, ◌≡◌, List, [], ◌∷◌, Option, some, none, true, if◌then◌else◌, ltb, arith, refl, sym,
  Bool-cases, inl, inr,
}
use cs_primer.Posix.{Sys, Arg, num, text, Log, Kernel, Prog, pure, done}
use cs_primer.Posix.Text.{Str, codes}
use cs_primer.Posix.Loops.{sent, is_write, reads}
use cs_primer.Posix.Loops.Relay.{chunk_at}
use cs_primer.Posix.Typestate.{stage, is_open, FreshFds, After}
use cs_primer.Posix.Sample.{sample-FreshFds, sample_ret}
use cs_primer.Posix.Taken.{PassedOn, short}
use cs_primer.Sockets.Select.{
  fd_set, State, fd_isset, members, accept_client, echo_client, serve_fd, serve_ready, select_loop,
  echo_selectserver,
}
use cs_primer.Sockets.Select.Room.{HasRoom}
use cs_primer.Sockets.Select.Relay.{selectserver_echoes}
use cs_primer.Sockets.Select.Ends.{Ends, inner_loop_finishes}
use cs_primer.Sockets.Select.Order.{SelectReports, selectserver_in_order}

abbrev talk : List (List ℕ)
talk = (1 ∷ 2 ∷ []) ∷ (3 ∷ []) ∷ []

-- The server's socket is ready until the client has come, then the client, until it has gone.
abbrev one_of : ℕ → List ℕ → List ℕ
one_of fd set = if fd_isset fd set then fd ∷ [] else []

abbrev ready_fds : Log → List Arg → Option (List ℕ)
ready_fds l (num n ∷ text set ∷ _) =
    if ltb (reads 4 l) 3 then some (one_of (if is_open (stage 4 l) then 4 else 3) set) else none
ready_fds l _ = none

abbrev crowd_bytes : Log → Sys → List Arg → Option (List ℕ)
crowd_bytes l Sys.select args = ready_fds l args
crowd_bytes l s args = some (chunk_at talk (reads 4 l))

-- A client takes all that is written to it.
abbrev crowd_ret : Log → Sys → List Arg → Option ℕ
crowd_ret l Sys.write (fd ∷ buf ∷ num n ∷ []) = some n
crowd_ret l s args = sample_ret l s args

abbrev wild : Prog (Unit {0})
wild = pure tt

abbrev crowd : Kernel
crowd = record { ret = crowd_ret; bytes = crowd_bytes; errno = λ l. 0 }

crowd-FreshFds : FreshFds crowd
crowd-FreshFds = record {
  socket_closed = (sample-FreshFds talk).socket_closed;
  accept_closed = (sample-FreshFds talk).accept_closed;
}

crowd_small : (l : Log) (args : List Arg) (c : ℕ) → crowd.ret l Sys.accept args ≡ some c → c < 5
crowd_small l args c e = ground (arith, e)

crowd-HasRoom : HasRoom crowd
crowd-HasRoom = record {
  accept_small = λ l args c e. omega (arith, crowd_small l args c e);
  socket_small = λ l args s e. ground (arith, e);
}

one_of-isset :
    (want fd : ℕ) (set : List ℕ) → fd_isset fd (one_of want set) ≡ true → fd_isset fd set ≡ true
one_of-isset want fd set e = ground (arith, e)

crowd-SelectReports : SelectReports crowd
crowd-SelectReports = record {
  reported = λ l n set args ready fd e x.
      let want : ℕ = if is_open (stage 4 l) then 4 else 3 in
      elim (Bool-cases (ltb (reads 4 l) 3)) [
        | inl f ↦
            let q : one_of want set ≡ ready = some-injective _ _ (rw f at e) in
            one_of-isset want fd set (subst (λ r. fd_isset fd r ≡ true) (sym q) x)
        | inr f ↦ ground (arith, e, f)
      ];
}

abbrev argv : List Str
argv = codes "server" ∷ codes "9190" ∷ []

crowd_run :
    let (r, l) = echo_selectserver wild 5 5 [] argv crowd [] in
    (r ≡ done 0) × (sent is_write 4 l ≡ 1 ∷ 2 ∷ 3 ∷ []) × (short 4 l ≡ 0)
unfolding echo_selectserver cs_primer.Posix.Calls.open_server select_loop members serve_ready
    serve_fd accept_client echo_client fd_set
crowd_run = (refl, refl, refl)

selectserver_echoes_example : PassedOn 4 (echo_selectserver wild 5 5 [] argv crowd []).1
unfolding echo_selectserver cs_primer.Posix.Calls.open_server select_loop members serve_ready
    serve_fd accept_client echo_client fd_set
selectserver_echoes_example = selectserver_echoes wild 5 5 [] argv crowd 4 crowd-HasRoom refl

selectserver_in_order_example :
    After (λ (n : ℕ) (l : Log). n ≡ 0) (echo_selectserver wild 5 5 [] argv crowd [])
selectserver_in_order_example =
    selectserver_in_order crowd crowd-FreshFds crowd-HasRoom crowd-SelectReports wild 5 5 [] argv

-- The server's socket 3 is ready, and a client comes.
abbrev watching : State
watching = record { reads = λ fd. fd == 3; fd_max = 3; buf = [] }

inner_loop_finishes_example : Ends 5 (serve_ready wild 5 3 (3 ∷ []) 0 watching crowd [])
inner_loop_finishes_example =
    inner_loop_finishes crowd wild 5 (omega arith) crowd_small 3 (3 ∷ []) watching [] (omega arith)
