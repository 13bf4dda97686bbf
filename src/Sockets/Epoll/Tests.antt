-- ===== src/Sockets/Epoll/Tests.antt =====
-- A run of the servers over epoll, with one client that comes, sends two chunks and goes.
use cs_primer.Prelude.{ℕ, ◌≡◌, List, [], ◌∷◌, Option, some, none, if◌then◌else◌, ltb, refl}
use cs_primer.Posix.{Sys, Arg, num, Log, Kernel, done}
use cs_primer.Posix.Text.{Str, codes}
use cs_primer.Posix.Loops.{failed, sent, is_write, reads}
use cs_primer.Posix.Loops.Relay.{chunk_at}
use cs_primer.Posix.Typestate.{stage, is_open}
use cs_primer.Posix.Sample.{sample_ret}
use cs_primer.Posix.Taken.{PassedOn, short}
use cs_primer.Sockets.Epoll.{echo_epollserver, echo_epltserver, echo_epetserver}
use cs_primer.Sockets.Epoll.Relay.{level_servers_echo, edge_server_echoes}

-- The server's socket is ready until the client has come, then the client, until it has gone.
abbrev crowd_bytes : Log → Sys → List Arg → Option (List ℕ)
crowd_bytes l Sys.epoll_wait args =
    if ltb (reads 4 l) 3 then some ((if is_open (stage 4 l) then 4 else 3) ∷ []) else none
crowd_bytes l s args = some (chunk_at ((1 ∷ 2 ∷ []) ∷ (3 ∷ []) ∷ []) (reads 4 l))

-- A client takes all that is written to it.
abbrev crowd_ret : Log → Sys → List Arg → Option ℕ
crowd_ret l Sys.write (fd ∷ buf ∷ num n ∷ []) = some n
crowd_ret l s args = sample_ret l s args

abbrev crowd : Kernel
crowd = record { ret = crowd_ret; bytes = crowd_bytes; errno = λ l. 0 }

abbrev argv : List Str
argv = codes "server" ∷ codes "9190" ∷ []

level_run :
    let (r, l) = echo_epltserver 5 [] argv crowd [] in
    (r ≡ done 0) × (sent is_write 4 l ≡ 1 ∷ 2 ∷ 3 ∷ []) × (failed 4 l ≡ 0) × (short 4 l ≡ 0)
unfolding echo_epltserver cs_primer.Sockets.Epoll.epoll_server cs_primer.Posix.Calls.open_server
    cs_primer.Sockets.Epoll.epoll_loop cs_primer.Sockets.Epoll.handle_events
    cs_primer.Sockets.Epoll.add_client cs_primer.Sockets.Epoll.echo_once
    cs_primer.Sockets.Epoll.remove_client
level_run = (refl, refl, refl, refl)

edge_run :
    let (r, l) = echo_epetserver 5 5 [] argv crowd [] in
    (r ≡ done 0) × (sent is_write 4 l ≡ 1 ∷ 2 ∷ 3 ∷ []) × (failed 4 l ≡ 0) × (short 4 l ≡ 0)
unfolding echo_epetserver cs_primer.Sockets.Epoll.epoll_server cs_primer.Posix.Calls.open_server
    cs_primer.Sockets.Epoll.setnonblockingmode cs_primer.Sockets.Epoll.epoll_loop
    cs_primer.Sockets.Epoll.handle_events cs_primer.Sockets.Epoll.add_edge_client
    cs_primer.Sockets.Epoll.echo_all cs_primer.Sockets.Epoll.remove_client
edge_run = (refl, refl, refl, refl)

level_servers_echo_example :
    let plain = (echo_epollserver 5 [] argv crowd []).1 in
    let level = (echo_epltserver 5 [] argv crowd []).1 in
    (failed 4 plain ≡ 0 → PassedOn 4 plain) × (failed 4 level ≡ 0 → PassedOn 4 level)
level_servers_echo_example = level_servers_echo 5 [] argv crowd 4

edge_server_echoes_example : PassedOn 4 (echo_epetserver 5 5 [] argv crowd []).1
edge_server_echoes_example = edge_server_echoes 5 5 [] argv crowd 4
