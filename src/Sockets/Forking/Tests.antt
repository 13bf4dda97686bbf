-- ===== src/Sockets/Forking/Tests.antt =====
-- Runs of the servers that fork.
use mathlib.Core.List.{flatten}
use cs_primer.Prelude.{ℕ, ◌≡◌, List, [], ◌∷◌, take, refl}
use cs_primer.Posix.{Sys, Arg, Log, Kernel, done}
use cs_primer.Posix.Text.{Str, codes}
use cs_primer.Posix.Loops.{sent, is_fwrite, is_write}
use cs_primer.Posix.Typestate.{After}
use cs_primer.Posix.Typestate.Serve.{AllClosed}
use cs_primer.Posix.Sample.{sample, sample-FreshFds, sample-Feeds}
use cs_primer.Sockets.Forking.{echo_mpserver, store_process}
use cs_primer.Sockets.Forking.Order.{mpserver_in_order}
use cs_primer.Sockets.Forking.Store.{store_process_keeps_three}

abbrev argv : List Str
argv = codes "server" ∷ codes "9190" ∷ []

abbrev talk : List (List ℕ)
talk = (1 ∷ 2 ∷ []) ∷ (3 ∷ []) ∷ (4 ∷ []) ∷ (5 ∷ []) ∷ []

-- `fork` answers 0: the run is that of the child.
child_run :
    let (r, l) = echo_mpserver 1 5 [] argv (sample talk) [] in
    (r ≡ done 0) × (sent is_write 4 l ≡ 1 ∷ 2 ∷ 3 ∷ 4 ∷ 5 ∷ [])
unfolding echo_mpserver cs_primer.Sockets.Forking.open_forking cs_primer.Posix.Calls.open_server
    cs_primer.Sockets.Forking.fork_loop cs_primer.Sockets.Echo.mp_child cs_primer.Sockets.Echo.echo
    cs_primer.Posix.Loops.read_loop
child_run = (refl, refl)

mpserver_in_order_example : After AllClosed (echo_mpserver 1 5 [] argv (sample talk) [])
mpserver_in_order_example = mpserver_in_order (sample talk) (sample-FreshFds talk) 1 5 [] argv

-- The file opens as 0.
store_process_keeps_three_example :
    let (r, l') = store_process [] 4 (sample talk) [] in
    (r ≡ done 0) × (sent is_fwrite 0 l' ≡ flatten (take 3 talk))
store_process_keeps_three_example =
    store_process_keeps_three 4 0 [] (sample talk) [] talk (sample-Feeds talk) refl refl
