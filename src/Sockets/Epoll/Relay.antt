-- ===== src/Sockets/Epoll/Relay.antt =====
-- What the servers over epoll pass back to their clients.
use cs_primer.Prelude.{
  ℕ, zero, suc, List, [], ◌∷◌, none, some, Bool, true, false, Bool-cases, inl, inr, Option-cases,
  refl, ◌≡◌, arith, ◌==◌, length, drop,
}
use cs_primer.Posix.{Sys, Arg, num, lit, Kernel, Log, Prog, pure, did}
use cs_primer.Posix.Text.{Str}
use cs_primer.Posix.Calls.{say, error_handler, open_server, arg_at}
use cs_primer.Posix.Loops.{failed, overlay, minus_one}
use cs_primer.Posix.Loops.Relay.{take-length}
use cs_primer.Posix.Echoed.{
  IsEchoed, Keeps, Keeps-bind, IsEchoed-nil, quiet_did, quiet_got, say-Keeps, echo_chunk,
  echo_failed, read_end, read_failed, expect_argc-Keeps, open_server-Keeps,
}
use cs_primer.Posix.Taken.{PassedOn, IsEchoed-PassedOn}
use cs_primer.Sockets.Epoll.{
  epoll_size, epoll_ctl_add, fd_arg, add_client, remove_client, echo_once, echo_all,
  setnonblockingmode, add_edge_client, Handlers, handle_events, epoll_loop, level_triggered,
  edge_triggered, epoll_server, echo_epollserver, echo_epltserver, echo_epetserver,
}

module _ {strict : Bool} (k : Kernel) (l : Log) (h : IsEchoed strict l) where
  add_client-Keeps : (epfd : Arg) (s : ℕ) → Keeps strict (add_client epfd s k l)
  unfolding add_client
  add_client-Keeps epfd s = record {
    kept =
        quiet_did Sys.printf _ _ _ refl
          (quiet_did Sys.epoll_ctl _ _ _ refl (quiet_did Sys.accept _ _ l refl h));
  }

  setnonblockingmode-Keeps : (fd : Arg) → Keeps strict (setnonblockingmode fd k l)
  unfolding setnonblockingmode
  setnonblockingmode-Keeps fd = record {
    kept = quiet_did Sys.fcntl _ _ _ refl (quiet_did Sys.fcntl _ _ l refl h);
  }

  add_edge_client-Keeps : (epfd : Arg) (s : ℕ) → Keeps strict (add_edge_client epfd s k l)
  unfolding add_edge_client setnonblockingmode
  add_edge_client-Keeps epfd s = record {
    kept = quiet_did Sys.printf _ _ _ refl (
        quiet_did Sys.epoll_ctl _ _ _ refl (
          quiet_did Sys.fcntl _ _ _ refl
            (quiet_did Sys.fcntl _ _ _ refl (quiet_did Sys.accept _ _ l refl h))));
  }

  remove_client-Keeps : (epfd : Arg) (i : ℕ) → Keeps strict (remove_client epfd i k l)
  unfolding remove_client
  remove_client-Keeps epfd i = record {
    kept =
        quiet_did Sys.printf _ _ _ refl
          (quiet_did Sys.close _ _ _ refl (quiet_did Sys.epoll_ctl _ _ l refl h));
  }

echo_once-Keeps :
    (size : ℕ) (epfd : Arg) (i : ℕ) (buf : List ℕ) (k : Kernel) (l : Log)
    → IsEchoed false l
    → Keeps false (echo_once size epfd i buf k l)
unfolding echo_once
echo_once-Keeps size epfd i buf k l h =
    elim (Option-cases (k.bytes l Sys.read (num i ∷ num size ∷ []))) [
      | inl e ↦ rw e (record { kept = echo_failed i size minus_one buf _ l h })
      | inr ([], e) ↦ rw e (
          Keeps-bind _ k _ (remove_client-Keeps k _ (read_end i size l h) epfd i)
            λ _ l1 h1. record { kept = h1 })
      | inr (b ∷ bs, e) ↦ rw e (record {
        kept =
            echo_chunk i size (length (b ∷ bs)) (overlay (b ∷ bs) buf) (b ∷ bs) _ l
              (take-length (b ∷ bs) (drop (length (b ∷ bs)) buf)) h;
      })
    ]

echo_all-Keeps :
    (fuel size : ℕ) (epfd : Arg) (i : ℕ) (buf : List ℕ) (k : Kernel) (l : Log)
    → IsEchoed true l
    → Keeps true (echo_all fuel size epfd i buf k l)
unfolding echo_all
echo_all-Keeps zero size epfd i buf k l h = record { kept = h }
echo_all-Keeps (suc fuel) size epfd i buf k l h =
    elim (Option-cases (k.bytes l Sys.read (num i ∷ num size ∷ []))) [
      | inl e ↦ rw e (record { kept = read_failed i size l h })
      | inr ([], e) ↦ rw e (
          Keeps-bind _ k _ (remove_client-Keeps k _ (read_end i size l h) epfd i)
            λ _ l1 h1. record { kept = h1 })
      | inr (b ∷ bs, e) ↦ rw e (
          echo_all-Keeps fuel size epfd i (overlay (b ∷ bs) buf) k _ (
            echo_chunk i size (length (b ∷ bs)) (overlay (b ∷ bs) buf) (b ∷ bs) _ l
              (take-length (b ∷ bs) (drop (length (b ∷ bs)) buf)) h))
    ]

-- What the handlers and the outputs of a server keep, the server keeps.
module _ {strict : Bool} (k : Kernel) (hs : Handlers) (wakes : Prog (Unit {0}))
    (joins : (s : ℕ) (l : Log) → IsEchoed strict l → Keeps strict (hs.joins s k l))
    (serves : (i : ℕ) (buf : List ℕ) (l : Log)
      → IsEchoed strict l
      → Keeps strict (hs.serves i buf k l))
    (waking : (l : Log) → IsEchoed strict l → Keeps strict (wakes k l)) where
  handle_events-Keeps :
      (s : ℕ) (is buf : List ℕ) (l : Log)
      → IsEchoed strict l
      → Keeps strict (handle_events hs s is buf k l)
  unfolding handle_events
  handle_events-Keeps s [] buf l h = record { kept = h }
  handle_events-Keeps s (i ∷ is) buf l h = elim (Bool-cases (i == s)) [
    | inl e ↦ rw e (Keeps-bind _ k _ (joins s l h) λ _ l1 h1. handle_events-Keeps s is buf l1 h1)
    | inr e ↦
        rw e (Keeps-bind _ k _ (serves i buf l h) λ buf' l1 h1. handle_events-Keeps s is buf' l1 h1)
  ]

  epoll_loop-Keeps :
      (fuel : ℕ) (epfd : Arg) (s : ℕ) (buf : List ℕ) (l : Log)
      → IsEchoed strict l
      → Keeps strict (epoll_loop fuel hs wakes epfd s buf k l)
  unfolding epoll_loop
  epoll_loop-Keeps zero epfd s buf l h = record { kept = h }
  epoll_loop-Keeps (suc fuel) epfd s buf l h =
      let args = epfd ∷ num epoll_size ∷ lit "-1" ∷ [] in
      elim (Option-cases (k.bytes l Sys.epoll_wait args)) [
        | inl e ↦ rw e (record {
          kept = quiet_did Sys.puts _ _ _ refl (quiet_got Sys.epoll_wait args none l refl h);
        })
        | inr (is, e) ↦ rw e (
            Keeps-bind _ k _ (waking _ (quiet_got Sys.epoll_wait args (some is) l refl h))
              λ _ l1 h1.
                Keeps-bind _ k _ (handle_events-Keeps s is buf l1 h1)
                  λ buf' l2 h2. epoll_loop-Keeps fuel epfd s buf' l2 h2)
      ]

module _ {strict : Bool} (k : Kernel) (handlers : Arg → Handlers) (prepares : ℕ → Prog (Unit {0}))
    (wakes : Prog (Unit {0})) (opens : Prog ℕ)
    (joins : (epfd : Arg) (s : ℕ) (l : Log)
      → IsEchoed strict l
      → Keeps strict ((handlers epfd).joins s k l))
    (serves : (epfd : Arg) (i : ℕ) (buf : List ℕ) (l : Log)
      → IsEchoed strict l
      → Keeps strict ((handlers epfd).serves i buf k l))
    (preparing : (s : ℕ) (l : Log) → IsEchoed strict l → Keeps strict (prepares s k l))
    (waking : (l : Log) → IsEchoed strict l → Keeps strict (wakes k l))
    (opening : (l : Log) → IsEchoed strict l → Keeps strict (opens k l)) where
  epoll_server-Keeps :
      (fuel : ℕ) (buf : List ℕ) (argv : List Str)
      → Keeps strict (epoll_server fuel handlers prepares wakes buf argv opens k [])
  unfolding epoll_server
  epoll_server-Keeps fuel buf argv =
      Keeps-bind _ k _ (expect_argc-Keeps k [] IsEchoed-nil argv 2 _) λ _ l0 h0.
        Keeps-bind _ k _ (opening l0 h0) λ s l1 h1.
          let create = num epoll_size ∷ [] in
          let epfd = fd_arg (k.ret l1 Sys.epoll_create create) in
          let l2 : Log = did Sys.epoll_create create (k.ret l1 Sys.epoll_create create) ∷ l1 in
          Keeps-bind _ k _
            (preparing s l2
              (quiet_did Sys.epoll_create create (k.ret l1 Sys.epoll_create create) l1 refl h1))
            λ _ l3 h3.
              let added = epfd ∷ num epoll_ctl_add ∷ num s ∷ lit "EPOLLIN" ∷ [] in
              let l4 : Log = did Sys.epoll_ctl added (k.ret l3 Sys.epoll_ctl added) ∷ l3 in
              let h4 = quiet_did Sys.epoll_ctl added (k.ret l3 Sys.epoll_ctl added) l3 refl h3 in
              Keeps-bind _ k _
                (epoll_loop-Keeps k (handlers epfd) wakes (joins epfd) (serves epfd) waking fuel
                  epfd s buf l4 h4)
                λ _ l5 h5.
                  let l6 : Log =
                    did Sys.close (num s ∷ []) (k.ret l5 Sys.close (num s ∷ [])) ∷ l5 in
                  let h6 =
                    quiet_did Sys.close (num s ∷ []) (k.ret l5 Sys.close (num s ∷ [])) l5 refl h5 in
                  record {
                    kept =
                        quiet_did Sys.close (epfd ∷ []) (k.ret l6 Sys.close (epfd ∷ [])) l6 refl h6;
                  }

level-Keeps :
    (size fuel : ℕ) (wakes : Prog (Unit {0})) (service : Str) (buf : List ℕ) (argv : List Str)
    (k : Kernel)
    → ((l : Log) → IsEchoed false l → Keeps false (wakes k l))
    → Keeps false (
        epoll_server fuel
          (level_triggered size)
          (λ s. pure tt)
          wakes
          buf
          argv
          (open_server error_handler "socket() error" "bind() error" "listen() error" service)
          k
          [])
level-Keeps size fuel wakes service buf argv k waking =
    epoll_server-Keeps k (level_triggered size) (λ s. pure tt) wakes
      (open_server error_handler "socket() error" "bind() error" "listen() error" service)
      (λ epfd s l h. add_client-Keeps k l h epfd s)
      (λ epfd i b l h. echo_once-Keeps size epfd i b k l h) (λ s l h. record { kept = h }) waking
      (λ l h. open_server-Keeps _ _ _ service k l h) fuel buf argv

-- However the kernel answers, whatever events it reports in whatever order, and after any number of
-- rounds of the loops of echo_epollserver.c and echo_EPLTserver.c: a client none of whose reads has
-- failed has had handed to `write` exactly the bytes that have been read from it, in order; and where
-- each `write` to it has taken all it was given, these are the bytes that have been taken.
pub level_servers_echo :
    (fuel : ℕ) (buf : List ℕ) (argv : List Str) (k : Kernel) (c : ℕ)
    → let plain = (echo_epollserver fuel buf argv k []).1 in
      let level = (echo_epltserver fuel buf argv k []).1 in
      (failed c plain ≡ 0 → PassedOn c plain) × (failed c level ≡ 0 → PassedOn c level)
unfolding echo_epollserver echo_epltserver
level_servers_echo fuel buf argv k c =
    let plain =
      level-Keeps 100 fuel (pure tt) (arg_at argv 1) buf argv k (λ l h. record { kept = h }) in
    let level =
      level-Keeps 4 fuel (say Sys.puts (lit "return epoll wait" ∷ [])) (arg_at argv 1) buf argv k
        (λ l h. say-Keeps k l h Sys.puts (lit "return epoll wait" ∷ []) refl) in
    (
      λ clean. IsEchoed-PassedOn c _ plain.kept (ground (arith, clean)),
      λ clean. IsEchoed-PassedOn c _ level.kept (ground (arith, clean)),
    )

-- However the kernel answers, whatever events it reports in whatever order, and after any number of
-- rounds of echo_EPETserver.c's loops: each client has had handed to `write` exactly the bytes that
-- have been read from it, in order, also where reads of it have failed; and where each `write` to it
-- has taken all it was given, these are the bytes that have been taken.
pub edge_server_echoes :
    (fuel rounds : ℕ) (buf : List ℕ) (argv : List Str) (k : Kernel) (c : ℕ)
    → PassedOn c (echo_epetserver fuel rounds buf argv k []).1
unfolding echo_epetserver
edge_server_echoes fuel rounds buf argv k c =
    let keeps =
      epoll_server-Keeps k (edge_triggered rounds) (λ s. setnonblockingmode (num s))
        (say Sys.puts (lit "return epoll_wait" ∷ []))
        (open_server error_handler "socket() error" "bind() error" "bind() error" (arg_at argv 1))
        (λ epfd s l h. add_edge_client-Keeps k l h epfd s)
        (λ epfd i b l h. echo_all-Keeps rounds 4 epfd i b k l h)
        (λ s l h. setnonblockingmode-Keeps k l h (num s))
        (λ l h. say-Keeps k l h Sys.puts (lit "return epoll_wait" ∷ []) refl)
        (λ l h. open_server-Keeps _ _ _ (arg_at argv 1) k l h) fuel buf argv in
    IsEchoed-PassedOn c _ keeps.kept refl
