-- ===== src/Sockets/Select/Relay.antt =====
-- What the server of echo_selectserver.c passes back to its clients.
use cs_primer.Prelude.{
  false, ℕ, zero, suc, ◌+◌, List, [], ◌∷◌, none, some, Bool-cases, inl, inr, Option-cases, refl,
  ltb, ◌≡◌, true, arith, ◌==◌, length, drop,
}
use cs_primer.Posix.{Sys, num, text, Kernel, Log, Prog}
use cs_primer.Posix.Text.{Str}
use cs_primer.Posix.Loops.{failed, overlay, minus_one}
use cs_primer.Posix.Loops.Relay.{take-length}
use cs_primer.Posix.Echoed.{
  IsEchoed, Keeps, Keeps-bind, IsEchoed-nil, quiet_did, quiet_got, echo_chunk, echo_failed,
  read_end, expect_argc-Keeps, open_server-Keeps,
}
use cs_primer.Posix.Taken.{PassedOn, IsEchoed-PassedOn}
use cs_primer.Sockets.Select.Room.{HasRoom, open_server-InRoom, Keeps-bind_room}
use cs_primer.Sockets.Select.{
  fd_setsize, fd_set, State, fd_isset, accept_client, echo_client, members, serve_fd, serve_ready,
  select_loop, echo_selectserver,
}

accept_client-Keeps :
    (wild : Prog (Unit {0})) (s : ℕ) (st : State) (k : Kernel) (l : Log)
    → HasRoom k
    → IsEchoed false l
    → Keeps false (accept_client wild s st k l)
unfolding accept_client fd_set
accept_client-Keeps wild s st k l room h = elim (Option-cases (k.ret l Sys.accept (num s ∷ []))) [
  | inl e ↦ rw e (record { kept = quiet_did Sys.accept _ _ l refl h })
  | inr (c, e) ↦
      let roomy : ltb c fd_setsize ≡ true = ground (arith, room.accept_small l (num s ∷ []) c e) in
      rw (e, roomy)
        (record { kept = quiet_did Sys.printf _ _ _ refl (quiet_did Sys.accept _ _ l refl h) })
]

echo_client-Keeps :
    (i : ℕ) (st : State) (k : Kernel) (l : Log)
    → IsEchoed false l
    → Keeps false (echo_client i st k l)
unfolding echo_client
echo_client-Keeps i st k l h = elim (Option-cases (k.bytes l Sys.read (num i ∷ num 100 ∷ []))) [
  | inl e ↦ rw e (record { kept = echo_failed i 100 minus_one st.buf _ l h })
  | inr ([], e) ↦ rw e (record {
    kept = quiet_did Sys.printf _ _ _ refl (quiet_did Sys.close _ _ _ refl (read_end i 100 l h));
  })
  | inr (b ∷ bs, e) ↦ rw e (record {
    kept =
        echo_chunk i 100 (length (b ∷ bs)) (overlay (b ∷ bs) st.buf) (b ∷ bs) _ l
          (take-length (b ∷ bs) (drop (length (b ∷ bs)) st.buf)) h;
  })
]

serve_fd-Keeps :
    (wild : Prog (Unit {0})) (s : ℕ) (cpy_reads : List ℕ) (i : ℕ) (st : State) (k : Kernel)
    (l : Log)
    → HasRoom k
    → IsEchoed false l
    → Keeps false (serve_fd wild s cpy_reads i st k l)
unfolding serve_fd
serve_fd-Keeps wild s cpy_reads i st k l room h = elim (Bool-cases (fd_isset i cpy_reads)) [
  | inl e ↦ elim (Bool-cases (i == s)) [
    | inl f ↦ rw (e, f) (accept_client-Keeps wild s st k l room h)
    | inr f ↦ rw (e, f) (echo_client-Keeps i st k l h)
  ]
  | inr e ↦ rw e (record { kept = h })
]

serve_ready-Keeps :
    (wild : Prog (Unit {0})) (rounds s : ℕ) (cpy_reads : List ℕ) (i : ℕ) (st : State) (k : Kernel)
    (l : Log)
    → HasRoom k
    → IsEchoed false l
    → Keeps false (serve_ready wild rounds s cpy_reads i st k l)
unfolding serve_ready
serve_ready-Keeps wild zero s cpy_reads i st k l room h =
    elim (Bool-cases (ltb i (st.fd_max + 1))) [
      | inl e ↦ rw e (record { kept = h })
      | inr e ↦ rw e (record { kept = h })
    ]
serve_ready-Keeps wild (suc rounds) s cpy_reads i st k l room h =
    elim (Bool-cases (ltb i (st.fd_max + 1))) [
      | inl e ↦ rw e (
          Keeps-bind _ k _ (serve_fd-Keeps wild s cpy_reads i st k l room h)
            (λ st' l' h'. serve_ready-Keeps wild rounds s cpy_reads (i + 1) st' k l' room h'))
      | inr e ↦ rw e (record { kept = h })
    ]

select_loop-Keeps :
    (wild : Prog (Unit {0})) (fuel rounds s : ℕ) (st : State) (k : Kernel) (l : Log)
    → HasRoom k
    → IsEchoed false l
    → Keeps false (select_loop wild fuel rounds s st k l)
unfolding select_loop
select_loop-Keeps wild zero rounds s st k l room h = record { kept = h }
select_loop-Keeps wild (suc fuel) rounds s st k l room h =
    let args =
      num (st.fd_max + 1) ∷ text (members (st.fd_max + 1) st.reads) ∷ num 5 ∷ num 5000 ∷ [] in
    elim (Option-cases (k.bytes l Sys.select args)) [
      | inl e ↦ rw e (record { kept = quiet_got Sys.select args none l refl h })
      | inr ([], e) ↦ rw e (
          select_loop-Keeps wild fuel rounds s st k _ room
            (quiet_got Sys.select args (some []) l refl h))
      | inr (i ∷ is, e) ↦ rw e (
          Keeps-bind _ k _
            (serve_ready-Keeps wild rounds s (i ∷ is) 0 st k _ room
              (quiet_got Sys.select args (some (i ∷ is)) l refl h))
            (λ st' l' h'. select_loop-Keeps wild fuel rounds s st' k l' room h'))
    ]

selectserver-Keeps :
    (wild : Prog (Unit {0})) (fuel rounds : ℕ) (buf : List ℕ) (argv : List Str) (k : Kernel)
    → HasRoom k
    → Keeps false (echo_selectserver wild fuel rounds buf argv k [])
unfolding echo_selectserver fd_set
selectserver-Keeps wild fuel rounds buf argv k room =
    Keeps-bind _ k _ (expect_argc-Keeps k [] IsEchoed-nil argv 2 _) λ _ l0 h0.
      Keeps-bind_room _ k _ (open_server-InRoom _ _ _ _ k l0 room)
        (open_server-Keeps _ _ _ _ k l0 h0)
        λ s l1 roomy h1. rw roomy (
          Keeps-bind _ k _ (select_loop-Keeps wild fuel rounds s _ k l1 room h1) λ _ l2 h2. record {
            kept = quiet_did Sys.close (num s ∷ []) (k.ret l2 Sys.close (num s ∷ [])) l2 refl h2;
          })

-- As long as an `fd_set` has room for every descriptor that the kernel makes: however the kernel
-- answers otherwise, in whatever order it finds the clients ready, and after any number of rounds of
-- echo_selectserver.c's loops, each client none of whose reads has failed has had handed to `write`
-- exactly the bytes that have been read from it, in order; and where each `write` to it has taken all
-- it was given, these are the bytes that have been taken.
pub selectserver_echoes :
    (wild : Prog (Unit {0})) (fuel rounds : ℕ) (buf : List ℕ) (argv : List Str) (k : Kernel) (c : ℕ)
    → HasRoom k
    → let l = (echo_selectserver wild fuel rounds buf argv k []).1 in failed c l ≡ 0 → PassedOn c l
selectserver_echoes wild fuel rounds buf argv k c room clean =
    let l = (echo_selectserver wild fuel rounds buf argv k []).1 in
    let h = (selectserver-Keeps wild fuel rounds buf argv k room).kept in
    IsEchoed-PassedOn c l h (ground (arith, clean))
