-- ===== src/Sockets/Select/Order.antt =====
-- Which descriptors the server of echo_selectserver.c uses, and when.
use cs_primer.Prelude.{
  ℕ, zero, suc, ◌+◌, ◌≤◌, ◌≡◌, ◌≢◌, List, [], ◌∷◌, some, Bool, true, Bool-cases, inl, inr,
  Option-cases, refl, ltb, ◌==◌, arith,
}
use cs_primer.Posix.{Sys, Arg, num, text, Kernel, Log, Prog}
use cs_primer.Posix.Text.{Str}
use cs_primer.Posix.Calls.{error_handler}
use cs_primer.Posix.Typestate.{stage, listening, accepted, disciplined, FreshFds, After, After-bind}
use cs_primer.Posix.Typestate.Calls.{expect_argc-After, open_server-After, error_handler-Quits}
use cs_primer.Sockets.Select.Room.{HasRoom, open_server-InRoom, After-bind_room}
use cs_primer.Sockets.Select.{
  fd_setsize, fd_set, State, members, fd_isset, accept_client, echo_client, serve_fd, serve_ready,
  select_loop, echo_selectserver,
}

-- What POSIX says of `select`: it reports only descriptors that it is asked about.
pub record SelectReports (k : Kernel) : Type 0 where
  pub reported :
      (l : Log) (n : ℕ) (set : List ℕ) (args : List Arg) (ready : List ℕ) (fd : ℕ)
      → k.bytes l Sys.select (num n ∷ text set ∷ args) ≡ some ready
      → fd_isset fd ready ≡ true
      → fd_isset fd set ≡ true

members_of : (n : ℕ) (s : ℕ → Bool) (fd : ℕ) → fd_isset fd (members n s) ≡ true → s fd ≡ true
unfolding members
members_of zero s fd e = cc
members_of (suc n) s fd e = ground (arith, members_of n s fd)

-- The server listens, and what the set holds beside it has come from `accept`.
record Watched (s : ℕ) (st : State) (l : Log) : Type 0 where
  pub serving : stage s l ≡ listening
  pub watched : (fd : ℕ) → fd ≢ s → st.reads fd ≡ true → stage fd l ≡ accepted

-- What is ready from `i` on is in the set.
abbrev Pending : ℕ → List ℕ → State → Type 0
Pending i ready st = (fd : ℕ) → i ≤ fd → fd_isset fd ready ≡ true → st.reads fd ≡ true

abbrev Next : ℕ → ℕ → List ℕ → State → Log → Type 0
Next s i ready st l = Watched s st l × Pending i ready st

module _ (k : Kernel) (fresh_fds : FreshFds k) (room : HasRoom k) (wild : Prog (Unit {0})) (s : ℕ)
    (ready : List ℕ) where
  module _ (i : ℕ) (st : State) (l : Log) (ok : disciplined l ≡ true) (h : Watched s st l)
      (p : Pending i ready st) where
    later : Pending (i + 1) ready st
    later fd a = p fd (omega (arith, a))

    accept_client-After : After (Next s (i + 1) ready) (accept_client wild s st k l)
    unfolding accept_client fd_set
    accept_client-After = elim (Option-cases (k.ret l Sys.accept (num s ∷ []))) [
      | inl e ↦ rw e (
        ground (arith, h.serving, ok),
        (record { serving = h.serving; watched = h.watched }, later),
      )
      | inr (c, e) ↦
          let unused = fresh_fds.accept_closed l (num s ∷ []) c e in
          let roomy : ltb c fd_setsize ≡ true =
            ground (arith, room.accept_small l (num s ∷ []) c e) in
          rw (e, roomy)
            (
              ground (arith, h.serving, ok),
              (
                record {
                  serving = ground (arith, h.serving, unused);
                  watched = λ fd other x. ground (arith, h.watched fd other, x);
                },
                λ fd a x. ground (arith, later fd a x),
              ),
            )
    ]

    echo_client-After :
        i ≢ s → st.reads i ≡ true → After (Next s (i + 1) ready) (echo_client i st k l)
    unfolding echo_client
    echo_client-After apart on =
        let lawful = h.watched i apart on in
        elim (Option-cases (k.bytes l Sys.read (num i ∷ num 100 ∷ []))) [
          | inl e ↦ rw e (
            ground (arith, lawful, ok),
            (record { serving = h.serving; watched = h.watched }, later),
          )
          | inr ([], e) ↦ rw e (
            ground (arith, lawful, ok),
            (
              record {
                serving = ground (arith, h.serving, apart);
                watched = λ fd other x. ground (arith, h.watched fd other, x);
              },
              λ fd a x. ground (arith, later fd a x, a),
            ),
          )
          | inr (b ∷ bs, e) ↦ rw e (
            ground (arith, lawful, ok),
            (record { serving = h.serving; watched = h.watched }, later),
          )
        ]

    serve_fd-After : After (Next s (i + 1) ready) (serve_fd wild s ready i st k l)
    unfolding serve_fd
    serve_fd-After = elim (Bool-cases (fd_isset i ready)) [
      | inl e ↦ elim (Bool-cases (i == s)) [
        | inl f ↦ rw (e, f) accept_client-After
        | inr f ↦ rw (e, f) (echo_client-After (ground (arith, f)) (p i (omega arith) e))
      ]
      | inr e ↦ rw e (ok, (h, later))
    ]

  serve_ready-After :
      (rounds i : ℕ) (st : State) (l : Log)
      → disciplined l ≡ true
      → Watched s st l
      → Pending i ready st
      → After (Watched s) (serve_ready wild rounds s ready i st k l)
  unfolding serve_ready
  serve_ready-After zero i st l ok h p = elim (Bool-cases (ltb i (st.fd_max + 1))) [
    | inl e ↦ rw e ok
    | inr e ↦ rw e (ok, h)
  ]
  serve_ready-After (suc rounds) i st l ok h p = elim (Bool-cases (ltb i (st.fd_max + 1))) [
    | inl e ↦ rw e (
        After-bind _ _ _ k _ (serve_fd-After i st l ok h p)
          λ st' l' ok' h'. serve_ready-After rounds (i + 1) st' l' ok' h'.0 h'.1)
    | inr e ↦ rw e (ok, h)
  ]

module _ (k : Kernel) (fresh_fds : FreshFds k) (room : HasRoom k) (reports : SelectReports k)
    (wild : Prog (Unit {0})) where
  select_loop-After :
      (fuel rounds s : ℕ) (st : State) (l : Log)
      → disciplined l ≡ true
      → Watched s st l
      → After (λ _ l'. stage s l' ≡ listening) (select_loop wild fuel rounds s st k l)
  unfolding select_loop
  select_loop-After zero rounds s st l ok h = ok
  select_loop-After (suc fuel) rounds s st l ok h =
      let set = members (st.fd_max + 1) st.reads in
      let args : List Arg = num (st.fd_max + 1) ∷ text set ∷ num 5 ∷ num 5000 ∷ [] in
      let asked =
        λ (ready : List ℕ) (e : k.bytes l Sys.select args ≡ some ready) (fd : ℕ)
            (x : fd_isset fd ready ≡ true).
          members_of (st.fd_max + 1) st.reads fd
            (reports.reported l (st.fd_max + 1) set (num 5 ∷ num 5000 ∷ []) ready fd e x) in
      elim (Option-cases (k.bytes l Sys.select args)) [
        | inl e ↦ rw e (ok, h.serving)
        | inr ([], e) ↦ rw e (
            select_loop-After fuel rounds s st _ ok
              (record { serving = h.serving; watched = h.watched }))
        | inr (i ∷ is, e) ↦
            let p = λ (fd : ℕ) (a : 0 ≤ fd). asked (i ∷ is) e fd in
            rw e (
              After-bind _ _ _ k _
                (serve_ready-After k fresh_fds room wild s (i ∷ is) rounds 0 st _ ok
                  (record { serving = h.serving; watched = h.watched }) p)
                λ st' l' ok' h'. select_loop-After fuel rounds s st' l' ok' h')
      ]

  -- As long as `socket` and `accept` return descriptors below FD_SETSIZE that are not open, and
  -- `select` reports only descriptors that it is asked about: however the kernel answers otherwise,
  -- echo_selectserver.c reads and writes only descriptors that `accept` has returned and that it has
  -- not closed since, closes only open ones, and accepts only on a socket that listens; it exits with
  -- status 1, returns 0, or is still serving when the fuel is used up.
  pub selectserver_in_order :
      (fuel rounds : ℕ) (buf : List ℕ) (argv : List Str)
      → After (λ n l. n ≡ 0) (echo_selectserver wild fuel rounds buf argv k [])
  unfolding echo_selectserver fd_set
  selectserver_in_order fuel rounds buf argv =
      After-bind _ _ _ k _ (expect_argc-After k [] refl [] (λ fd. refl) argv 2 _) λ _ l0 ok0 h0.
        After-bind_room _ _ _ k _ (open_server-InRoom _ _ _ _ k l0 room)
          (open_server-After k l0 ok0 [] h0 error_handler (λ m. error_handler-Quits k m) _ _ _ _)
          λ s l1 roomy ok1 h1. rw roomy (
            After-bind _ _ _ k _
              (select_loop-After fuel rounds s _ l1 ok1 (record {
                serving = ground (arith, h1 s);
                watched = λ fd other x. ground (arith, other, x);
              }))
              λ _ l2 ok2 h2. (ground (arith, ok2, h2), refl))
