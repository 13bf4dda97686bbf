-- ===== src/Sockets/Select/Ends.antt =====
-- The pass of echo_selectserver.c over its descriptors.
use cs_primer.Prelude.{
  ℕ, zero, suc, ◌+◌, ◌<◌, ◌≤◌, ◌≡◌, List, [], ◌∷◌, some, Bool-cases, Option-cases, inl, inr, refl,
  ltb, ◌==◌, true, arith,
}
use cs_primer.Posix.{Sys, Arg, num, Log, Kernel, Outcome, Prog, done, bind_done}
use cs_primer.Sockets.Select.{
  fd_setsize, fd_set, State, fd_isset, accept_client, echo_client, serve_fd, serve_ready,
}

-- What a program comes to that ends with a state whose descriptors are below `bound`.
pub record Ends (bound : ℕ) (r : Outcome State × Log) : Type 0 where
  pub st : State
  pub log : Log
  pub ends : r ≡ (done st, log)
  pub below : st.fd_max < bound

module _ (k : Kernel) (wild : Prog (Unit {0})) (bound : ℕ) (room : bound ≤ fd_setsize)
    (small : (l : Log) (args : List Arg) (c : ℕ) → k.ret l Sys.accept args ≡ some c → c < bound)
    (s : ℕ) (ready : List ℕ) where
  accept_client-Ends :
      (st : State) (l : Log) → st.fd_max < bound → Ends bound (accept_client wild s st k l)
  unfolding accept_client fd_set
  accept_client-Ends st l h = elim (Option-cases (k.ret l Sys.accept (num s ∷ []))) [
    | inl e ↦ rw e (record { st = st; log = _; ends = refl; below = h })
    | inr (c, e) ↦
        let roomy : ltb c fd_setsize ≡ true = ground (arith, room, small l (num s ∷ []) c e) in
        rw (e, roomy)
          (record {
            st = _;
            log = _;
            ends = refl;
            below = ground (arith, h, small l (num s ∷ []) c e);
          })
  ]

  echo_client-Ends :
      (i : ℕ) (st : State) (l : Log) → st.fd_max < bound → Ends bound (echo_client i st k l)
  unfolding echo_client
  echo_client-Ends i st l h = elim (Option-cases (k.bytes l Sys.read (num i ∷ num 100 ∷ []))) [
    | inl e ↦ rw e (record { st = st; log = _; ends = refl; below = h })
    | inr ([], e) ↦ rw e (record { st = _; log = _; ends = refl; below = h })
    | inr (b ∷ bs, e) ↦ rw e (record { st = _; log = _; ends = refl; below = h })
  ]

  serve_fd-Ends :
      (i : ℕ) (st : State) (l : Log)
      → st.fd_max < bound
      → Ends bound (serve_fd wild s ready i st k l)
  unfolding serve_fd
  serve_fd-Ends i st l h = elim (Bool-cases (fd_isset i ready)) [
    | inl e ↦ elim (Bool-cases (i == s)) [
      | inl f ↦ rw (e, f) (accept_client-Ends st l h)
      | inr f ↦ rw (e, f) (echo_client-Ends i st l h)
    ]
    | inr e ↦ rw e (record { st = st; log = l; ends = refl; below = h })
  ]

  serve_ready-Ends :
      (rounds i : ℕ) (st : State) (l : Log)
      → bound ≤ i + rounds
      → st.fd_max < bound
      → Ends bound (serve_ready wild rounds s ready i st k l)
  unfolding serve_ready
  serve_ready-Ends zero i st l a h = elim (Bool-cases (ltb i (st.fd_max + 1))) [
    | inl e ↦ absurd (ground (arith, a, h, e))
    | inr e ↦ rw e (record { st = st; log = l; ends = refl; below = h })
  ]
  serve_ready-Ends (suc rounds) i st l a h = elim (Bool-cases (ltb i (st.fd_max + 1))) [
    | inl e ↦
        let one = serve_fd-Ends i st l h in
        rw
          (
            e,
            bind_done (serve_fd wild s ready i st)
                (λ st'. serve_ready wild rounds s ready (i + 1) st') {k = k} {l = l} one.ends,
          )
          (serve_ready-Ends rounds (i + 1) one.st one.log (omega (arith, a)) one.below)
    | inr e ↦ rw e (record { st = st; log = l; ends = refl; below = h })
  ]

  -- Where every descriptor that `accept` returns is below `bound`, and so is the largest so far, and an
  -- `fd_set` has room for `bound` descriptors, the
  -- inner loop of echo_selectserver.c, started at 0 with `bound` rounds, comes to its end, however
  -- the kernel answers otherwise and whichever clients come and go on the way; the largest descriptor
  -- is then still below `bound`.
  pub inner_loop_finishes :
      (st : State) (l : Log)
      → st.fd_max < bound
      → Ends bound (serve_ready wild bound s ready 0 st k l)
  inner_loop_finishes st l h = serve_ready-Ends bound 0 st l (omega arith) h
