-- ===== src/Sockets/Forking/Order.antt =====
-- The order in which the processes of echo_mpserver.c use their descriptors.
use cs_primer.Prelude.{
  ℕ, zero, suc, List, [], ◌∷◌, Option, some, none, Option-cases, inl, inr, ◌≡◌, ◌≢◌, true, arith,
  refl,
}
use cs_primer.Posix.{Sys, num, lit, did, Log, Kernel, Prog}
use cs_primer.Posix.Text.{Str}
use cs_primer.Posix.Calls.{error_handler}
use cs_primer.Posix.Typestate.{
  accepted, listening, closed, FreshFds, disciplined, Leaves, After, After-bind,
}
use cs_primer.Posix.Typestate.Calls.{expect_argc-After, error_handler-Quits, open_server-After}
use cs_primer.Posix.Typestate.Serve.{AllClosed}
use cs_primer.Sockets.Echo.{mp_child}
use cs_primer.Sockets.Echo.Order.{echo-Keeps}
use cs_primer.Sockets.Forking.{after_fork, fork_loop, open_forking, echo_mpserver}

-- Only the server's socket is open, and listens.
abbrev Serving : ℕ → Log → Type 0
Serving s l = Leaves l ((s, listening) ∷ [])

module _ (k : Kernel) (fresh_fds : FreshFds k) where
  -- The child closes both sockets.
  mp_child-After :
      (reads : ℕ) (msg : List ℕ) (s c : ℕ) (l : Log)
      → s ≢ c
      → disciplined l ≡ true
      → Leaves l ((c, accepted) ∷ (s, listening) ∷ [])
      → After AllClosed (mp_child reads msg s c k l)
  unfolding mp_child
  mp_child-After reads msg s c l apart ok h =
      let l1 : Log = did Sys.close (num s ∷ []) (k.ret l Sys.close (num s ∷ [])) ∷ l in
      After-bind _ _ _ k _
        (echo-Keeps reads 30 msg k c l1 ((s, closed) ∷ (c, accepted) ∷ (s, listening) ∷ [])
          (ground (arith, apart, ok, h s)) (λ fd. ground (arith, h fd)) (ground (arith, apart)))
        λ _ l2 ok2 h2. (ground (arith, apart, ok2, h2 c), (refl, λ fd. ground (arith, h2 fd)))

  module _ (child : ℕ → Prog ℕ) (s : ℕ)
      (lawful : (c : ℕ) (l : Log)
        → s ≢ c
        → disciplined l ≡ true
        → Leaves l ((c, accepted) ∷ (s, listening) ∷ [])
        → After AllClosed (child c k l)) where
    after_fork-After :
        (goes_on : Prog ℕ) (l : Log) (c : ℕ)
        → s ≢ c
        → disciplined l ≡ true
        → Leaves l ((c, accepted) ∷ (s, listening) ∷ [])
        → ((l' : Log) → disciplined l' ≡ true → Serving s l' → After AllClosed (goes_on k l'))
        → (r : Option ℕ)
        → After AllClosed (after_fork r c (child c) goes_on k (did Sys.fork [] r ∷ l))
    after_fork-After goes_on l c apart ok h next none =
        next _ (ground (arith, ok, h c)) (λ fd. ground (arith, apart, h fd))
    after_fork-After goes_on l c apart ok h next (some zero) = lawful c _ apart ok h
    after_fork-After goes_on l c apart ok h next (some (suc pid)) =
        next _ (ground (arith, ok, h c)) (λ fd. ground (arith, apart, h fd))

    fork_loop-After :
        (fuel : ℕ) (l : Log)
        → disciplined l ≡ true
        → Serving s l
        → After AllClosed (fork_loop fuel child s k l)
    unfolding fork_loop
    fork_loop-After zero l ok h = ok
    fork_loop-After (suc fuel) l ok h = elim (Option-cases (k.ret l Sys.accept (num s ∷ []))) [
      | inl e ↦ rw e (fork_loop-After fuel _ (ground (arith, ok, h s)) (λ fd. ground (arith, h fd)))
      | inr (c, e) ↦
          let unused = fresh_fds.accept_closed l (num s ∷ []) c e in
          let apart : s ≢ c = λ same. ground (arith, same, h s, unused) in
          let l1 : Log = did Sys.accept (num s ∷ []) (some c) ∷ l in
          let l2 : Log =
            did Sys.puts (lit "new client connected..." ∷ [])
              (k.ret l1 Sys.puts (lit "new client connected..." ∷ []))
            ∷ l1 in
          rw e (
            after_fork-After (fork_loop fuel child s) l2 c apart (ground (arith, ok, h s))
              (λ fd. ground (arith, h fd)) (λ l' ok' h'. fork_loop-After fuel l' ok' h')
              (k.ret l2 Sys.fork []))
    ]

  -- As long as `socket` and `accept` return descriptors that are not open: however the kernel answers
  -- otherwise, each process of echo_mpserver.c uses its descriptors in order. It exits with status
  -- 1, or returns 0 with all descriptors closed, or is still serving when the fuel is used up.
  pub mpserver_in_order :
      (fuel reads : ℕ) (msg : List ℕ) (argv : List Str)
      → After AllClosed (echo_mpserver fuel reads msg argv k [])
  unfolding echo_mpserver open_forking
  mpserver_in_order fuel reads msg argv =
      After-bind _ _ _ k _ (expect_argc-After k [] refl [] (λ fd. refl) argv 2 _) λ _ l0 ok0 h0.
        let caught = lit "SIGCHLD" ∷ lit "read_childproc" ∷ [] in
        let l1 : Log = did Sys.sigaction caught (k.ret l0 Sys.sigaction caught) ∷ l0 in
        After-bind _ _ _ k _
          (open_server-After k l1 ok0 [] h0 error_handler (λ m. error_handler-Quits k m) _ _ _ _)
          λ s l2 ok2 h2.
            fork_loop-After (mp_child reads msg s) s
              (λ c l apart ok h. mp_child-After reads msg s c l apart ok h) fuel l2 ok2
              (λ fd. ground (arith, h2 fd))
