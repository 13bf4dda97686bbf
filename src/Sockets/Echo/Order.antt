-- ===== src/Sockets/Echo/Order.antt =====
-- The order in which the echo server uses its descriptors.
use cs_primer.Prelude.{
  ℕ, zero, suc, List, [], ◌∷◌, some, none, Option-cases, inl, inr, length, ◌≡◌, true, arith, refl,
}
use cs_primer.Posix.{Sys, num, text, got, Log, Kernel, Prog}
use cs_primer.Posix.Text.{Str}
use cs_primer.Posix.Calls.{error_handler}
use cs_primer.Posix.Loops.{read_loop, overlay, minus_one}
use cs_primer.Posix.Typestate.{
  FreshFds, Table, find, accepted, disciplined, Leaves, After, After-bind,
}
use cs_primer.Posix.Typestate.Calls.{expect_argc-After, write-After, error_handler-Quits}
use cs_primer.Posix.Typestate.Serve.{AllClosed, Keeps, serve_one-After}
use cs_primer.Sockets.Echo.{write_back, echo, echo_server}

module _ (k : Kernel) (c size : ℕ) (a : Table) (st : find c a ≡ accepted)
    (body : List ℕ → ℕ → Prog (Unit {0}))
    (keeps : (b : List ℕ) (n : ℕ) (l : Log)
      → disciplined l ≡ true
      → Leaves l a
      → After (λ _ l'. Leaves l' a) (body b n k l)) where
  read_loop-After :
      (fuel : ℕ) (buf : List ℕ) (l : Log)
      → disciplined l ≡ true
      → Leaves l a
      → After (λ _ l'. Leaves l' a) (read_loop fuel c size buf body k l)
  unfolding read_loop
  read_loop-After zero buf l ok h = ok
  read_loop-After (suc fuel) buf l ok h =
      elim (Option-cases (k.bytes l Sys.read (num c ∷ num size ∷ []))) [
        | inl e ↦ rw e (
            After-bind _ _ _ k _
              (keeps buf minus_one (got Sys.read (num c ∷ num size ∷ []) none ∷ l)
                (ground (arith, h c)) (λ fd. ground (arith, h fd)))
              λ _ l1 ok1 h1. read_loop-After fuel buf l1 ok1 h1)
        | inr ([], e) ↦ rw e ((ground (arith, h c)), (λ fd. ground (arith, h fd)))
        | inr (b ∷ bs, e) ↦ rw e (
            After-bind _ _ _ k _
              (keeps (overlay (b ∷ bs) buf) (length (b ∷ bs))
                (got Sys.read (num c ∷ num size ∷ []) (some (b ∷ bs)) ∷ l) (ground (arith, h c))
                (λ fd. ground (arith, h fd)))
              λ _ l1 ok1 h1. read_loop-After fuel (overlay (b ∷ bs) buf) l1 ok1 h1)
      ]

pub echo-Keeps : (fuel size : ℕ) (msg : List ℕ) (k : Kernel) → Keeps k (echo fuel size msg)
unfolding echo
echo-Keeps fuel size msg k c l a ok h st =
    read_loop-After k c size a st (write_back c)
      (λ b n l1 ok1 h1. write-After k l1 ok1 a h1 c (text b ∷ num n ∷ []) st) fuel msg l ok h

-- However the kernel answers, `echo_server` uses its descriptors in order; it exits with status 1,
-- or returns 0 with both sockets closed, or is still echoing when the fuel is used up.
pub echo_server_in_order :
    (fuel : ℕ) (msg : List ℕ) (argv : List Str) (k : Kernel)
    → FreshFds k
    → After AllClosed (echo_server fuel msg argv k [])
unfolding echo_server
echo_server_in_order fuel msg argv k fresh_fds =
    After-bind _ _ _ k _ (expect_argc-After k [] refl [] (λ fd. refl) argv 2 _) λ _ l0 ok0 h0.
      serve_one-After k fresh_fds error_handler (λ m. error_handler-Quits k m) _ _ _ _ _
        (echo fuel 1024 msg) (echo-Keeps fuel 1024 msg k) l0 ok0 h0
