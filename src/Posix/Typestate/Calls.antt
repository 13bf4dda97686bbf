-- ===== src/Posix/Typestate/Calls.antt =====
-- The stages of the descriptors behind the checked calls.
use Prim.Native.String.{String}
use cs_primer.Prelude.{
  ℕ, List, [], ◌∷◌, true, Option, some, none, ◌==◌, ◌≡◌, arith, length, inl, inr, Bool-cases, refl,
}
use cs_primer.Posix.{Sys, Arg, num, did, Log, Kernel, Prog}
use cs_primer.Posix.Text.{Str}
use cs_primer.Posix.Calls.{
  say, must, expect_argc, close, open_server, accept, error_handler, error_exit,
}
use cs_primer.Posix.Typestate.{
  fresh, bound, listening, accepted, closed, is_open, legal, disciplined, FreshFds, Table, find,
  Leaves, After, After-bind,
}

-- A handler makes only legal calls and does not come back.
abbrev pub Quits : Kernel → {A : Type 0} → Prog A → Type 1
Quits k {A} handler =
    (Q : A → Log → Type 0) (l : Log) → disciplined l ≡ true → After Q (handler k l)

pub error_handler-Quits :
    (k : Kernel) (message : String) {A : Type 0} → Quits k (error_handler {A = A} message)
unfolding error_handler
error_handler-Quits k message Q l legal = ground arith

pub error_exit-Quits :
    (k : Kernel) (message : String) {A : Type 0} → Quits k (error_exit {A = A} message)
unfolding error_exit
error_exit-Quits k message Q l legal = ground arith

module _ (k : Kernel) (l : Log) (ok : disciplined l ≡ true) where
  -- A call that has to succeed.
  pub must-After :
      (s : Sys) (args : List Arg) (handler : Prog ℕ) (Q : ℕ → Log → Type 0)
      → legal (did s args (k.ret l s args)) l ≡ true
      → Quits k handler
      → ((n : ℕ) → k.ret l s args ≡ some n → Q n (did s args (some n) ∷ l))
      → After Q (must s args handler k l)
  must-After s args handler Q lawful fails good = go (k.ret l s args) refl lawful
    where
      go :
          (r : Option ℕ)
          → k.ret l s args ≡ r
          → legal (did s args r) l ≡ true
          → After Q (must s args handler k l)
      go none e lawful' = rw e (fails _ _ (ground (arith, lawful')))
      go (some n) e lawful' = rw e (ground (arith, lawful'), good n e)

  module _ (a : Table) (leaves : Leaves l a) where
    pub expect_argc-After :
        (argv : List Str) (n : ℕ) (usage : String)
        → After (λ _ l'. Leaves l' a) (expect_argc argv n usage k l)
    expect_argc-After argv n usage = elim (Bool-cases (length argv == n)) [
      | inl e ↦ rw e (ok, leaves)
      | inr e ↦ rw e (ground arith)
    ]

    module _ (handler : Prog ℕ) (fails : Quits k handler) where
      pub socket-After :
          (args : List Arg)
          → After (λ s l'. Leaves l' ((s, fresh) ∷ a)) (must Sys.socket args handler k l)
      socket-After args =
          must-After Sys.socket args _ _ refl fails (λ s e fd. ground (arith, leaves fd))

      pub bind-After :
          (s : ℕ) (args : List Arg)
          → is_open (find s a) ≡ true
          → After (λ _ l'. Leaves l' ((s, bound) ∷ a)) (must Sys.bind (num s ∷ args) handler k l)
      bind-After s args st =
          must-After Sys.bind (num s ∷ args) _ _ (ground (arith, leaves s)) fails
            (λ n e fd. ground (arith, leaves fd))

      pub listen-After :
          (s : ℕ) (args : List Arg)
          → find s a ≡ bound
          → After
              (λ _ l'. Leaves l' ((s, listening) ∷ a))
              (must Sys.listen (num s ∷ args) handler k l)
      listen-After s args st =
          must-After Sys.listen (num s ∷ args) _ _ (ground (arith, leaves s)) fails
            (λ n e fd. ground (arith, leaves fd))

      pub accept-After :
          FreshFds k
          → (s : ℕ) → find s a ≡ listening
          → After
              (λ c l'. Leaves l' ((c, accepted) ∷ a) × (find c a ≡ closed))
              (accept s handler k l)
      accept-After fresh_fds s st =
          must-After Sys.accept (num s ∷ []) _ _ (ground (arith, leaves s)) fails (λ c e. (
            (λ fd. ground (arith, leaves fd)),
            ground (arith, leaves c, fresh_fds.accept_closed l (num s ∷ []) c e),
          ))

    pub close-After :
        (s : ℕ)
        → is_open (find s a) ≡ true
        → After (λ _ l'. Leaves l' ((s, closed) ∷ a)) (close s k l)
    close-After s st = (ground (arith, leaves s), λ fd. ground (arith, leaves fd))

    pub write-After :
        (s : ℕ) (args : List Arg)
        → find s a ≡ accepted
        → After (λ _ l'. Leaves l' a) (say Sys.write (num s ∷ args) k l)
    write-After s args st = (ground (arith, leaves s), λ fd. ground (arith, leaves fd))

module _ (k : Kernel) (l : Log) (ok : disciplined l ≡ true) (a : Table) (leaves : Leaves l a)
    (handler : String → Prog ℕ) (fails : (m : String) → Quits k (handler m)) where
  pub open_server-After :
      (m1 m2 m3 : String) (service : Str)
      → After
          (λ s l'. Leaves l' ((s, listening) ∷ (s, bound) ∷ (s, fresh) ∷ a))
          (open_server handler m1 m2 m3 service k l)
  unfolding open_server
  open_server-After m1 m2 m3 service =
      After-bind _ _ _ k _ (socket-After k l ok a leaves _ (fails m1) _) λ s l1 ok1 h1.
        After-bind _ _ _ k _
          (bind-After k l1 ok1 ((s, fresh) ∷ a) h1 _ (fails m2) s _ (ground arith))
          λ n l2 ok2 h2.
            After-bind _ _ _ k _
              (listen-After k l2 ok2 ((s, bound) ∷ (s, fresh) ∷ a) h2 _ (fails m3) s _
                (ground arith))
              λ n l3 ok3 h3. (ok3, h3)
