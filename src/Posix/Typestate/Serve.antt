-- ===== src/Posix/Typestate/Serve.antt =====
-- The stages of the descriptors in servers for one client.
use Prim.Native.String.{String}
use cs_primer.Prelude.{ℕ, [], ◌∷◌, true, ◌≡◌, arith, refl}
use cs_primer.Posix.{Sys, num, did, Log, Kernel, Prog}
use cs_primer.Posix.Text.{Str}
use cs_primer.Posix.Calls.{serve_one}
use cs_primer.Posix.Typestate.{
  fresh, bound, listening, accepted, closed, stage, disciplined, FreshFds, Table, find, Leaves,
  After, After-bind,
}
use cs_primer.Posix.Typestate.Calls.{Quits, open_server-After, accept-After, close-After}

-- What a program says of itself when it is done: it returns 0 and leaves no descriptor open.
abbrev pub AllClosed : ℕ → Log → Type 0
AllClosed n l = (n ≡ 0) × ((fd : ℕ) → stage fd l ≡ closed)

-- A program that moves data only on its client's descriptor and neither opens nor closes one.
abbrev pub Keeps : Kernel → (ℕ → Prog (Unit {0})) → Type 0
Keeps k body =
    (c : ℕ) (l : Log) (a : Table)
    → disciplined l ≡ true
    → Leaves l a
    → find c a ≡ accepted
    → After (λ _ l'. Leaves l' a) (body c k l)

module _ (k : Kernel) (fresh_fds : FreshFds k) (handler : String → Prog ℕ)
    (fails : (m : String) → Quits k (handler m)) where
  pub serve_one-After :
      (m1 m2 m3 m4 : String) (service : Str) (body : ℕ → Prog (Unit {0}))
      → Keeps k body
      → (l : Log) → disciplined l ≡ true
      → Leaves l []
      → After AllClosed (serve_one handler m1 m2 m3 m4 service body k l)
  unfolding serve_one
  serve_one-After m1 m2 m3 m4 service body keeps l ok h =
      After-bind _ _ _ k _ (open_server-After k l ok [] h handler fails m1 m2 m3 service)
        λ s l1 ok1 h1.
          let a1 : Table = (s, listening) ∷ (s, bound) ∷ (s, fresh) ∷ [] in
          After-bind _ _ _ k _ (accept-After k l1 ok1 a1 h1 _ (fails m4) fresh_fds s (ground arith))
            λ c l2 ok2 h2.
              let a2 : Table = (c, accepted) ∷ a1 in
              After-bind _ _ _ k _ (keeps c l2 a2 ok2 h2.0 (ground arith)) λ _ l3 ok3 h3.
                let a3 : Table = (c, closed) ∷ a2 in
                let h4 = close-After k l3 ok3 a2 h3 c (ground arith) in
                let l4 : Log = did Sys.close (num c ∷ []) (k.ret l3 Sys.close (num c ∷ [])) ∷ l3 in
                let h5 = close-After k l4 h4.0 a3 h4.1 s (ground (arith, h2.1)) in
                (h5.0, (refl, λ fd. ground (arith, h5.1 fd)))
