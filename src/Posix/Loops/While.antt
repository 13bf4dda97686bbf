-- ===== src/Posix/Loops/While.antt =====
-- `while((n = read(...)) > 0)`, which ends where a read fails.
use cs_primer.Prelude.{
  ℕ, zero, suc, ◌<◌, ◌≡◌, refl, ◌∙◌, sym, List, [], ◌∷◌, ◌++◌, none, some, Bool, inl, inr,
  Option-cases, arith, length,
}
use mathlib.Core.List.{flatten}
use cs_primer.Posix.{
  Sys, num, got, Log, Kernel, done, Prog, bind_done, ◌>>=◌, ◌>>◌, pure, out_of_fuel, fetch,
}
use cs_primer.Posix.Loops.{read_loop, overlay, sent, reads}
use cs_primer.Posix.Loops.Relay.{Relays, Feeds, Full, relay_ends}

unfoldable pub read_while : ℕ → ℕ → ℕ → List ℕ → (List ℕ → ℕ → Prog (Unit {0})) → Prog (Unit {0})
read_while zero fd size buf body = out_of_fuel
read_while (suc fuel) fd size buf body = do
  r ← fetch Sys.read (num fd ∷ num size ∷ [])
  elim r [
    | none ↦ pure tt
    | some [] ↦ pure tt
    | some (b ∷ bs) ↦ do
      body (overlay (b ∷ bs) buf) (length (b ∷ bs))
      read_while fuel fd size (overlay (b ∷ bs) buf) body
  ]

module _ (p : Sys → Bool) (o fd size : ℕ) (body : List ℕ → ℕ → Prog (Unit {0}))
    (relays : Relays p o fd body) (k : Kernel) (chunks : List (List ℕ))
    (feeds : Feeds k fd chunks) where
  -- Where no read fails, it does what `while((n = read(...)) != 0)` does.
  while_same :
      (fuel : ℕ) (buf : List ℕ) (l : Log)
      → read_while fuel fd size buf body k l ≡ read_loop fuel fd size buf body k l
  unfolding read_while read_loop
  while_same zero buf l = refl
  while_same (suc fuel) buf l = elim (Option-cases (k.bytes l Sys.read (num fd ∷ num size ∷ []))) [
    | inl e ↦ ground (arith, e, feeds l size)
    | inr ([], e) ↦ rw e refl
    | inr (b ∷ bs, e) ↦
        let l1 : Log = got Sys.read (num fd ∷ num size ∷ []) (some (b ∷ bs)) ∷ l in
        let buf' = overlay (b ∷ bs) buf in
        let r = relays buf' (length (b ∷ bs)) k l1 in
        rw e (
          bind_done (body buf' (length (b ∷ bs))) (λ _. read_while fuel fd size buf' body) {k = k}
            {l = l1} r.1
          ∙ while_same fuel buf' r.0
          ∙ sym (
              bind_done (body buf' (length (b ∷ bs))) (λ _. read_loop fuel fd size buf' body)
                {k = k} {l = l1} r.1))
  ]

  -- Over a fed descriptor the loop ends, and has passed on all chunks.
  pub while_ends :
      (fuel : ℕ) (buf : List ℕ) (l : Log)
      → reads fd l ≡ 0
      → Full chunks
      → length chunks < fuel
      → let (r, l') = read_while fuel fd size buf body k l in
        (r ≡ done tt) × (sent p o l' ≡ sent p o l ++ flatten chunks)
  while_ends fuel buf l start full enough =
      let (a, b, c) =
        relay_ends p o fd size body relays k chunks feeds chunks fuel buf l (rw start refl) full
          enough in
      rw (while_same fuel buf l) (a, b)
