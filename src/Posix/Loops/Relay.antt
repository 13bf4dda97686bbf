-- ===== src/Posix/Loops/Relay.antt =====
-- Loops that pass on each chunk that they read.
use mathlib.Core.Path.{subst, ap₂}
use cs_primer.Prelude.{
  ℕ, zero, suc, ◌<◌, ◌≡◌, refl, ap, ◌∙◌, sym, List, [], ◌∷◌, ◌++◌, none, some, Bool, inl, inr,
  Option-cases, arith, length, take, drop,
}
use mathlib.Core.List.{append-nil, append_assoc, flatten}
use cs_primer.Posix.{Sys, Arg, num, got, Log, Kernel, Outcome, done, Prog, bind_done}
use cs_primer.Posix.Loops.{read_loop, minus_one, overlay, sent, received, reads, failed, input}

pub take-length {ℓ} : {A : Type ℓ} (xs ys : List A) → take (length xs) (xs ++ ys) ≡ xs
take-length [] ys = refl
take-length (x ∷ xs) ys = ap (λ l. x ∷ l) (take-length xs ys)

-- The body sends its buffer to `o`, once, and touches `fd` no more.
abbrev pub Relays : (Sys → Bool) → ℕ → ℕ → (List ℕ → ℕ → Prog (Unit {0})) → Type 0
Relays p o fd body =
    (b : List ℕ) (n : ℕ) (k : Kernel) (l : Log)
    → (l' : Log) × (body b n k l ≡ (done tt, l'))
      × (sent p o l' ≡ sent p o l ++ take n b)
      × (received fd l' ≡ received fd l)
      × (failed fd l' ≡ failed fd l)
      × (reads fd l' ≡ reads fd l)

-- Unless a read has failed, what has gone to `o` is what has come from `fd`.
abbrev pub IsRelayed : (Sys → Bool) → ℕ → ℕ → Log → Type 0
IsRelayed p o fd l = failed fd l ≡ 0 → sent p o l ≡ received fd l

module _ (p : Sys → Bool) (o fd size : ℕ) (body : List ℕ → ℕ → Prog (Unit {0}))
    (relays : Relays p o fd body) (k : Kernel) where
  abbrev args : List Arg
  args = num fd ∷ num size ∷ []

  abbrev loop : ℕ → List ℕ → Log → Outcome (Unit {0}) × Log
  loop fuel buf l = read_loop fuel fd size buf body k l

  loop-none :
      (fuel : ℕ) (buf : List ℕ) (l : Log)
      → k.bytes l Sys.read args ≡ none
      → loop (suc fuel) buf l
        ≡ loop fuel buf (relays buf minus_one k (got Sys.read args none ∷ l)).0
  unfolding read_loop
  loop-none fuel buf l e =
      let l1 : Log = got Sys.read args none ∷ l in
      rw e (
        bind_done (body buf minus_one) (λ _. read_loop fuel fd size buf body) {k = k} {l = l1}
          (relays buf minus_one k l1).1)

  loop-end :
      (fuel : ℕ) (buf : List ℕ) (l : Log)
      → k.bytes l Sys.read args ≡ some []
      → loop (suc fuel) buf l ≡ (done tt, got Sys.read args (some []) ∷ l)
  unfolding read_loop
  loop-end fuel buf l e = rw e

  loop-some :
      (fuel : ℕ) (buf : List ℕ) (l : Log) (b : ℕ) (bs : List ℕ)
      → k.bytes l Sys.read args ≡ some (b ∷ bs)
      → loop (suc fuel) buf l
        ≡ loop fuel
            (overlay (b ∷ bs) buf)
            (relays
              (overlay (b ∷ bs) buf)
              (length (b ∷ bs))
              k
              (got Sys.read args (some (b ∷ bs)) ∷ l)).0
  unfolding read_loop
  loop-some fuel buf l b bs e =
      let l1 : Log = got Sys.read args (some (b ∷ bs)) ∷ l in
      let buf' = overlay (b ∷ bs) buf in
      rw e (
        bind_done (body buf' (length (b ∷ bs))) (λ _. read_loop fuel fd size buf' body) {k = k}
          {l = l1} (relays buf' (length (b ∷ bs)) k l1).1)

  IsRelayed-some :
      (l : Log) (buf : List ℕ) (b : ℕ) (bs : List ℕ)
      → IsRelayed p o fd l
      → IsRelayed p o fd
          (relays
            (overlay (b ∷ bs) buf)
            (length (b ∷ bs))
            k
            (got Sys.read args (some (b ∷ bs)) ∷ l)).0
  IsRelayed-some l buf b bs h clean =
      let l1 : Log = got Sys.read args (some (b ∷ bs)) ∷ l in
      let r = relays (overlay (b ∷ bs) buf) (length (b ∷ bs)) k l1 in
      let old : failed fd l ≡ 0 = ground (arith, r.4) in
      ground (
        arith,
        r.2,
        r.3,
        append-nil (sent p o l),
        take-length (b ∷ bs) (drop (length (b ∷ bs)) buf),
        h old,
      )

  -- The loop keeps `IsRelayed`, whatever the kernel answers, with any fuel.
  pub read_loop-IsRelayed :
      (fuel : ℕ) (buf : List ℕ) (l : Log)
      → IsRelayed p o fd l
      → IsRelayed p o fd (loop fuel buf l).1
  unfolding read_loop
  read_loop-IsRelayed zero buf l h = h
  read_loop-IsRelayed (suc fuel) buf l h = elim (Option-cases (k.bytes l Sys.read args)) [
    | inl e ↦
        let r = relays buf minus_one k (got Sys.read args none ∷ l) in
        subst (λ (x : Outcome (Unit {0}) × Log). IsRelayed p o fd x.1)
          (sym (loop-none fuel buf l e))
          (read_loop-IsRelayed fuel buf r.0 (λ clean. absurd (ground (arith, r.4))))
    | inr ([], e) ↦
        subst (λ (x : Outcome (Unit {0}) × Log). IsRelayed p o fd x.1) (sym (loop-end fuel buf l e))
          (λ clean. ground (arith, h, append-nil (received fd l), append-nil (sent p o l)))
    | inr (b ∷ bs, e) ↦
        let r =
          relays (overlay (b ∷ bs) buf) (length (b ∷ bs)) k
            (got Sys.read args (some (b ∷ bs)) ∷ l) in
        subst (λ (x : Outcome (Unit {0}) × Log). IsRelayed p o fd x.1)
          (sym (loop-some fuel buf l b bs e))
          (read_loop-IsRelayed fuel (overlay (b ∷ bs) buf) r.0 (IsRelayed-some l buf b bs h))
  ]

-- The kernel feeds `fd` with the chunks, one to a read, and then with its end. A chunk is no longer
-- than what is asked for, and not empty.
abbrev pub chunk_at : List (List ℕ) → ℕ → List ℕ
chunk_at [] n = []
chunk_at (c ∷ cs) zero = c
chunk_at (c ∷ cs) (suc n) = chunk_at cs n

abbrev pub Feeds : Kernel → ℕ → List (List ℕ) → Type 0
Feeds k fd chunks =
    (l : Log) (n : ℕ)
    → k.bytes l Sys.read (num fd ∷ num n ∷ []) ≡ some (chunk_at chunks (reads fd l))

abbrev pub Full : List (List ℕ) → Type 0
Full [] = Unit
Full (c ∷ cs) = (0 < length c) × Full cs

pub chunk_end : (chunks : List (List ℕ)) (n : ℕ) → drop n chunks ≡ [] → chunk_at chunks n ≡ []
chunk_end [] zero e = refl
chunk_end [] (suc n) e = refl
chunk_end (c ∷ cs) zero e = cc
chunk_end (c ∷ cs) (suc n) e = chunk_end cs n e

pub chunk_next :
    (chunks : List (List ℕ)) (n : ℕ) (c : List ℕ) (cs : List (List ℕ))
    → drop n chunks ≡ c ∷ cs
    → (chunk_at chunks n ≡ c) × (drop (suc n) chunks ≡ cs)
chunk_next [] zero c cs e = cc
chunk_next [] (suc n) c cs e = cc
chunk_next (d ∷ ds) zero c cs e = (cc, cc)
chunk_next (d ∷ ds) (suc n) c cs e = chunk_next ds n c cs e

join-cons :
    (x y c : List ℕ) (rest : List (List ℕ))
    → x ≡ y ++ c
    → x ++ flatten rest ≡ y ++ flatten (c ∷ rest)
unfolding flatten
join-cons x y c rest e = ap (λ z. z ++ flatten rest) e ∙ append_assoc y c (flatten rest)

input_self :
    (fd size : ℕ) (bs : List ℕ) → input fd (got Sys.read (num fd ∷ num size ∷ []) (some bs)) ≡ bs
input_self fd size bs = ground arith

flatten_none : flatten {A = ℕ} [] ≡ []
unfolding flatten
flatten_none = refl

-- A loop over a fed descriptor ends, and has then read all chunks: `rest` is what is still to come.
module _ (p : Sys → Bool) (o fd size : ℕ) (body : List ℕ → ℕ → Prog (Unit {0}))
    (relays : Relays p o fd body) (k : Kernel) (chunks : List (List ℕ))
    (feeds : Feeds k fd chunks) where
  pub relay_ends :
      (rest : List (List ℕ)) (fuel : ℕ) (buf : List ℕ) (l : Log)
      → drop (reads fd l) chunks ≡ rest
      → Full rest
      → length rest < fuel
      → let (r, l') = read_loop fuel fd size buf body k l in
        (r ≡ done tt)
        × (sent p o l' ≡ sent p o l ++ flatten rest)
        × (received fd l' ≡ received fd l ++ flatten rest)
  relay_ends [] zero buf l e full h = elim h [ ]
  relay_ends [] (suc fuel) buf l e full h =
      rw
        (loop-end p o fd size body relays k fuel buf l
          (feeds l size ∙ ap some (chunk_end chunks (reads fd l) e)))
        (
          refl,
          rw flatten_none refl,
          ap (λ x. received fd l ++ x) (input_self fd size [] ∙ sym flatten_none),
        )
  relay_ends (c ∷ rest) zero buf l e full h = elim h [ ]
  relay_ends ([] ∷ rest) (suc fuel) buf l e full h = absurd (omega arith)
  relay_ends ((b ∷ bs) ∷ rest) (suc fuel) buf l e full h =
      let next = chunk_next chunks (reads fd l) (b ∷ bs) rest e in
      let l1 : Log = got Sys.read (num fd ∷ num size ∷ []) (some (b ∷ bs)) ∷ l in
      let buf' = overlay (b ∷ bs) buf in
      let r = relays buf' (length (b ∷ bs)) k l1 in
      let one_more : reads fd r.0 ≡ suc (reads fd l) = ground (arith, r.4) in
      let ih =
        relay_ends rest fuel buf' r.0 (ap (λ n. drop n chunks) one_more ∙ next.1) full.1
          (omega arith) in
      rw (loop-some p o fd size body relays k fuel buf l b bs (feeds l size ∙ ap some next.0)) (
        ih.0,
        ih.1
            ∙ join-cons (sent p o r.0) (sent p o l) (b ∷ bs) rest (
                r.2
                ∙ ap₂ ◌++◌ (append-nil (sent p o l))
                    (take-length (b ∷ bs) (drop (length (b ∷ bs)) buf))),
        ih.2
            ∙ join-cons (received fd r.0) (received fd l) (b ∷ bs) rest
                (r.3 ∙ ap (λ x. received fd l ++ x) (input_self fd size (b ∷ bs))),
      )
