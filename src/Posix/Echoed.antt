-- ===== src/Posix/Echoed.antt =====
-- What the servers over select and epoll keep true of the log: what has been read from a client
-- has been handed to `write` for it.
use Prim.Native.String.{String}
use mathlib.Core.List.{append-nil}
use cs_primer.Prelude.{
  ℕ, List, [], ◌∷◌, ◌++◌, Option, none, some, Bool, true, false, ◌≡◌, ◌∙◌, ◌||◌, refl, ap, sym,
  arith, inl, inr, Option-cases, Bool-cases, ◌==◌, length, take,
}
use cs_primer.Posix.{
  Sys, Arg, num, text, lit, did, got, Log, Kernel, Outcome, done, exited, running, Prog, and_then,
}
use cs_primer.Posix.Text.{Str}
use cs_primer.Posix.Calls.{say, must, error_handler, expect_argc, open_server}
use cs_primer.Posix.Loops.{is_read, is_write, sent, received, failed, output, input}

-- What has been read from a client has been handed to `write` for it; where this is not strict,
-- unless a read of it has failed.
pub record IsEchoed (strict : Bool) (l : Log) : Type 0 where
  pub echoed : (c : ℕ) → (strict || failed c l == 0) ≡ true → sent is_write c l ≡ received c l

-- Calls that move no data of clients.
abbrev pub is_quiet : Sys → Bool
is_quiet Sys.read = false
is_quiet Sys.write = false
is_quiet _ = true

quiet-write : (s : Sys) → is_quiet s ≡ true → is_write s ≡ false
quiet-write s e = ground arith

quiet-read : (s : Sys) → is_quiet s ≡ true → is_read s ≡ false
quiet-read s e = ground arith

no_output :
    (c : ℕ) (s : Sys) (args : List Arg) (r : Option ℕ)
    → is_write s ≡ false
    → output is_write c (did s args r) ≡ []
no_output c s args r e = ground (arith, e)

pub quiet_did :
    {strict : Bool}
    → (s : Sys) (args : List Arg) (r : Option ℕ) (l : Log) → is_quiet s ≡ true
    → IsEchoed strict l
    → IsEchoed strict (did s args r ∷ l)
quiet_did s args r l e h = record {
  echoed = λ c clean.
      rw (no_output c s args r (quiet-write s e))
        (append-nil (sent is_write c l) ∙ h.echoed c clean ∙ sym (append-nil (received c l)));
}

no_input :
    (c : ℕ) (s : Sys) (args : List Arg) (r : Option (List ℕ))
    → is_read s ≡ false
    → input c (got s args r) ≡ []
no_input c s args r e = ground (arith, e)

no_failure :
    (c : ℕ) (s : Sys) (args : List Arg) (r : Option (List ℕ)) (l : Log)
    → is_read s ≡ false
    → failed c (got s args r ∷ l) ≡ failed c l
no_failure c s args r l e = ground (arith, e)

pub quiet_got :
    {strict : Bool}
    → (s : Sys) (args : List Arg) (r : Option (List ℕ)) (l : Log) → is_quiet s ≡ true
    → IsEchoed strict l
    → IsEchoed strict (got s args r ∷ l)
quiet_got s args r l e h = record {
  echoed = λ c clean. rw (no_input c s args r (quiet-read s e)) (
      append-nil (sent is_write c l)
      ∙ h.echoed c (rw (no_failure c s args r l (quiet-read s e)) at clean)
      ∙ sym (append-nil (received c l)));
}

-- What is read from a client and sent back.
pub echo_chunk :
    {strict : Bool}
    → (i size n : ℕ) (buf : List ℕ) (bs : List ℕ) (r : Option ℕ) (l : Log) → take n buf ≡ bs
    → IsEchoed strict l
    → IsEchoed strict (
        did Sys.write (num i ∷ text buf ∷ num n ∷ []) r
        ∷ got Sys.read (num i ∷ num size ∷ []) (some bs)
        ∷ l)
echo_chunk i size n buf bs r l e h = record {
  echoed = λ c clean. elim (Bool-cases (i == c)) [
    | inl f ↦
        rw (f, append-nil (sent is_write c l), append-nil (received c l ++ bs), e)
          (ap (λ x. x ++ bs) (h.echoed c (ground (arith, f))))
    | inr f ↦ rw f (ap (λ x. (x ++ []) ++ []) (h.echoed c (ground (arith, f))))
  ];
}

pub echo_failed :
    (i size n : ℕ) (buf : List ℕ) (r : Option ℕ) (l : Log)
    → IsEchoed false l
    → IsEchoed false (
        did Sys.write (num i ∷ text buf ∷ num n ∷ []) r
        ∷ got Sys.read (num i ∷ num size ∷ []) none
        ∷ l)
echo_failed i size n buf r l h = record {
  echoed = λ c clean. elim (Bool-cases (i == c)) [
    | inl f ↦ absurd (ground (arith, f))
    | inr f ↦ rw f (ap (λ x. (x ++ []) ++ []) (h.echoed c (ground (arith, f))))
  ];
}

pub read_end :
    {strict : Bool}
    → (i size : ℕ) (l : Log) → IsEchoed strict l
    → IsEchoed strict (got Sys.read (num i ∷ num size ∷ []) (some []) ∷ l)
read_end i size l h = record {
  echoed = λ c clean.
      ground (arith, h.echoed c, append-nil (sent is_write c l), append-nil (received c l));
}

pub read_failed :
    {strict : Bool}
    → (i size : ℕ) (l : Log) → IsEchoed strict l
    → IsEchoed strict (got Sys.read (num i ∷ num size ∷ []) none ∷ l)
read_failed i size l h = record {
  echoed = λ c clean.
      ground (arith, h.echoed c, clean, append-nil (sent is_write c l), append-nil (received c l));
}

pub IsEchoed-nil : {strict : Bool} → IsEchoed strict []
IsEchoed-nil = record { echoed = λ c clean. refl }

-- A program ends so, or is still running so when its fuel is used up.
pub record Keeps (strict : Bool) {A : Type 0} (r : Outcome A × Log) : Type 0 where
  pub kept : IsEchoed strict r.1

-- A program keeps it if each of its parts does.
pub Keeps-bind :
    {strict : Bool}
    → {A B : Type 0} (r : Outcome A × Log) (k : Kernel) (f : A → Prog B) → Keeps strict r
    → ((a : A) (l : Log) → IsEchoed strict l → Keeps strict (f a k l))
    → Keeps strict (and_then r.0 k r.1 f)
Keeps-bind (done a, l) k f h g = g a l h.kept
Keeps-bind (exited n, l) k f h g = record { kept = h.kept }
Keeps-bind (running, l) k f h g = record { kept = h.kept }

module _ {strict : Bool} (k : Kernel) (l : Log) (h : IsEchoed strict l) where
  pub say-Keeps : (s : Sys) (args : List Arg) → is_quiet s ≡ true → Keeps strict (say s args k l)
  say-Keeps s args e = record { kept = quiet_did s args (k.ret l s args) l e h }

pub error_handler-Keeps :
    {strict : Bool}
    → (A : Type 0) (m : String) (k : Kernel) (l : Log) → IsEchoed strict l
    → Keeps strict (error_handler {A = A} m k l)
unfolding error_handler
error_handler-Keeps A m k l h =
    let l1 = (say Sys.fputs (lit "stderr" ∷ lit m ∷ []) k l).1 in
    let h1 =
      quiet_did Sys.fputs (lit "stderr" ∷ lit m ∷ [])
        (k.ret l Sys.fputs (lit "stderr" ∷ lit m ∷ [])) l refl h in
    record {
      kept =
          quiet_did Sys.fputc (lit "stderr" ∷ num 10 ∷ [])
            (k.ret l1 Sys.fputc (lit "stderr" ∷ num 10 ∷ [])) l1 refl h1;
    }

module _ {strict : Bool} (k : Kernel) (l : Log) (h : IsEchoed strict l) where
  pub must-Keeps :
      (s : Sys) (args : List Arg) (handler : Prog ℕ)
      → is_quiet s ≡ true
      → ((l' : Log) → IsEchoed strict l' → Keeps strict (handler k l'))
      → Keeps strict (must s args handler k l)
  must-Keeps s args handler e fails =
      let h' = quiet_did s args (k.ret l s args) l e h in
      elim (Option-cases (k.ret l s args)) [
        | inl f ↦ rw f (fails _ (rw f at h'))
        | inr (n, f) ↦ rw f (record { kept = rw f at h' })
      ]

  pub expect_argc-Keeps :
      (argv : List Str) (n : ℕ) (usage : String) → Keeps strict (expect_argc argv n usage k l)
  expect_argc-Keeps argv n usage = elim (Bool-cases (length argv == n)) [
    | inl e ↦ rw e (record { kept = h })
    | inr e ↦ rw e (record {
      kept = quiet_did Sys.printf (lit usage ∷ []) (k.ret l Sys.printf (lit usage ∷ [])) l refl h;
    })
  ]

pub open_server-Keeps :
    {strict : Bool}
    → (m1 m2 m3 : String) (service : Str) (k : Kernel) (l : Log) → IsEchoed strict l
    → Keeps strict (open_server error_handler m1 m2 m3 service k l)
unfolding open_server
open_server-Keeps m1 m2 m3 service k l h =
    Keeps-bind _ k _
      (must-Keeps k l h Sys.socket _ (error_handler m1) refl
        (λ l' h'. error_handler-Keeps ℕ m1 k l' h'))
      λ s l1 h1.
        Keeps-bind _ k _
          (must-Keeps k l1 h1 Sys.bind _ (error_handler m2) refl
            (λ l' h'. error_handler-Keeps ℕ m2 k l' h'))
          λ n l2 h2.
            Keeps-bind _ k _
              (must-Keeps k l2 h2 Sys.listen _ (error_handler m3) refl
                (λ l' h'. error_handler-Keeps ℕ m3 k l' h'))
              λ x l3 h3. record { kept = h3 }
