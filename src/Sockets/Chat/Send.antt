-- ===== src/Sockets/Chat/Send.antt =====
-- Who gets a message.
use mathlib.Core.List.{append-nil, append_assoc}
use cs_primer.Prelude.{
  ℕ, zero, suc, ◌+◌, ◌≡◌, ◌==◌, if◌then◌else◌, refl, ◌∙◌, sym, ap, List, [], ◌∷◌, ◌++◌, Bool-cases,
  inl, inr,
}
use cs_primer.Posix.{Sys, num, text, lit, Event, did, Log, Kernel, done}
use cs_primer.Sockets.Chat.{Clients, send_rounds, send_msg}

-- The descriptors that the text `msg` of length `len` has been written to, in order.
abbrev addressee : Event → List ℕ
addressee (did Sys.write (num c ∷ args) r) = c ∷ []
addressee _ = []

unfoldable pub addressees : Log → List ℕ
addressees [] = []
addressees (e ∷ l) = addressees l ++ addressee e

-- The clients in the slots from `i` on, `n` of them, without `self`.
unfoldable pub others : ℕ → ℕ → ℕ → (ℕ → ℕ) → List ℕ
others zero i self vec = []
others (suc n) i self vec =
    let rest = others n (i + 1) self vec in if vec i == self then rest else vec i ∷ rest

send_rounds-addressees :
    (n i : ℕ) (msg : List ℕ) (len self : ℕ) (vec : ℕ → ℕ) (k : Kernel) (l : Log)
    → let (r, l') = send_rounds n i msg len self vec k l in
      (r ≡ done tt) × (addressees l' ≡ addressees l ++ others n i self vec)
unfolding send_rounds addressees others
send_rounds-addressees zero i msg len self vec k l = (refl, sym (append-nil (addressees l)))
send_rounds-addressees (suc n) i msg len self vec k l = elim (Bool-cases (vec i == self)) [
  | inl me ↦ rw me (send_rounds-addressees n (i + 1) msg len self vec k l)
  | inr other ↦
      let args = num (vec i) ∷ text msg ∷ num len ∷ [] in
      let rest =
        send_rounds-addressees n (i + 1) msg len self vec k
          (did Sys.write args (k.ret l Sys.write args) ∷ l) in
      rw other
        (rest.0, rest.1 ∙ append_assoc (addressees l) (vec i ∷ []) (others n (i + 1) self vec))
]

-- A message goes once to every slot of the table that does not hold its sender, in order, and
-- `send_msg` comes to its end.
pub send_msg-addressees :
    (msg : List ℕ) (len self : ℕ) (s : Clients) (k : Kernel) (l : Log)
    → let (r, l') = send_msg msg len self s k l in
      (r ≡ done tt) × (addressees l' ≡ addressees l ++ others s.clnt_cnt 0 self s.vec)
unfolding send_msg addressees
send_msg-addressees msg len self s k l =
    let lock = lit "mutex" ∷ [] in
    let l1 : Log = did Sys.pthread_mutex_lock lock (k.ret l Sys.pthread_mutex_lock lock) ∷ l in
    let sent = send_rounds-addressees s.clnt_cnt 0 msg len self s.vec k l1 in
    rw sent.0 (
      refl,
      append-nil (addressees (send_rounds s.clnt_cnt 0 msg len self s.vec k l1).1)
          ∙ sent.1
          ∙ ap (λ x. x ++ others s.clnt_cnt 0 self s.vec) (append-nil (addressees l)),
    )
