-- ===== src/Sockets/Forking/Store.antt =====
-- What the process of echo_storeserver.c that stores messages leaves in the file.
use mathlib.Core.List.{append-nil, append_assoc, flatten}
use mathlib.Core.Path.{ap₂}
use cs_primer.Prelude.{
  ℕ, zero, suc, List, [], ◌∷◌, ◌++◌, some, ◌==◌, ◌≡◌, ◌∙◌, true, ap, sym, arith, refl, length, take,
  drop,
}
use cs_primer.Posix.{Sys, num, text, lit, did, got, Log, Kernel, done, pure, bind_done, ◌>>◌}
use cs_primer.Posix.Calls.{say}
use cs_primer.Posix.Loops.{sent, reads, is_fwrite, overlay}
use cs_primer.Posix.Loops.Relay.{Feeds, chunk_next, chunk_end, take-length}
use cs_primer.Sockets.Forking.{store_messages, store_process}

drop_end : (n : ℕ) (chunks : List (List ℕ)) → drop n chunks ≡ [] → drop (suc n) chunks ≡ []
drop_end zero [] e = refl
drop_end zero (c ∷ cs) e = cc
drop_end (suc n) [] e = refl
drop_end (suc n) (c ∷ cs) e = drop_end n cs e

take_nil : (n : ℕ) → take {A = List ℕ} n [] ≡ []
take_nil zero = refl
take_nil (suc n) = refl

module _ (fd fp : ℕ) (k : Kernel) (chunks : List (List ℕ)) (feeds : Feeds k fd chunks) where
  -- One read, and what is stored of it.
  round :
      (bs msgbuf : List ℕ) (l : Log)
      → let l1 =
          did Sys.fwrite (num fp ∷ text (overlay bs msgbuf) ∷ num (length bs) ∷ []) (
            k.ret
              (got Sys.read (num fd ∷ num 100 ∷ []) (some bs) ∷ l)
              Sys.fwrite
              (num fp ∷ text (overlay bs msgbuf) ∷ num (length bs) ∷ []))
          ∷ got Sys.read (num fd ∷ num 100 ∷ []) (some bs)
          ∷ l in
        (sent is_fwrite fp l1 ≡ sent is_fwrite fp l ++ bs) × (reads fd l1 ≡ suc (reads fd l))
  round bs msgbuf l =
      let hit : (fp == fp) ≡ true = ground arith in
      (
        rw hit (
            ap₂ ◌++◌ (append-nil (sent is_fwrite fp l)) (take-length bs (drop (length bs) msgbuf))),
        ground arith,
      )

  stores :
      (n : ℕ) (rest : List (List ℕ)) (msgbuf : List ℕ) (l : Log)
      → drop (reads fd l) chunks ≡ rest
      → let (r, l') = store_messages n msgbuf fd fp k l in
        (r ≡ done tt) × (sent is_fwrite fp l' ≡ sent is_fwrite fp l ++ flatten (take n rest))
  unfolding store_messages flatten
  stores zero rest msgbuf l e = (refl, sym (append-nil (sent is_fwrite fp l)))
  stores (suc n) [] msgbuf l e =
      let (written, one_more) = round [] msgbuf l in
      let (a, b) =
        stores n [] (overlay [] msgbuf) _
          (ap (λ i. drop i chunks) one_more ∙ drop_end (reads fd l) chunks e) in
      rw (feeds l 100 ∙ ap some (chunk_end chunks (reads fd l) e))
        (a, b ∙ ap₂ ◌++◌ (written ∙ append-nil (sent is_fwrite fp l)) (ap flatten (take_nil n)))
  stores (suc n) (c ∷ rest) msgbuf l e =
      let (now, later) = chunk_next chunks (reads fd l) c rest e in
      let (written, one_more) = round c msgbuf l in
      let (a, b) = stores n rest (overlay c msgbuf) _ (ap (λ i. drop i chunks) one_more ∙ later) in
      rw (feeds l 100 ∙ ap some now) (
        a,
        b
            ∙ ap (λ x. x ++ flatten (take n rest)) written
            ∙ append_assoc (sent is_fwrite fp l) c (flatten (take n rest)),
      )

-- Where the file opens as `fp`, and the pipe delivers the chunks, one to a read, and then its end,
-- the storing process of echo_storeserver.c returns 0, and the file has got the first three chunks,
-- in order, and nothing else.
pub store_process_keeps_three :
    (fd fp : ℕ) (msgbuf : List ℕ) (k : Kernel) (l : Log) (chunks : List (List ℕ))
    → Feeds k fd chunks
    → reads fd l ≡ 0
    → k.ret l Sys.fopen (lit "echomsg.txt" ∷ lit "wt" ∷ []) ≡ some fp
    → let (r, l') = store_process msgbuf fd k l in
      (r ≡ done 0) × (sent is_fwrite fp l' ≡ sent is_fwrite fp l ++ flatten (take 3 chunks))
unfolding store_process
store_process_keeps_three fd fp msgbuf k l chunks feeds first opens =
    let l1 : Log = did Sys.fopen (lit "echomsg.txt" ∷ lit "wt" ∷ []) (some fp) ∷ l in
    let (a, b) = stores fd fp k chunks feeds 3 chunks msgbuf l1 (ap (λ i. drop i chunks) first) in
    let l2 = (store_messages 3 msgbuf fd fp k l1).1 in
    rw
      (
        opens,
        bind_done {B = ℕ} (store_messages 3 msgbuf fd fp)
            (λ _. say Sys.fclose (num fp ∷ []) >> pure 0) {k = k} {l = l1} (ap (λ o. (o, l2)) a),
      )
      (
        refl,
        append-nil (sent is_fwrite fp l2)
            ∙ b
            ∙ ap (λ x. x ++ flatten (take 3 chunks)) (append-nil (sent is_fwrite fp l)),
      )
