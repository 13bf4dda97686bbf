-- ===== src/Fifo/Answer.antt =====
-- What fifo_server.c answers.
use mathlib.Core.List.{append-nil, flatten}
use cs_primer.Prelude.{
  ℕ, ◌<◌, ◌≡◌, ◌∙◌, ap, sym, ◌++◌, List, [], ◌∷◌, none, some, arith, refl, length, take,
}
use cs_primer.Posix.{Sys, lit, num, text, did, Log, Kernel, done, bind_done, ◌>>◌}
use cs_primer.Posix.Calls.{close}
use cs_primer.Posix.Text.{Str}
use cs_primer.Posix.Loops.{sent, received, reads, is_write}
use cs_primer.Posix.Loops.Relay.{Relays, Feeds, Full, take-length}
use cs_primer.Posix.Loops.While.{read_while, while_ends}
use cs_primer.Fifo.{write_chunk, heading, max_size, complaint, answer}

pub write_chunk-Relays : (w fd : ℕ) → Relays is_write w fd (write_chunk w)
write_chunk-Relays w fd b n k l = (_, refl, ground arith, append-nil (received fd l), refl, refl)

-- Where the file of the request opens as `fd` and is read in chunks, none of them empty, to its end,
-- fifo_server.c comes to the end of its answer, and has sent to the client the heading and the
-- whole file; where it does not open, it has sent the path and the reason, cut to the buffer.
pub answer_sends_file :
    (fuel : ℕ) (strerror : ℕ → Str) (buf : List ℕ) (start w fd : ℕ) (path : Str) (k : Kernel)
    (l : Log) (chunks : List (List ℕ))
    → Feeds k fd chunks
    → reads fd l ≡ 0
    → Full chunks
    → length chunks < fuel
    → let (r, l') = answer fuel strerror buf start w path k l in
      (k.ret l Sys.open_file (text path ∷ lit "O_RDONLY" ∷ []) ≡ some fd
        → (r ≡ done tt) × (sent is_write w l' ≡ (sent is_write w l ++ heading) ++ flatten chunks))
      × (k.ret l Sys.open_file (text path ∷ lit "O_RDONLY" ∷ []) ≡ none
          → (r ≡ done tt)
            × (sent is_write w l'
                ≡ sent is_write w l
                  ++ complaint strerror start path
                      (k.errno (did Sys.open_file (text path ∷ lit "O_RDONLY" ∷ []) none ∷ l))))
unfolding answer
answer_sends_file fuel strerror buf start w fd path k l chunks feeds first full enough =
    let opening = text path ∷ lit "O_RDONLY" ∷ [] in
    let l1 : Log = did Sys.open_file opening (some fd) ∷ l in
    let greeting = num w ∷ text heading ∷ num 23 ∷ [] in
    let l2 : Log = did Sys.write greeting (k.ret l1 Sys.write greeting) ∷ l1 in
    let (a, b) =
      while_ends is_write w fd max_size (write_chunk w) (write_chunk-Relays w fd) k chunks feeds
        fuel buf l2 first full enough in
    let l3 = (read_while fuel fd max_size buf (write_chunk w) k l2).1 in
    let greeted : sent is_write w l2 ≡ sent is_write w l ++ heading =
      ground (arith, append-nil (sent is_write w l)) in
    let message = complaint strerror start path (k.errno (did Sys.open_file opening none ∷ l)) in
    let whole = ap (take (length message)) (sym (append-nil message)) ∙ take-length message [] in
    (
      λ e.
          rw
            (
              e,
              bind_done (read_while fuel fd max_size buf (write_chunk w)) (λ _. close fd >> close w)
                  {k = k} {l = l2} (ap (λ o. (o, l3)) a),
            )
            (
              refl,
              append-nil (sent is_write w l3 ++ [])
                  ∙ append-nil (sent is_write w l3)
                  ∙ b
                  ∙ ap (λ x. x ++ flatten chunks) greeted,
            ),
      λ e. rw e (
        refl,
        ground (
          arith,
          whole,
          append-nil (sent is_write w l),
          append-nil (sent is_write w l ++ message),
        ),
      ),
    )
