-- ===== src/Pipe/Server.antt =====
-- What the server of pipe.c sends, and what becomes of it at the client.
use mathlib.Core.List.{append-nil, append_assoc, flatten}
use mathlib.Core.Path.{subst, ap₂}
use cs_primer.Prelude.{
  ℕ, suc, ◌<◌, ◌≡◌, ◌≢◌, ◌∙◌, ap, sym, ◌++◌, List, [], ◌∷◌, map, none, some, true, arith, refl,
  ◌==◌, length, take, drop,
}
use cs_primer.Posix.{Sys, lit, num, text, did, got, Log, Kernel, Prog, done, bind_done, ◌>>◌}
use cs_primer.Posix.Calls.{close}
use cs_primer.Posix.Text.{Str, codes}
use cs_primer.Posix.Loops.{sent, reads, is_write, overlay}
use cs_primer.Posix.Loops.Relay.{Feeds, Full, take-length}
use cs_primer.Posix.Loops.While.{read_while, while_ends}
use cs_primer.Fifo.{c_string, max_size, write_chunk}
use cs_primer.Fifo.Answer.{write_chunk-Relays}
use cs_primer.Fifo.Request.{IsText}
use cs_primer.Pipe.{message, pipe_heading, pipe_answer, fifo_heading, server, client}
use cs_primer.Pipe.Client.{is_fputs, Types, Fits, client_asks_and_prints, c_string-append}

take-all : (s : List ℕ) → take (length s) s ≡ s
take-all s = ap (take (length s)) (sym (append-nil s)) ∙ take-length s []

-- The answer, where the file opens as `fd`, and where it does not open.
pipe_answer_sends :
    (fuel : ℕ) (strerror : ℕ → Str) (buf name : List ℕ) (w fd : ℕ) (k : Kernel) (l : Log)
    (chunks : List (List ℕ))
    → Feeds k fd chunks
    → reads fd l ≡ 0
    → Full chunks
    → length chunks < fuel
    → let (r, l') = pipe_answer fuel strerror buf name w k l in
      (k.ret l Sys.open_file (text (c_string name) ∷ lit "O_RDONLY" ∷ []) ≡ some fd
        → (r ≡ done tt)
          × (sent is_write w l'
              ≡ sent is_write w l ++ (pipe_heading ++ (flatten chunks ++ codes "\n"))))
      × (k.ret l Sys.open_file (text (c_string name) ∷ lit "O_RDONLY" ∷ []) ≡ none
          → (r ≡ done tt)
            × ((e : ℕ)
                → k.errno (did Sys.open_file (text (c_string name) ∷ lit "O_RDONLY" ∷ []) none ∷ l)
                  ≡ e
                → sent is_write w l' ≡ sent is_write w l ++ message strerror name e))
unfolding pipe_answer
pipe_answer_sends fuel strerror buf name w fd k l chunks feeds first full enough =
    let opening = text (c_string name) ∷ lit "O_RDONLY" ∷ [] in
    let l1 : Log = did Sys.open_file opening (some fd) ∷ l in
    let greeting = num w ∷ text pipe_heading ∷ num 19 ∷ [] in
    let l2 : Log = did Sys.write greeting (k.ret l1 Sys.write greeting) ∷ l1 in
    let buf' = overlay (name ++ 0 ∷ []) buf in
    let (a, b) =
      while_ends is_write w fd max_size (write_chunk w) (write_chunk-Relays w fd) k chunks feeds
        fuel buf' l2 first full enough in
    let l3 = (read_while fuel fd max_size buf' (write_chunk w) k l2).1 in
    let hit : (w == w) ≡ true = ground arith in
    let greeted : sent is_write w l2 ≡ sent is_write w l ++ pipe_heading =
      rw hit (ap (λ x. x ++ pipe_heading) (append-nil (sent is_write w l))) in
    (
      λ e.
          rw
            (
              e,
              bind_done (read_while fuel fd max_size buf' (write_chunk w))
                  (λ _. write_chunk w (codes "\n") 1 >> close fd) {k = k} {l = l2}
                  (ap (λ o. (o, l3)) a),
            )
            (
              refl,
              rw hit (
                  append-nil (sent is_write w l3 ++ codes "\n")
                  ∙ ap (λ x. x ++ codes "\n") (b ∙ ap (λ x. x ++ flatten chunks) greeted)
                  ∙ append_assoc (sent is_write w l ++ pipe_heading) (flatten chunks) (codes "\n")
                  ∙ append_assoc (sent is_write w l) pipe_heading (flatten chunks ++ codes "\n")),
            ),
      λ e. rw e (
        refl,
        λ n f.
            rw (f, hit)
              (ap₂ ◌++◌ (append-nil (sent is_write w l)) (take-all (message strerror name n))),
      ),
    )

-- Where the name comes in one read, and the file opens and is fed with chunks, none of them empty,
-- to its end, the server of pipe.c comes to its end, and has sent its heading, the whole file and a
-- newline.
pub pipe_server_sends :
    (fuel : ℕ) (strerror : ℕ → Str) (wild : Prog (Unit {0})) (buf : List ℕ) (b : ℕ) (bs : List ℕ)
    (readfd w fd : ℕ) (k : Kernel) (l : Log) (chunks : List (List ℕ))
    → readfd ≢ fd
    → k.bytes l Sys.read (num readfd ∷ num max_size ∷ []) ≡ some (b ∷ bs)
    → k.ret
        (got Sys.read (num readfd ∷ num max_size ∷ []) (some (b ∷ bs)) ∷ l)
        Sys.open_file
        (text (c_string (b ∷ bs)) ∷ lit "O_RDONLY" ∷ [])
      ≡ some fd
    → Feeds k fd chunks
    → reads fd l ≡ 0
    → Full chunks
    → length chunks < fuel
    → let (r, l') = server (pipe_answer fuel strerror buf) wild readfd w k l in
      (r ≡ done tt)
      × (sent is_write w l' ≡ sent is_write w l ++ (pipe_heading ++ (flatten chunks ++ codes "\n")))
unfolding server
pipe_server_sends fuel strerror wild buf b bs readfd w fd k l chunks apart named opens feeds first
      full enough =
    let l1 : Log = got Sys.read (num readfd ∷ num max_size ∷ []) (some (b ∷ bs)) ∷ l in
    let (found, _) =
      pipe_answer_sends fuel strerror buf (b ∷ bs) w fd k l1 chunks feeds
        (ground (arith, apart, first)) full enough in
    let (a, p) = found opens in
    rw named (
      a,
      p
          ∙ ap (λ x. x ++ (pipe_heading ++ (flatten chunks ++ codes "\n")))
              (append-nil (sent is_write w l)),
    )

IsText-split : (s t : Str) → IsText (s ++ t) → IsText s × IsText t
IsText-split [] t h = (tt, h)
IsText-split (c ∷ s) t (a, h) = let (p, q) = IsText-split s t h in ((a, p), q)

c_string-text : (s : Str) → IsText s → c_string s ≡ s
unfolding c_string
c_string-text [] t = refl
c_string-text (c ∷ s) (a, t) = let ih = c_string-text s t in ground (arith, a, ih)

strings-text :
    (rest : List (List ℕ)) → IsText (flatten rest) → flatten (map c_string rest) ≡ flatten rest
unfolding flatten
strings-text [] t = refl
strings-text (s ∷ rest) t =
    let (p, q) = IsText-split s (flatten rest) t in
    ap₂ ◌++◌ (c_string-text s p) (strings-text rest q)

IsText-join : (s t : Str) → IsText s → IsText t → IsText (s ++ t)
IsText-join [] t a b = b
IsText-join (c ∷ s) t (x, a) b = (x, IsText-join s t a b)

-- The first chunk that the client reads begins with the heading, whose byte 0 ends what it prints of
-- it.
head_chunk : (x : List ℕ) → c_string (pipe_heading ++ x) ≡ fifo_heading
head_chunk x =
    ap c_string (append_assoc fifo_heading (0 ∷ []) x)
    ∙ c_string-append fifo_heading x (omega arith)

-- Where the pipe delivers to the client of pipe.c what the server has sent, in chunks that are not as
-- long as its buffer, and its first chunk is the heading and `x` behind it, the client comes to its end and has printed the heading and what
-- came in the later chunks: of a file without a byte 0, and the newline behind it, exactly the part
-- `x` that came with the heading is lost.
pub pipe_loses_first :
    (fuel : ℕ) (wild : Prog (Unit {0})) (buf : List ℕ) (readfd writefd w : ℕ) (path : Str)
    (k : Kernel) (l' : Log) (file x : List ℕ) (rest : List (List ℕ))
    → IsText path
    → Types k path
    → Feeds k readfd ((pipe_heading ++ x) ∷ rest)
    → Full rest
    → Fits ((pipe_heading ++ x) ∷ rest)
    → suc (length rest) < fuel
    → IsText file
    → sent is_write w l' ≡ pipe_heading ++ (file ++ codes "\n")
    → (pipe_heading ++ x) ++ flatten rest ≡ sent is_write w l'
    → let (r, l) = client fuel wild buf readfd writefd k [] in
      (r ≡ done tt)
      × (sent is_fputs 1 l ≡ fifo_heading ++ flatten rest)
      × (x ++ flatten rest ≡ file ++ codes "\n")
unfolding flatten
pipe_loses_first fuel wild buf readfd writefd w path k l' file x rest named types feeds full fits
      enough clear served delivered =
    let (a, _, p) =
      client_asks_and_prints fuel wild buf readfd writefd path k [] ((pipe_heading ++ x) ∷ rest)
        named types feeds refl (omega arith, full) fits enough in
    let whole : x ++ flatten rest ≡ file ++ codes "\n" =
      ap (drop 19) (sym (append_assoc pipe_heading x (flatten rest)) ∙ delivered ∙ served) in
    let (_, later) =
      IsText-split x (flatten rest)
        (subst IsText (sym whole) (IsText-join file (codes "\n") clear (omega arith))) in
    (a, p ∙ ap₂ ◌++◌ (head_chunk x) (strings-text rest later), whole)
