-- ===== src/Pipe/Client.antt =====
-- What the client asks for, and what it prints.
use mathlib.Core.List.{append-nil, append_assoc, flatten}
use mathlib.Core.Path.{ap₂}
use cs_primer.Prelude.{
  ℕ, zero, suc, ◌<◌, ◌≡◌, ◌∙◌, ap, sym, ◌++◌, List, [], ◌∷◌, map, some, Bool, true, false, arith,
  refl, ◌==◌, ltb, length, take, drop,
}
use cs_primer.Posix.{Sys, lit, num, text, did, got, Log, Kernel, Prog, done}
use cs_primer.Posix.Text.{Str}
use cs_primer.Posix.Loops.{sent, reads, is_write, overlay}
use cs_primer.Posix.Loops.Relay.{Feeds, Full, chunk_next, chunk_end, take-length}
use cs_primer.Posix.Loops.While.{read_while}
use cs_primer.Fifo.Request.{IsText}
use cs_primer.Fifo.{c_string, max_size}
use cs_primer.Pipe.{print_chunk, client, without_newline, after_fgets}

abbrev pub is_fputs : Sys → Bool
is_fputs Sys.fputs = true
is_fputs _ = false

-- What the loop of the client has printed on `stdout`, and that it writes to no descriptor.
abbrev Printed : List (List ℕ) → Log → Log → Type 0
Printed rest l l' =
    (sent is_fputs 1 l' ≡ sent is_fputs 1 l ++ flatten (map c_string rest))
    × ((w : ℕ) → sent is_write w l' ≡ sent is_write w l)

-- Chunks that leave room in the buffer for a byte 0 behind them.
abbrev pub Fits : List (List ℕ) → Type 0
Fits [] = Unit
Fits (c ∷ chunks) = (length c < max_size) × Fits chunks

module _ (wild : Prog (Unit {0})) (fd : ℕ) (k : Kernel) (chunks : List (List ℕ))
    (feeds : Feeds k fd chunks) where
  print_ends :
      (rest : List (List ℕ)) (fuel : ℕ) (buf : List ℕ) (l : Log)
      → drop (reads fd l) chunks ≡ rest
      → Full rest
      → Fits rest
      → length rest < fuel
      → let (r, l') = read_while fuel fd max_size buf (print_chunk wild) k l in
        (r ≡ done tt) × Printed rest l l'
  unfolding read_while flatten
  print_ends [] zero buf l e full fits h = elim h [ ]
  print_ends [] (suc fuel) buf l e full fits h =
      rw (feeds l max_size ∙ ap some (chunk_end chunks (reads fd l) e))
        (refl, (refl, λ w. append-nil (sent is_write w l)))
  print_ends (c ∷ rest) zero buf l e full fits h = elim h [ ]
  print_ends ([] ∷ rest) (suc fuel) buf l e full fits h = absurd (omega arith)
  print_ends ((b ∷ bs) ∷ rest) (suc fuel) buf l e full fits h =
      let (now, later) = chunk_next chunks (reads fd l) (b ∷ bs) rest e in
      let cut : take (length (b ∷ bs)) (overlay (b ∷ bs) buf) ≡ b ∷ bs =
        take-length (b ∷ bs) (drop (length (b ∷ bs)) buf) in
      let s = c_string (take (length (b ∷ bs)) (overlay (b ∷ bs) buf)) in
      let l1 : Log = got Sys.read (num fd ∷ num max_size ∷ []) (some (b ∷ bs)) ∷ l in
      let line = num 1 ∷ text s ∷ num (length s) ∷ [] in
      let l2 : Log = did Sys.fputs line (k.ret l1 Sys.fputs line) ∷ l1 in
      let one_more : reads fd l2 ≡ suc (reads fd l) = ground arith in
      let (_, full') = full in
      let (room, fits') = fits in
      let roomy : ltb (length (b ∷ bs)) max_size ≡ true = ground (arith, room) in
      let (a, (p, q)) =
        print_ends rest fuel (overlay (b ∷ bs) buf) l2 (ap (λ n. drop n chunks) one_more ∙ later)
          full' fits' (omega (arith, h)) in
      let here : sent is_fputs 1 l2 ≡ sent is_fputs 1 l ++ c_string (b ∷ bs) =
        ap₂ ◌++◌ (append-nil (sent is_fputs 1 l))
          (ap (take (length s)) (sym (append-nil s)) ∙ take-length s [] ∙ ap c_string cut) in
      rw (feeds l max_size ∙ ap some now, roomy)
        (
          a,
          (
            p
                ∙ ap (λ x. x ++ flatten (map c_string rest)) here
                ∙ append_assoc (sent is_fputs 1 l) (c_string (b ∷ bs))
                    (flatten (map c_string rest)),
            λ w. q w ∙ append-nil (sent is_write w l ++ []) ∙ append-nil (sent is_write w l),
          ),
        )

pub c_string-append : (s g : Str) → IsText s → c_string (s ++ 0 ∷ g) ≡ s
unfolding c_string
c_string-append [] g t = refl
c_string-append (c ∷ s) g (a, t) = let ih = c_string-append s g t in ground (arith, a, ih)

IsText-append : (s t : Str) → IsText s → IsText t → IsText (s ++ t)
IsText-append [] t a b = b
IsText-append (c ∷ s) t (x, a) b = (x, IsText-append s t a b)

length-line : (path : Str) → length (path ++ 10 ∷ []) ≡ suc (length path)
length-line [] = refl
length-line (c ∷ s) = ap suc (length-line s)

take-path : (path : Str) (rest : List ℕ) → take (length path) ((path ++ 10 ∷ []) ++ rest) ≡ path
take-path [] rest = refl
take-path (c ∷ s) rest = ap (λ x. c ∷ x) (take-path s rest)

-- The buffer once `fgets` has stored a line: its string is the line, and its front the path.
line_stored :
    (path : Str) (buf : List ℕ)
    → IsText path
    → let b = after_fgets (some (path ++ 10 ∷ [])) buf in
      (without_newline (c_string b) ≡ length path) × (take (length path) b ≡ path)
line_stored path buf t =
    let line = path ++ 10 ∷ [] in
    let behind = drop (length (line ++ 0 ∷ [])) buf in
    let split : (line ++ 0 ∷ []) ++ behind ≡ line ++ (0 ∷ behind) =
      append_assoc line (0 ∷ []) behind in
    let string : c_string ((line ++ 0 ∷ []) ++ behind) ≡ line =
      ap c_string split
      ∙ c_string-append line behind (IsText-append path (10 ∷ []) t (omega arith, tt)) in
    (
      ap without_newline string ∙ ground (arith, length-line path),
      ap (take (length path)) split ∙ take-path path (0 ∷ behind),
    )

-- The user types the path, and a newline.
abbrev pub Types : Kernel → Str → Type 0
Types k path =
    (l : Log) → k.bytes l Sys.fgets (num max_size ∷ lit "stdin" ∷ []) ≡ some (path ++ 10 ∷ [])

-- Where the user types a path without a byte 0, and the descriptor to read is fed with chunks, none
-- of them empty or as long as the buffer, and then with its end, the client of pipe.c and fifo.c comes to its end: it has
-- written exactly the path to the server, and printed of each chunk what stands in front of its
-- first byte 0, in order.
pub client_asks_and_prints :
    (fuel : ℕ) (wild : Prog (Unit {0})) (buf : List ℕ) (readfd writefd : ℕ) (path : Str)
    (k : Kernel) (l : Log) (chunks : List (List ℕ))
    → IsText path
    → Types k path
    → Feeds k readfd chunks
    → reads readfd l ≡ 0
    → Full chunks
    → Fits chunks
    → length chunks < fuel
    → let (r, l') = client fuel wild buf readfd writefd k l in
      (r ≡ done tt)
      × (sent is_write writefd l' ≡ sent is_write writefd l ++ path)
      × (sent is_fputs 1 l' ≡ sent is_fputs 1 l ++ flatten (map c_string chunks))
unfolding client
client_asks_and_prints fuel wild buf readfd writefd path k l chunks t types feeds first full fits
      enough =
    let ask = num max_size ∷ lit "stdin" ∷ [] in
    let prompt = lit "input pathname: " ∷ lit "stdout" ∷ [] in
    let l1 : Log = did Sys.fputs prompt (k.ret l Sys.fputs prompt) ∷ l in
    let l2 : Log = got Sys.fgets ask (some (path ++ 10 ∷ [])) ∷ l1 in
    let b = after_fgets (some (path ++ 10 ∷ [])) buf in
    let (size, front) = line_stored path buf t in
    let request = num writefd ∷ text b ∷ num (without_newline (c_string b)) ∷ [] in
    let l3 : Log = did Sys.write request (k.ret l2 Sys.write request) ∷ l2 in
    let (a, (p, q)) =
      print_ends wild readfd k chunks feeds chunks fuel b l3 (ground (arith, first)) full fits
        enough in
    let hit : (writefd == writefd) ≡ true = ground arith in
    let before =
      append-nil (sent is_write writefd l ++ []) ∙ append-nil (sent is_write writefd l) in
    let asked : sent is_write writefd l3 ≡ sent is_write writefd l ++ path =
      rw hit (ap₂ ◌++◌ before (ap (λ n. take n b) size ∙ front)) in
    let quiet : sent is_fputs 1 l3 ≡ sent is_fputs 1 l =
      append-nil ((sent is_fputs 1 l ++ []) ++ [])
      ∙ append-nil (sent is_fputs 1 l ++ [])
      ∙ append-nil (sent is_fputs 1 l) in
    rw (types l1) (a, q writefd ∙ asked, p ∙ ap (λ x. x ++ flatten (map c_string chunks)) quiet)
