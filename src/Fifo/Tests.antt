-- ===== src/Fifo/Tests.antt =====
-- A request for a file, and its answer.
use cs_primer.Prelude.{ℕ, ◌≡◌, ◌++◌, List, [], ◌∷◌, some, none, refl, arith}
use mathlib.Core.List.{flatten}
use cs_primer.Posix.{Sys, lit, text, Kernel, done}
use cs_primer.Posix.Text.{Str, pos, codes}
use cs_primer.Posix.Loops.{sent, reads, is_write}
use cs_primer.Posix.Loops.Relay.{chunk_at}
use cs_primer.Fifo.{
  request, parse_request, heading, answer, digits, decimal, split_blank, strip_newline, c_string,
}
use cs_primer.Fifo.Request.{request_round_trip}
use cs_primer.Fifo.Answer.{answer_sends_file}

abbrev path : Str
path = codes "/motd"

request_round_trip_example :
    parse_request (request 1234 (path ++ 10 ∷ []) (7 ∷ 7 ∷ [])) ≡ some (pos 1234, path)
unfolding decimal digits
request_round_trip_example =
    request_round_trip 1234 path (7 ∷ 7 ∷ [])
      (omega arith, (omega arith, (omega arith, (omega arith, (omega arith, tt))))) (omega arith)

abbrev file : List (List ℕ)
file = (1 ∷ 2 ∷ []) ∷ (3 ∷ []) ∷ []

-- Every call answers 4, and the descriptor 4 reads the file.
abbrev disk : Kernel
disk = record {
  ret = λ l s args. some 4;
  bytes = λ l s args. some (chunk_at file (reads 4 l));
  errno = λ l. 0;
}

abbrev reason : ℕ → Str
reason e = codes "no"

answer_sends_file_example :
    let (r, l') = answer 3 reason [] 5 5 path disk [] in
    (disk.ret [] Sys.open_file (text path ∷ lit "O_RDONLY" ∷ []) ≡ some 4
      → (r ≡ done tt) × (sent is_write 5 l' ≡ (sent is_write 5 [] ++ heading) ++ flatten file))
    × (disk.ret [] Sys.open_file (text path ∷ lit "O_RDONLY" ∷ []) ≡ none
        → (r ≡ done tt)
          × (sent is_write 5 l' ≡ sent is_write 5 [] ++ codes "/motd: cannot open, no\n"))
unfolding c_string
answer_sends_file_example =
    answer_sends_file 3 reason [] 5 5 4 path disk [] file (λ l n. refl) refl
      (omega arith, (omega arith, tt)) (omega arith)

bogus : parse_request (codes "nothing") ≡ none
unfolding parse_request split_blank strip_newline c_string
bogus = refl
