-- ===== src/Pipe/Tests.antt =====
-- A parent that asks for a file of three bytes, which reach it in two chunks, the first of them with
-- the heading.
use mathlib.Core.List.{flatten}
use cs_primer.Prelude.{
  ℕ, ◌≡◌, ◌++◌, List, [], ◌∷◌, map, Option, some, none, refl, sym, arith, if◌then◌else◌, ◌==◌,
}
use cs_primer.Posix.{Sys, Arg, num, text, lit, Log, Kernel, Prog, pure, done}
use cs_primer.Posix.Text.{Str, codes}
use cs_primer.Posix.Loops.{sent, reads, is_write}
use cs_primer.Posix.Loops.Relay.{chunk_at}
use cs_primer.Fifo.{c_string}
use cs_primer.Pipe.{server, client, pipe_answer, fifo_answer, pipe_heading, fifo_heading}
use cs_primer.Pipe.Client.{is_fputs, client_asks_and_prints}
use cs_primer.Pipe.Server.{pipe_server_sends, pipe_loses_first}

abbrev name : Str
name = codes "/motd"

abbrev file : List (List ℕ)
file = (97 ∷ 98 ∷ []) ∷ (99 ∷ []) ∷ []

-- The child reads the name from the descriptor 5, and the file, which opens as 4.
abbrev child_bytes : Log → List Arg → Option (List ℕ)
child_bytes l (num fd ∷ _) = some (if fd == 4 then chunk_at file (reads 4 l) else name)
child_bytes l _ = none

abbrev child : Kernel
child = record { ret = λ l s args. some 4; bytes = λ l s args. child_bytes l args; errno = λ l. 0 }

abbrev nothing : Prog (Unit {0})
nothing = pure tt

abbrev no_text : ℕ → Str
no_text e = []

pipe_server_sends_example :
    let (r, l') = server (pipe_answer 3 no_text []) nothing 5 6 child [] in
    (r ≡ done tt) × (sent is_write 6 l' ≡ pipe_heading ++ (flatten file ++ codes "\n"))
pipe_server_sends_example =
    pipe_server_sends 3 no_text nothing [] b'/' (codes "motd") 5 6 4 child [] file
      (λ e. absurd (omega (arith, e))) refl refl (λ l n. refl) refl (omega arith, (omega arith, tt))
      (omega arith)

-- The parent's user types the name; the pipe is the descriptor 7.
abbrev delivery : List (List ℕ)
delivery = (pipe_heading ++ 97 ∷ []) ∷ (98 ∷ 99 ∷ 10 ∷ []) ∷ []

abbrev parent_bytes : Log → Sys → Option (List ℕ)
parent_bytes l Sys.fgets = some (name ++ 10 ∷ [])
parent_bytes l _ = some (chunk_at delivery (reads 7 l))

abbrev parent : Kernel
parent = record { ret = λ l s args. some 0; bytes = λ l s args. parent_bytes l s; errno = λ l. 0 }

client_asks_and_prints_example :
    let (r, l') = client 3 nothing [] 7 8 parent [] in
    (r ≡ done tt)
    × (sent is_write 8 l' ≡ name)
    × (sent is_fputs 1 l' ≡ flatten (map c_string delivery))
client_asks_and_prints_example =
    client_asks_and_prints 3 nothing [] 7 8 name parent [] delivery (omega arith) (λ l. refl)
      (λ l n. refl) refl (omega arith, (omega arith, tt)) (omega arith, (omega arith, tt))
      (omega arith)

served :
    sent is_write 6 (server (pipe_answer 3 no_text []) nothing 5 6 child []).1
    ≡ pipe_heading ++ ((97 ∷ 98 ∷ 99 ∷ []) ++ codes "\n")
unfolding server pipe_answer cs_primer.Posix.Loops.While.read_while
served = refl

delivered :
    (pipe_heading ++ 97 ∷ []) ++ flatten ((98 ∷ 99 ∷ 10 ∷ []) ∷ [])
    ≡ sent is_write 6 (server (pipe_answer 3 no_text []) nothing 5 6 child []).1
unfolding flatten
delivered = sym served

-- The byte 97 came with the heading.
pipe_loses_first_example :
    let (r, l) = client 3 nothing [] 7 8 parent [] in
    (r ≡ done tt)
    × (sent is_fputs 1 l ≡ fifo_heading ++ flatten ((98 ∷ 99 ∷ 10 ∷ []) ∷ []))
    × ((97 ∷ []) ++ flatten ((98 ∷ 99 ∷ 10 ∷ []) ∷ []) ≡ (97 ∷ 98 ∷ 99 ∷ []) ++ codes "\n")
pipe_loses_first_example =
    pipe_loses_first 3 nothing [] 7 8 6 name parent
      (server (pipe_answer 3 no_text []) nothing 5 6 child []).1 (97 ∷ 98 ∷ 99 ∷ []) (97 ∷ [])
      ((98 ∷ 99 ∷ 10 ∷ []) ∷ []) (omega arith) (λ l. refl) (λ l n. refl) (omega arith, tt)
      (omega arith, (omega arith, tt)) (omega arith) (omega arith) served delivered

-- fifo.c sends the string in its buffer: behind the two bytes read stands what is left of the
-- heading.
fifo_sends_leftovers :
    sent is_write 6 (server (fifo_answer 3 no_text []) nothing 5 6 child []).1
    ≡ fifo_heading ++ codes "abntext of file: \n" ++ codes "cbntext of file: \n" ++ codes "\n"
unfolding server fifo_answer cs_primer.Posix.Loops.While.read_while c_string
fifo_sends_leftovers = refl
