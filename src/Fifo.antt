-- ===== src/Fifo.antt =====
-- ipc/src/fifo/fifo_client.c and fifo_server.c: the request that the client sends, how the server
-- reads it, and the server's answer.
pub mod Request
pub mod Answer
mod Tests
use cs_primer.Prelude.{
  ℕ, zero, suc, ◌+◌, ◌-◌, ◌*◌, ◌/◌, ◌%◌, List, [], ◌∷◌, ◌++◌, Option, none, some, ltb, ◌==◌,
  if◌then◌else◌, take, length,
}
use cs_primer.Posix.{Sys, num, text, lit, Prog, ◌>>=◌, ◌>>◌, pure, call, errno}
use cs_primer.Posix.Text.{Str, ℤ, codes, atoi}
use cs_primer.Posix.Calls.{say, must, error_handler, close}
use cs_primer.Posix.Loops.While.{read_while}

-- What `printf` prints for %ld, with fuel for the digits.
unfoldable pub digits : ℕ → ℕ → Str
digits zero n = []
digits (suc fuel) n =
    let rest = digits fuel (n / 10) in
    if ltb n 10 then (b'0' + n) ∷ [] else rest ++ ((b'0' + n % 10) ∷ [])

unfoldable pub decimal : ℕ → Str
decimal n = digits (suc n) n

abbrev pub max_size : ℕ
max_size = 256

-- The buffer that fifo_client.c sends, for the line that `fgets` has stored behind the process id;
-- `garbage` is what stands in the buffer behind the text.
unfoldable pub request : ℕ → Str → List ℕ → List ℕ
request pid line garbage = take max_size (decimal pid ++ (b' ' ∷ line ++ 0 ∷ garbage))

-- The string in a buffer, as `strlen` sees it.
unfoldable pub c_string : List ℕ → Str
c_string [] = []
c_string (c ∷ s) = let rest = c_string s in if c == 0 then [] else c ∷ rest

-- `if(buf[n-1] == '\n') buf[n-1] = 0`
unfoldable pub strip_newline : Str → Str
strip_newline [] = []
strip_newline (c ∷ []) = if c == 10 then [] else c ∷ []
strip_newline (c ∷ d ∷ s) = c ∷ strip_newline (d ∷ s)

-- The texts in front of the first blank and behind it.
unfoldable pub split_blank : Str → Option (Str × Str)
split_blank [] = none
split_blank (c ∷ s) =
    let rest = split_blank s in
    if c == b' ' then some ([], s) else elim rest [ none ↦ none | some (a, b) ↦ some (c ∷ a, b) ]

abbrev pub from_parts : Option (Str × Str) → Option (ℤ × Str)
from_parts none = none
from_parts (some (a, b)) = some (atoi a, b)

-- The process id and the path of a request, unless it is bogus.
unfoldable pub parse_request : List ℕ → Option (ℤ × Str)
parse_request buf = from_parts (split_blank (strip_newline (c_string buf)))

abbrev pub write_chunk : ℕ → List ℕ → ℕ → Prog (Unit {0})
write_chunk w buf n = say Sys.write (num w ∷ text buf ∷ num n ∷ [])

abbrev pub heading : List ℕ
heading = codes "the context of file: \n" ++ 0 ∷ []

-- What the failing branch leaves behind `ptr`, which stands at `start` in the buffer: the path and
-- why it cannot be opened, cut to the MAXSIZE bytes that `snprintf` is given.
abbrev pub complaint : (ℕ → Str) → ℕ → Str → ℕ → Str
complaint strerror start path e =
    path
    ++ c_string (
        take (max_size - (start + length path) - 1)
          (codes ": cannot open, " ++ strerror e ++ codes "\n"))

abbrev pub send_complaint : (ℕ → Str) → ℕ → ℕ → Str → Prog (Unit {0})
send_complaint strerror start w path = do
  e ← errno
  write_chunk w (complaint strerror start path e) (length (complaint strerror start path e))

-- fifo_server.c once it has opened the client's fifo `w`, for a path that stands at `start` in the
-- buffer. `strerror` is a parameter.
unfoldable pub answer : ℕ → (ℕ → Str) → List ℕ → ℕ → ℕ → Str → Prog (Unit {0})
answer fuel strerror buf start w path = do
  r ← call Sys.open_file (text path ∷ lit "O_RDONLY" ∷ [])
  elim r [
    | none ↦ do send_complaint strerror start w path; close w
    | some fd ↦ do
      write_chunk w heading (length heading)
      read_while fuel fd max_size buf (write_chunk w)
      close fd
      close w
  ]
