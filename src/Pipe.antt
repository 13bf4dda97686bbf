-- ===== src/Pipe.antt =====
-- ipc/src/pipe/pipe.c and ipc/src/fifo/fifo.c: a parent that asks its child for a file. `strerror` is
-- a parameter, and so are what stands in the buffers before they are written, and `wild`: what a
-- program does once it has written outside its buffer, the server in front of it after a failed read,
-- the client behind it after a read that fills it. C gives that no meaning.
pub mod Client
pub mod Server
mod Tests
use Prim.Native.String.{String}
use cs_primer.Prelude.{
  ℕ, zero, suc, ◌-◌, ◌+◌, List, [], ◌∷◌, ◌++◌, Option, none, some, ◌==◌, ltb, if◌then◌else◌, take,
  drop, length, get_elem?,
}
use cs_primer.Posix.{Sys, num, text, lit, Prog, ◌>>=◌, ◌>>◌, pure, call, fetch, errno}
use cs_primer.Posix.Text.{Str, codes}
use cs_primer.Posix.Calls.{say, must, error_handler, close}
use cs_primer.Posix.Loops.{minus_one, overlay}
use cs_primer.Posix.Loops.While.{read_while}
use cs_primer.Fifo.{max_size, c_string, write_chunk}

-- `buf[n] = 0; fputs(buf, stdout);`, where the descriptor of `stdout` is 1. The buffer has MAXSIZE
-- bytes: behind a chunk that fills it, the 0 is written out of bounds.
abbrev pub print_chunk : Prog (Unit {0}) → List ℕ → ℕ → Prog (Unit {0})
print_chunk wild buf n =
    let s = c_string (take n buf) in
    if ltb n max_size then say Sys.fputs (num 1 ∷ text s ∷ num (length s) ∷ []) else wild

-- `strlen(buf)-1`, as a `size_t`.
abbrev pub without_newline : Str → ℕ
without_newline s = if length s == 0 then minus_one else length s - 1

-- The buffer after `fgets`; the result is not checked.
abbrev pub after_fgets : Option Str → List ℕ → List ℕ
after_fgets none buf = buf
after_fgets (some line) buf = overlay (line ++ 0 ∷ []) buf

unfoldable pub client : ℕ → Prog (Unit {0}) → List ℕ → ℕ → ℕ → Prog (Unit {0})
client fuel wild buf readfd writefd = do
  say Sys.fputs (lit "input pathname: " ∷ lit "stdout" ∷ [])
  line ← fetch Sys.fgets (num max_size ∷ lit "stdin" ∷ [])
  write_chunk writefd (after_fgets line buf) (without_newline (c_string (after_fgets line buf)))
  read_while fuel readfd max_size (after_fgets line buf) (print_chunk wild)

-- What the server sends where the file `name` does not open: the name, and why.
abbrev pub message : (ℕ → Str) → List ℕ → ℕ → Str
message strerror name e =
    c_string (take max_size (name ++ codes ": can't open, " ++ strerror e ++ codes "\n"))

abbrev pub send_message : (ℕ → Str) → ℕ → List ℕ → Prog (Unit {0})
send_message strerror writefd name = do
  e ← errno
  write_chunk writefd (message strerror name e) (length (message strerror name e))

abbrev pub pipe_heading : List ℕ
pipe_heading = codes "context of file: \n" ++ 0 ∷ []

-- The server of pipe.c once it has read `name`, which the 0 behind it ends.
unfoldable pub pipe_answer : ℕ → (ℕ → Str) → List ℕ → List ℕ → ℕ → Prog (Unit {0})
pipe_answer fuel strerror buf name writefd = do
  r ← call Sys.open_file (text (c_string name) ∷ lit "O_RDONLY" ∷ [])
  elim r [
    | none ↦ send_message strerror writefd name
    | some fd ↦ do
      write_chunk writefd pipe_heading (length pipe_heading)
      read_while fuel fd max_size (overlay (name ++ 0 ∷ []) buf) (write_chunk writefd)
      write_chunk writefd (codes "\n") 1
      close fd
  ]

abbrev pub fifo_heading : List ℕ
fifo_heading = codes "context of file: \n"

-- `write(writefd, buf, strlen(buf))`: the chunk that has been read has no 0 behind it.
abbrev pub write_string : ℕ → List ℕ → ℕ → Prog (Unit {0})
write_string w buf n = write_chunk w buf (length (c_string buf))

-- The server of fifo.c, whose heading is put together in the buffer.
unfoldable pub fifo_answer : ℕ → (ℕ → Str) → List ℕ → List ℕ → ℕ → Prog (Unit {0})
fifo_answer fuel strerror buf name writefd = do
  r ← call Sys.open_file (text (c_string name) ∷ lit "O_RDONLY" ∷ [])
  elim r [
    | none ↦ send_message strerror writefd name
    | some fd ↦ do
      write_chunk writefd fifo_heading (length fifo_heading)
      read_while fuel fd max_size (overlay (fifo_heading ++ 0 ∷ []) (overlay (name ++ 0 ∷ []) buf))
          (write_string writefd)
      write_chunk writefd (codes "\n") 1
      close fd
  ]

-- `server`, with the answer of either program.
unfoldable pub server : (List ℕ → ℕ → Prog (Unit {0})) → Prog (Unit {0}) → ℕ → ℕ → Prog (Unit {0})
server answers wild readfd writefd = do
  r ← fetch Sys.read (num readfd ∷ num max_size ∷ [])
  elim r [
    | none ↦ wild
    | some [] ↦ error_handler "end-of-file while reading pathname"
    | some (b ∷ bs) ↦ answers (b ∷ bs) writefd
  ]

abbrev pub fd_at : List ℕ → ℕ → ℕ
fd_at fds i = elim (get_elem? fds i) [ none ↦ 0 | some fd ↦ fd ]

-- `if(pipe(fds) == -1) error_handler("pipe() error");`
abbrev pub or_fail : Option (List ℕ) → Prog (List ℕ)
or_fail none = error_handler "pipe() error"
or_fail (some fds) = pure fds

unfoldable pub pipe_child : ℕ → (ℕ → Str) → Prog (Unit {0}) → List ℕ → List ℕ → List ℕ → Prog ℕ
pipe_child fuel strerror wild buf serv2clnt clnt2serv = do
  close (fd_at clnt2serv 1)
  close (fd_at serv2clnt 0)
  server (pipe_answer fuel strerror buf) wild (fd_at clnt2serv 0) (fd_at serv2clnt 1)
  pure 0

unfoldable pub pipe_parent : ℕ → Prog (Unit {0}) → List ℕ → List ℕ → List ℕ → Prog ℕ
pipe_parent fuel wild buf serv2clnt clnt2serv = do
  close (fd_at serv2clnt 1)
  close (fd_at clnt2serv 0)
  client fuel wild buf (fd_at serv2clnt 0) (fd_at clnt2serv 1)
  say Sys.wait (lit "NULL" ∷ [])
  pure 0

-- `main`: the parent's `fork` answers with the child's process id, the child's with 0.
unfoldable pub pipe_main : ℕ → (ℕ → Str) → Prog (Unit {0}) → List ℕ → Prog ℕ
pipe_main fuel strerror wild buf = do
  p ← fetch Sys.pipe []
  serv2clnt ← or_fail p
  q ← fetch Sys.pipe []
  clnt2serv ← or_fail q
  pid ← must Sys.fork [] (error_handler "fork() error")
  if pid == 0
      then pipe_child fuel strerror wild buf serv2clnt clnt2serv
      else pipe_parent fuel wild buf serv2clnt clnt2serv

abbrev pub eexist : ℕ
eexist = 17

-- `if((mkfifo(name, FILE_MODE) == -1) && (errno != EEXIST)) fails;`
abbrev pub make_fifo : String → Prog (Unit {0}) → Prog (Unit {0})
make_fifo name fails = do
  r ← call Sys.mkfifo (lit name ∷ lit "FILE_MODE" ∷ [])
  e ← errno
  elim r [ some _ ↦ pure tt | none ↦ if e == eexist then pure tt else fails ]

unfoldable pub fifo_child : ℕ → (ℕ → Str) → Prog (Unit {0}) → List ℕ → Prog ℕ
fifo_child fuel strerror wild buf = do
  readfd ←
      must Sys.open_file (lit "/tmp/fifo.1" ∷ lit "O_RDONLY" ∷ [])
        (error_handler "child open(FIFO1, R) error")
  writefd ←
      must Sys.open_file (lit "/tmp/fifo.2" ∷ lit "O_WRONLY" ∷ [])
        (error_handler "chidl open(FIFO2, W) error")
  server (fifo_answer fuel strerror buf) wild readfd writefd
  pure 0

unfoldable pub fifo_parent : ℕ → Prog (Unit {0}) → List ℕ → Prog ℕ
fifo_parent fuel wild buf = do
  writefd ←
      must Sys.open_file (lit "/tmp/fifo.1" ∷ lit "O_WRONLY" ∷ [])
        (error_handler "parent open(FIFO1, W) error")
  readfd ←
      must Sys.open_file (lit "/tmp/fifo.2" ∷ lit "O_RDONLY" ∷ [])
        (error_handler "parent open(FIFO2, R) error")
  client fuel wild buf readfd writefd
  say Sys.wait (lit "NULL" ∷ [])
  close readfd
  close writefd
  say Sys.unlink (lit "/tmp/fifo.1" ∷ [])
  say Sys.unlink (lit "/tmp/fifo.2" ∷ [])
  pure 0

unfoldable pub fifo_main : ℕ → (ℕ → Str) → Prog (Unit {0}) → List ℕ → Prog ℕ
fifo_main fuel strerror wild buf = do
  make_fifo "/tmp/fifo.1" (error_handler "mkfifo(FIFO1) error")
  make_fifo "/tmp/fifo.2"
      (do say Sys.unlink (lit "/tmp/fifo.1" ∷ []); error_handler "mkfifo(FIFO2) error")
  pid ← must Sys.fork [] (error_handler "fork() error")
  if pid == 0 then fifo_child fuel strerror wild buf else fifo_parent fuel wild buf
