-- ===== src/Sockets/Files.antt =====
-- tcp-ip/socket/src/file_client.c: a client that stores what the server sends.
use mathlib.Core.List.{append-nil, flatten}
use cs_primer.Prelude.{ℕ, ◌<◌, ◌≡◌, ◌++◌, List, [], ◌∷◌, arith, refl, length}
use cs_primer.Posix.{Sys, lit, num, text, Log, Kernel, Prog, done, ◌>>=◌, ◌>>◌, pure}
use cs_primer.Posix.Text.{Str, codes}
use cs_primer.Posix.Calls.{say, must, expect_argc, arg_at, open_client, error_handler, close}
use cs_primer.Posix.Loops.{read_loop, sent, received, reads, is_fwrite}
use cs_primer.Posix.Loops.Relay.{Relays, IsRelayed, read_loop-IsRelayed, relay_ends, Feeds, Full}

-- `fwrite((void*)buf, 1, read_cnt, fp);`
abbrev pub store : ℕ → List ℕ → ℕ → Prog (Unit {0})
store fp buf n = say Sys.fwrite (num fp ∷ text buf ∷ num n ∷ [])

unfoldable pub receive_file : ℕ → List ℕ → ℕ → ℕ → Prog (Unit {0})
receive_file fuel buf s fp = read_loop fuel s 30 buf (store fp)

-- `buf` is the buffer as `main` finds it, `fuel` bounds the reads.
unfoldable pub file_client : ℕ → List ℕ → List Str → Prog ℕ
file_client fuel buf argv = do
  expect_argc argv 3 "usage: %s <ip> <port>\n"
  fp ← must Sys.fopen (lit "receive.dat" ∷ lit "wb" ∷ []) (error_handler "cannot open the file")
  s ← open_client error_handler "socket() error" "connect() error" (arg_at argv 1) (arg_at argv 2)
  receive_file fuel buf s fp
  say Sys.puts (lit "received file data" ∷ [])
  say Sys.write (num s ∷ text (codes "Thank You" ++ 0 ∷ []) ∷ num 10 ∷ [])
  say Sys.fclose (num fp ∷ [])
  close s
  pure 0

store-Relays : (fp s : ℕ) → Relays is_fwrite fp s (store fp)
store-Relays fp s b n k l = (_, refl, ground arith, append-nil (received s l), refl, refl)

-- After any number of rounds of the transfer, what has been handed to `fwrite` is what has come from
-- the server, in order, unless a read has failed.
pub receive_file-IsRelayed :
    (fuel : ℕ) (buf : List ℕ) (s fp : ℕ) (k : Kernel) (l : Log)
    → IsRelayed is_fwrite fp s l
    → IsRelayed is_fwrite fp s (receive_file fuel buf s fp k l).1
unfolding receive_file
receive_file-IsRelayed fuel buf s fp k l h =
    read_loop-IsRelayed is_fwrite fp s 30 (store fp) (store-Relays fp s) k fuel buf l h

-- Where the server sends the chunks and then its end, the transfer comes to its end, and the file
-- has got all chunks in order.
pub receive_file_ends :
    (fuel : ℕ) (buf : List ℕ) (s fp : ℕ) (k : Kernel) (l : Log) (chunks : List (List ℕ))
    → Feeds k s chunks
    → reads s l ≡ 0
    → Full chunks
    → length chunks < fuel
    → let (r, l') = receive_file fuel buf s fp k l in
      (r ≡ done tt)
      × (sent is_fwrite fp l' ≡ sent is_fwrite fp l ++ flatten chunks)
      × (received s l' ≡ received s l ++ flatten chunks)
unfolding receive_file
receive_file_ends fuel buf s fp k l chunks feeds first full enough =
    relay_ends is_fwrite fp s 30 (store fp) (store-Relays fp s) k chunks feeds chunks fuel buf l
      (rw first refl) full enough
