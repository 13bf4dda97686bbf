-- ===== src/Sockets/FileServer.antt =====
-- tcp-ip/socket/src/file_server.c: a server that sends a file to one client, block by block.
use mathlib.Core.List.{append-nil, append_assoc, flatten}
use cs_primer.Prelude.{
  ℕ, zero, suc, ◌+◌, ◌*◌, ◌<◌, ◌≤◌, ◌≡◌, ◌∙◌, sym, ap, ◌++◌, List, [], ◌∷◌, Option, none, some,
  Bool, true, false, ◌&&◌, ltb, ◌==◌, if◌then◌else◌, Bool-cases, inl, inr, arith, refl, length,
  take, drop,
}
use cs_primer.Posix.{
  Sys, lit, num, text, did, got, Log, Kernel, Prog, done, ◌>>=◌, ◌>>◌, pure, out_of_fuel, fetch,
}
use cs_primer.Posix.Text.{Str}
use cs_primer.Posix.Calls.{
  say, must, expect_argc, arg_at, open_server, accept, error_handler, close,
}
use cs_primer.Posix.Loops.{overlay, sent, is_write, is_fwrite}
use cs_primer.Sockets.Files.{receive_file, receive_file_ends}
use cs_primer.Posix.Loops.Relay.{take-length, Feeds, Full}

abbrev pub block_size : ℕ
block_size = 30

-- `fread` answers with nothing at the end of the file, and where it fails.
abbrev pub block : Option (List ℕ) → List ℕ
block none = []
block (some bs) = bs

abbrev pub write_block : ℕ → List ℕ → ℕ → Prog (Unit {0})
write_block c buf n = say Sys.write (num c ∷ text buf ∷ num n ∷ [])

-- The body of the loop, once it is known whether the block is the last.
unfoldable pub send_block : Bool → ℕ → List ℕ → ℕ → Prog (Unit {0}) → Prog (Unit {0})
send_block true c buf n next = write_block c buf n
send_block false c buf n next = do write_block c buf block_size; next

-- The loop of `main`: a block that is not full is the last. The fuel bounds the blocks.
unfoldable pub send_file : ℕ → List ℕ → ℕ → ℕ → Prog (Unit {0})
send_file zero buf c fp = out_of_fuel
send_file (suc fuel) buf c fp = do
  r ← fetch Sys.fread (num fp ∷ num 1 ∷ num block_size ∷ [])
  let buf' = overlay (block r) buf
  send_block (ltb (length (block r)) block_size) c buf' (length (block r))
      (send_file fuel buf' c fp)

-- The line for the client's last message is printed from `buf`, with what `read` has put there.
unfoldable pub file_server : ℕ → List ℕ → List Str → Prog ℕ
file_server fuel buf argv = do
  expect_argc argv 2 "usage: %s <port>\n"
  fp ← must Sys.fopen (lit "file_server.c" ∷ lit "rb" ∷ []) (error_handler "cannot open the file")
  s ← open_server error_handler "socket() error" "bind() error" "listen() error" (arg_at argv 1)
  c ← accept s (error_handler "accept() error")
  send_file fuel buf c fp
  say Sys.shutdown (num c ∷ lit "SHUT_WR" ∷ [])
  fetch Sys.read (num c ∷ num block_size ∷ [])
  say Sys.printf (lit "message from clinet: %s\n" ∷ lit "buf" ∷ [])
  say Sys.fclose (num fp ∷ [])
  close c
  close s
  pure 0

abbrev is_fread : Sys → Bool
is_fread Sys.fread = true
is_fread _ = false

-- How many blocks have been read from `fp`.
abbrev pub blocks : ℕ → Log → ℕ
blocks fp [] = 0
blocks fp (got s (num f ∷ args) r ∷ l) =
    if is_fread s && (f == fp) then suc (blocks fp l) else blocks fp l
blocks fp (_ ∷ l) = blocks fp l

-- The file behind `fp` holds `data'`, which is read block by block.
abbrev pub IsFile : Kernel → ℕ → List ℕ → Type 0
IsFile k fp bytes =
    (l : Log)
    → k.bytes l Sys.fread (num fp ∷ num 1 ∷ num block_size ∷ [])
      ≡ some (take block_size (drop (block_size * blocks fp l) bytes))

take-drop : (n : ℕ) (xs : List ℕ) → take n xs ++ drop n xs ≡ xs
take-drop zero xs = refl
take-drop (suc n) [] = refl
take-drop (suc n) (x ∷ xs) = ap (λ l. x ∷ l) (take-drop n xs)

take_short : (n : ℕ) (xs : List ℕ) → length (take n xs) < n → take n xs ≡ xs
take_short zero xs h = absurd (omega arith)
take_short (suc n) [] h = refl
take_short (suc n) (x ∷ xs) h = ap (λ l. x ∷ l) (take_short n xs (omega arith))

length-take-le : (n : ℕ) (xs : List ℕ) → length (take n xs) ≤ n
length-take-le zero xs = omega arith
length-take-le (suc n) [] = omega arith
length-take-le (suc n) (x ∷ xs) = omega (arith, length-take-le n xs)

length-drop : (n : ℕ) (xs : List ℕ) → n ≤ length (take n xs) → length (drop n xs) + n ≡ length xs
length-drop zero xs h = omega arith
length-drop (suc n) [] h = absurd (omega arith)
length-drop (suc n) (x ∷ xs) h = omega (arith, length-drop n xs (omega arith))

drop-nil : (n : ℕ) → drop {A = ℕ} n [] ≡ []
drop-nil zero = refl
drop-nil (suc n) = refl

drop-drop : (m n : ℕ) (xs : List ℕ) → drop m (drop n xs) ≡ drop (n + m) xs
drop-drop m zero xs = let same : m ≡ 0 + m = omega arith in ap (λ k. drop k xs) same
drop-drop m (suc n) [] = drop-nil m ∙ sym (drop-nil (suc n + m))
drop-drop m (suc n) (x ∷ xs) =
    let same : suc (n + m) ≡ suc n + m = omega arith in
    drop-drop m n xs ∙ ap (λ k. drop k (x ∷ xs)) same

take_front : (n : ℕ) (xs ys : List ℕ) → length xs ≡ n → take n (xs ++ ys) ≡ xs
take_front n xs ys e = ap (λ k. take k (xs ++ ys)) (sym e) ∙ take-length xs ys

module _ (k : Kernel) (c fp : ℕ) (bytes : List ℕ) (holds : IsFile k fp bytes) where
  send_last :
      (fuel : ℕ) (buf : List ℕ) (l : Log) (bs : List ℕ)
      → k.bytes l Sys.fread (num fp ∷ num 1 ∷ num block_size ∷ []) ≡ some bs
      → ltb (length bs) block_size ≡ true
      → send_file (suc fuel) buf c fp k l
        ≡ write_block c
            (overlay bs buf)
            (length bs)
            k
            (got Sys.fread (num fp ∷ num 1 ∷ num block_size ∷ []) (some bs) ∷ l)
  unfolding send_file send_block
  send_last fuel buf l bs e short = rw (e, short) refl

  send_more :
      (fuel : ℕ) (buf : List ℕ) (l : Log) (bs : List ℕ)
      → k.bytes l Sys.fread (num fp ∷ num 1 ∷ num block_size ∷ []) ≡ some bs
      → ltb (length bs) block_size ≡ false
      → let l1 : Log = got Sys.fread (num fp ∷ num 1 ∷ num block_size ∷ []) (some bs) ∷ l in
        let args = num c ∷ text (overlay bs buf) ∷ num block_size ∷ [] in
        send_file (suc fuel) buf c fp k l
        ≡ send_file fuel (overlay bs buf) c fp k (did Sys.write args (k.ret l1 Sys.write args) ∷ l1)
  unfolding send_file send_block
  send_more fuel buf l bs e whole = rw (e, whole) refl

  -- What is left of the file is sent to the client.
  sends_rest :
      (fuel : ℕ) (buf : List ℕ) (l : Log) (rest : List ℕ)
      → drop (block_size * blocks fp l) bytes ≡ rest
      → length rest < block_size * fuel
      → let (r, l') = send_file fuel buf c fp k l in
        (r ≡ done tt) × (sent is_write c l' ≡ sent is_write c l ++ rest)
  sends_rest zero buf l rest at fits = absurd (omega (arith, fits))
  sends_rest (suc fuel) buf l rest at fits =
      let bs = take block_size rest in
      let e = holds l ∙ ap (λ x. some (take block_size x)) at in
      let l1 : Log = got Sys.fread (num fp ∷ num 1 ∷ num block_size ∷ []) (some bs) ∷ l in
      let buf' = overlay bs buf in
      elim (Bool-cases (ltb (length bs) block_size)) [
        | inl short ↦
            let all =
              take_front (length bs) bs (drop (length bs) buf) refl
              ∙ take_short block_size rest (ground (arith, short)) in
            rw (send_last fuel buf l bs e short)
              (refl, ground (arith, all, append-nil (sent is_write c l)))
        | inr whole ↦
            let le = length-take-le block_size rest in
            let full : length bs ≡ block_size = ground (arith, whole, le) in
            let args = num c ∷ text buf' ∷ num block_size ∷ [] in
            let l2 : Log = did Sys.write args (k.ret l1 Sys.write args) ∷ l1 in
            let now : sent is_write c l2 ≡ sent is_write c l ++ bs = ground (
              arith,
              take_front block_size bs (drop (length bs) buf) full,
              append-nil (sent is_write c l),
            ) in
            let counted : block_size * blocks fp l2 ≡ block_size * blocks fp l + block_size =
              ground arith in
            let at' : drop (block_size * blocks fp l2) bytes ≡ drop block_size rest =
              ap (λ n. drop n bytes) counted
              ∙ sym (drop-drop block_size (block_size * blocks fp l) bytes)
              ∙ ap (drop block_size) at in
            let less : length (drop block_size rest) < block_size * fuel =
              omega (arith, length-drop block_size rest (omega (arith, full)), fits) in
            let (a, b) = sends_rest fuel buf' l2 (drop block_size rest) at' less in
            rw (send_more fuel buf l bs e whole) (
              a,
              b
                  ∙ ap (λ x. x ++ drop block_size rest) now
                  ∙ append_assoc (sent is_write c l) bs (drop block_size rest)
                  ∙ ap (λ x. sent is_write c l ++ x) (take-drop block_size rest),
            )
      ]

-- Where the file holds `bytes` and nothing of it has been read, and the fuel is enough for its
-- blocks and an empty one, the loop of file_server.c comes to its end and has sent the client
-- exactly these bytes, in order.
pub send_file_ends :
    (fuel : ℕ) (buf : List ℕ) (c fp : ℕ) (k : Kernel) (l : Log) (bytes : List ℕ)
    → IsFile k fp bytes
    → blocks fp l ≡ 0
    → length bytes < block_size * fuel
    → let (r, l') = send_file fuel buf c fp k l in
      (r ≡ done tt) × (sent is_write c l' ≡ sent is_write c l ++ bytes)
send_file_ends fuel buf c fp k l bytes holds first fits =
    let start : block_size * blocks fp l ≡ 0 = omega (arith, first) in
    sends_rest k c fp bytes holds fuel buf l bytes (ap (λ n. drop n bytes) start) fits

-- What file_server.c sends reaches the file of file_client.c byte for byte, in whatever chunks the
-- network delivers it, where all of it is delivered and both loops have fuel enough.
pub file_transfer :
    (fuel fuel' : ℕ) (buf buf' : List ℕ) (c fp s fp' : ℕ) (k k' : Kernel) (bytes : List ℕ)
    (chunks : List (List ℕ))
    → IsFile k fp bytes
    → length bytes < block_size * fuel
    → Feeds k' s chunks
    → flatten chunks ≡ sent is_write c (send_file fuel buf c fp k []).1
    → Full chunks
    → length chunks < fuel'
    → sent is_fwrite fp' (receive_file fuel' buf' s fp' k' []).1 ≡ bytes
file_transfer fuel fuel' buf buf' c fp s fp' k k' bytes chunks holds fits feeds delivered full
      enough =
    (receive_file_ends fuel' buf' s fp' k' [] chunks feeds refl full enough).1
    ∙ delivered
    ∙ (send_file_ends fuel buf c fp k [] bytes holds refl fits).1
