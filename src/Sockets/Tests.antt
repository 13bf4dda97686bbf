-- ===== src/Sockets/Tests.antt =====
-- Runs of the servers, and their theorems at concrete inputs.
use mathlib.Core.List.{flatten}
use cs_primer.Prelude.{
  ℕ, ◌≡◌, ◌++◌, ◌*◌, sym, replicate, take, drop, some, refl, arith, List, [], ◌∷◌,
}
use cs_primer.Posix.{Log, Kernel, done}
use cs_primer.Sockets.FileServer.{block_size, blocks, send_file, send_file_ends, file_transfer}
use cs_primer.Posix.Text.{Str, codes}
use cs_primer.Posix.Loops.{read_loop, sent, received, is_write, is_fwrite}
use cs_primer.Posix.Sample.{sample, sample-Feeds}
use cs_primer.Sockets.Hello.{hello_server, greeting}
use cs_primer.Sockets.Echo.{echo, write_both}
use cs_primer.Sockets.Files.{receive_file}
use cs_primer.Sockets.Echo.Relay.{echo_ends, both_end}

abbrev args : List Str
args = codes "server" ∷ codes "9190" ∷ []

abbrev talk : List (List ℕ)
talk = (1 ∷ 2 ∷ []) ∷ (3 ∷ []) ∷ []

hello_run :
    let (r, l) = hello_server args (sample []) [] in (r ≡ done 0) × (sent is_write 4 l ≡ greeting)
unfolding hello_server cs_primer.Posix.Calls.serve_one cs_primer.Posix.Calls.open_server
hello_run = (refl, refl)

echo_ends_example :
    let (r, l') = echo 3 1024 [] 4 (sample talk) [] in
    (r ≡ done tt) × (sent is_write 4 l' ≡ flatten talk) × (received 4 l' ≡ flatten talk)
echo_ends_example =
    echo_ends 3 1024 [] 4 (sample talk) [] talk (sample-Feeds talk) refl
      (omega arith, (omega arith, tt)) (omega arith)

both_end_example :
    let (r, l') = read_loop 3 4 100 [] (write_both 4 7) (sample talk) [] in
    (r ≡ done tt) × (sent is_write 4 l' ≡ flatten talk) × (sent is_write 7 l' ≡ flatten talk)
both_end_example =
    both_end 3 100 [] 4 7 (sample talk) [] talk (λ e. absurd (omega (arith, e))) (sample-Feeds talk)
      refl (omega arith, (omega arith, tt)) (omega arith)

-- A file of 32 bytes behind every stream: a full block, and the rest.
abbrev content : List ℕ
content = replicate 31 5 ++ 6 ∷ []

abbrev disk : Kernel
disk = record {
  ret = λ l s args. some 0;
  bytes = λ l s args. some (take block_size (drop (block_size * blocks 8 l) content));
  errno = λ l. 0;
}

send_file_ends_example :
    let (r, l') = send_file 2 [] 4 8 disk [] in (r ≡ done tt) × (sent is_write 4 l' ≡ content)
send_file_ends_example = send_file_ends 2 [] 4 8 disk [] content (λ l. refl) refl (omega arith)

-- The network delivers the file in three chunks.
abbrev delivery : List (List ℕ)
delivery = replicate 10 5 ∷ replicate 21 5 ∷ (6 ∷ []) ∷ []

file_transfer_example : sent is_fwrite 9 (receive_file 4 [] 4 9 (sample delivery) []).1 ≡ content
unfolding flatten
file_transfer_example =
    file_transfer 2 4 [] [] 4 8 4 9 disk (sample delivery) content delivery (λ l. refl)
      (omega arith) (sample-Feeds delivery)
      (sym (send_file_ends 2 [] 4 8 disk [] content (λ l. refl) refl (omega arith)).1)
      (omega arith, (omega arith, (omega arith, tt))) (omega arith)
