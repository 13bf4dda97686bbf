-- ===== src/Sockets/Echo/Relay.antt =====
-- What the echo loops hand to `write`.
use mathlib.Core.List.{append-nil, flatten}
use cs_primer.Prelude.{
  ℕ, ◌<◌, ◌≢◌, ◌==◌, List, [], ◌++◌, ◌≡◌, ◌∙◌, ap, arith, refl, true, false, length, take,
}
use cs_primer.Posix.{Log, Kernel, done}
use cs_primer.Posix.Loops.{read_loop, sent, received, reads, is_write}
use cs_primer.Posix.Loops.Relay.{Relays, IsRelayed, read_loop-IsRelayed, relay_ends, Feeds, Full}
use cs_primer.Sockets.Echo.{echo, write_back, write_both}

write_back-Relays : (c : ℕ) → Relays is_write c c (write_back c)
write_back-Relays c b n k l = (_, refl, ground arith, append-nil (received c l), refl, refl)

-- After any number of rounds of the echo, what has been handed to `write` for the client is what has
-- been read from it, unless a read has failed.
pub echo-IsRelayed :
    (fuel size : ℕ) (msg : List ℕ) (c : ℕ) (k : Kernel) (l : Log)
    → IsRelayed is_write c c l
    → IsRelayed is_write c c (echo fuel size msg c k l).1
unfolding echo
echo-IsRelayed fuel size msg c k l h =
    read_loop-IsRelayed is_write c c size (write_back c) (write_back-Relays c) k fuel msg l h

-- Where the client sends the chunks and then its end, the echo comes to its end, and has sent back
-- all chunks in order.
pub echo_ends :
    (fuel size : ℕ) (msg : List ℕ) (c : ℕ) (k : Kernel) (l : Log) (chunks : List (List ℕ))
    → Feeds k c chunks
    → reads c l ≡ 0
    → Full chunks
    → length chunks < fuel
    → let (r, l') = echo fuel size msg c k l in
      (r ≡ done tt)
      × (sent is_write c l' ≡ sent is_write c l ++ flatten chunks)
      × (received c l' ≡ received c l ++ flatten chunks)
unfolding echo
echo_ends fuel size msg c k l chunks feeds first full enough =
    relay_ends is_write c c size (write_back c) (write_back-Relays c) k chunks feeds chunks fuel msg
      l (rw first refl) full enough

write_both-Relays :
    (c pipe_in : ℕ)
    → c ≢ pipe_in
    → Relays is_write c c (write_both c pipe_in) × Relays is_write pipe_in c (write_both c pipe_in)
write_both-Relays c pipe_in apart =
    let hit_c : (c == c) ≡ true = ground arith in
    let hit_p : (pipe_in == pipe_in) ≡ true = ground arith in
    let miss : (pipe_in == c) ≡ false = ground (arith, apart) in
    let miss' : (c == pipe_in) ≡ false = ground (arith, apart) in
    (
      λ b n k l. (
        _,
        refl,
        rw (hit_c, miss) (append-nil (sent is_write c l ++ take n b)),
        append-nil (received c l ++ []) ∙ append-nil (received c l),
        refl,
        refl,
      ),
      λ b n k l. (
        _,
        refl,
        rw (hit_p, miss') (ap (λ x. x ++ take n b) (append-nil (sent is_write pipe_in l))),
        append-nil (received c l ++ []) ∙ append-nil (received c l),
        refl,
        refl,
      ),
    )

-- The loops of echo_storeserver.c and reuseaddr_eserver.c, with the second descriptor `copy`: where
-- the client sends the chunks and then its end, they come to their end, and both the client and
-- `copy` have been sent all chunks in order.
pub both_end :
    (fuel size : ℕ) (buf : List ℕ) (c copy : ℕ) (k : Kernel) (l : Log) (chunks : List (List ℕ))
    → c ≢ copy
    → Feeds k c chunks
    → reads c l ≡ 0
    → Full chunks
    → length chunks < fuel
    → let (r, l') = read_loop fuel c size buf (write_both c copy) k l in
      (r ≡ done tt)
      × (sent is_write c l' ≡ sent is_write c l ++ flatten chunks)
      × (sent is_write copy l' ≡ sent is_write copy l ++ flatten chunks)
both_end fuel size buf c copy k l chunks apart feeds first full enough =
    let both = write_both-Relays c copy apart in
    let to_c =
      relay_ends is_write c c size (write_both c copy) both.0 k chunks feeds chunks fuel buf l
        (rw first refl) full enough in
    let to_copy =
      relay_ends is_write copy c size (write_both c copy) both.1 k chunks feeds chunks fuel buf l
        (rw first refl) full enough in
    (to_c.0, to_c.1, to_copy.1)
