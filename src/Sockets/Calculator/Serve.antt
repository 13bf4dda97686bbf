-- ===== src/Sockets/Calculator/Serve.antt =====
-- What op_server.c reads from a client and answers.
use mathlib.Core.List.{append-nil, append_assoc, flatten}
use cs_primer.Prelude.{
  ℕ, zero, suc, ◌+◌, ◌-◌, ◌*◌, ◌<◌, ◌≡◌, refl, ap, sym, ◌∙◌, List, [], ◌∷◌, ◌++◌, true, false, some,
  arith, leb, length, length-append, drop,
}
use cs_primer.Posix.{Sys, num, text, got, Log, Kernel, done, ◌>>◌}
use cs_primer.Posix.Calls.{say, close}
use cs_primer.Posix.Loops.{sent, reads, is_write}
use cs_primer.Posix.Loops.Relay.{Feeds, Full, chunk_at, chunk_next}
use cs_primer.Sockets.Calculator.{
  opsz, int_bytes, byte_at, int_at, operand_bytes, op_message, gather, calculate, serve_client,
}
use cs_primer.Sockets.Calculator.Wire.{
  Ints, fold, operand_bytes-length, calculate_operands, byte_at-last,
}

join-nil : (xs : List ℕ) → xs ≡ xs ++ flatten []
unfolding flatten
join-nil xs = sym (append-nil xs)

join-cons :
    (xs ys : List ℕ) (rest : List (List ℕ)) → (xs ++ ys) ++ flatten rest ≡ xs ++ flatten (ys ∷ rest)
unfolding flatten
join-cons xs ys rest = append_assoc xs ys (flatten rest)

length-join :
    (ys : List ℕ) (rest : List (List ℕ))
    → length (flatten (ys ∷ rest)) ≡ length ys + length (flatten rest)
unfolding flatten
length-join ys rest = length-append ys (flatten rest)

length-join-nil : length (flatten {A = ℕ} []) ≡ 0
unfolding flatten
length-join-nil = refl

module _ (k : Kernel) (c need : ℕ) (chunks : List (List ℕ)) (feeds : Feeds k c chunks) where
  gather_all :
      (rest : List (List ℕ)) (fuel : ℕ) (opinfo : List ℕ) (l : Log)
      → drop (reads c l) chunks ≡ rest
      → Full rest
      → length opinfo + length (flatten rest) ≡ need
      → length rest < fuel
      → let (r, l') = gather fuel c need opinfo k l in
        (r ≡ done (opinfo ++ flatten rest)) × (sent is_write c l' ≡ sent is_write c l)
  unfolding gather
  gather_all rest zero opinfo l e full fits h = elim h [ ]
  gather_all [] (suc fuel) opinfo l e full fits h =
      let enough : leb need (length opinfo) ≡ true = ground (arith, length-join-nil) in
      rw enough (ap done (join-nil opinfo), refl)
  gather_all (bs ∷ rest) (suc fuel) opinfo l e full fits h =
      let next = chunk_next chunks (reads c l) bs rest e in
      let short : leb need (length opinfo) ≡ false = ground (arith, length-join bs rest) in
      let l1 : Log = got Sys.read (num c ∷ num 1023 ∷ []) (some bs) ∷ l in
      let one_more : reads c l1 ≡ suc (reads c l) = ground arith in
      let ih =
        gather_all rest fuel (opinfo ++ bs) l1 (ap (λ n. drop n chunks) one_more ∙ next.1) full.1
          (omega (arith, length-append opinfo bs, length-join bs rest)) (omega arith) in
      rw (short, feeds l 1023 ∙ ap some next.0)
        (ih.0 ∙ ap done (join-cons opinfo bs rest), ih.1 ∙ append-nil (sent is_write c l))

answer :
    (x : ℕ) (xs : List ℕ) (op : ℕ)
    → Ints (x ∷ xs)
    → let opinfo = operand_bytes (x ∷ xs) ++ op ∷ [] in
      calculate (length (x ∷ xs)) (int_at opinfo) (byte_at opinfo (length opinfo - 1))
      ≡ fold op x xs
answer x xs op ints =
    let front = operand_bytes (x ∷ xs) in
    let size : length (front ++ op ∷ []) - 1 ≡ length front =
      omega (arith, length-append front (op ∷ [])) in
    rw (size, byte_at-last front op) (calculate_operands op x xs (op ∷ []) ints)

reply-sent :
    (c w : ℕ) (k : Kernel) (l : Log)
    → sent is_write c ((say Sys.write (num c ∷ text (int_bytes w) ∷ num 4 ∷ []) >> close c) k l).1
      ≡ sent is_write c l ++ int_bytes w
reply-sent c w k l = ground (arith, append-nil (sent is_write c l ++ int_bytes w))

-- A client sends its message, cut up in any way behind the count: `serve_client` comes to its end
-- and sends the client the bytes of the fold of the operator over the operands, wrapped to 32 bits.
pub serve_client_answers :
    (fuel c : ℕ) (k : Kernel) (l : Log) (x : ℕ) (xs : List ℕ) (op : ℕ) (rest : List (List ℕ))
    → Feeds k c ((length (x ∷ xs) ∷ []) ∷ rest)
    → (length (x ∷ xs) ∷ []) ++ flatten rest ≡ op_message (x ∷ xs) op
    → Ints (x ∷ xs)
    → Full rest
    → reads c l ≡ 0
    → length rest < fuel
    → let (r, l') = serve_client fuel c k l in
      (r ≡ done tt) × (sent is_write c l' ≡ sent is_write c l ++ int_bytes (fold op x xs))
unfolding serve_client op_message
serve_client_answers fuel c k l x xs op rest feeds message ints full first enough =
    let n = length (x ∷ xs) in
    let opinfo = operand_bytes (x ∷ xs) ++ op ∷ [] in
    let tail : flatten rest ≡ opinfo = cc in
    let read : k.bytes l Sys.read (num c ∷ num 1 ∷ []) ≡ some (n ∷ []) =
      feeds l 1 ∙ ap (λ i. some (chunk_at ((n ∷ []) ∷ rest) i)) first in
    let l1 : Log = got Sys.read (num c ∷ num 1 ∷ []) (some (n ∷ [])) ∷ l in
    let one : reads c l1 ≡ 1 = ground (arith, first) in
    let fits : length (flatten rest) ≡ n * opsz + 1 =
      ap length tail
      ∙ length-append (operand_bytes (x ∷ xs)) (op ∷ [])
      ∙ ap (λ m. m + 1) (operand_bytes-length (x ∷ xs)) in
    let all =
      gather_all k c (n * opsz + 1) _ feeds rest fuel [] l1 (ap (λ i. drop i ((n ∷ []) ∷ rest)) one)
        full (omega (arith, fits)) enough in
    let whole = all.0 ∙ ap done tail in
    let g = gather fuel c (n * opsz + 1) [] k l1 in
    rw (read, whole, answer x xs op ints)
      (
        refl,
        reply-sent c (fold op x xs) k g.1
            ∙ ap (λ s. s ++ int_bytes (fold op x xs)) (all.1 ∙ append-nil (sent is_write c l)),
      )
