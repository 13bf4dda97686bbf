-- ===== src/Sockets/Calculator.antt =====
-- The calculator: tcp-ip/socket/src/op_server.c and op_client.c. An `int` is a word of 32 bits, with
-- wrap-around where C leaves the overflow open; the byte order is little-endian.
pub mod Wire
pub mod Serve
mod Tests
use cs_primer.Prelude.{
  ℕ, zero, suc, ◌+◌, ◌-◌, ◌*◌, ◌/◌, ◌%◌, ◌^◌, List, [], ◌∷◌, ◌++◌, Option, none, some, ◌==◌, leb,
  if◌then◌else◌, length, get_elem?, take,
}
use cs_primer.Posix.{Sys, num, text, lit, Prog, ◌>>=◌, ◌>>◌, pure, call, fetch, out_of_fuel}
use cs_primer.Posix.Text.{Str}
use cs_primer.Posix.Calls.{say, error_handler, expect_argc, arg_at, open_server, open_client, close}

abbrev pub opsz : ℕ
opsz = 4

abbrev pub buf_size : ℕ
buf_size = 1024

abbrev pub add : ℕ → ℕ → ℕ
add a b = (a + b) % 2 ^ 32

abbrev pub subtract : ℕ → ℕ → ℕ
subtract a b = (a + (2 ^ 32 - b)) % 2 ^ 32

abbrev pub multiply : ℕ → ℕ → ℕ
multiply a b = a * b % 2 ^ 32

-- One round of the loop that `switch(op)` picks; another operator leaves `result` alone.
abbrev pub apply : ℕ → ℕ → ℕ → ℕ
apply op a b =
    if op == b'+'
    then add a b
    else if op == b'-'
    then subtract a b
    else if op == b'*'
    then multiply a b
    else a

-- `for(i = 1; i < opnum; ++i) result = ... opnds[i];`, with `n` rounds to go.
unfoldable pub rounds_from : ℕ → (ℕ → ℕ) → ℕ → ℕ → ℕ → ℕ
rounds_from op opnds zero i result = result
rounds_from op opnds (suc n) i result = rounds_from op opnds n (i + 1) (apply op result (opnds i))

unfoldable pub calculate : ℕ → (ℕ → ℕ) → ℕ → ℕ
unfolding rounds_from
calculate opnum opnds op = rounds_from op opnds (opnum - 1) 1 (opnds 0)

-- An `int` in memory.
abbrev pub int_bytes : ℕ → List ℕ
int_bytes w = w % 256 ∷ w / 256 % 256 ∷ w / 65536 % 256 ∷ w / 16777216 % 256 ∷ []

abbrev pub byte_at : List ℕ → ℕ → ℕ
byte_at bs i = elim (get_elem? bs i) [ none ↦ 0 | some b ↦ b ]

-- `((int*)opinfo)[i]`
abbrev pub int_at : List ℕ → ℕ → ℕ
int_at bs i =
    byte_at bs (opsz * i)
    + 256 * byte_at bs (1 + opsz * i)
    + 65536 * byte_at bs (2 + opsz * i)
    + 16777216 * byte_at bs (3 + opsz * i)

-- The operands as the client puts them behind one another.
abbrev pub operand_bytes : List ℕ → List ℕ
operand_bytes [] = []
operand_bytes (x ∷ xs) = int_bytes x ++ operand_bytes xs

-- `opmsg`, as the client sends it: the count in a byte, the operands, the operator.
unfoldable pub op_message : List ℕ → ℕ → List ℕ
op_message xs op = length xs % 256 ∷ operand_bytes xs ++ op ∷ []

-- `while(recv_len < need) recv_len += read(c, &opinfo[recv_len], BUF_SIZE-1);`: `opinfo` is given
-- by its `recv_len` bytes. A failing read takes one off `recv_len`, which is undefined at 0.
unfoldable pub gather : ℕ → ℕ → ℕ → List ℕ → Prog (List ℕ)
gather zero c need opinfo = out_of_fuel
gather (suc fuel) c need opinfo = if leb need (length opinfo) then pure opinfo else (do
  r ← fetch Sys.read (num c ∷ num (buf_size - 1) ∷ [])
  elim r [
    | none ↦ elim opinfo [
      | [] ↦ out_of_fuel
      | b ∷ bs ↦ gather fuel c need (take (length bs) (b ∷ bs))
    ]
    | some bs ↦ gather fuel c need (opinfo ++ bs)
  ])

-- `opnd_cnt` after `read(c, &opnd_cnt, 1)`.
abbrev pub count_of : Option (List ℕ) → ℕ
count_of (some (b ∷ bs)) = b
count_of _ = 0

unfoldable pub serve_client : ℕ → ℕ → Prog (Unit {0})
unfolding gather calculate
serve_client fuel c = do
  r ← fetch Sys.read (num c ∷ num 1 ∷ [])
  opinfo ← gather fuel c (count_of r * opsz + 1) []
  let result = calculate (count_of r) (int_at opinfo) (byte_at opinfo (length opinfo - 1))
  say Sys.write (num c ∷ text (int_bytes result) ∷ num 4 ∷ [])
  close c

-- Five clients, one after the other. The result of `accept` is not checked: a failure is served as
-- the descriptor -1.
unfoldable pub serve_clients : ℕ → ℕ → ℕ → Prog (Unit {0})
serve_clients fuel s zero = pure tt
serve_clients fuel s (suc n) = do
  r ← call Sys.accept (num s ∷ [])
  serve_client fuel (elim r [ none ↦ 2 ^ 32 - 1 | some c ↦ c ])
  serve_clients fuel s n

unfoldable pub op_server : ℕ → List Str → Prog ℕ
op_server fuel argv = do
  expect_argc argv 2 "usage: %s <PORT>\n"
  s ← open_server error_handler "socket error" "bind error" "listen error" (arg_at argv 1)
  serve_clients fuel s 5
  close s
  pure 0
