-- ===== src/Sockets/Calculator/Wire.antt =====
-- The bytes between op_client.c and op_server.c.
use cs_primer.Prelude.{
  ℕ, zero, suc, ◌+◌, ◌-◌, ◌*◌, ◌/◌, ◌%◌, ◌<◌, ◌^◌, ◌≡◌, refl, ap, ◌∙◌, List, [], ◌∷◌, ◌++◌, some,
  arith, length, get_elem?,
}
use cs_primer.Sockets.Calculator.{
  opsz, byte_at, int_at, operand_bytes, apply, rounds_from, calculate,
}

abbrev pub Ints : List ℕ → Type 0
Ints [] = Unit
Ints (x ∷ xs) = (x < 2 ^ 32) × Ints xs

-- The calculation as a fold over the operands.
unfoldable pub fold : ℕ → ℕ → List ℕ → ℕ
fold op a [] = a
fold op a (x ∷ xs) = fold op (apply op a x) xs

pub operand_bytes-length : (xs : List ℕ) → length (operand_bytes xs) ≡ length xs * opsz
operand_bytes-length [] = refl
operand_bytes-length (x ∷ xs) = omega (arith, operand_bytes-length xs)

int_bytes_value :
    (x : ℕ)
    → x < 2 ^ 32
    → x % 256 + 256 * (x / 256 % 256) + 65536 * (x / 65536 % 256) + 16777216 * (x / 16777216 % 256)
      ≡ x
int_bytes_value x h = omega arith

int_at-suc :
    (b0 b1 b2 b3 : ℕ) (bs : List ℕ) (i : ℕ) → int_at (b0 ∷ b1 ∷ b2 ∷ b3 ∷ bs) (suc i) ≡ int_at bs i
int_at-suc b0 b1 b2 b3 bs i =
    let e0 : opsz * suc i ≡ suc (suc (suc (suc (opsz * i)))) = omega arith in
    let e1 : 1 + opsz * suc i ≡ suc (suc (suc (suc (1 + opsz * i)))) = omega arith in
    let e2 : 2 + opsz * suc i ≡ suc (suc (suc (suc (2 + opsz * i)))) = omega arith in
    let e3 : 3 + opsz * suc i ≡ suc (suc (suc (suc (3 + opsz * i)))) = omega arith in
    rw (e1, e2, e3, e0) refl

pub int_at-operand_bytes :
    (xs rest : List ℕ) (i x : ℕ)
    → Ints xs
    → get_elem? xs i ≡ some x
    → int_at (operand_bytes xs ++ rest) i ≡ x
int_at-operand_bytes [] rest i x h e = cc
int_at-operand_bytes (y ∷ xs) rest zero x h e = ground (arith, int_bytes_value y h.0)
int_at-operand_bytes (y ∷ xs) rest (suc i) x h e =
    int_at-suc _ _ _ _ (operand_bytes xs ++ rest) i ∙ int_at-operand_bytes xs rest i x h.1 e

rounds_from-fold :
    (op : ℕ) (opnds : ℕ → ℕ) (xs : List ℕ) (i a : ℕ)
    → ((j x : ℕ) → get_elem? xs j ≡ some x → opnds (i + j) ≡ x)
    → rounds_from op opnds (length xs) i a ≡ fold op a xs
unfolding rounds_from fold
rounds_from-fold op opnds [] i a h = refl
rounds_from-fold op opnds (x ∷ xs) i a h =
    let first : opnds i ≡ x = ap opnds (omega arith) ∙ h 0 x refl in
    rw (rounds_from, first)
      (rounds_from-fold op opnds xs (i + 1) (apply op a x)
        (λ j y e. ap opnds (omega arith) ∙ h (suc j) y e))

-- `calculate` on the bytes of the operands is the fold over them.
pub calculate_operands :
    (op : ℕ) (x : ℕ) (xs rest : List ℕ)
    → Ints (x ∷ xs)
    → calculate (length (x ∷ xs)) (int_at (operand_bytes (x ∷ xs) ++ rest)) op ≡ fold op x xs
unfolding calculate
calculate_operands op x xs rest h =
    let at = int_at-operand_bytes (x ∷ xs) rest in
    let opnds = int_at (operand_bytes (x ∷ xs) ++ rest) in
    let rounds : length (x ∷ xs) - 1 ≡ length xs = omega arith in
    rw (rounds, at 0 x h refl)
      (rounds_from-fold op opnds xs 1 x (λ j y e. ap opnds (omega arith) ∙ at (suc j) y h e))

pub byte_at-last : (bs : List ℕ) (b : ℕ) → byte_at (bs ++ b ∷ []) (length bs) ≡ b
byte_at-last [] b = refl
byte_at-last (c ∷ bs) b = byte_at-last bs b
