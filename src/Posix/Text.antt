-- ===== src/Posix/Text.antt =====
-- Text as bytes: `atoi`, `printf`'s %ld, and the byte order of the network.
use Prim.Native.Char.{code}
use Prim.Native.String.{String}
use cs_primer.Prelude.{
  ℕ, zero, suc, ◌+◌, ◌-◌, ◌*◌, ◌/◌, ◌%◌, List, [], ◌∷◌, Bool, ◌&&◌, ◌||◌, leb, ◌==◌, if◌then◌else◌,
}

abbrev pub Str : Type 0
Str = List ℕ

-- The bytes of an ASCII text.
abbrev pub codes : String → Str
codes String.[] = []
codes (String.◌∷◌ c s) = code c ∷ codes s

-- A C `int`; `negsuc n` is -(n + 1).
pub data ℤ : Type 0 where
  pos : ℕ → ℤ
  negsuc : ℕ → ℤ

abbrev pub negate : ℕ → ℤ
negate zero = pos 0
negate (suc n) = negsuc n

-- How often `for (i = 0; i < n; ++i)` runs.
abbrev pub rounds : ℤ → ℕ
rounds (pos n) = n
rounds (negsuc n) = 0

-- Conversion to an unsigned type of `m` values.
abbrev pub unsigned : ℕ → ℤ → ℕ
unsigned m (pos n) = n % m
unsigned m (negsuc n) = m - 1 - n % m

abbrev pub is_digit : ℕ → Bool
is_digit c = leb b'0' c && leb c b'9'

abbrev pub is_space : ℕ → Bool
is_space c = c == 32 || (leb 9 c && leb c 13)

-- The digits at the front, on top of `acc`.
unfoldable pub digits_value : ℕ → Str → ℕ
digits_value acc [] = acc
digits_value acc (c ∷ s) =
    let rest = digits_value (acc * 10 + (c - b'0')) s in if is_digit c then rest else acc

unfoldable pub signed_value : Str → ℤ
unfolding digits_value
signed_value [] = pos 0
signed_value (c ∷ s) =
    if c == b'-'
    then negate (digits_value 0 s)
    else if c == b'+'
    then pos (digits_value 0 s)
    else pos (digits_value 0 (c ∷ s))

-- `atoi` and `atol`, for texts whose value fits the type.
unfoldable pub atoi : Str → ℤ
unfolding signed_value
atoi [] = pos 0
atoi (c ∷ s) = let rest = atoi s in if is_space c then rest else signed_value (c ∷ s)

-- `htons` on a little-endian machine: the two bytes change places. It is its own inverse.
unfoldable pub htons : ℕ → ℕ
htons x = x % 256 * 256 + x / 256 % 256

-- `htonl` on a little-endian machine.
unfoldable pub htonl : ℕ → ℕ
htonl x = htons (x % 65536) * 65536 + htons (x / 65536 % 65536)
