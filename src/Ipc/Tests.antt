-- ===== src/Ipc/Tests.antt =====
-- The commands at concrete inputs.
use cs_primer.Prelude.{map, ◌≡◌, refl, List, [], ◌∷◌}
use cs_primer.Posix.Text.{Str, codes, atoi}
use cs_primer.Posix.Calls.{Options}
use cs_primer.Ipc.Values.{SemBuf, operations}

abbrev args : List Str
args = codes "command" ∷ codes "/name" ∷ []

-- `command -e /name`, as `getopt` leaves it.
abbrev with_e : Options
with_e = record { opts = (b'e', []) ∷ []; optind = 1 }

-- Both operations are read from the argument before the pathname.
same_operation : map (λ (b : SemBuf). b.sem_op) (operations "0" (codes "semops") 2 0) ≡ (0 ∷ 0 ∷ [])
unfolding operations atoi
same_operation = refl
