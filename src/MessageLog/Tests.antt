-- ===== src/MessageLog/Tests.antt =====
-- Runs of client2.c with server2.c, and the theorems at concrete inputs.
use cs_primer.Prelude.{
  ℕ, ◌+◌, ◌≡◌, ◌⊎◌, refl, List, [], ◌∷◌, ◌++◌, replicate, length, sum, none, some,
}
use cs_primer.Threads.{total}
use cs_primer.Threads.Machine.{System, run, CanMove}
use cs_primer.MessageLog.{Shared, Thread, move, init}
use cs_primer.MessageLog.Inv.{running}
use cs_primer.MessageLog.Laws.{log_accounts}

abbrev loops : List ℕ
loops = 2 ∷ 1 ∷ []

abbrev schedule : List ℕ
schedule = replicate 20 1 ++ replicate 20 2 ++ replicate 40 0

abbrev final : System Shared Thread
final = run move (init loops) schedule

log_accounts_example :
    CanMove move final
    ⊎ ((total running final.threads ≡ 0)
        × (final.mem.nstored ≡ 0)
        × (length final.mem.printed + final.mem.noverflow ≡ sum loops))
log_accounts_example = log_accounts loops schedule

all_printed : final.mem.printed ≡ ((0, some (0, 0)) ∷ (1, some (0, 1)) ∷ (2, some (1, 0)) ∷ [])
unfolding run move
all_printed = refl

-- A client that has its offset but has not copied its message yet, while another posts: the server
-- prints a slot without a message, and the message of the other never.
printed_too_early :
    (run move (init (1 ∷ 1 ∷ [])) (replicate 5 1 ++ replicate 8 2 ++ replicate 10 0)).mem.printed
    ≡ ((0, none) ∷ [])
unfolding run move
printed_too_early = refl
