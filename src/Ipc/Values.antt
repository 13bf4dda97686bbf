-- ===== src/Ipc/Values.antt =====
-- ipc/src/svsem: semgetvalues.c, semsetvalues.c and semops.c, over all the semaphores of a set.
use cs_primer.Prelude.{
  ℕ, zero, suc, ◌+◌, ◌-◌, ◌%◌, ◌≡◌, List, [], ◌∷◌, refl, arith, if◌then◌else◌, ◌==◌, leb, length,
  map,
}
use Prim.Native.String.{String}
use cs_primer.Posix.{Sys, Arg, lit, num, text, Log, Kernel, Prog, ◌>>=◌, ◌>>◌, pure}
use cs_primer.Posix.Text.{Str, atoi, unsigned}
use cs_primer.Posix.Calls.{say, must, error_exit, expect_argc, arg_at, expect, Options, has_option}
use cs_primer.Posix.Reports.{
  failures, Reports, Clean, Clean-bind, Clean-then, must-Clean, expect_argc-Clean, expect-Clean,
  unchecked-clean,
}

-- The loop of semgetvalues.c, with `n` rounds to go.
unfoldable pub print_values : (ℕ → ℕ) → ℕ → ℕ → Prog (Unit {0})
print_values array zero i = pure tt
print_values array (suc n) i = do
  say Sys.printf (lit "semval[%d] = %d\n" ∷ num i ∷ num (array i) ∷ [])
  print_values array n (i + 1)

-- The key and the set of the path, and how many semaphores the set has: IPC_STAT answers with them.
unfoldable pub set_of : Str → Prog (ℕ × ℕ)
set_of path = do
  key ← must Sys.ftok (text path ∷ num 0 ∷ []) (error_exit "ftok error")
  semid ← must Sys.semget (num key ∷ num 0 ∷ num 0 ∷ []) (error_exit "semget error")
  nsems ← must Sys.semctl (num semid ∷ num 0 ∷ lit "IPC_STAT" ∷ []) (error_exit "semctl error")
  pure (semid, nsems)

-- `array` is what GETALL stores.
unfoldable pub semgetvalues : (ℕ → ℕ) → List Str → Prog ℕ
semgetvalues array argv = do
  expect_argc argv 2 "usage: %s <pathname>\n"
  set ← set_of (arg_at argv 1)
  must Sys.calloc (num set.1 ∷ num 2 ∷ []) (error_exit "calloc error")
  must Sys.semctl (num set.0 ∷ num 0 ∷ lit "GETALL" ∷ []) (error_exit "semctl error")
  print_values array set.1 0
  say Sys.free (lit "arg.array" ∷ [])
  pure 0

-- The array that semsetvalues.c fills, a word of 16 bits for each round.
unfoldable pub operand_values : List Str → ℕ → ℕ → List ℕ
operand_values argv zero i = []
operand_values argv (suc n) i =
    unsigned 65536 (atoi (arg_at argv (i + 2))) ∷ operand_values argv n (i + 1)

unfoldable pub semsetvalues : List Str → Prog ℕ
semsetvalues argv = do
  expect (leb 2 (length argv)) (lit "usage: %s <pathname> [values ...]\n" ∷ [])
  set ← set_of (arg_at argv 1)
  expect (length argv == set.1 + 2)
      (lit "%d semaphores in set, %d values specified\n" ∷ num set.1 ∷ num (length argv - 2) ∷ [])
  must Sys.calloc (num set.1 ∷ num 2 ∷ []) (error_exit "calloc error")
  must Sys.semctl (num set.0 ∷ num 0 ∷ lit "SETALL" ∷ map num (operand_values argv set.1 0))
      (error_exit "semctl error")
  say Sys.free (lit "arg.array" ∷ [])
  pure 0

-- `struct sembuf`, the operation as a word of 16 bits.
pub record SemBuf : Type 0 where
  pub sem_num : ℕ
  pub sem_op : ℕ
  pub sem_flg : String

abbrev pub op_flag : Options → String
op_flag o =
    if has_option b'n' o.opts
    then (if has_option b'u' o.opts then "IPC_NOWAIT | SEM_UNDO" else "IPC_NOWAIT")
    else (if has_option b'u' o.opts then "SEM_UNDO" else "0")

-- The loop of semops.c: it reads the operation from `argv[optind + 0]` in every round.
unfoldable pub operations : String → Str → ℕ → ℕ → List SemBuf
operations flag arg zero i = []
operations flag arg (suc n) i =
    record { sem_num = i % 65536; sem_op = unsigned 65536 (atoi arg); sem_flg = flag }
    ∷ operations flag arg n (i + 1)

abbrev sembuf_args : List SemBuf → List Arg
sembuf_args [] = []
sembuf_args (b ∷ bs) = num b.sem_num ∷ num b.sem_op ∷ lit b.sem_flg ∷ sembuf_args bs

-- `getopt` leaves `optind` at 1 or more; it is one less when the operations are read and counted.
unfoldable pub semops : Options → List Str → Prog ℕ
semops o argv = do
  expect (leb (o.optind + 2) (length argv))
      (lit "usage: %s [-n] [-u] <pathname> operation ...\n" ∷ [])
  key ← must Sys.ftok (text (arg_at argv o.optind) ∷ num 0 ∷ []) (error_exit "ftok error")
  semid ← must Sys.semget (num key ∷ num 0 ∷ num 0 ∷ []) (error_exit "semget error")
  let optind = o.optind - 1
  let nops = length argv - optind
  must Sys.calloc (num nops ∷ num 6 ∷ []) (error_exit "calloc error")
  must Sys.semop
      (num semid ∷ num nops ∷ sembuf_args (operations (op_flag o) (arg_at argv optind) nops 0))
      (error_exit "semop error")
  say Sys.free (lit "ptr" ∷ [])
  pure 0

print_values-Clean :
    (array : ℕ → ℕ) (n i : ℕ) (k : Kernel) (l : Log)
    → failures l ≡ 0
    → Clean (print_values array n i k l)
unfolding print_values
print_values-Clean array zero i k l h = h
print_values-Clean array (suc n) i k l h =
    print_values-Clean array n (i + 1) k _
      (unchecked-clean k l h Sys.printf (lit "semval[%d] = %d\n" ∷ num i ∷ num (array i) ∷ []) refl)

set_of-Clean : (path : Str) (k : Kernel) (l : Log) → failures l ≡ 0 → Clean (set_of path k l)
unfolding set_of
set_of-Clean path k l h = Clean-then _ k _ (must-Clean k l h _ _ _) λ _ l h.
    Clean-then _ k _ (must-Clean k l h _ _ _)
      λ _ l h. Clean-then _ k _ (must-Clean k l h _ _ _) λ _ l h. h

-- semgetvalues.c, semsetvalues.c and semops.c come to their end, whatever the arguments are and
-- whatever the calls answer: they return 0 only if no checked call has failed, and otherwise exit
-- with status 1.
pub value_commands_report :
    (o : Options) (array : ℕ → ℕ) (argv : List Str) (k : Kernel)
    → Reports (semgetvalues array argv k [])
      × Reports (semsetvalues argv k [])
      × Reports (semops o argv k [])
unfolding semgetvalues semsetvalues semops
value_commands_report o array argv k = (
  Clean-bind _ k _ (expect_argc-Clean k [] refl argv 2 _) λ x l h.
      Clean-bind _ k _ (set_of-Clean (arg_at argv 1) k l h) λ set l h.
        Clean-bind _ k _ (must-Clean k l h _ _ _) λ x l h.
          Clean-bind _ k _ (must-Clean k l h _ _ _) λ x l h.
            Clean-bind _ k _ (print_values-Clean array set.1 0 k l h) λ x l h. ground arith,
  Clean-bind _ k _
      (expect-Clean k [] refl (leb 2 (length argv))
        (lit "usage: %s <pathname> [values ...]\n" ∷ []))
      λ x l h. Clean-bind _ k _ (set_of-Clean (arg_at argv 1) k l h) λ set l h.
        Clean-bind _ k _
          (expect-Clean k l h (length argv == set.1 + 2) (
            lit "%d semaphores in set, %d values specified\n"
            ∷ num set.1
            ∷ num (length argv - 2)
            ∷ []))
          λ x l h.
            Clean-bind _ k _ (must-Clean k l h _ _ _)
              λ x l h. Clean-bind _ k _ (must-Clean k l h _ _ _) λ x l h. ground arith,
  Clean-bind _ k _
      (expect-Clean k [] refl (leb (o.optind + 2) (length argv))
        (lit "usage: %s [-n] [-u] <pathname> operation ...\n" ∷ []))
      λ x l h. Clean-bind _ k _ (must-Clean k l h _ _ _) λ x l h.
        Clean-bind _ k _ (must-Clean k l h _ _ _) λ x l h.
          Clean-bind _ k _ (must-Clean k l h _ _ _)
            λ x l h. Clean-bind _ k _ (must-Clean k l h _ _ _) λ x l h. ground arith,
)
