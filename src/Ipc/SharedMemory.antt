-- ===== src/Ipc/SharedMemory.antt =====
-- ipc/src/pxshm/shmwrite.c and shmread.c, and svshm/shmwrite.c: a pattern is written to shared
-- memory and checked by another program.
use Prim.Native.String.{String}
use cs_primer.Prelude.{
  update, ℕ, zero, suc, ◌+◌, ◌%◌, ◌<◌, ◌≤◌, List, [], ◌∷◌, ◌≡◌, ap, arith, if◌then◌else◌, ◌==◌,
  Bool-cases, inl, inr,
}
use cs_primer.Posix.{Sys, lit, num, text, did, Log, Kernel, Prog, ◌>>=◌, ◌>>◌, pure}
use cs_primer.Posix.Text.{Str}
use cs_primer.Posix.Calls.{say, must, error_exit, expect_argc, arg_at, close}

-- `*ptr++ = i % 256`, with `n` rounds to go: the memory that is mapped is given by its bytes.
unfoldable pub fill : ℕ → ℕ → (ℕ → ℕ) → ℕ → ℕ
fill zero i mem = mem
fill (suc n) i mem = fill n (i + 1) (update mem i (i % 256))

-- `if((c = *ptr++) != (i % 256)) printf(line, i, c)`, with `n` rounds to go.
unfoldable pub check_bytes : String → ℕ → ℕ → (ℕ → ℕ) → Prog (Unit {0})
check_bytes line zero i mem = pure tt
check_bytes line (suc n) i mem = do
  if mem i == i % 256 then pure tt else say Sys.printf (lit line ∷ num i ∷ num (mem i) ∷ [])
  check_bytes line n (i + 1) mem

-- `fstat` answers with the size. The result is the memory as the program leaves it.
unfoldable pub shmwrite : List Str → (ℕ → ℕ) → Prog (ℕ → ℕ)
unfolding fill
shmwrite argv mem = do
  expect_argc argv 2 "usage: %s <name>\n"
  fd ←
      must Sys.shm_open (text (arg_at argv 1) ∷ lit "O_RDWR" ∷ lit "FILE_MODE" ∷ [])
        (error_exit "shm_open error")
  size ← must Sys.fstat (num fd ∷ []) (error_exit "fstat error")
  must Sys.mmap (num size ∷ lit "PROT_READ | PROT_WRITE" ∷ lit "MAP_SHARED" ∷ num fd ∷ [])
      (error_exit "mmap error")
  close fd
  pure (fill size 0 mem)

unfoldable pub shmread : List Str → (ℕ → ℕ) → Prog ℕ
unfolding check_bytes
shmread argv mem = do
  expect_argc argv 2 "usage: %s <name>\n"
  fd ←
      must Sys.shm_open (text (arg_at argv 1) ∷ lit "O_RDONLY" ∷ lit "FILE_MODE" ∷ [])
        (error_exit "shm_open error")
  size ← must Sys.fstat (num fd ∷ []) (error_exit "fstat error")
  must Sys.mmap (num size ∷ lit "PROT_READ" ∷ lit "MAP_SHARED" ∷ num fd ∷ [])
      (error_exit "mmap error")
  close fd
  check_bytes "*ptr[%d] = %d" size 0 mem
  pure 0

-- The System V versions: `shmctl` with IPC_STAT answers with `shm_segsz`.
unfoldable pub svshm_write : List Str → (ℕ → ℕ) → Prog (ℕ → ℕ)
unfolding fill
svshm_write argv mem = do
  expect_argc argv 2 "usage: %s <pathname>\n"
  key ← must Sys.ftok (text (arg_at argv 1) ∷ num 0 ∷ []) (error_exit "ftok error")
  id ← must Sys.shmget (num key ∷ num 0 ∷ lit "SVSHM_MODE" ∷ []) (error_exit "shmget error")
  must Sys.shmat (num id ∷ lit "NULL" ∷ num 0 ∷ []) (error_exit "shmat error")
  size ← must Sys.shmctl (num id ∷ lit "IPC_STAT" ∷ []) (error_exit "shmctl error")
  pure (fill size 0 mem)

module _ (line : String) where
  abbrev lines : Log → ℕ
  lines [] = 0
  lines (e ∷ l) = suc (lines l)

  -- The reader's loop only ever adds lines.
  lines-check_bytes :
      (n i : ℕ) (mem : ℕ → ℕ) (k : Kernel) (l : Log)
      → lines l ≤ lines (check_bytes line n i mem k l).1
  unfolding check_bytes
  lines-check_bytes zero i mem k l = omega arith
  lines-check_bytes (suc n) i mem k l = elim (Bool-cases (mem i == i % 256)) [
    | inl e ↦ rw e (lines-check_bytes n (i + 1) mem k l)
    | inr e ↦
        let args = lit line ∷ num i ∷ num (mem i) ∷ [] in
        let l1 : Log = did Sys.printf args (k.ret l Sys.printf args) ∷ l in
        rw e (omega (arith, lines-check_bytes n (i + 1) mem k l1))
  ]

  -- The reader's loop misses nothing: where it prints nothing, the pattern stands in the memory.
  pub check_bytes_complete :
      (n i : ℕ) (mem : ℕ → ℕ) (k : Kernel) (l : Log)
      → (check_bytes line n i mem k l).1 ≡ l
      → (j : ℕ) → i ≤ j
      → j < i + n
      → mem j ≡ j % 256
  unfolding check_bytes
  check_bytes_complete zero i mem k l quiet j lo hi = absurd (omega arith)
  check_bytes_complete (suc n) i mem k l quiet j lo hi = elim (Bool-cases (mem i == i % 256)) [
    | inl e ↦
        let rest : (check_bytes line n (i + 1) mem k l).1 ≡ l = rw e at quiet in
        elim (Bool-cases (i == j)) [
          | inl here ↦ ground (arith, here, e)
          | inr past ↦
              check_bytes_complete n (i + 1) mem k l rest j (ground (arith, past)) (omega arith)
        ]
    | inr e ↦
        let args = lit line ∷ num i ∷ num (mem i) ∷ [] in
        let l1 : Log = did Sys.printf args (k.ret l Sys.printf args) ∷ l in
        let rest : (check_bytes line n (i + 1) mem k l1).1 ≡ l = rw e at quiet in
        absurd (omega (arith, ap lines rest, lines-check_bytes n (i + 1) mem k l1))
  ]
