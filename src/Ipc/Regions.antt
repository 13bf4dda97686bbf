-- ===== src/Ipc/Regions.antt =====
-- ipc/src/pxshm: shmcreate.c and shmunlink.c; ipc/src/svshm/shmread.c; and how these and
-- pxshm/shmread.c end.
use Prim.Native.String.{String}
use cs_primer.Prelude.{
  ℕ, zero, suc, ◌+◌, ◌%◌, ◌^◌, List, [], ◌∷◌, ◌≡◌, refl, if◌then◌else◌, ◌==◌, Bool-cases, inl, inr,
}
use cs_primer.Posix.{Sys, lit, num, text, Log, Kernel, Prog, ◌>>=◌, ◌>>◌, pure}
use cs_primer.Posix.Text.{Str, atoi, unsigned}
use cs_primer.Posix.Calls.{
  must, error_exit, expect_argc, arg_at, Options, expect_operands, has_option,
}
use cs_primer.Posix.Reports.{
  failures, Reports, Clean, Clean-bind, must-Clean, expect_argc-Clean, expect_operands-Clean,
  unchecked-clean,
}
use cs_primer.Ipc.SharedMemory.{check_bytes, shmread}

-- The length is an `off_t`.
unfoldable pub shmcreate : Options → List Str → Prog ℕ
shmcreate o argv = do
  let flags = if has_option b'e' o.opts then "O_RDWR | O_CREAT | O_EXCL" else "O_RDWR | O_CREAT"
  expect_operands o argv 2 "usage: %s [-e] <name> <length>\n"
  let size = unsigned (2 ^ 64) (atoi (arg_at argv (o.optind + 1)))
  fd ←
      must Sys.shm_open (text (arg_at argv o.optind) ∷ lit flags ∷ lit "FILE_MODE" ∷ [])
        (error_exit "shm_open error")
  must Sys.ftruncate (num fd ∷ num size ∷ []) (error_exit "ftruncate error")
  must Sys.mmap (num size ∷ lit "PROT_READ | PROT_WRITE" ∷ lit "MAP_SHARED" ∷ num fd ∷ [])
      (error_exit "mmap error")
  pure 0

unfoldable pub shmunlink : List Str → Prog ℕ
shmunlink argv = do
  expect_argc argv 2 "usage: %s <name>\n"
  must Sys.shm_unlink (text (arg_at argv 1) ∷ []) (error_exit "shm_unlink error")
  pure 0

-- `mem` is the memory that is attached; IPC_STAT answers with its size.
unfoldable pub svshm_read : List Str → (ℕ → ℕ) → Prog ℕ
unfolding check_bytes
svshm_read argv mem = do
  expect_argc argv 2 "usage: %s <pathname>\n"
  key ← must Sys.ftok (text (arg_at argv 1) ∷ num 0 ∷ []) (error_exit "ftok error")
  id ← must Sys.shmget (num key ∷ num 0 ∷ lit "SVSHM_MODE" ∷ []) (error_exit "shmget error")
  must Sys.shmat (num id ∷ lit "NULL" ∷ num 0 ∷ []) (error_exit "shmat error")
  size ← must Sys.shmctl (num id ∷ lit "IPC_STAT" ∷ []) (error_exit "shmctl error")
  check_bytes "ptr[%d] = %d\n" size 0 mem
  pure 0

check_bytes-Clean :
    (line : String) (n i : ℕ) (mem : ℕ → ℕ) (k : Kernel) (l : Log)
    → failures l ≡ 0
    → Clean (check_bytes line n i mem k l)
unfolding check_bytes
check_bytes-Clean line zero i mem k l h = h
check_bytes-Clean line (suc n) i mem k l h = elim (Bool-cases (mem i == i % 256)) [
  | inl e ↦ rw e (check_bytes-Clean line n (i + 1) mem k l h)
  | inr e ↦
      let args = lit line ∷ num i ∷ num (mem i) ∷ [] in
      rw e (check_bytes-Clean line n (i + 1) mem k _ (unchecked-clean k l h Sys.printf args refl))
]

-- shmcreate.c, shmunlink.c and the two shmread.c come to their end, whatever the arguments are,
-- whatever stands in the memory and whatever the calls answer: they return 0 only if no checked call
-- has failed, and otherwise exit with status 1.
pub region_commands_report :
    (o : Options) (argv : List Str) (mem : ℕ → ℕ) (k : Kernel)
    → Reports (shmcreate o argv k [])
      × Reports (shmunlink argv k [])
      × Reports (shmread argv mem k [])
      × Reports (svshm_read argv mem k [])
unfolding shmcreate shmunlink shmread svshm_read
region_commands_report o argv mem k = (
  Clean-bind _ k _ (expect_operands-Clean k [] refl o argv 2 _) λ x l h.
      Clean-bind _ k _ (must-Clean k l h _ _ _) λ x l h.
        Clean-bind _ k _ (must-Clean k l h _ _ _)
          λ x l h. Clean-bind _ k _ (must-Clean k l h _ _ _) λ x l h. (refl, h),
  Clean-bind _ k _ (expect_argc-Clean k [] refl argv 2 _)
      λ x l h. Clean-bind _ k _ (must-Clean k l h _ _ _) λ x l h. (refl, h),
  Clean-bind _ k _ (expect_argc-Clean k [] refl argv 2 _) λ x l h.
      Clean-bind _ k _ (must-Clean k l h _ _ _) λ fd l h.
        Clean-bind _ k _ (must-Clean k l h _ _ _) λ size l h.
          Clean-bind _ k _ (must-Clean k l h _ _ _) λ x l h.
            let h1 = unchecked-clean k l h Sys.close (num fd ∷ []) refl in
            Clean-bind _ k _ (check_bytes-Clean _ size 0 mem k _ h1) λ x l h. (refl, h),
  Clean-bind _ k _ (expect_argc-Clean k [] refl argv 2 _) λ x l h.
      Clean-bind _ k _ (must-Clean k l h _ _ _) λ x l h.
        Clean-bind _ k _ (must-Clean k l h _ _ _) λ x l h.
          Clean-bind _ k _ (must-Clean k l h _ _ _) λ x l h.
            Clean-bind _ k _ (must-Clean k l h _ _ _) λ size l h.
              Clean-bind _ k _ (check_bytes-Clean _ size 0 mem k l h) λ x l h. (refl, h),
)
