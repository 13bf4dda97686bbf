-- ===== src/Ipc/Semaphores.antt =====
-- ipc/src/pxsem: semgetvalue.c, sempost.c, semwait.c, semunlink.c and semcreate.c.
use cs_primer.Prelude.{ℕ, List, [], ◌∷◌, refl, arith, if◌then◌else◌}
use cs_primer.Posix.{Sys, lit, num, text, Kernel, Prog, ◌>>=◌, ◌>>◌, pure}
use cs_primer.Posix.Text.{Str, atoi, unsigned}
use cs_primer.Posix.Calls.{
  say, must, error_exit, expect_argc, arg_at, getpid, Options, expect_operands, has_option,
  last_value,
}
use cs_primer.Posix.Reports.{
  Reports, Clean-bind, must-Clean, expect_argc-Clean, expect_operands-Clean, getpid-Clean,
}

unfoldable pub semgetvalue : List Str → Prog ℕ
semgetvalue argv = do
  expect_argc argv 2 "usage: %s <name>\n"
  sem ← must Sys.sem_open (text (arg_at argv 1) ∷ num 0 ∷ []) (error_exit "sem_open error")
  val ← must Sys.sem_getvalue (num sem ∷ []) (error_exit "sem_getvalue error")
  say Sys.printf (lit "value = %d\n" ∷ num val ∷ [])
  pure 0

unfoldable pub sempost : List Str → Prog ℕ
sempost argv = do
  expect_argc argv 2 "usage: %s <name>\n"
  sem ← must Sys.sem_open (text (arg_at argv 1) ∷ num 0 ∷ []) (error_exit "sem_open error")
  must Sys.sem_post (num sem ∷ []) (error_exit "sem_post error")
  val ← must Sys.sem_getvalue (num sem ∷ []) (error_exit "sem_getvalue error")
  say Sys.printf (lit "value = %d\n" ∷ num val ∷ [])
  pure 0

unfoldable pub semunlink : List Str → Prog ℕ
semunlink argv = do
  expect_argc argv 2 "usage: %s <name>\n"
  must Sys.sem_unlink (text (arg_at argv 1) ∷ []) (error_exit "sem_unlink error")
  pure 0

unfoldable pub semwait : List Str → Prog ℕ
semwait argv = do
  expect_argc argv 2 "usage: %s <name>\n"
  sem ← must Sys.sem_open (text (arg_at argv 1) ∷ num 0 ∷ []) (error_exit "sem_open error")
  must Sys.sem_wait (num sem ∷ []) (error_exit "sem_wait error")
  val ← must Sys.sem_getvalue (num sem ∷ []) (error_exit "sem_getvalue error")
  pid ← getpid
  say Sys.printf (lit "pid %ld has semaphore, value = %d\n" ∷ num pid ∷ num val ∷ [])
  say Sys.pause []
  pure 0

-- `unsigned int value`, from the last `-i`.
unfoldable pub semcreate : Options → List Str → Prog ℕ
semcreate o argv = do
  expect_operands o argv 1 "usage: %s [-e] [-i intivalue] <name>\n"
  let flags = if has_option b'e' o.opts then "O_RDWR | O_CREAT | O_EXCL" else "O_RDWR | O_CREAT"
  let value = last_value b'i' 1 (λ s. unsigned 0x1_0000_0000 (atoi s)) o.opts
  sem ←
      must Sys.sem_open (text (arg_at argv o.optind) ∷ lit flags ∷ lit "FILE_MODE" ∷ num value ∷ [])
        (error_exit "sem_open error")
  must Sys.sem_close (num sem ∷ []) (error_exit "sem_close error")
  pure 0

-- Each of these commands comes to its end, whatever the arguments are and whatever the calls answer:
-- it returns 0 only if no checked call has failed, and otherwise exits with status 1.
pub sem_commands_report :
    (o : Options) (argv : List Str) (k : Kernel)
    → Reports (semgetvalue argv k [])
      × Reports (sempost argv k [])
      × Reports (semunlink argv k [])
      × Reports (semwait argv k [])
      × Reports (semcreate o argv k [])
unfolding semgetvalue sempost semunlink semwait semcreate
sem_commands_report o argv k = (
  Clean-bind _ k _ (expect_argc-Clean k [] refl argv 2 _) λ _ l h.
      Clean-bind _ k _ (must-Clean k l h _ _ _)
        λ sem l h. Clean-bind _ k _ (must-Clean k l h _ _ _) λ val l h. ground arith,
  Clean-bind _ k _ (expect_argc-Clean k [] refl argv 2 _) λ _ l h.
      Clean-bind _ k _ (must-Clean k l h _ _ _) λ sem l h.
        Clean-bind _ k _ (must-Clean k l h _ _ _)
          λ _ l h. Clean-bind _ k _ (must-Clean k l h _ _ _) λ val l h. ground arith,
  Clean-bind _ k _ (expect_argc-Clean k [] refl argv 2 _)
      λ _ l h. Clean-bind _ k _ (must-Clean k l h _ _ _) λ _ l h. (refl, h),
  Clean-bind _ k _ (expect_argc-Clean k [] refl argv 2 _) λ _ l h.
      Clean-bind _ k _ (must-Clean k l h _ _ _) λ sem l h.
        Clean-bind _ k _ (must-Clean k l h _ _ _) λ _ l h.
          Clean-bind _ k _ (must-Clean k l h _ _ _)
            λ val l h. Clean-bind _ k _ (getpid-Clean k l h) λ pid l h. ground arith,
  Clean-bind _ k _ (expect_operands-Clean k [] refl o argv 1 _) λ _ l h.
      Clean-bind _ k _ (must-Clean k l h _ _ _)
        λ sem l h. Clean-bind _ k _ (must-Clean k l h _ _ _) λ _ l h. (refl, h),
)
