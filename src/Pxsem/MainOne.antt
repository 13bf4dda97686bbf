-- ===== src/Pxsem/MainOne.antt =====
-- `main` of ipc/src/pxsem/sem_prodcons1.c, with named semaphores, of sem_prodcons2.c and of
-- sem_multibuffer.c: one producer and one consumer.
use cs_primer.Prelude.{ℕ, List, [], ◌∷◌, ◌≡◌, refl}
use cs_primer.Posix.{Sys, lit, num, text, Log, Kernel, Prog, ◌>>◌, pure}
use cs_primer.Posix.Text.{Str}
use cs_primer.Posix.Calls.{say, must, error_exit, expect_argc, arg_at}
use cs_primer.Posix.Reports.{
  failures, Reports, Clean, Clean-bind, Clean-then, must-Clean, expect_argc-Clean, unchecked-clean,
}
use cs_primer.Pxsem.Main.{
  prodcons3_main, prodcons4_main, prodcons_mains_report, make_semaphores, destroy_semaphores,
  make-Clean, destroy-Clean,
}

-- The three named semaphores; none of them may exist before.
unfoldable pub open_semaphores : Prog ℕ
open_semaphores = do
  must Sys.sem_open (lit "SEM_MUTEX" ∷ lit "O_CREAT | O_EXCL" ∷ lit "FILE_MODE" ∷ num 1 ∷ [])
      (error_exit "sem_open error")
  must Sys.sem_open (lit "SEM_NEMPTY" ∷ lit "O_CREAT | O_EXCL" ∷ lit "FILE_MODE" ∷ lit "NBUFF" ∷ [])
      (error_exit "sem_open error")
  must Sys.sem_open (lit "SEM_NSTORED" ∷ lit "O_CREAT | O_EXCL" ∷ lit "FILE_MODE" ∷ num 0 ∷ [])
      (error_exit "sem_open error")

unfoldable pub unlink_semaphores : Prog ℕ
unlink_semaphores = do
  must Sys.sem_unlink (lit "SEM_MUTEX" ∷ []) (error_exit "sem_unlink error")
  must Sys.sem_unlink (lit "SEM_NEMPTY" ∷ []) (error_exit "sem_unlink error")
  must Sys.sem_unlink (lit "SEM_NSTORED" ∷ []) (error_exit "sem_unlink error")

-- The two threads are started, and waited for.
unfoldable pub run_threads : Prog ℕ
run_threads = do
  say Sys.pthread_setconcurrency (num 2 ∷ [])
  must Sys.pthread_create (lit "producer" ∷ []) (error_exit "pthread_create error")
  must Sys.pthread_create (lit "consumer" ∷ []) (error_exit "pthread_create error")
  must Sys.pthread_join (lit "producer" ∷ []) (error_exit "pthread_join error")
  must Sys.pthread_join (lit "consumer" ∷ []) (error_exit "pthread_join error")

unfoldable pub prodcons1_main : List Str → Prog ℕ
prodcons1_main argv = do
  expect_argc argv 2 "usage: %s <#items>\n"
  open_semaphores
  run_threads
  unlink_semaphores
  pure 0

unfoldable pub prodcons2_main : List Str → Prog ℕ
prodcons2_main argv = do
  expect_argc argv 2 "usage: %s <#items>\n"
  make_semaphores 10
  run_threads
  destroy_semaphores
  pure 0

unfoldable pub multibuffer_main : List Str → Prog ℕ
multibuffer_main argv = do
  expect_argc argv 2 "usage: %s <pathname>\n"
  must Sys.open_file (text (arg_at argv 1) ∷ lit "O_RDONLY" ∷ []) (error_exit "open error")
  make_semaphores 8
  run_threads
  destroy_semaphores
  pure 0

module _ (k : Kernel) (l : Log) (ok : failures l ≡ 0) where
  open-Clean : Clean (open_semaphores k l)
  unfolding open_semaphores
  open-Clean =
      Clean-then _ k _ (must-Clean k l ok _ _ _)
        λ _ l h. Clean-then _ k _ (must-Clean k l h _ _ _) λ _ l h. must-Clean k l h _ _ _

  unlink-Clean : Clean (unlink_semaphores k l)
  unfolding unlink_semaphores
  unlink-Clean =
      Clean-then _ k _ (must-Clean k l ok _ _ _)
        λ _ l h. Clean-then _ k _ (must-Clean k l h _ _ _) λ _ l h. must-Clean k l h _ _ _

  run_threads-Clean : Clean (run_threads k l)
  unfolding run_threads
  run_threads-Clean =
      let h1 = unchecked-clean k l ok Sys.pthread_setconcurrency (num 2 ∷ []) refl in
      Clean-then _ k _ (must-Clean k _ h1 _ _ _) λ _ l h.
        Clean-then _ k _ (must-Clean k l h _ _ _)
          λ _ l h. Clean-then _ k _ (must-Clean k l h _ _ _) λ _ l h. must-Clean k l h _ _ _

-- `main` of sem_prodcons1.c, sem_prodcons2.c and sem_multibuffer.c comes to its end, whatever the calls answer: it
-- returns 0 only if no checked call has failed, and otherwise exits with status 1.
one_to_one_mains_report :
    (argv : List Str) (k : Kernel)
    → Reports (prodcons1_main argv k [])
      × Reports (prodcons2_main argv k [])
      × Reports (multibuffer_main argv k [])
unfolding prodcons1_main prodcons2_main multibuffer_main
one_to_one_mains_report argv k = (
  Clean-bind _ k _ (expect_argc-Clean k [] refl argv 2 _) λ _ l h.
      Clean-bind _ k _ (open-Clean k l h) λ _ l h.
        Clean-bind _ k _ (run_threads-Clean k l h)
          λ _ l h. Clean-bind _ k _ (unlink-Clean k l h) λ _ l h. (refl, h),
  Clean-bind _ k _ (expect_argc-Clean k [] refl argv 2 _) λ _ l h.
      Clean-bind _ k _ (make-Clean k 10 l h) λ _ l h.
        Clean-bind _ k _ (run_threads-Clean k l h)
          λ _ l h. Clean-bind _ k _ (destroy-Clean k l h) λ _ l h. (refl, h),
  Clean-bind _ k _ (expect_argc-Clean k [] refl argv 2 _) λ _ l h.
      Clean-bind _ k _ (must-Clean k l h _ _ _) λ _ l h.
        Clean-bind _ k _ (make-Clean k 8 l h) λ _ l h.
          Clean-bind _ k _ (run_threads-Clean k l h)
            λ _ l h. Clean-bind _ k _ (destroy-Clean k l h) λ _ l h. (refl, h),
)

-- `main` of the five programs over semaphores, sem_prodcons1.c to sem_prodcons4.c and
-- sem_multibuffer.c, comes to its end, whatever the calls answer and the threads count: it returns 0
-- only if no checked call has failed, and otherwise exits with status 1.
pub semaphore_mains_report :
    (prodcount conscount : ℕ → ℕ) (argv : List Str) (k : Kernel)
    → Reports (prodcons1_main argv k [])
      × Reports (prodcons2_main argv k [])
      × Reports (prodcons3_main prodcount argv k [])
      × Reports (prodcons4_main prodcount conscount argv k [])
      × Reports (multibuffer_main argv k [])
semaphore_mains_report prodcount conscount argv k =
    let (a, b, e) = one_to_one_mains_report argv k in
    let (c, d) = prodcons_mains_report prodcount conscount argv k in (a, b, c, d, e)
