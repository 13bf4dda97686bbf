-- ===== src/Pxsem/Main.antt =====
-- `main` of ipc/src/pxsem/sem_prodcons3.c and sem_prodcons4.c: it makes the semaphores, starts the
-- threads, waits for them and prints their counts.
mod Tests
use Prim.Native.String.{String}
use cs_primer.Prelude.{ℕ, zero, suc, ◌+◌, ◌%◌, ◌^◌, min, List, [], ◌∷◌, ◌≡◌, refl}
use cs_primer.Posix.{Sys, lit, num, Log, Kernel, Prog, ◌>>=◌, ◌>>◌, pure}
use cs_primer.Posix.Text.{Str, ℤ, pos, negsuc, atoi, rounds, unsigned}
use cs_primer.Posix.Calls.{say, must, error_exit, expect_argc, arg_at}
use cs_primer.Posix.Reports.{
  failures, Reports, Clean, Clean-bind, Clean-then, must-Clean, expect_argc-Clean, unchecked-clean,
}

-- `min(n, MAXNTHREADS)`
abbrev pub at_most_threads : ℤ → ℤ
at_most_threads (pos n) = pos (min n 100)
at_most_threads (negsuc n) = negsuc n

-- The three semaphores of `shared`: free mutex, all `nbuff` slots empty, none stored.
unfoldable pub make_semaphores : ℕ → Prog ℕ
make_semaphores nbuff = do
  must Sys.sem_init (lit "mutex" ∷ num 0 ∷ num 1 ∷ []) (error_exit "sem_init error")
  must Sys.sem_init (lit "nempty" ∷ num 0 ∷ num nbuff ∷ []) (error_exit "sem_init error")
  must Sys.sem_init (lit "nstored" ∷ num 0 ∷ num 0 ∷ []) (error_exit "sem_init error")

unfoldable pub destroy_semaphores : Prog ℕ
destroy_semaphores = do
  must Sys.sem_destroy (lit "mutex" ∷ []) (error_exit "sem_destroy error")
  must Sys.sem_destroy (lit "nempty" ∷ []) (error_exit "sem_destroy error")
  must Sys.sem_destroy (lit "nstored" ∷ []) (error_exit "sem_destroy error")

-- The loop that starts the threads of one role, with `n` rounds to go.
unfoldable pub create : String → ℕ → ℕ → Prog (Unit {0})
create role zero i = pure tt
create role (suc n) i = do
  must Sys.pthread_create (lit role ∷ num i ∷ []) (error_exit "pthread_create error")
  create role n (i + 1)

-- The loop that waits for them; `count` is what they leave in their counters.
unfoldable pub join : String → String → (ℕ → ℕ) → ℕ → ℕ → Prog (Unit {0})
join role line count zero i = pure tt
join role line count (suc n) i = do
  must Sys.pthread_join (lit role ∷ num i ∷ []) (error_exit "pthread_join error")
  say Sys.printf (lit line ∷ num i ∷ num (count i) ∷ [])
  join role line count n (i + 1)

unfoldable pub prodcons3_main : (ℕ → ℕ) → List Str → Prog ℕ
prodcons3_main count argv = do
  expect_argc argv 3 "usage: %s <#items> <#producers>\n"
  let nproducers = at_most_threads (atoi (arg_at argv 2))
  make_semaphores 10
  say Sys.pthread_setconcurrency (num ((unsigned (2 ^ 32) nproducers + 1) % 2 ^ 32) ∷ [])
  create "producer" (rounds nproducers) 0
  must Sys.pthread_create (lit "consumer" ∷ []) (error_exit "pthread_create error")
  join "producer" "count[%d] = %d\n" count (rounds nproducers) 0
  must Sys.pthread_join (lit "consumer" ∷ []) (error_exit "pthread_join error")
  destroy_semaphores
  pure 0

unfoldable pub prodcons4_main : (ℕ → ℕ) → (ℕ → ℕ) → List Str → Prog ℕ
prodcons4_main prodcount conscount argv = do
  expect_argc argv 4 "usage: %s <#items> <#producers> <#consumer>\n"
  let nproducers = at_most_threads (atoi (arg_at argv 2))
  let nconsumers = at_most_threads (atoi (arg_at argv 3))
  make_semaphores 10
  say Sys.pthread_setconcurrency
      (num ((unsigned (2 ^ 32) nproducers + unsigned (2 ^ 32) nconsumers) % 2 ^ 32) ∷ [])
  create "producer" (rounds nproducers) 0
  create "consumer" (rounds nconsumers) 0
  join "producer" "producer count[%d] = %d\n" prodcount (rounds nproducers) 0
  join "consumer" "consumer count[%d] = %d\n" conscount (rounds nconsumers) 0
  destroy_semaphores
  pure 0

module _ (k : Kernel) where
  pub make-Clean : (nbuff : ℕ) (l : Log) → failures l ≡ 0 → Clean (make_semaphores nbuff k l)
  unfolding make_semaphores
  make-Clean nbuff l h =
      Clean-then _ k _ (must-Clean k l h _ _ _)
        λ _ l h. Clean-then _ k _ (must-Clean k l h _ _ _) λ _ l h. must-Clean k l h _ _ _

  pub destroy-Clean : (l : Log) → failures l ≡ 0 → Clean (destroy_semaphores k l)
  unfolding destroy_semaphores
  destroy-Clean l h =
      Clean-then _ k _ (must-Clean k l h _ _ _)
        λ _ l h. Clean-then _ k _ (must-Clean k l h _ _ _) λ _ l h. must-Clean k l h _ _ _

  create-Clean : (role : String) (n i : ℕ) (l : Log) → failures l ≡ 0 → Clean (create role n i k l)
  unfolding create
  create-Clean role zero i l h = h
  create-Clean role (suc n) i l h =
      Clean-then _ k _ (must-Clean k l h _ _ _) λ _ l h. create-Clean role n (i + 1) l h

  join-Clean :
      (role line : String) (count : ℕ → ℕ) (n i : ℕ) (l : Log)
      → failures l ≡ 0
      → Clean (join role line count n i k l)
  unfolding join
  join-Clean role line count zero i l h = h
  join-Clean role line count (suc n) i l h = Clean-then _ k _ (must-Clean k l h _ _ _) λ _ l h.
      join-Clean role line count n (i + 1) _
        (unchecked-clean k l h Sys.printf (lit line ∷ num i ∷ num (count i) ∷ []) refl)

-- `main` of sem_prodcons3.c and of sem_prodcons4.c comes to its end, whatever the calls answer and
-- the threads count: it returns 0 only if no checked call has failed, and otherwise exits with 1.
pub prodcons_mains_report :
    (prodcount conscount : ℕ → ℕ) (argv : List Str) (k : Kernel)
    → Reports (prodcons3_main prodcount argv k [])
      × Reports (prodcons4_main prodcount conscount argv k [])
unfolding prodcons3_main prodcons4_main
prodcons_mains_report prodcount conscount argv k =
    let np = at_most_threads (atoi (arg_at argv 2)) in
    let nc = at_most_threads (atoi (arg_at argv 3)) in
    (
      Clean-bind _ k _ (expect_argc-Clean k [] refl argv 3 _) λ _ l h.
          Clean-bind _ k _ (make-Clean k 10 l h) λ _ l h.
            let h1 =
              unchecked-clean k l h Sys.pthread_setconcurrency
                (num ((unsigned (2 ^ 32) np + 1) % 2 ^ 32) ∷ []) refl in
            Clean-bind _ k _ (create-Clean k "producer" (rounds np) 0 _ h1) λ _ l h.
              Clean-bind _ k _ (must-Clean k l h _ _ _) λ _ l h.
                Clean-bind _ k _ (join-Clean k "producer" _ prodcount (rounds np) 0 l h) λ _ l h.
                  Clean-bind _ k _ (must-Clean k l h _ _ _)
                    λ _ l h. Clean-bind _ k _ (destroy-Clean k l h) λ _ l h. (refl, h),
      Clean-bind _ k _ (expect_argc-Clean k [] refl argv 4 _) λ _ l h.
          Clean-bind _ k _ (make-Clean k 10 l h) λ _ l h.
            let h1 =
              unchecked-clean k l h Sys.pthread_setconcurrency
                (num ((unsigned (2 ^ 32) np + unsigned (2 ^ 32) nc) % 2 ^ 32) ∷ []) refl in
            Clean-bind _ k _ (create-Clean k "producer" (rounds np) 0 _ h1) λ _ l h.
              Clean-bind _ k _ (create-Clean k "consumer" (rounds nc) 0 l h) λ _ l h.
                Clean-bind _ k _ (join-Clean k "producer" _ prodcount (rounds np) 0 l h) λ _ l h.
                  Clean-bind _ k _ (join-Clean k "consumer" _ conscount (rounds nc) 0 l h)
                    λ _ l h. Clean-bind _ k _ (destroy-Clean k l h) λ _ l h. (refl, h),
    )
