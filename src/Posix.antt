-- ===== src/Posix.antt =====
-- The programs' view of the operating system. A program is a function of the kernel, which is a
-- parameter: it answers each call from the calls made so far. What a program does is the log of its
-- calls, the latest first, and how it ends.
pub mod Text
pub mod Calls
pub mod Loops
pub mod Typestate
pub mod Sample
pub mod Reports
pub mod Echoed
pub mod Taken
use cs_primer.Prelude.{ℕ, ◌≡◌, List, [], ◌∷◌, Option, none, some, Bool, if◌then◌else◌}
use Prim.Native.String.{String}

-- The calls that the sources make, by their names.
pub data Sys : Type 0 where
  socket bind listen accept connect shutdown setsockopt getsockopt inet_addr : Sys
  read write close recvfrom sendto recv send readv writev : Sys
  open_file lseek unlink mkfifo pipe dup dup2 fcntl fileno getpid : Sys
  fopen fdopen fread fwrite fgets fputs fputc fflush fclose feof : Sys
  printf puts scanf fgetc setbuf strerror : Sys
  fork wait waitpid sleep usleep alarm pause : Sys
  signal sigaction sigprocmask sigsuspend sigwait sigqueue : Sys
  select epoll_create epoll_ctl epoll_wait : Sys
  pthread_create pthread_join pthread_detach pthread_exit pthread_setconcurrency : Sys
  pthread_mutex_init pthread_mutex_lock pthread_mutex_unlock pthread_mutex_destroy : Sys
  sem_init sem_open sem_close sem_unlink sem_destroy sem_wait sem_trywait sem_post sem_getvalue :
      Sys
  shm_open shm_unlink mmap ftruncate fstat sysconf : Sys
  mq_open mq_close mq_unlink mq_getattr mq_notify mq_receive mq_send : Sys
  msgget msgsnd msgrcv msgctl ftok semget semctl semop shmget shmat shmctl : Sys
  malloc calloc free : Sys

-- An argument of a call: a number, bytes in memory, or a constant that the source writes out.
pub data Arg : Type 0 where
  num : ℕ → Arg
  text : List ℕ → Arg
  lit : String → Arg

-- A call with its answer. `none` is -1, `NULL`, `SEM_FAILED` or `MAP_FAILED`, and for the
-- `pthread_` calls a nonzero result. A call that fetches data answers with the bytes.
pub data Event : Type 0 where
  did : Sys → List Arg → Option ℕ → Event
  got : Sys → List Arg → Option (List ℕ) → Event

abbrev pub Log : Type 0
Log = List Event

pub record Kernel : Type 0 where
  pub ret : Log → Sys → List Arg → Option ℕ
  pub bytes : Log → Sys → List Arg → Option (List ℕ)
  pub errno : Log → ℕ

-- How a program ends: it goes on with a value, has called `exit`, or is still in a loop when the
-- fuel of the loop is used up.
pub data Outcome (A : Type 0) : Type 0 where
  done : A → Outcome A
  exited : ℕ → Outcome A
  running : Outcome A

abbrev pub Prog : Type 0 → Type 0
Prog A = Kernel → Log → Outcome A × Log

module _ {A B : Type 0} where
  abbrev pub and_then : Outcome A → Kernel → Log → (A → Prog B) → Outcome B × Log
  and_then (done a) k l f = f a k l
  and_then (exited n) k l f = (exited n, l)
  and_then running k l f = (running, l)

  infixl 5 ◌>>=◌ ◌>>◌
  abbrev pub ◌>>=◌ : Prog A → (A → Prog B) → Prog B
  ◌>>=◌ m f k l = let (r, l') = m k l in and_then r k l' f

  abbrev pub ◌>>◌ : Prog A → Prog B → Prog B
  m >> n = m >>= λ _. n

abbrev pub pure : {A : Type 0} → A → Prog A
pure a k l = (done a, l)

abbrev pub exit : {A : Type 0} → ℕ → Prog A
exit n k l = (exited n, l)

abbrev pub out_of_fuel : {A : Type 0} → Prog A
out_of_fuel k l = (running, l)

abbrev pub call : Sys → List Arg → Prog (Option ℕ)
call s args k l = let r = k.ret l s args in (done r, did s args r ∷ l)

abbrev pub fetch : Sys → List Arg → Prog (Option (List ℕ))
fetch s args k l = let r = k.bytes l s args in (done r, got s args r ∷ l)

abbrev pub errno : Prog ℕ
errno k l = (done (k.errno l), l)

-- A program goes on from where its first part is done.
pub bind_done :
    {A B : Type 0} (m : Prog A) (f : A → Prog B) {k : Kernel} {l l' : Log} {a : A}
    → m k l ≡ (done a, l')
    → (m >>= f) k l ≡ f a k l'
bind_done m f e = rw (e, ◌>>=◌)
