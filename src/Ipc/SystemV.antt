-- ===== src/Ipc/SystemV.antt =====
-- ipc/src/svsem, svmsg and svshm: the commands that create and remove.
use cs_primer.Prelude.{ℕ, ◌+◌, ◌%◌, ◌^◌, List, [], ◌∷◌, refl, arith, if◌then◌else◌}
use cs_primer.Posix.{Sys, lit, num, text, Kernel, Prog, ◌>>=◌, ◌>>◌, pure}
use cs_primer.Posix.Text.{Str, atoi, unsigned}
use cs_primer.Posix.Calls.{
  say, must, error_exit, expect_argc, arg_at, Options, expect_operands, has_option, last_value,
}
use cs_primer.Posix.Reports.{
  Reports, Clean-bind, must-Clean, expect_argc-Clean, expect_operands-Clean,
}

-- svsem/semcreate.c
unfoldable pub svsem_create : Options → List Str → Prog ℕ
svsem_create o argv = do
  expect_operands o argv 2 "usage: %s [-e] <pathname> <nsems>\n"
  let oflag =
      if has_option b'e' o.opts
      then "SVSEM_MODE | IPC_CREAT | IPC_EXCL"
      else "SVSEM_MODE | IPC_CREAT"
  let nsems = unsigned 0x1_0000_0000 (atoi (arg_at argv (o.optind + 1)))
  key ← must Sys.ftok (text (arg_at argv o.optind) ∷ num 0 ∷ []) (error_exit "ftok error")
  must Sys.semget (num key ∷ num nsems ∷ lit oflag ∷ []) (error_exit "semget error")
  pure 0

-- svsem/semrmid.c
unfoldable pub svsem_rmid : List Str → Prog ℕ
svsem_rmid argv = do
  expect_argc argv 2 "usage: %s <pathname>\n"
  key ← must Sys.ftok (text (arg_at argv 1) ∷ num 0 ∷ []) (error_exit "ftok error")
  semid ← must Sys.semget (num key ∷ num 0 ∷ num 0 ∷ []) (error_exit "semget seeor")
  must Sys.semctl (num semid ∷ num 0 ∷ lit "IPC_RMID" ∷ []) (error_exit "semctl error")
  pure 0

-- svmsg/msgcreate.c
unfoldable pub svmsg_create : Options → List Str → Prog ℕ
svmsg_create o argv = do
  expect_operands o argv 1 "usage: %s [-e] <pathname>\n"
  let oflag =
      if has_option b'e' o.opts
      then "SVMSG_MODE | IPC_CREAT | IPC_EXCL"
      else "SVMSG_MODE | IPC_CREAT"
  key ← must Sys.ftok (text (arg_at argv o.optind) ∷ num 0 ∷ []) (error_exit "ftok error")
  must Sys.msgget (num key ∷ lit oflag ∷ []) (error_exit "msgget error")
  pure 0

-- svmsg/msgrmid.c, which does not look at the result of `msgctl`.
unfoldable pub svmsg_rmid : List Str → Prog ℕ
svmsg_rmid argv = do
  expect_argc argv 2 "usage: %s <pathname>\n"
  key ← must Sys.ftok (text (arg_at argv 1) ∷ num 0 ∷ []) (error_exit "ftok error")
  mqid ← must Sys.msgget (num key ∷ num 0 ∷ []) (error_exit "msgget error")
  say Sys.msgctl (num mqid ∷ lit "IPC_RMID" ∷ lit "NULL" ∷ [])
  pure 0

-- svmsg/msgsnd.c: `len` bytes of 0 under the type. `len` is a `size_t`, `type` a `long`.
unfoldable pub svmsg_send : List Str → Prog ℕ
svmsg_send argv = do
  expect_argc argv 4 "usage: %s <pathname> <#bytes> <type>\n"
  let len = unsigned (2 ^ 64) (atoi (arg_at argv 2))
  let type = unsigned (2 ^ 64) (atoi (arg_at argv 3))
  key ← must Sys.ftok (text (arg_at argv 1) ∷ num 0 ∷ []) (error_exit "ftok error")
  mqid ← must Sys.msgget (num key ∷ lit "MSG_W" ∷ []) (error_exit "msgget error")
  ptr ← must Sys.calloc (num ((8 + len) % 2 ^ 64) ∷ num 1 ∷ []) (error_exit "malloc error")
  must Sys.msgsnd (num mqid ∷ num ptr ∷ num type ∷ num len ∷ num 0 ∷ [])
      (error_exit "msgsend error")
  pure 0

-- svmsg/msgrcv.c. The answer of `msgrcv` is the number of bytes; the type is in `buf`.
unfoldable pub svmsg_receive : Options → List Str → Prog ℕ
svmsg_receive o argv = do
  expect_operands o argv 1 "usage: %s [-n] [-t type] <pathname>\n"
  let flag = if has_option b'n' o.opts then "IPC_NOWAIT" else "0"
  let type = last_value b't' 0 (λ s. unsigned (2 ^ 64) (atoi s)) o.opts
  key ← must Sys.ftok (text (arg_at argv o.optind) ∷ num 0 ∷ []) (error_exit "ftok error")
  mqid ← must Sys.msgget (num key ∷ num 0 ∷ []) (error_exit "msgget error")
  buf ← must Sys.malloc (num 8200 ∷ []) (error_exit "malloc error")
  n ←
      must Sys.msgrcv (num mqid ∷ num buf ∷ num 8200 ∷ num type ∷ lit flag ∷ [])
        (error_exit "msgrcv error")
  say Sys.printf (lit "read %d bytes, type = %ld\n" ∷ num n ∷ lit "buf->mtype" ∷ [])
  pure 0

-- svshm/shmget.c
unfoldable pub svshm_get : Options → List Str → Prog ℕ
svshm_get o argv = do
  expect_operands o argv 2 "usage: %s [-e] <pathname> <length>\n"
  let oflag =
      if has_option b'e' o.opts
      then "SVSHM_MODE | IPC_CREAT | IPC_EXCL"
      else "SVSHM_MODE | IPC_CREAT"
  let length' = unsigned (2 ^ 64) (atoi (arg_at argv (o.optind + 1)))
  key ← must Sys.ftok (text (arg_at argv o.optind) ∷ num 0 ∷ []) (error_exit "ftok error")
  id ← must Sys.shmget (num key ∷ num length' ∷ lit oflag ∷ []) (error_exit "shmget error")
  must Sys.shmat (num id ∷ lit "NULL" ∷ num 0 ∷ []) (error_exit "shmat error")
  pure 0

-- svshm/shmrmid.c
unfoldable pub svshm_rmid : List Str → Prog ℕ
svshm_rmid argv = do
  expect_argc argv 2 "usage: %s <pathname>\n"
  key ← must Sys.ftok (text (arg_at argv 1) ∷ num 0 ∷ []) (error_exit "ftok error")
  id ← must Sys.shmget (num key ∷ num 0 ∷ lit "SVSHM_MODE" ∷ []) (error_exit "shmget error")
  must Sys.shmctl (num id ∷ lit "IPC_RMID" ∷ lit "NULL" ∷ []) (error_exit "shmctl error")
  pure 0

-- Each of these commands comes to its end, whatever the arguments are and whatever the calls
-- answer: it returns 0 only if no checked call has failed, and otherwise exits with status 1.
pub system_v_commands_report :
    (o : Options) (argv : List Str) (k : Kernel)
    → Reports (svsem_create o argv k [])
      × Reports (svsem_rmid argv k [])
      × Reports (svmsg_create o argv k [])
      × Reports (svmsg_rmid argv k [])
      × Reports (svmsg_send argv k [])
      × Reports (svmsg_receive o argv k [])
      × Reports (svshm_get o argv k [])
      × Reports (svshm_rmid argv k [])
unfolding svsem_create svsem_rmid svmsg_create svmsg_rmid svmsg_send svmsg_receive svshm_get
    svshm_rmid
system_v_commands_report o argv k = (
  Clean-bind _ k _ (expect_operands-Clean k [] refl o argv 2 _) λ x l h.
      Clean-bind _ k _ (must-Clean k l h _ _ _)
        λ x l h. Clean-bind _ k _ (must-Clean k l h _ _ _) λ x l h. (refl, h),
  Clean-bind _ k _ (expect_argc-Clean k [] refl argv 2 _) λ x l h.
      Clean-bind _ k _ (must-Clean k l h _ _ _) λ x l h.
        Clean-bind _ k _ (must-Clean k l h _ _ _)
          λ x l h. Clean-bind _ k _ (must-Clean k l h _ _ _) λ x l h. (refl, h),
  Clean-bind _ k _ (expect_operands-Clean k [] refl o argv 1 _) λ x l h.
      Clean-bind _ k _ (must-Clean k l h _ _ _)
        λ x l h. Clean-bind _ k _ (must-Clean k l h _ _ _) λ x l h. (refl, h),
  Clean-bind _ k _ (expect_argc-Clean k [] refl argv 2 _) λ x l h.
      Clean-bind _ k _ (must-Clean k l h _ _ _)
        λ x l h. Clean-bind _ k _ (must-Clean k l h _ _ _) λ x l h. ground arith,
  Clean-bind _ k _ (expect_argc-Clean k [] refl argv 4 _) λ x l h.
      Clean-bind _ k _ (must-Clean k l h _ _ _) λ x l h.
        Clean-bind _ k _ (must-Clean k l h _ _ _) λ x l h.
          Clean-bind _ k _ (must-Clean k l h _ _ _)
            λ x l h. Clean-bind _ k _ (must-Clean k l h _ _ _) λ x l h. (refl, h),
  Clean-bind _ k _ (expect_operands-Clean k [] refl o argv 1 _) λ x l h.
      Clean-bind _ k _ (must-Clean k l h _ _ _) λ x l h.
        Clean-bind _ k _ (must-Clean k l h _ _ _) λ x l h.
          Clean-bind _ k _ (must-Clean k l h _ _ _)
            λ x l h. Clean-bind _ k _ (must-Clean k l h _ _ _) λ x l h. ground arith,
  Clean-bind _ k _ (expect_operands-Clean k [] refl o argv 2 _) λ x l h.
      Clean-bind _ k _ (must-Clean k l h _ _ _) λ x l h.
        Clean-bind _ k _ (must-Clean k l h _ _ _)
          λ x l h. Clean-bind _ k _ (must-Clean k l h _ _ _) λ x l h. (refl, h),
  Clean-bind _ k _ (expect_argc-Clean k [] refl argv 2 _) λ x l h.
      Clean-bind _ k _ (must-Clean k l h _ _ _) λ x l h.
        Clean-bind _ k _ (must-Clean k l h _ _ _)
          λ x l h. Clean-bind _ k _ (must-Clean k l h _ _ _) λ x l h. (refl, h),
)
