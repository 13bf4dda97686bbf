-- ===== src/Ipc/Queues.antt =====
-- ipc/src/pxmsg: mqcreate.c, mqcreate1.c, mqgetattr.c and mqunlink.c.
use cs_primer.Prelude.{
  ℕ, ◌^◌, List, [], ◌∷◌, refl, arith, if◌then◌else◌, ◌==◌, ◌&&◌, ◌||◌, not, Bool,
}
use cs_primer.Posix.{Sys, lit, num, text, Kernel, Prog, ◌>>=◌, ◌>>◌, pure}
use cs_primer.Posix.Text.{Str, atoi, unsigned}
use cs_primer.Posix.Calls.{
  say, must, error_exit, expect_argc, arg_at, close, expect, Options, expect_operands, has_option,
  last_value,
}
use cs_primer.Posix.Reports.{
  Reports, Clean-bind, must-Clean, expect_argc-Clean, expect_operands-Clean, expect-Clean,
  unchecked-clean,
}

unfoldable pub mqcreate1 : List Str → Prog ℕ
mqcreate1 argv = do
  expect_argc argv 2 "usage: %s mqname\n"
  mqd ←
      must Sys.mq_open
        (text (arg_at argv 1) ∷ lit "O_RDWR | O_CREAT" ∷ lit "FILE_MODE" ∷ lit "NULL" ∷ [])
        (error_exit "%s: can\t open, %s\n")
  close mqd
  pure 0

unfoldable pub mqunlink : List Str → Prog ℕ
mqunlink argv = do
  expect_argc argv 2 "usage: %s <mqname>"
  must Sys.mq_unlink (text (arg_at argv 1) ∷ []) (error_exit "%s: can't unlink, %s\n")
  pure 0

abbrev both_or_none : ℕ → ℕ → Bool
both_or_none maxmsg msgsize =
    not ((not (maxmsg == 0) && msgsize == 0) || (maxmsg == 0 && not (msgsize == 0)))

abbrev long_option : ℕ → Options → ℕ
long_option c o = last_value c 0 (λ s. unsigned (2 ^ 64) (atoi s)) o.opts

-- mqcreate.c. `atol` fits into its type; `attr` starts with zeroes.
unfoldable pub mqcreate : Options → List Str → Prog ℕ
mqcreate o argv = do
  let flags = if has_option b'e' o.opts then "O_RDWR | O_CREAT | O_EXCL" else "O_RDWR | O_CREAT"
  let maxmsg = long_option b'm' o
  let msgsize = long_option b'z' o
  expect_operands o argv 1 "usage: %s [-e] [-m maxmsg -z msgsize] <name>\n"
  expect (both_or_none maxmsg msgsize) (lit "must specify both -m maxmsg end -z msgsize\n" ∷ [])
  mqd ←
      must Sys.mq_open
        (text (arg_at argv o.optind)
          ∷ lit flags
          ∷ lit "FILE_MODE"
          ∷ (if maxmsg == 0 then lit "NULL" ∷ [] else num maxmsg ∷ num msgsize ∷ []))
        (error_exit "%s: can't open, %s\n")
  close mqd
  pure 0

unfoldable pub mqgetattr : List Str → Prog ℕ
mqgetattr argv = do
  expect_argc argv 2 "usage: %s <mqname>\n"
  mqd ←
      must Sys.mq_open (text (arg_at argv 1) ∷ lit "O_RDONLY" ∷ [])
        (error_exit "%s :can't open, %s\n")
  must Sys.mq_getattr (num mqd ∷ []) (error_exit "mq_getarrt() error: %s")
  say Sys.printf (
      lit "max #msg = %ld, max #bytes/msg = %ld, #currently on queue = %ld\n"
      ∷ lit "attr.mq_maxmsg"
      ∷ lit "attr.mq_msgsize"
      ∷ lit "attr.mq_curmsgs"
      ∷ [])
  must Sys.mq_close (num mqd ∷ []) (error_exit "mq_close() error, %s\n")
  pure 0

-- Each of these commands comes to its end, whatever the arguments are and whatever the calls
-- answer: it returns 0 only if no checked call has failed, and otherwise exits with status 1.
pub queue_commands_report :
    (o : Options) (argv : List Str) (k : Kernel)
    → Reports (mqcreate1 argv k [])
      × Reports (mqunlink argv k [])
      × Reports (mqcreate o argv k [])
      × Reports (mqgetattr argv k [])
unfolding mqcreate1 mqunlink mqcreate mqgetattr
queue_commands_report o argv k = (
  Clean-bind _ k _ (expect_argc-Clean k [] refl argv 2 _)
      λ x l h. Clean-bind _ k _ (must-Clean k l h _ _ _) λ x l h. ground arith,
  Clean-bind _ k _ (expect_argc-Clean k [] refl argv 2 _)
      λ x l h. Clean-bind _ k _ (must-Clean k l h _ _ _) λ x l h. (refl, h),
  Clean-bind _ k _ (expect_operands-Clean k [] refl o argv 1 _) λ x l h.
      Clean-bind _ k _
        (expect-Clean k l h (both_or_none (long_option b'm' o) (long_option b'z' o))
          (lit "must specify both -m maxmsg end -z msgsize\n" ∷ []))
        λ x l h. Clean-bind _ k _ (must-Clean k l h _ _ _) λ x l h. ground arith,
  Clean-bind _ k _ (expect_argc-Clean k [] refl argv 2 _) λ x l h.
      Clean-bind _ k _ (must-Clean k l h _ _ _) λ x l h.
        Clean-bind _ k _ (must-Clean k l h _ _ _) λ x l h.
          Clean-bind _ k _
            (must-Clean k _
              (unchecked-clean k l h Sys.printf
                (lit "max #msg = %ld, max #bytes/msg = %ld, #currently on queue = %ld\n"
                  ∷ lit "attr.mq_maxmsg"
                  ∷ lit "attr.mq_msgsize"
                  ∷ lit "attr.mq_curmsgs"
                  ∷ [])
                refl)
              _ _ _)
            λ x l h. (refl, h),
)
