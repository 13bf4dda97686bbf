-- ===== src/Posix/Sample.antt =====
-- A kernel for test runs: sockets get the descriptors 3 and 4 while these are closed, descriptor 4
-- reads the chunks one after the other, and every other call answers 0.
use cs_primer.Prelude.{ℕ, List, Option, some, none, ◌≡◌, arith, refl, if◌then◌else◌}
use cs_primer.Posix.{Sys, Arg, Log, Kernel}
use cs_primer.Posix.Loops.{reads}
use cs_primer.Posix.Loops.Relay.{chunk_at, Feeds}
use cs_primer.Posix.Typestate.{stage, closed, is_open, FreshFds}

abbrev pub pick : Log → Option ℕ
pick l = if is_open (stage 3 l) then (if is_open (stage 4 l) then none else some 4) else some 3

abbrev pub sample_ret : Log → Sys → List Arg → Option ℕ
sample_ret l Sys.socket args = pick l
sample_ret l Sys.accept args = pick l
sample_ret l s args = some 0

abbrev pub sample : List (List ℕ) → Kernel
sample chunks = record {
  ret = sample_ret;
  bytes = λ l s args. some (chunk_at chunks (reads 4 l));
  errno = λ l. 0;
}

pick_closed : (l : Log) (fd : ℕ) → pick l ≡ some fd → stage fd l ≡ closed
pick_closed l fd e = ground arith

pub sample-FreshFds : (chunks : List (List ℕ)) → FreshFds (sample chunks)
sample-FreshFds chunks = record {
  socket_closed = λ l args fd e. pick_closed l fd e;
  accept_closed = λ l args fd e. pick_closed l fd e;
}

pub sample-Feeds : (chunks : List (List ℕ)) → Feeds (sample chunks) 4 chunks
sample-Feeds chunks l n = refl
