-- ===== src/MessageLog.antt =====
-- ipc/src/pxshm/client2.c and server2.c: any number of clients log messages to a ring of sixteen
-- slots in shared memory, one server prints them; a client that finds no empty slot only counts an
-- overflow. A step is one access to what they share.
pub mod Inv
pub mod Laws
mod Tests
use cs_primer.Prelude.{
  ℕ, zero, suc, ◌+◌, ◌-◌, ◌*◌, ◌%◌, List, [], ◌∷◌, ◌++◌, Option, none, some, ◌==◌, leb,
  if◌then◌else◌, update,
}
use cs_primer.Threads.Machine.{System}

abbrev pub msg_size : ℕ
msg_size = 256

abbrev pub nmsg : ℕ
nmsg = 16

-- `pid %ld: message %d`, by its numbers; memory that nothing has been copied to has no message.
abbrev pub Msg : Type 0
Msg = Option (ℕ × ℕ)

-- `shmstruct`, with the message that stands at an offset, and the lines that the server has printed:
-- messages with their index, and counts of overflows.
pub record Shared : Type 0 where
  pub mutex : ℕ
  pub nempty : ℕ
  pub nstored : ℕ
  pub nput : ℕ
  pub noverflow : ℕ
  pub noverflowmutex : ℕ
  pub msgoff : ℕ → ℕ
  pub msgdata : ℕ → Msg
  pub printed : List (ℕ × Msg)
  pub reports : List ℕ

-- The statement of client2.c that comes next.
pub data ClientPc : Type 0 where
  try_wait lock_put load_offset inc_nput unlock_put copy_msg post_nstored returned : ClientPc
  lock_overflow load_overflow store_overflow unlock_overflow : ClientPc

-- The locals of client2.c: `left` are the rounds to go, `reg` the register of `noverflow++`.
pub record Client : Type 0 where
  pub pid : ℕ
  pub index : ℕ
  pub left : ℕ
  pub offset : ℕ
  pub reg : ℕ

-- The statement of server2.c that comes next.
pub data ServerPc : Type 0 where
  wait_nstored lock_get load_get print_msg unlock_get post_nempty : ServerPc
  lock_count load_count unlock_count compare_count : ServerPc

pub record Server : Type 0 where
  pub index : ℕ
  pub offset : ℕ
  pub temp : ℕ
  pub lastnoverflow : ℕ

pub data Thread : Type 0 where
  client : ClientPc → Client → Thread
  server : ServerPc → Server → Thread

abbrev wait : ℕ → Shared → Thread → Option (Shared × Thread)
wait n m t = if n == 0 then none else some (m, t)

-- `for(index = 0; index < nloop; ++index)`: the next round, or the end.
abbrev pub next_round : Client → Thread
next_round c =
    let c' = record c { index = c.index + 1; left = c.left - 1 } in
    if c'.left == 0 then client returned c' else client try_wait c'

-- `sem_trywait` fails with EAGAIN, which is its only failure on a semaphore.
unfoldable pub client_step : Shared → ClientPc → Client → Option (Shared × Thread)
client_step m try_wait c =
    if m.nempty == 0
    then some (m, client lock_overflow c)
    else some (record m { nempty = m.nempty - 1 }, client lock_put c)
client_step m lock_overflow c =
    wait m.noverflowmutex (record m { noverflowmutex = m.noverflowmutex - 1 })
      (client load_overflow c)
client_step m load_overflow c = some (m, client store_overflow (record c { reg = m.noverflow }))
client_step m store_overflow c = some (record m { noverflow = c.reg + 1 }, client unlock_overflow c)
client_step m unlock_overflow c =
    some (record m { noverflowmutex = m.noverflowmutex + 1 }, next_round c)
client_step m lock_put c = wait m.mutex (record m { mutex = m.mutex - 1 }) (client load_offset c)
client_step m load_offset c = some (m, client inc_nput (record c { offset = m.msgoff m.nput }))
client_step m inc_nput c =
    some (record m { nput = if leb nmsg (m.nput + 1) then 0 else m.nput + 1 }, client unlock_put c)
client_step m unlock_put c = some (record m { mutex = m.mutex + 1 }, client copy_msg c)
client_step m copy_msg c = some (
  record m { msgdata = update m.msgdata c.offset (some (c.pid, c.index)) },
  client post_nstored c,
)
client_step m post_nstored c = some (record m { nstored = m.nstored + 1 }, next_round c)
client_step m returned c = none

unfoldable pub server_step : Shared → ServerPc → Server → Option (Shared × Thread)
server_step m wait_nstored s =
    wait m.nstored (record m { nstored = m.nstored - 1 }) (server lock_get s)
server_step m lock_get s = wait m.mutex (record m { mutex = m.mutex - 1 }) (server load_get s)
server_step m load_get s = some (m, server print_msg (record s { offset = m.msgoff s.index }))
server_step m print_msg s = some (
  record m { printed = m.printed ++ (s.index, m.msgdata s.offset) ∷ [] },
  server unlock_get (record s { index = (s.index + 1) % nmsg }),
)
server_step m unlock_get s = some (record m { mutex = m.mutex + 1 }, server post_nempty s)
server_step m post_nempty s = some (record m { nempty = m.nempty + 1 }, server lock_count s)
server_step m lock_count s =
    wait m.noverflowmutex (record m { noverflowmutex = m.noverflowmutex - 1 }) (server load_count s)
server_step m load_count s = some (m, server unlock_count (record s { temp = m.noverflow }))
server_step m unlock_count s =
    some (record m { noverflowmutex = m.noverflowmutex + 1 }, server compare_count s)
server_step m compare_count s =
    if s.temp == s.lastnoverflow
    then some (m, server wait_nstored s)
    else some (
      record m { reports = m.reports ++ s.temp ∷ [] },
      server wait_nstored (record s { lastnoverflow = s.temp }),
    )

unfoldable pub move : Shared → Thread → Option (Shared × Thread)
unfolding client_step server_step
move m (client p c) = client_step m p c
move m (server p s) = server_step m p s

-- The clients with their rounds, numbered from `pid` on: none starts a round if it has none.
abbrev pub clients : ℕ → List ℕ → List Thread
clients pid [] = []
clients pid (nloop ∷ loops) =
    client (if nloop == 0 then returned else try_wait)
      (record { pid = pid; index = 0; left = nloop; offset = 0; reg = 0 })
    ∷ clients (pid + 1) loops

-- server2.c once it has made the memory, and the clients.
abbrev pub init : List ℕ → System Shared Thread
init loops = record {
  mem = record {
    mutex = 1;
    nempty = nmsg;
    nstored = 0;
    nput = 0;
    noverflow = 0;
    noverflowmutex = 1;
    msgoff = λ i. i * msg_size;
    msgdata = λ _. none;
    printed = [];
    reports = [];
  };
  threads =
      server wait_nstored (record { index = 0; offset = 0; temp = 0; lastnoverflow = 0 })
      ∷ clients 0 loops;
}
