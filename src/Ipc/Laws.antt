-- ===== src/Ipc/Laws.antt =====
-- The commands of the modules beside this one, taken together.
use cs_primer.Prelude.{ℕ, List, []}
use cs_primer.Posix.{Kernel}
use cs_primer.Posix.Text.{Str}
use cs_primer.Posix.Calls.{Options}
use cs_primer.Posix.Reports.{Reports}
use cs_primer.Ipc.Semaphores.{semgetvalue, sempost, semunlink, semwait, semcreate}
use cs_primer.Ipc.Queues.{mqcreate1, mqunlink, mqcreate, mqgetattr}
use cs_primer.Ipc.Regions.{shmcreate, shmunlink, svshm_read}
use cs_primer.Ipc.SharedMemory.{shmread}
use cs_primer.Ipc.SystemV.{
  svsem_create, svsem_rmid, svmsg_create, svmsg_rmid, svmsg_send, svmsg_receive, svshm_get,
  svshm_rmid,
}
use cs_primer.Ipc.Values.{semgetvalues, semsetvalues, semops}

-- The commands for POSIX semaphores, message queues and shared memory.
abbrev pub PosixReports : Options → List Str → (ℕ → ℕ) → Kernel → Type 0
PosixReports o argv mem k =
    (Reports (semgetvalue argv k [])
      × Reports (sempost argv k [])
      × Reports (semunlink argv k [])
      × Reports (semwait argv k [])
      × Reports (semcreate o argv k []))
    × (Reports (mqcreate1 argv k [])
        × Reports (mqunlink argv k [])
        × Reports (mqcreate o argv k [])
        × Reports (mqgetattr argv k []))
    × (Reports (shmcreate o argv k [])
        × Reports (shmunlink argv k [])
        × Reports (shmread argv mem k [])
        × Reports (svshm_read argv mem k []))

-- The commands for System V semaphores, message queues and shared memory.
abbrev pub SystemVReports : Options → List Str → (ℕ → ℕ) → Kernel → Type 0
SystemVReports o argv array k =
    (Reports (svsem_create o argv k [])
      × Reports (svsem_rmid argv k [])
      × Reports (svmsg_create o argv k [])
      × Reports (svmsg_rmid argv k [])
      × Reports (svmsg_send argv k [])
      × Reports (svmsg_receive o argv k [])
      × Reports (svshm_get o argv k [])
      × Reports (svshm_rmid argv k []))
    × (Reports (semgetvalues array argv k [])
        × Reports (semsetvalues argv k [])
        × Reports (semops o argv k []))
