-- ===== src/MessageLog/Inv.antt =====
-- The invariant of client2.c and server2.c, and that each statement of each thread keeps it.
use cs_primer.Prelude.{
  sum, ◌&&◌, ℕ, ◌+◌, ◌*◌, ◌≤◌, ◌<◌, ◌≡◌, List, [], ◌∷◌, some, arith, set, get_elem?, refl, length,
  length-append, ◌==◌, ltb, if◌then◌else◌,
}
use cs_primer.Threads.{total, Sums, sums, Rests, rests}
use cs_primer.Threads.Machine.{System, run, run_inv}
use cs_primer.MessageLog.{
  nmsg, msg_size, Shared, Client, ClientPc, Server, ServerPc, Thread, client, server, move, init,
  clients, try_wait, lock_put, load_offset, inc_nput, unlock_put, copy_msg, post_nstored, returned,
  load_overflow, store_overflow, unlock_overflow, wait_nstored, lock_get, load_get, print_msg,
  unlock_get, post_nempty, load_count, unlock_count,
}

abbrev pub in_mutex : Thread → ℕ
in_mutex (client load_offset _) = 1
in_mutex (client inc_nput _) = 1
in_mutex (client unlock_put _) = 1
in_mutex (server load_get _) = 1
in_mutex (server print_msg _) = 1
in_mutex (server unlock_get _) = 1
in_mutex _ = 0

abbrev pub in_overflow : Thread → ℕ
in_overflow (client load_overflow _) = 1
in_overflow (client store_overflow _) = 1
in_overflow (client unlock_overflow _) = 1
in_overflow (server load_count _) = 1
in_overflow (server unlock_count _) = 1
in_overflow _ = 0

-- Has a slot that is neither empty nor stored.
abbrev pub holding : Thread → ℕ
holding (client lock_put _) = 1
holding (client load_offset _) = 1
holding (client inc_nput _) = 1
holding (client unlock_put _) = 1
holding (client copy_msg _) = 1
holding (client post_nstored _) = 1
holding (server lock_get _) = 1
holding (server load_get _) = 1
holding (server print_msg _) = 1
holding (server unlock_get _) = 1
holding (server post_nempty _) = 1
holding _ = 0

-- Has taken a message that it has not yet printed.
abbrev pub due : Thread → ℕ
due (server lock_get _) = 1
due (server load_get _) = 1
due (server print_msg _) = 1
due _ = 0

abbrev pub left : Thread → ℕ
left (client _ c) = c.left
left _ = 0

-- Has counted an overflow, but not yet its round.
abbrev pub early : Thread → ℕ
early (client unlock_overflow _) = 1
early _ = 0

-- A client in a round that it does not have, or one that has returned before its last.
abbrev pub off_count : Thread → ℕ
off_count (client returned c) = if c.left == 0 then 0 else 1
off_count (client _ c) = if c.left == 0 then 1 else 0
off_count _ = 0

-- A client that is about to store something else than one more than the counter.
abbrev pub stale : ℕ → Thread → ℕ
stale n (client store_overflow c) = if c.reg == n then 0 else 1
stale n _ = 0

-- An offset behind the messages, or an index behind the ring.
abbrev pub astray : Thread → ℕ
astray (client inc_nput c) = if ltb c.offset (nmsg * msg_size) then 0 else 1
astray (client unlock_put c) = if ltb c.offset (nmsg * msg_size) then 0 else 1
astray (client copy_msg c) = if ltb c.offset (nmsg * msg_size) then 0 else 1
astray (server print_msg s) = if ltb s.offset (nmsg * msg_size) && ltb s.index nmsg then 0 else 1
astray (server _ s) = if ltb s.index nmsg then 0 else 1
astray _ = 0

abbrev pub is_server : Thread → ℕ
is_server (server _ _) = 1
is_server _ = 0

abbrev pub running : Thread → ℕ
running (client returned _) = 0
running (server wait_nstored _) = 0
running _ = 1

pub record Inv (loops : ℕ) (m : Shared) (ts : List Thread) : Type 0 where
  pub exclusive : m.mutex + total in_mutex ts ≡ 1
  pub count_exclusive : m.noverflowmutex + total in_overflow ts ≡ 1
  pub slots : m.nempty + m.nstored + total holding ts ≡ nmsg
  pub accounts :
      total left ts + length m.printed + m.nstored + total due ts + m.noverflow
      ≡ loops + total early ts
  pub counted : total off_count ts ≡ 0
  pub current : total (stale m.noverflow) ts ≡ 0
  pub ring : m.nput < nmsg
  pub offsets : (i : ℕ) → m.msgoff i ≡ i * msg_size
  pub inside : total astray ts ≡ 0
  pub one_server : total is_server ts ≡ 1

abbrev weights : ℕ → List (Thread → ℕ)
weights n =
    in_mutex
    ∷ in_overflow
    ∷ holding
    ∷ due
    ∷ left
    ∷ early
    ∷ off_count
    ∷ stale n
    ∷ astray
    ∷ is_server
    ∷ []

stale-le : (n : ℕ) (t : Thread) → stale n t ≤ in_overflow t
stale-le n (client store_overflow c) = ground arith
stale-le n (client p c) = omega arith
stale-le n (server p s) = omega arith

module _ {loops : ℕ} {m : Shared} {ts : List Thread} (inv : Inv loops m ts) (i : ℕ) where
  client-Inv :
      (p : ClientPc) (c : Client) (m' : Shared) (t' : Thread)
      → Sums (weights m.noverflow) ts i (client p c) t'
      → Sums (weights m'.noverflow) ts i (client p c) t'
      → Rests in_overflow (stale m'.noverflow ∷ []) ts (client p c)
      → move m (client p c) ≡ some (m', t')
      → Inv loops m' (set ts i t')
  unfolding move
  client-Inv try_wait c m' t' f f' g e = ground arith
  client-Inv load_offset c m' t' f f' g e = ground (arith, inv.offsets m.nput)
  client-Inv p c m' t' f f' g e = ground arith

  server-Inv :
      (p : ServerPc) (s : Server) (m' : Shared) (t' : Thread)
      → Sums (weights m.noverflow) ts i (server p s) t'
      → Sums (weights m'.noverflow) ts i (server p s) t'
      → Rests in_overflow (stale m'.noverflow ∷ []) ts (server p s)
      → move m (server p s) ≡ some (m', t')
      → Inv loops m' (set ts i t')
  unfolding move
  server-Inv load_get s m' t' f f' g e = ground (arith, inv.offsets s.index)
  server-Inv print_msg s m' t' f f' g e =
      ground (arith, length-append m.printed ((s.index, m.msgdata s.offset) ∷ []))
  server-Inv p s m' t' f f' g e = ground arith

move-Inv :
    {loops : ℕ} (s : System Shared Thread) (i : ℕ) (t : Thread) (m : Shared) (t' : Thread)
    → get_elem? s.threads i ≡ some t
    → move s.mem t ≡ some (m, t')
    → Inv loops s.mem s.threads
    → Inv loops m (set s.threads i t')
move-Inv s i (client p c) m t' e go inv =
    client-Inv inv i p c m t' (sums (weights s.mem.noverflow) s.threads i _ t' e)
      (sums (weights m.noverflow) s.threads i _ t' e)
      (rests in_overflow (stale m.noverflow ∷ []) (stale-le m.noverflow, tt) s.threads i _ e) go
move-Inv s i (server p c) m t' e go inv =
    server-Inv inv i p c m t' (sums (weights s.mem.noverflow) s.threads i _ t' e)
      (sums (weights m.noverflow) s.threads i _ t' e)
      (rests in_overflow (stale m.noverflow ∷ []) (stale-le m.noverflow, tt) s.threads i _ e) go

-- A weight that clients do not have at the start.
abbrev IsFree : (Thread → ℕ) → Type 0
IsFree w =
    (c : Client)
    → (c.left ≡ 0 → w (client returned c) ≡ 0) × (0 < c.left → w (client try_wait c) ≡ 0)

total-clients :
    (w : Thread → ℕ) → IsFree w → (pid : ℕ) (loops : List ℕ) → total w (clients pid loops) ≡ 0
unfolding total
total-clients w free pid [] = refl
total-clients w free pid (n ∷ loops) =
    let c : Client = record { pid = pid; index = 0; left = n; offset = 0; reg = 0 } in
    ground (arith, (free c).0, (free c).1, total-clients w free (pid + 1) loops)

total-left : (pid : ℕ) (loops : List ℕ) → total left (clients pid loops) ≡ sum loops
unfolding total sum
total-left pid [] = refl
total-left pid (n ∷ loops) = ground (arith, total-left (pid + 1) loops)

free :
    (w : Thread → ℕ)
    → ((c : Client) → w (client returned c) ≡ 0)
    → ((c : Client) → w (client try_wait c) ≡ 0)
    → IsFree w
free w a b c = (λ _. a c, λ _. b c)

Inv-init : (loops : List ℕ) → Inv (sum loops) (init loops).mem (init loops).threads
unfolding total
Inv-init loops = record {
  exclusive = omega (arith, total-clients in_mutex (free in_mutex (λ c. refl) (λ c. refl)) 0 loops);
  count_exclusive =
      omega (arith, total-clients in_overflow (free in_overflow (λ c. refl) (λ c. refl)) 0 loops);
  slots = omega (arith, total-clients holding (free holding (λ c. refl) (λ c. refl)) 0 loops);
  accounts = omega (
    arith,
    total-left 0 loops,
    total-clients due (free due (λ c. refl) (λ c. refl)) 0 loops,
    total-clients early (free early (λ c. refl) (λ c. refl)) 0 loops,
  );
  counted = omega (
    arith,
    total-clients off_count (λ c. (λ h. ground (arith, h), λ h. ground (arith, h))) 0 loops,
  );
  current = omega (arith, total-clients (stale 0) (free (stale 0) (λ c. refl) (λ c. refl)) 0 loops);
  one_server =
      omega (arith, total-clients is_server (free is_server (λ c. refl) (λ c. refl)) 0 loops);
  ring = omega arith;
  offsets = λ i. refl;
  inside = omega (arith, total-clients astray (free astray (λ c. refl) (λ c. refl)) 0 loops);
}

-- The invariant holds after every schedule.
pub run-Inv :
    (loops sched : List ℕ) → let s = run move (init loops) sched in Inv (sum loops) s.mem s.threads
run-Inv loops sched =
    run_inv move (λ s. Inv (sum loops) s.mem s.threads) move-Inv (init loops) sched (Inv-init loops)
