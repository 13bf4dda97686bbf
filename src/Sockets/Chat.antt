-- ===== src/Sockets/Chat.antt =====
-- The chat server, tcp-ip/socket/src/mthread_server.c: the table of clients that its threads share
-- under the mutex, and what each operation does with it while it holds the mutex.
pub mod Table
pub mod Send
mod Tests
use cs_primer.Prelude.{update, ℕ, zero, suc, ◌+◌, ◌-◌, List, [], ◌∷◌, ◌++◌, ◌==◌, if◌then◌else◌}
use cs_primer.Posix.{Sys, lit, num, text, Prog, ◌>>=◌, ◌>>◌, pure}
use cs_primer.Posix.Calls.{say, close}

-- `clnt_cnt` and `clnt_sockfdvec`.
pub record Clients : Type 0 where
  pub clnt_cnt : ℕ
  pub vec : ℕ → ℕ

-- `clnt_sockfdvec[clnt_cnt++] = clnt_sockfd`
unfoldable pub add_client : ℕ → Clients → Clients
add_client fd s = record { clnt_cnt = s.clnt_cnt + 1; vec = update s.vec s.clnt_cnt fd }

-- `while(i++ < clnt_cnt-1) clnt_sockfdvec[i] = clnt_sockfdvec[i+1];` with `n` rounds to go: `i` has
-- grown when the body runs.
unfoldable pub shift : ℕ → ℕ → (ℕ → ℕ) → ℕ → ℕ
shift zero i vec = vec
shift (suc n) i vec = shift n (i + 1) (update vec (i + 1) (vec (i + 2)))

-- The loop that looks for the client, with `n` rounds to go.
unfoldable pub search_client : ℕ → ℕ → ℕ → ℕ → (ℕ → ℕ) → ℕ → ℕ
unfolding shift
search_client zero i fd cnt vec = vec
search_client (suc n) i fd cnt vec =
    let rest = search_client n (i + 1) fd cnt vec in
    if fd == vec i then shift (cnt - 1 - i) i vec else rest

-- What `clnt_handler` does with the table when its client is gone; it has been counted, so that
-- `clnt_cnt` is positive.
unfoldable pub remove_client : ℕ → Clients → Clients
unfolding search_client
remove_client fd s = record {
  clnt_cnt = s.clnt_cnt - 1;
  vec = search_client s.clnt_cnt 0 fd s.clnt_cnt s.vec;
}

-- `for(i = 0; i < clnt_cnt; ++i)` of `send_msg`, with `n` rounds to go.
unfoldable pub send_rounds : ℕ → ℕ → List ℕ → ℕ → ℕ → (ℕ → ℕ) → Prog (Unit {0})
send_rounds zero i msg len self vec = pure tt
send_rounds (suc n) i msg len self vec = do
  if vec i == self then pure tt else say Sys.write (num (vec i) ∷ text msg ∷ num len ∷ [])
  send_rounds n (i + 1) msg len self vec

unfoldable pub send_msg : List ℕ → ℕ → ℕ → Clients → Prog (Unit {0})
unfolding send_rounds
send_msg msg len self s = do
  say Sys.pthread_mutex_lock (lit "mutex" ∷ [])
  send_rounds s.clnt_cnt 0 msg len self s.vec
  say Sys.pthread_mutex_unlock (lit "mutex" ∷ [])
