-- ===== src/Sockets/Chat/Table.antt =====
-- The table of clients after a client has come and after one has gone.
use cs_primer.Prelude.{
  update, ℕ, zero, suc, ◌+◌, ◌-◌, ◌≤◌, ◌<◌, ◌≡◌, ◌≢◌, ◌==◌, leb, if◌then◌else◌, refl, sym, ◌∙◌,
  arith, true, false, ◌&&◌, Bool-cases, inl, inr,
}
use cs_primer.Sockets.Chat.{Clients, add_client, shift, search_client, remove_client}

-- A new client stands behind the others.
pub add_client_last :
    (fd : ℕ) (s : Clients)
    → let s' = add_client fd s in
      (s'.clnt_cnt ≡ s.clnt_cnt + 1)
      × (s'.vec s.clnt_cnt ≡ fd)
      × ((j : ℕ) → j < s.clnt_cnt → s'.vec j ≡ s.vec j)
unfolding add_client
add_client_last fd s = (refl, ground arith, λ j h. ground arith)

-- The slots after `i`, `n` of them, take over from their neighbours.
shift_at :
    (n i : ℕ) (vec : ℕ → ℕ) (j : ℕ)
    → shift n i vec j ≡ (if leb (i + 1) j && leb j (i + n) then vec (j + 1) else vec j)
unfolding shift
shift_at zero i vec j = ground arith
shift_at (suc n) i vec j = ground (arith, shift_at n (i + 1) (update vec (i + 1) (vec (i + 2))) j)

search_at :
    (n i k fd cnt : ℕ) (vec : ℕ → ℕ)
    → i ≤ k
    → k < i + n
    → vec k ≡ fd
    → ((j : ℕ) → j < k → vec j ≢ fd)
    → (j : ℕ) → search_client n i fd cnt vec j ≡ shift (cnt - 1 - k) k vec j
unfolding search_client
search_at zero i k fd cnt vec lo hi e first j = absurd (omega arith)
search_at (suc n) i k fd cnt vec lo hi e first j = elim (Bool-cases (leb k i)) [
  | inl reached ↦
      let same : i ≡ k = ground (arith, reached) in
      let hit : (fd == vec k) ≡ true = ground (arith, e) in rw (same, hit) refl
  | inr before ↦
      let other : vec i ≢ fd = first i (ground (arith, before)) in
      let miss : (fd == vec i) ≡ false = ground (arith, other) in
      rw miss (search_at n (i + 1) k fd cnt vec (ground (arith, before)) (omega arith) e first j)
]

-- What is left of a table of clients when the client `fd`, at the slot `k`, has gone: the count is
-- one less, the slots up to `k` stay as they are, so that `fd` stays in its slot unless it was the
-- last, and each slot after `k` takes over from its neighbour.
pub remove_client_slots :
    (fd k : ℕ) (s : Clients)
    → k < s.clnt_cnt
    → s.vec k ≡ fd
    → ((j : ℕ) → j < k → s.vec j ≢ fd)
    → let s' = remove_client fd s in
      (s'.clnt_cnt + 1 ≡ s.clnt_cnt)
      × ((j : ℕ) → j < s'.clnt_cnt → s'.vec j ≡ (if leb j k then s.vec j else s.vec (j + 1)))
unfolding remove_client
remove_client_slots fd k s h e first = (
  omega arith,
  λ j lt.
      search_at s.clnt_cnt 0 k fd s.clnt_cnt s.vec (omega arith) (omega arith) e first j
      ∙ ground (arith, shift_at (s.clnt_cnt - 1 - k) k s.vec j),
)

-- The client that came last goes without a trace: the table is as it was before it came.
pub remove_last :
    (fd : ℕ) (s : Clients)
    → ((j : ℕ) → j < s.clnt_cnt → s.vec j ≢ fd)
    → let s' = remove_client fd (add_client fd s) in
      (s'.clnt_cnt ≡ s.clnt_cnt) × ((j : ℕ) → j < s.clnt_cnt → s'.vec j ≡ s.vec j)
remove_last fd s new =
    let added = add_client_last fd s in
    let gone =
      remove_client_slots fd s.clnt_cnt (add_client fd s) (omega (arith, added.0)) added.1
        (λ j h e. new j h (sym (added.2 j h) ∙ e)) in
    (
      omega (arith, gone.0, added.0),
      λ j h. ground (arith, gone.1 j (omega (arith, gone.0, added.0, h)), added.2 j h),
    )
