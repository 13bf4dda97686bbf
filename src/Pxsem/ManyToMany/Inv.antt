-- ===== src/Pxsem/ManyToMany/Inv.antt =====
-- The invariant of sem_prodcons4.c, and that each statement of each thread keeps it.
use mathlib.Core.Path.{ap₂}
use cs_primer.Prelude.{
  ◌*◌, ◌∙◌, replicate, ℕ, ◌+◌, ◌%◌, ◌≤◌, ◌<◌, ◌≡◌, ◌⊎◌, List, [], some, arith, get_elem?, set, refl,
}
use cs_primer.Threads.{total-append, total-replicate, total, total-set, rest-le, weight-le-total}
use cs_primer.Threads.Machine.{System, run, run_inv}
use cs_primer.Pxsem.ManyToMany.{
  init, Shared, Thread, put, get, move, nbuff, wait_nempty, wait_nstored, check,
}
use cs_primer.Pxsem.ManyToMany.Weights.{
  is_put, is_get, extra, put_over, get_over, put_count, get_count, put_count_due, get_count_due,
  critical, slot, token, put_val_due, get_val_due, putting, getting, stored, put_val_due-le,
  get_val_due-le, putting-le, getting-le, stored-le,
}

pub record Inv (np nc nitems : ℕ) (m : Shared) (ts : List Thread) : Type 0 where
  pub exclusive : m.mutex + total critical ts ≡ 1
  pub slots : m.nempty + total slot ts + m.nput ≡ nbuff + m.nget
  pub tokens : m.nstored + total token ts + m.nget ≡ m.nput + total extra ts
  pub early : (total extra ts ≡ 0) ⊎ (nitems ≤ m.nput)
  pub all_put : (total put_over ts ≡ 0) ⊎ (nitems ≤ m.nput)
  pub all_got : (total get_over ts ≡ 0) ⊎ (nitems ≤ m.nget)
  pub put_counts : total put_count ts + total put_count_due ts ≡ m.nput
  pub get_counts : total get_count ts + total get_count_due ts ≡ m.nget
  pub put_val : m.nputval + total put_val_due ts ≡ m.nput
  pub get_val : m.ngetval + total get_val_due ts ≡ m.nget
  pub put_le : m.nput + total putting ts ≤ nitems
  pub get_le : m.nget + total getting ts ≤ m.nput
  pub producers : total is_put ts ≡ np
  pub consumers : total is_get ts ≡ nc
  pub silent : m.errors ≡ []
  pub content : (k : ℕ) → m.nget ≤ k → k < m.nput + total stored ts → m.buf (k % nbuff) ≡ k

abbrev pub InvS : ℕ → ℕ → ℕ → System Shared Thread → Type 0
InvS np nc nitems s = Inv np nc nitems s.mem s.threads

-- How the sums change when the thread `i` goes from `t` to `t'`, and what `t` says of the others.
record Moved (ts : List Thread) (i : ℕ) (t t' : Thread) : Type 0 where
  cs : total critical (set ts i t') + critical t ≡ total critical ts + critical t'
  sl : total slot (set ts i t') + slot t ≡ total slot ts + slot t'
  tk : total token (set ts i t') + token t ≡ total token ts + token t'
  pv : total put_val_due (set ts i t') + put_val_due t ≡ total put_val_due ts + put_val_due t'
  gv : total get_val_due (set ts i t') + get_val_due t ≡ total get_val_due ts + get_val_due t'
  pu : total putting (set ts i t') + putting t ≡ total putting ts + putting t'
  ge : total getting (set ts i t') + getting t ≡ total getting ts + getting t'
  st : total stored (set ts i t') + stored t ≡ total stored ts + stored t'
  ex : total extra (set ts i t') + extra t ≡ total extra ts + extra t'
  po : total put_over (set ts i t') + put_over t ≡ total put_over ts + put_over t'
  go : total get_over (set ts i t') + get_over t ≡ total get_over ts + get_over t'
  pc : total put_count (set ts i t') + put_count t ≡ total put_count ts + put_count t'
  gc : total get_count (set ts i t') + get_count t ≡ total get_count ts + get_count t'
  pd :
      total put_count_due (set ts i t') + put_count_due t
      ≡ total put_count_due ts + put_count_due t'
  gd :
      total get_count_due (set ts i t') + get_count_due t
      ≡ total get_count_due ts + get_count_due t'
  ip : total is_put (set ts i t') + is_put t ≡ total is_put ts + is_put t'
  ig : total is_get (set ts i t') + is_get t ≡ total is_get ts + is_get t'
  pv_le : total put_val_due ts + critical t ≤ total critical ts + put_val_due t
  gv_le : total get_val_due ts + critical t ≤ total critical ts + get_val_due t
  pu_le : total putting ts + critical t ≤ total critical ts + putting t
  ge_le : total getting ts + critical t ≤ total critical ts + getting t
  st_le : total stored ts + critical t ≤ total critical ts + stored t
  own_cs : critical t ≤ total critical ts
  own_sl : slot t ≤ total slot ts
  own_tk : token t ≤ total token ts
  own_pu : putting t ≤ total putting ts
  own_po : put_over t ≤ total put_over ts
  own_go : get_over t ≤ total get_over ts
  own_ge : getting t ≤ total getting ts

moved : (ts : List Thread) (i : ℕ) (t t' : Thread) → get_elem? ts i ≡ some t → Moved ts i t t'
moved ts i t t' e = record {
  cs = total-set critical ts i t t' e;
  sl = total-set slot ts i t t' e;
  tk = total-set token ts i t t' e;
  pv = total-set put_val_due ts i t t' e;
  gv = total-set get_val_due ts i t t' e;
  pu = total-set putting ts i t t' e;
  ge = total-set getting ts i t t' e;
  st = total-set stored ts i t t' e;
  ex = total-set extra ts i t t' e;
  po = total-set put_over ts i t t' e;
  go = total-set get_over ts i t t' e;
  pc = total-set put_count ts i t t' e;
  gc = total-set get_count ts i t t' e;
  pd = total-set put_count_due ts i t t' e;
  gd = total-set get_count_due ts i t t' e;
  ip = total-set is_put ts i t t' e;
  ig = total-set is_get ts i t t' e;
  pv_le = rest-le put_val_due critical put_val_due-le ts i t e;
  gv_le = rest-le get_val_due critical get_val_due-le ts i t e;
  pu_le = rest-le putting critical putting-le ts i t e;
  ge_le = rest-le getting critical getting-le ts i t e;
  st_le = rest-le stored critical stored-le ts i t e;
  own_cs = weight-le-total critical ts i t e;
  own_sl = weight-le-total slot ts i t e;
  own_tk = weight-le-total token ts i t e;
  own_pu = weight-le-total putting ts i t e;
  own_po = weight-le-total put_over ts i t e;
  own_go = weight-le-total get_over ts i t e;
  own_ge = weight-le-total getting ts i t e;
}

module _ {np nc nitems : ℕ} {m : Shared} {ts : List Thread} (inv : Inv np nc nitems m ts)
    (i : ℕ) where
  producer-Inv :
      (p : _) (c : ℕ) (m' : Shared) (t' : Thread)
      → Moved ts i (put p c) t'
      → move nitems m (put p c) ≡ some (m', t')
      → Inv np nc nitems m' (set ts i t')
  unfolding move
  producer-Inv wait_nempty c m' t' f e = ground arith
  producer-Inv p c m' t' f e = ground arith

  consumer-Inv :
      (p : _) (c : ℕ) (m' : Shared) (t' : Thread)
      → Moved ts i (get p c) t'
      → move nitems m (get p c) ≡ some (m', t')
      → Inv np nc nitems m' (set ts i t')
  unfolding move
  consumer-Inv wait_nstored c m' t' f e = ground arith
  consumer-Inv check c m' t' f e = ground (arith, inv.content m.nget)
  consumer-Inv p c m' t' f e = ground arith

pub move-Inv :
    {np nc nitems : ℕ} (s : System Shared Thread) (i : ℕ) (t : Thread) (m : Shared) (t' : Thread)
    → get_elem? s.threads i ≡ some t
    → move nitems s.mem t ≡ some (m, t')
    → InvS np nc nitems s
    → Inv np nc nitems m (set s.threads i t')
move-Inv s i (put p c) m t' e go inv = producer-Inv inv i p c m t' (moved s.threads i _ t' e) go
move-Inv s i (get p c) m t' e go inv = consumer-Inv inv i p c m t' (moved s.threads i _ t' e) go

module _ (w : Thread → ℕ) (np nc : ℕ) where
  pub total-start :
      total w (init np nc).threads ≡ np * w (put wait_nempty 0) + nc * w (get wait_nstored 0)
  total-start =
      total-append w (replicate np (put wait_nempty 0)) _
      ∙ ap₂ ◌+◌ (total-replicate w np _) (total-replicate w nc _)

pub Inv-init : (np nc nitems : ℕ) → InvS np nc nitems (init np nc)
Inv-init np nc nitems = record {
  exclusive = omega (arith, total-start critical np nc);
  slots = omega (arith, total-start slot np nc);
  tokens = omega (arith, total-start token np nc, total-start extra np nc);
  early = omega (arith, total-start extra np nc);
  all_put = omega (arith, total-start put_over np nc);
  all_got = omega (arith, total-start get_over np nc);
  put_counts = omega (arith, total-start put_count np nc, total-start put_count_due np nc);
  get_counts = omega (arith, total-start get_count np nc, total-start get_count_due np nc);
  put_val = omega (arith, total-start put_val_due np nc);
  get_val = omega (arith, total-start get_val_due np nc);
  put_le = omega (arith, total-start putting np nc);
  get_le = omega (arith, total-start getting np nc);
  producers = omega (arith, total-start is_put np nc);
  consumers = omega (arith, total-start is_get np nc);
  silent = refl;
  content = λ k lo hi. absurd (omega (arith, total-start stored np nc));
}

-- The invariant holds after every schedule.
pub run-Inv :
    (np nc nitems : ℕ) (sched : List ℕ) → InvS np nc nitems (run (move nitems) (init np nc) sched)
run-Inv np nc nitems sched =
    run_inv (move nitems) (InvS np nc nitems) move-Inv (init np nc) sched (Inv-init np nc nitems)
