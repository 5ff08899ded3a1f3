-- ===== src/Platform/Mutex/Exclusion.antt =====
-- What holds however the calls of threads interleave.
use zenoh_c.Common.{ℕ, ◌≡◌, refl, Bool, true, false, is_some, arith}
use zenoh_c.Platform.Mutex.{
  LoanedMutex, lock_mutex, store_guard, take_guard, drop_guard, assign_guard,
}
use zenoh_c.Platform.Mutex.Threads.{
  Pc, idle, asleep, inside, taking, parking, stuck, Move, busy, relock, lock, lock_err, wake,
  wake_err, unlock, refuse, wait, would_block, store, take, release, park, sleep, assign, World,
  update, pick, Run, here, next, init,
}

-- Whether the thread has a guard of the mutex, in its hands or in the slot.
abbrev pub owns : Pc → Bool
owns idle = false
owns asleep = false
owns _ = true

-- Whether it has it in the slot.
abbrev pub keeps : Pc → Bool
keeps inside = true
keeps taking = true
keeps parking = true
keeps stuck = true
keeps _ = false

pub record IsExclusive (m : LoanedMutex) (pc : ℕ → Pc) : Type 0 where
  pub sound : m.mutex.poisoned ≡ false
  pub owned : (i : ℕ) → owns (pc i) ≡ true → m.mutex.locked ≡ true
  pub held : m.mutex.locked ≡ true → (i : ℕ) × (owns (pc i) ≡ true)
  pub unique : (i j : ℕ) → owns (pc i) ≡ true → owns (pc j) ≡ true → i ≡ j
  pub full : (i : ℕ) → keeps (pc i) ≡ true → is_some m.slot ≡ true
  pub bare : (i : ℕ) → owns (pc i) ≡ true → keeps (pc i) ≡ false → is_some m.slot ≡ false
  pub free : m.mutex.locked ≡ false → is_some m.slot ≡ false

-- The condition of a move, for the catch-all clauses below.
abbrev Guard : {m m' : LoanedMutex} {p p' : Pc} → Move p m p' m' → Type 0
Guard {m} (lock _ _) = (m.mutex.locked ≡ false) × ((lock_mutex m).0 ≡ true)
Guard {m} (lock_err _ _) = (m.mutex.locked ≡ false) × ((lock_mutex m).0 ≡ false)
Guard {m} (would_block _) = m.mutex.locked ≡ true
Guard {m} (busy _) = m.mutex.locked ≡ true
Guard {m} (relock _) = m.mutex.locked ≡ true
Guard {m} (unlock _) = is_some m.slot ≡ true
Guard {m} (refuse _) = is_some m.slot ≡ false
Guard {m} (wait _) = is_some m.slot ≡ true
Guard {m} (wake _ _) = (m.mutex.locked ≡ false) × ((lock_mutex m).0 ≡ true)
Guard {m} (wake_err _ _) = (m.mutex.locked ≡ false) × ((lock_mutex m).0 ≡ false)
Guard _ = Unit {0}

guard : {m m' : LoanedMutex} {p p' : Pc} (mv : Move p m p' m') → Guard mv
guard (lock a b) = (a, b)
guard (lock_err a b) = (a, b)
guard (would_block a) = a
guard (busy a) = a
guard (relock a) = a
guard (unlock a) = a
guard (refuse a) = a
guard (wait a) = a
guard (wake a b) = (a, b)
guard (wake_err a b) = (a, b)
guard _ = tt

owns_of_keeps : (p : Pc) → keeps p ≡ true → owns p ≡ true
owns_of_keeps p k = ground arith

module _ {m : LoanedMutex} {pc : ℕ → Pc} (inv : IsExclusive m pc) (i : ℕ) where
  open inv use {sound, owned, held, unique, full, bare, free}

  -- A match on `Move` needs a variable for `pc i`.
  Move-sound :
      {p p' : Pc} {m' : LoanedMutex} → Move p m p' m' → p ≡ pc i → m'.mutex.poisoned ≡ false
  unfolding lock_mutex store_guard take_guard drop_guard assign_guard
  Move-sound (lock a b) e = ground (arith)
  Move-sound mv e = ground (arith, guard mv)

  Move-owned :
      {p p' : Pc} {m' : LoanedMutex}
      → Move p m p' m'
      → p ≡ pc i
      → (j : ℕ) → owns (update pc i p' j) ≡ true
      → m'.mutex.locked ≡ true
  unfolding lock_mutex store_guard take_guard drop_guard assign_guard
  Move-owned (lock a b) e j o = ground (arith, owned i, owned j, unique i j)
  Move-owned mv e j o = ground (arith, guard mv, owned i, owned j, unique i j, bare i)

  -- A thread that owns afterwards, unless the mutex is free.
  Move-held :
      {p p' : Pc} {m' : LoanedMutex}
      → Move p m p' m'
      → p ≡ pc i
      → m'.mutex.locked ≡ true
      → (j : ℕ) × (owns (update pc i p' j) ≡ true)
  unfolding lock_mutex store_guard take_guard drop_guard assign_guard
  Move-held (lock a b) e l = (i, ground arith)
  Move-held (lock_err a b) e l = cc
  Move-held (would_block a) e l = ((held a).0, ground (arith, (held a).1))
  Move-held (busy a) e l = (i, ground arith)
  Move-held (relock a) e l = (i, ground arith)
  Move-held store e l = (i, ground arith)
  Move-held (unlock a) e l = (i, ground arith)
  Move-held (refuse a) e l = absurd (ground (arith, full i))
  Move-held take e l = (i, ground arith)
  Move-held release e l = cc
  Move-held (wait a) e l = (i, ground arith)
  Move-held park e l = (i, ground arith)
  Move-held sleep e l = cc
  Move-held (wake a b) e l = (i, ground arith)
  Move-held (wake_err a b) e l = cc
  Move-held assign e l = (i, ground arith)

  Move-unique :
      {p p' : Pc} {m' : LoanedMutex}
      → Move p m p' m'
      → p ≡ pc i
      → (j k : ℕ) → owns (update pc i p' j) ≡ true
      → owns (update pc i p' k) ≡ true
      → j ≡ k
  Move-unique (lock a b) e j k oj ok = ground (arith, owned j, owned k, unique j k)
  Move-unique mv e j k oj ok =
      ground (arith, guard mv, owned j, owned k, unique j k, unique i k, unique j i)

  Move-full :
      {p p' : Pc} {m' : LoanedMutex}
      → Move p m p' m'
      → p ≡ pc i
      → (j : ℕ) → keeps (update pc i p' j) ≡ true
      → is_some m'.slot ≡ true
  unfolding lock_mutex store_guard take_guard drop_guard assign_guard
  Move-full store e j k = refl
  Move-full mv e j k = ground (arith, guard mv, full j, owns_of_keeps (pc j), unique i j)

  Move-bare :
      {p p' : Pc} {m' : LoanedMutex}
      → Move p m p' m'
      → p ≡ pc i
      → (j : ℕ) → owns (update pc i p' j) ≡ true
      → keeps (update pc i p' j) ≡ false
      → is_some m'.slot ≡ false
  unfolding lock_mutex store_guard take_guard drop_guard assign_guard
  Move-bare take e j o k = refl
  Move-bare mv e j o k = ground (arith, guard mv, bare j, free, unique i j)

  Move-free :
      {p p' : Pc} {m' : LoanedMutex}
      → Move p m p' m'
      → p ≡ pc i
      → m'.mutex.locked ≡ false
      → is_some m'.slot ≡ false
  unfolding lock_mutex store_guard take_guard drop_guard assign_guard
  Move-free take e l = refl
  Move-free mv e l = ground (arith, guard mv, owned i, bare i, free)

  Move-IsExclusive :
      {p : Pc} {m' : LoanedMutex} → Move (pc i) m p m' → IsExclusive m' (update pc i p)
  Move-IsExclusive mv = record {
    sound = Move-sound mv refl;
    owned = Move-owned mv refl;
    held = Move-held mv refl;
    unique = Move-unique mv refl;
    full = Move-full mv refl;
    bare = Move-bare mv refl;
    free = Move-free mv refl;
  }

init-IsExclusive : IsExclusive init.shared init.pc
init-IsExclusive = record {
  sound = refl;
  owned = λ i o. cc;
  held = λ l. cc;
  unique = λ i j o u. cc;
  full = λ i k. cc;
  bare = λ i o k. cc;
  free = λ l. refl;
}

-- However the calls of threads interleave on a mutex that `z_mutex_init` has made, where a thread
-- unlocks the mutex and waits with it only while it has it, no thread drops it, and none panics while
-- it has it: one thread at most has it locked, and some thread has it whenever it is locked; the slot
-- holds a guard for that thread from the end of its lock until it takes the guard back, in a second
-- `z_mutex_lock` too; and the mutex is not poisoned.
pub Run-IsExclusive : {w : World} → Run init w → IsExclusive w.shared w.pc
Run-IsExclusive here = init-IsExclusive
Run-IsExclusive (next r (pick i mv)) = Move-IsExclusive (Run-IsExclusive r) i mv
