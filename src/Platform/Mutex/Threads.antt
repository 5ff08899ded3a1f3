-- ===== src/Platform/Mutex/Threads.antt =====
-- Threads that call the functions of src/platform/synchronization.rs on one mutex, in any order.
-- A thread unlocks and waits only while it has the mutex locked, as the documentation asks, and none
-- drops the mutex. A thread that has the mutex and locks it again waits for itself.
use zenoh_c.Common.{ℕ, ◌≡◌, true, false, none, is_some}
use zenoh_c.Platform.Mutex.{
  LoanedMutex, lock_mutex, store_guard, take_guard, drop_guard, assign_guard,
}
use mathlib.Core.Logic.{ite}
use native.Mathlib.Decide.{ℕ_discrete}

-- Where a thread is: outside of any call without the mutex (`idle`) and with it (`inside`); in
-- `z_mutex_lock` or `z_mutex_try_lock` in front of the replacement (`storing`); in `z_mutex_unlock`
-- in front of `take()` and of the drop (`taking`, `dropping`); in `z_condvar_wait` in front of
-- `take()` and of `wait`, in its sleep, and in front of the assignment; or in a `z_mutex_lock` of the
-- mutex that it has (`stuck`).
pub data Pc : Type 0 where
  idle storing inside taking dropping parking falling asleep assigning stuck : Pc

-- One step of one thread.
pub data Move : Pc → LoanedMutex → Pc → LoanedMutex → Type 0 where
  lock :
      {m : LoanedMutex}
      → m.mutex.locked ≡ false
      → (lock_mutex m).0 ≡ true
      → Move Pc.idle m Pc.storing (lock_mutex m).1
  lock_err :
      {m : LoanedMutex}
      → m.mutex.locked ≡ false
      → (lock_mutex m).0 ≡ false
      → Move Pc.idle m Pc.idle (lock_mutex m).1
  would_block : {m : LoanedMutex} → m.mutex.locked ≡ true → Move Pc.idle m Pc.idle m
  busy : {m : LoanedMutex} → m.mutex.locked ≡ true → Move Pc.inside m Pc.inside m
  relock : {m : LoanedMutex} → m.mutex.locked ≡ true → Move Pc.inside m Pc.stuck m
  store : {m : LoanedMutex} → Move Pc.storing m Pc.inside (store_guard m)
  unlock : {m : LoanedMutex} → is_some m.slot ≡ true → Move Pc.inside m Pc.taking m
  refuse : {m : LoanedMutex} → is_some m.slot ≡ false → Move Pc.inside m Pc.idle m
  take : {m : LoanedMutex} → Move Pc.taking m Pc.dropping (take_guard m)
  release : {m : LoanedMutex} → Move Pc.dropping m Pc.idle (drop_guard m)
  wait : {m : LoanedMutex} → is_some m.slot ≡ true → Move Pc.inside m Pc.parking m
  park : {m : LoanedMutex} → Move Pc.parking m Pc.falling (take_guard m)
  sleep : {m : LoanedMutex} → Move Pc.falling m Pc.asleep (drop_guard m)
  wake :
      {m : LoanedMutex}
      → m.mutex.locked ≡ false
      → (lock_mutex m).0 ≡ true
      → Move Pc.asleep m Pc.assigning (lock_mutex m).1
  wake_err :
      {m : LoanedMutex}
      → m.mutex.locked ≡ false
      → (lock_mutex m).0 ≡ false
      → Move Pc.asleep m Pc.idle (lock_mutex m).1
  assign : {m : LoanedMutex} → Move Pc.assigning m Pc.inside (assign_guard m)

-- The mutex, and where each thread is.
pub record World : Type 0 where
  pub shared : LoanedMutex
  pub pc : ℕ → Pc

abbrev pub update : (ℕ → Pc) → ℕ → Pc → ℕ → Pc
update f i p j = ite (ℕ_discrete i j) p (f j)

pub data Step (w : World) : World → Type 0 where
  pick :
      (i : ℕ) {m : LoanedMutex} {p : Pc}
      → Move (w.pc i) w.shared p m
      → Step w (record { shared = m; pc = update w.pc i p })

pub data Run (w : World) : World → Type 0 where
  here : Run w w
  next : {v u : World} → Run w v → Step v u → Run w u

-- The mutex that `z_mutex_init` makes, and no thread in it.
abbrev pub init : World
init = record {
  shared = record { mutex = record { locked = false; poisoned = false }; slot = none };
  pc = λ i. Pc.idle;
}
