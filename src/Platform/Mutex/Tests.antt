-- ===== src/Platform/Mutex/Tests.antt =====
-- Concrete runs of two threads on one mutex, and the theorems at them.
use zenoh_c.Common.{ℕ, ◌⊎◌, ◌≡◌, refl, true, false, some, none}
use zenoh_c.ResultCodes.{z_ok, z_einval_mutex, z_ebusy_mutex}
use zenoh_c.Platform.Mutex.{
  LoanedMutex, guard, lock_mutex, store_guard, take_guard, drop_guard, z_mutex_lock, z_mutex_unlock,
  z_mutex_try_lock,
}
use zenoh_c.Platform.Mutex.Threads.{
  Pc, storing, inside, asleep, stuck, lock, store, wait, park, sleep, World, update, Run, here,
  next, pick, init,
}
use zenoh_c.Platform.Mutex.Exclusion.{IsExclusive, Run-IsExclusive}
use zenoh_c.Platform.Mutex.Progress.{CanFree, Run-CanFree}
use native.Mathlib.Decide.{ℕ_discrete}

abbrev free_mutex : LoanedMutex
free_mutex = init.shared

abbrev held_mutex : LoanedMutex
held_mutex = record { mutex = record { locked = true; poisoned = false }; slot = some guard }

lock_free : z_mutex_lock free_mutex ≡ some (held_mutex, z_ok)
unfolding z_mutex_lock
lock_free = refl

lock_held : z_mutex_lock held_mutex ≡ none
unfolding z_mutex_lock
lock_held = refl

try_lock_held : z_mutex_try_lock held_mutex ≡ (held_mutex, z_ebusy_mutex)
unfolding z_mutex_try_lock
try_lock_held = refl

unlock_held : z_mutex_unlock held_mutex ≡ (free_mutex, z_ok)
unfolding z_mutex_unlock
unlock_held = refl

unlock_free : z_mutex_unlock free_mutex ≡ (free_mutex, z_einval_mutex)
unfolding z_mutex_unlock
unlock_free = refl

-- Thread 0 waits on a condition variable, and thread 1 has the mutex then.
abbrev slept : ℕ → Pc
slept =
    update (update (update (update (update init.pc 0 storing) 0 inside) 0 Pc.parking) 0 Pc.falling)
      0 asleep

abbrev two_threads : World
two_threads = record { shared = held_mutex; pc = update (update slept 1 storing) 1 inside }

two_threads_run : Run init two_threads
unfolding lock_mutex store_guard take_guard drop_guard ℕ_discrete
two_threads_run =
    next
      (next
        (next
          (next
            (next (next (next here (pick 0 (lock refl refl))) (pick 0 store)) (pick 0 (wait refl)))
            (pick 0 park))
          (pick 0 sleep))
        (pick 1 (lock refl refl)))
      (pick 1 store)

Run-IsExclusive_example : IsExclusive two_threads.shared two_threads.pc
Run-IsExclusive_example = Run-IsExclusive two_threads_run

Run-CanFree_example : (i : ℕ) × (CanFree i two_threads ⊎ (two_threads.pc i ≡ stuck))
Run-CanFree_example = Run-CanFree two_threads_run refl
