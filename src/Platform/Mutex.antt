-- ===== src/Platform/Mutex.antt =====
-- The mutexes and condition variables of src/platform/synchronization.rs. A mutex is Rust's, beside
-- a slot for the guard of the thread that has locked it. A call is cut at the points where another
-- thread can run: `lock_mutex`, `store_guard`, `take_guard` and `drop_guard` are its parts. `none`
-- is a call that waits. A guard that is dropped by a panicking thread is not modelled.
pub mod Threads
pub mod Exclusion
pub mod Progress
mod Tests
use zenoh_c.Common.{Bool, true, false, not, Option, none, some, if◌then◌else◌, is_some}
use zenoh_c.ResultCodes.{ZResult, z_ok, z_ebusy_mutex, z_einval_mutex, z_epoison_mutex}

-- `std::sync::Mutex<()>`
pub record RustMutex : Type 0 where
  pub locked : Bool
  pub poisoned : Bool

-- `MutexGuard`
pub data Guard : Type 0 where
  guard : Guard

-- `z_loaned_mutex_t`
pub record LoanedMutex : Type 0 where
  pub mutex : RustMutex
  pub slot : Option Guard

-- `z_owned_mutex_t`; `none` is the gravestone.
abbrev pub OwnedMutex : Type 0
OwnedMutex = Option LoanedMutex

unfoldable pub z_mutex_init : OwnedMutex × ZResult
z_mutex_init =
    (some (record { mutex = record { locked = false; poisoned = false }; slot = none }), z_ok)

-- The variable behind `this_` after the call.
unfoldable pub z_mutex_drop : OwnedMutex → OwnedMutex
z_mutex_drop this = none

unfoldable pub z_internal_mutex_check : OwnedMutex → Bool
z_internal_mutex_check this = is_some this

unfoldable pub z_internal_mutex_null : OwnedMutex
z_internal_mutex_null = none

-- `lock()` and `try_lock()` of a mutex that is not locked: whether the result is `Ok`. The guard
-- inside an `Err` is dropped at once.
unfoldable pub lock_mutex : LoanedMutex → Bool × LoanedMutex
lock_mutex m =
    (not m.mutex.poisoned, record m { mutex = record m.mutex { locked = not m.mutex.poisoned } })

-- `replace(new_lock)`; the old guard is forgotten.
unfoldable pub store_guard : LoanedMutex → LoanedMutex
store_guard m = record m { slot = some guard }

-- `take()` of the slot
unfoldable pub take_guard : LoanedMutex → LoanedMutex
take_guard m = record m { slot = none }

-- The drop of a guard.
unfoldable pub drop_guard : LoanedMutex → LoanedMutex
drop_guard m = record m { mutex = record m.mutex { locked = false } }

-- `m.1 = Some(new_lock)` drops the guard that is in the slot.
unfoldable pub assign_guard : LoanedMutex → LoanedMutex
unfolding drop_guard store_guard
assign_guard m = if is_some m.slot then store_guard (drop_guard m) else store_guard m

locked_or : ZResult → Bool × LoanedMutex → LoanedMutex × ZResult
unfolding store_guard
locked_or code (true, m) = (store_guard m, z_ok)
locked_or code (false, m) = (m, code)

unfoldable pub z_mutex_lock : LoanedMutex → Option (LoanedMutex × ZResult)
unfolding locked_or lock_mutex
z_mutex_lock m = if m.mutex.locked then none else some (locked_or z_epoison_mutex (lock_mutex m))

unfoldable pub z_mutex_unlock : LoanedMutex → LoanedMutex × ZResult
unfolding take_guard drop_guard
z_mutex_unlock m = if is_some m.slot then (drop_guard (take_guard m), z_ok) else (m, z_einval_mutex)

unfoldable pub z_mutex_try_lock : LoanedMutex → LoanedMutex × ZResult
unfolding locked_or lock_mutex
z_mutex_try_lock m =
    if m.mutex.locked then (m, z_ebusy_mutex) else locked_or z_ebusy_mutex (lock_mutex m)

-- What `z_condvar_wait` does up to where it sleeps: the mutex that other threads find, or the code
-- with which it returns.
unfoldable pub begin_wait : LoanedMutex → Option LoanedMutex × ZResult
unfolding take_guard drop_guard
begin_wait m =
    if is_some m.slot then (some (drop_guard (take_guard m)), z_ok) else (none, z_einval_mutex)

-- What it does from there on, in the mutex that the other threads have left.
woken : Bool × LoanedMutex → LoanedMutex × ZResult
unfolding assign_guard
woken (true, m) = (assign_guard m, z_ok)
woken (false, m) = (m, z_epoison_mutex)

unfoldable pub end_wait : LoanedMutex → Option (LoanedMutex × ZResult)
unfolding woken lock_mutex
end_wait m = if m.mutex.locked then none else some (woken (lock_mutex m))
