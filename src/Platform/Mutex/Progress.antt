-- ===== src/Platform/Mutex/Progress.antt =====
-- What one thread does by its own steps alone: the calls, and how it gives the mutex back.
use zenoh_c.Common.{
  ℕ, ◌⊎◌, ◌≡◌, refl, sym, subst, inl, inr, Bool, true, false, Option, none, some, is_some, arith,
}
use zenoh_c.ResultCodes.{ZResult, z_ok, same_code}
use zenoh_c.Platform.Mutex.{
  LoanedMutex, store_guard, drop_guard, assign_guard, z_mutex_lock, z_mutex_try_lock,
  z_mutex_unlock, begin_wait, end_wait,
}
use zenoh_c.Platform.Mutex.Threads.{
  Pc, idle, storing, inside, taking, dropping, parking, falling, asleep, assigning, stuck, Move,
  store, unlock, take, release, park, sleep, assign, World, update, Run, init,
}
use zenoh_c.Platform.Mutex.Exclusion.{owns, IsExclusive, Run-IsExclusive}

-- Steps of thread `i`, and of no other.
pub data Alone (i : ℕ) : World → World → Type 0 where
  done : {w : World} → Alone i w w
  step :
      {w v : World} {m : LoanedMutex} {p : Pc}
      → Move (w.pc i) w.shared p m
      → Alone i (record { shared = m; pc = update w.pc i p }) v
      → Alone i w v

update_self : (f : ℕ → Pc) (i : ℕ) (p : Pc) → update f i p i ≡ p
update_self f i p = ground arith

abbrev moved : ℕ → World → Pc → LoanedMutex → World
moved i w p m = record { shared = m; pc = update w.pc i p }

-- A step, where the thread is known to be at `p`.
stepped :
    (i : ℕ) (w : World) {p q : Pc} {m : LoanedMutex} {v : World}
    → w.pc i ≡ p
    → Move p w.shared q m
    → Alone i (moved i w q m) v
    → Alone i w v
stepped i w {q} {m} at_p mv rest = step (subst (λ r. Move r w.shared q m) (sym at_p) mv) rest

-- The thread can free the mutex.
abbrev pub CanFree : ℕ → World → Type 0
CanFree i w = (v : World) × Alone i w v × (v.shared.mutex.locked ≡ false)

module _ (i : ℕ) where
  free_next :
      (w : World) {p q : Pc} {m : LoanedMutex}
      → w.pc i ≡ p
      → Move p w.shared q m
      → CanFree i (moved i w q m)
      → CanFree i w
  free_next w e mv (v, run, free) = (v, stepped i w e mv run, free)

  free_dropping : (w : World) → w.pc i ≡ dropping → CanFree i w
  unfolding drop_guard
  free_dropping w e = free_next w e release (_, done, refl)

  free_taking : (w : World) → w.pc i ≡ taking → CanFree i w
  free_taking w e = free_next w e take (free_dropping _ (update_self w.pc i dropping))

  free_inside : (w : World) → w.pc i ≡ inside → is_some w.shared.slot ≡ true → CanFree i w
  free_inside w e s = free_next w e (unlock s) (free_taking _ (update_self w.pc i taking))

  free_falling : (w : World) → w.pc i ≡ falling → CanFree i w
  unfolding drop_guard
  free_falling w e = free_next w e sleep (_, done, refl)

  free_parking : (w : World) → w.pc i ≡ parking → CanFree i w
  free_parking w e = free_next w e park (free_falling _ (update_self w.pc i falling))

  free_storing : (w : World) → w.pc i ≡ storing → CanFree i w
  unfolding store_guard
  free_storing w e = free_next w e store (free_inside _ (update_self w.pc i inside) refl)

  assigned : (m : LoanedMutex) → is_some (assign_guard m).slot ≡ true
  unfolding assign_guard store_guard drop_guard
  assigned m = ground arith

  free_assigning : (w : World) → w.pc i ≡ assigning → CanFree i w
  free_assigning w e =
      free_next w e assign (free_inside _ (update_self w.pc i inside) (assigned w.shared))

  free_from :
      (w : World)
      → IsExclusive w.shared w.pc
      → (p : Pc) → w.pc i ≡ p
      → owns p ≡ true
      → CanFree i w ⊎ (w.pc i ≡ stuck)
  free_from w inv idle e o = absurd (cc o)
  free_from w inv storing e o = inl (free_storing w e)
  free_from w inv inside e o = inl (free_inside w e (inv.full i (rw e refl)))
  free_from w inv taking e o = inl (free_taking w e)
  free_from w inv dropping e o = inl (free_dropping w e)
  free_from w inv parking e o = inl (free_parking w e)
  free_from w inv falling e o = inl (free_falling w e)
  free_from w inv asleep e o = absurd (cc o)
  free_from w inv stuck e o = inr e
  free_from w inv assigning e o = inl (free_assigning w e)

-- However the calls of threads have interleaved on a mutex that `z_mutex_init` has made, where a thread
-- unlocks the mutex and waits with it only while it has it, no thread drops it, and none panics while
-- it has it: if the mutex is locked, there is a thread that can free it by its own steps alone, or that
-- has it and is in a `z_mutex_lock` of it once more.
pub Run-CanFree :
    {w : World}
    → Run init w
    → w.shared.mutex.locked ≡ true
    → (i : ℕ) × (CanFree i w ⊎ (w.pc i ≡ stuck))
Run-CanFree {w} r l =
    let inv = Run-IsExclusive r in let (i, o) = inv.held l in (i, free_from i w inv (w.pc i) refl o)

-- The calls, the two halves of `z_condvar_wait` apart.
pub data Call : Type 0 where
  mutex_lock mutex_try_lock mutex_unlock begin end_of : Call

waited : LoanedMutex → Option LoanedMutex × ZResult → LoanedMutex × ZResult
waited m (none, code) = (m, code)
waited m (some m', code) = (m', code)

-- The mutex and the code afterwards; `none` is a call that waits.
unfoldable pub perform : Call → LoanedMutex → Option (LoanedMutex × ZResult)
unfolding z_mutex_lock z_mutex_try_lock z_mutex_unlock begin_wait end_wait waited
perform Call.mutex_lock m = z_mutex_lock m
perform Call.mutex_try_lock m = some (z_mutex_try_lock m)
perform Call.mutex_unlock m = some (z_mutex_unlock m)
perform Call.begin m = some (waited m (begin_wait m))
perform Call.end_of m = end_wait m

-- Where the thread is before and after the call, by whether it returned `Z_OK`.
abbrev pub before : Call → Pc
before Call.mutex_lock = idle
before Call.mutex_try_lock = idle
before Call.mutex_unlock = inside
before Call.begin = inside
before Call.end_of = asleep

abbrev pub after : Call → Bool → Pc
after Call.mutex_unlock _ = idle
after Call.begin true = asleep
after _ true = inside
after _ false = idle

-- Steps of the thread alone lead to where it is at `p` and the mutex is `m`.
abbrev pub Reaches : ℕ → World → Pc → LoanedMutex → Type 0
Reaches i w p m = (v : World) × Alone i w v × (v.shared ≡ m) × (v.pc i ≡ p)

module _ (i : ℕ) (w : World) where
  reached : (p : Pc) (m : LoanedMutex) → Reaches i (moved i w p m) p m
  reached p m = (moved i w p m, done, refl, update_self w.pc i p)

-- What is shown of each call.
abbrev Performs : Call → Type 0
Performs call =
    (i : ℕ) (w : World) (m : LoanedMutex) (code : ZResult)
    → w.pc i ≡ before call
    → perform call w.shared ≡ some (m, code)
    → Reaches i w (after call (same_code code z_ok)) m
