-- ===== src/Channels/Interface.antt =====
-- What src/closures/sample_channel.rs uses of the handlers of the zenoh crate: a channel whose two
-- ends, the callback and the handler, share a state; and separately what its documentation says.
use zenoh_c.Common.{ℕ, ◌<◌, ◌≡◌, Bool, true, false, Option, none, some, List, [], ◌∷◌, ◌++◌, length}

-- `FifoChannel` or `RingChannel` for samples of type `T`.
pub record Channel (T : Type 0) : Type 1 where
  pub State : Type 0
  -- `new(capacity)` and `into_handler()`
  pub into_handler : ℕ → State
  -- `Callback::call`; `none` waits for room
  pub callback_call : T → State → Option State
  -- the drop of the callback and of the handler
  pub drop_callback : State → State
  pub drop_handler : State → State
  -- `try_recv`: `none` is an `Err`
  pub try_recv : State → Option (Option T) × State
  -- `recv`: `none` is an `Err`, and an outer `none` waits for a sample
  pub recv : State → Option (Option T × State)

-- A FIFO channel keeps samples in order as long as there is room: `holds xs alive capacity` has `xs` in
-- it, and `alive` says whether the callback is still there. What is in it can be received when the
-- callback is gone.
pub record IsQueue {T : Type 0} (ch : Channel T) : Type 0 where
  pub holds : List T → Bool → ℕ → ch.State
  pub into_handler-holds : (capacity : ℕ) → ch.into_handler capacity ≡ holds [] true capacity
  pub callback_call-holds :
      (xs : List T) (x : T) (capacity : ℕ)
      → length xs < capacity
      → ch.callback_call x (holds xs true capacity) ≡ some (holds (xs ++ x ∷ []) true capacity)
  pub drop_callback-holds :
      (xs : List T) (capacity : ℕ)
      → ch.drop_callback (holds xs true capacity) ≡ holds xs false capacity
  pub try_recv-holds :
      (x : T) (xs : List T) (alive : Bool) (capacity : ℕ)
      → ch.try_recv (holds (x ∷ xs) alive capacity) ≡ (some (some x), holds xs alive capacity)
  pub try_recv-alive :
      (capacity : ℕ) → ch.try_recv (holds [] true capacity) ≡ (some none, holds [] true capacity)
  pub try_recv-gone :
      (capacity : ℕ) → ch.try_recv (holds [] false capacity) ≡ (none, holds [] false capacity)

-- A ring channel keeps the latest samples in order, and gives up the oldest where there is no room.
-- With the callback it loses what is in it.
pub record IsRing {T : Type 0} (ch : Channel T) : Type 0 where
  pub holds : List T → ℕ → ch.State
  pub gone : ℕ → ch.State
  pub into_handler-holds : (capacity : ℕ) → ch.into_handler capacity ≡ holds [] capacity
  pub callback_call-room :
      (xs : List T) (x : T) (capacity : ℕ)
      → length xs < capacity
      → ch.callback_call x (holds xs capacity) ≡ some (holds (xs ++ x ∷ []) capacity)
  pub callback_call-full :
      (oldest : T) (xs : List T) (x : T) (capacity : ℕ)
      → length (oldest ∷ xs) ≡ capacity
      → ch.callback_call x (holds (oldest ∷ xs) capacity) ≡ some (holds (xs ++ x ∷ []) capacity)
  pub drop_callback-gone :
      (xs : List T) (capacity : ℕ) → ch.drop_callback (holds xs capacity) ≡ gone capacity
  pub try_recv-holds :
      (x : T) (xs : List T) (capacity : ℕ)
      → ch.try_recv (holds (x ∷ xs) capacity) ≡ (some (some x), holds xs capacity)
  pub try_recv-empty :
      (capacity : ℕ) → ch.try_recv (holds [] capacity) ≡ (some none, holds [] capacity)
  pub try_recv-gone : (capacity : ℕ) → ch.try_recv (gone capacity) ≡ (none, gone capacity)
