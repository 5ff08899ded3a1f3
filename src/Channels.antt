-- ===== src/Channels.antt =====
-- src/closures/sample_channel.rs: FIFO and ring channels with a closure at one end and a handler at
-- the other. The channel itself is of the zenoh crate, which is the parameter `ch`; what runs on its
-- own is the world of one channel. A call that does not return, or is undefined, is `none`.
pub mod Interface
pub mod Sending
pub mod Fifos
pub mod Rings
pub mod Delivery
pub mod Queries
pub mod Replies
mod Tests
use zenoh_c.Common.{
  ℕ, suc, Bool, true, false, ◌||◌, not, Option, none, some, List, [], ◌∷◌, ◌==◌, if◌then◌else◌,
  is_some, any, filter,
}
use zenoh_c.ResultCodes.{ZResult, z_ok, z_channel_disconnected, z_channel_nodata}
use zenoh_c.Collections.Memory.{Ptr}
use zenoh_c.Closures.{Closure}
use zenoh_c.Channels.Interface.{Channel}

-- A channel, and where its callback is boxed.
pub record World {T : Type 0} (ch : Channel T) : Type 0 where
  pub state : ch.State
  pub boxes : List Ptr

-- The receiving end of the channel.
pub data Handler : Type 0 where
  handler : Handler

-- `z_owned_fifo_handler_sample_t` and `z_owned_ring_handler_sample_t`; `none` is the gravestone.
abbrev pub OwnedHandler : Type 0
OwnedHandler = Option Handler

module _ {T : Type 0} (ch : Channel T) where
  abbrev pub has_box : Ptr → World ch → Bool
  has_box p w = any (λ q. q == p) w.boxes

  sent : World ch → Option ch.State → Option (Option T × World ch)
  sent w none = none
  sent w (some k) = some (none, record w { state = k })

  send_taken : Option T → World ch → Option (Option T × World ch)
  unfolding sent
  send_taken none w = none
  send_taken (some sample) w = sent w (ch.callback_call sample w.state)

  -- `__z_handler_sample_send`: the sample is taken out of its variable. Undefined without a sample,
  -- and for a context that is not a boxed callback.
  unfoldable pub handler_sample_send : Option T → Ptr → World ch → Option (Option T × World ch)
  unfolding send_taken
  handler_sample_send sample p w = if has_box p w then send_taken sample w else none

  -- `__z_handler_sample_drop`
  unfoldable pub handler_sample_drop : Ptr → World ch → Option (World ch)
  handler_sample_drop p w =
      if has_box p w
      then some
          (record { state = ch.drop_callback w.state; boxes = filter (λ q. not (q == p)) w.boxes })
      else none

  abbrev pub SampleClosure : Type 0
  SampleClosure = Closure (World ch) (Option T)

  -- The closure and the handler, with the callback boxed at `p`.
  abbrev pub channel_closure : Ptr → SampleClosure
  channel_closure p = record {
    context = p;
    call = some handler_sample_send;
    drop = some handler_sample_drop;
  }

  unfoldable pub z_fifo_channel_sample_new : Ptr → ℕ → SampleClosure × OwnedHandler × World ch
  z_fifo_channel_sample_new p capacity =
      (channel_closure p, some handler, record { state = ch.into_handler capacity; boxes = p ∷ [] })

  unfoldable pub z_ring_channel_sample_new : Ptr → ℕ → SampleClosure × OwnedHandler × World ch
  z_ring_channel_sample_new p capacity =
      (channel_closure p, some handler, record { state = ch.into_handler capacity; boxes = p ∷ [] })

  drop_end : OwnedHandler → World ch → OwnedHandler × World ch
  drop_end none w = (none, w)
  drop_end (some h) w = (none, record w { state = ch.drop_handler w.state })

  unfoldable pub z_fifo_handler_sample_drop : OwnedHandler → World ch → OwnedHandler × World ch
  unfolding drop_end
  z_fifo_handler_sample_drop h w = drop_end h w

  unfoldable pub z_ring_handler_sample_drop : OwnedHandler → World ch → OwnedHandler × World ch
  unfolding drop_end
  z_ring_handler_sample_drop h w = drop_end h w

  unfoldable pub z_internal_fifo_handler_sample_null : OwnedHandler
  z_internal_fifo_handler_sample_null = none

  unfoldable pub z_internal_ring_handler_sample_null : OwnedHandler
  z_internal_ring_handler_sample_null = none

  unfoldable pub z_internal_fifo_handler_sample_check : OwnedHandler → Bool
  z_internal_fifo_handler_sample_check h = is_some h

  unfoldable pub z_internal_ring_handler_sample_check : OwnedHandler → Bool
  z_internal_ring_handler_sample_check h = is_some h

  -- To loan the gravestone is undefined.
  unfoldable pub z_fifo_handler_sample_loan : OwnedHandler → Option Handler
  z_fifo_handler_sample_loan h = h

  unfoldable pub z_ring_handler_sample_loan : OwnedHandler → Option Handler
  z_ring_handler_sample_loan h = h

  -- The sample that is written, and the code.
  abbrev pub Received : Type 0
  Received = Option T × ZResult

  abbrev received : Option T → Received
  received none = (none, z_channel_disconnected)
  received (some q) = (some q, z_ok)

  waited : World ch → Option (Option T × ch.State) → Option (Received × World ch)
  waited w none = none
  waited w (some (r, k)) = some (received r, record w { state = k })

  unfoldable pub z_fifo_handler_sample_recv : World ch → Option (Received × World ch)
  unfolding waited
  z_fifo_handler_sample_recv w = waited w (ch.recv w.state)

  unfoldable pub z_ring_handler_sample_recv : World ch → Option (Received × World ch)
  unfolding waited
  z_ring_handler_sample_recv w = waited w (ch.recv w.state)

  abbrev fifo_tried : Option (Option T) → Received
  fifo_tried (some (some q)) = (some q, z_ok)
  fifo_tried (some none) = (none, z_channel_nodata)
  fifo_tried none = (none, z_channel_disconnected)

  unfoldable pub z_fifo_handler_sample_try_recv : World ch → Received × World ch
  z_fifo_handler_sample_try_recv w =
      let (r, k) = ch.try_recv w.state in (fifo_tried r, record w { state = k })

  abbrev ring_tried : Option (Option T) → Received
  ring_tried (some q) = (q, if is_some q then z_ok else z_channel_nodata)
  ring_tried none = (none, z_channel_disconnected)

  unfoldable pub z_ring_handler_sample_try_recv : World ch → Received × World ch
  z_ring_handler_sample_try_recv w =
      let (r, k) = ch.try_recv w.state in (ring_tried r, record w { state = k })
