-- ===== src/Channels/Replies.antt =====
-- src/closures/response_channel.rs, whose text is that of src/closures/sample_channel.rs with other
-- names; `T` is the type of replies.
use zenoh_c.Common.{ℕ, Bool, Option}
use zenoh_c.Collections.Memory.{Ptr}
use zenoh_c.Channels.Interface.{Channel}
use zenoh_c.Channels.{
  World, OwnedHandler, SampleClosure, Received, z_fifo_channel_sample_new,
  z_ring_channel_sample_new, z_fifo_handler_sample_drop, z_ring_handler_sample_drop,
  z_internal_fifo_handler_sample_null, z_internal_ring_handler_sample_null,
  z_internal_fifo_handler_sample_check, z_internal_ring_handler_sample_check,
  z_fifo_handler_sample_recv, z_ring_handler_sample_recv, z_fifo_handler_sample_try_recv,
  z_ring_handler_sample_try_recv,
}

module _ {T : Type 0} (ch : Channel T) where
  unfoldable pub z_fifo_channel_reply_new : Ptr → ℕ → SampleClosure ch × OwnedHandler × World ch
  unfolding z_fifo_channel_sample_new
  z_fifo_channel_reply_new p capacity = z_fifo_channel_sample_new ch p capacity

  unfoldable pub z_fifo_handler_reply_drop : OwnedHandler → World ch → OwnedHandler × World ch
  unfolding z_fifo_handler_sample_drop
  z_fifo_handler_reply_drop h w = z_fifo_handler_sample_drop ch h w

  unfoldable pub z_internal_fifo_handler_reply_null : OwnedHandler
  unfolding z_internal_fifo_handler_sample_null
  z_internal_fifo_handler_reply_null = z_internal_fifo_handler_sample_null ch

  unfoldable pub z_internal_fifo_handler_reply_check : OwnedHandler → Bool
  unfolding z_internal_fifo_handler_sample_check
  z_internal_fifo_handler_reply_check h = z_internal_fifo_handler_sample_check ch h

  unfoldable pub z_fifo_handler_reply_recv : World ch → Option (Received ch × World ch)
  unfolding z_fifo_handler_sample_recv
  z_fifo_handler_reply_recv w = z_fifo_handler_sample_recv ch w

  unfoldable pub z_fifo_handler_reply_try_recv : World ch → Received ch × World ch
  unfolding z_fifo_handler_sample_try_recv
  z_fifo_handler_reply_try_recv w = z_fifo_handler_sample_try_recv ch w

  unfoldable pub z_ring_channel_reply_new : Ptr → ℕ → SampleClosure ch × OwnedHandler × World ch
  unfolding z_ring_channel_sample_new
  z_ring_channel_reply_new p capacity = z_ring_channel_sample_new ch p capacity

  unfoldable pub z_ring_handler_reply_drop : OwnedHandler → World ch → OwnedHandler × World ch
  unfolding z_ring_handler_sample_drop
  z_ring_handler_reply_drop h w = z_ring_handler_sample_drop ch h w

  unfoldable pub z_internal_ring_handler_reply_null : OwnedHandler
  unfolding z_internal_ring_handler_sample_null
  z_internal_ring_handler_reply_null = z_internal_ring_handler_sample_null ch

  unfoldable pub z_internal_ring_handler_reply_check : OwnedHandler → Bool
  unfolding z_internal_ring_handler_sample_check
  z_internal_ring_handler_reply_check h = z_internal_ring_handler_sample_check ch h

  unfoldable pub z_ring_handler_reply_recv : World ch → Option (Received ch × World ch)
  unfolding z_ring_handler_sample_recv
  z_ring_handler_reply_recv w = z_ring_handler_sample_recv ch w

  unfoldable pub z_ring_handler_reply_try_recv : World ch → Received ch × World ch
  unfolding z_ring_handler_sample_try_recv
  z_ring_handler_reply_try_recv w = z_ring_handler_sample_try_recv ch w
