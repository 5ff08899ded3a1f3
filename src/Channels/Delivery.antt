-- ===== src/Channels/Delivery.antt =====
-- What arrives at the handlers of the channels of src/closures: samples, queries and replies.
use zenoh_c.Common.{ℕ, ◌≤◌, ◌<◌, List, length}
use zenoh_c.Collections.Memory.{Ptr}
use zenoh_c.Closures.Queries.{z_closure_query_call, z_closure_query_drop}
use zenoh_c.Closures.Replies.{z_closure_reply_call, z_closure_reply_drop}
use zenoh_c.Channels.Interface.{Channel, IsQueue, IsRing}
use zenoh_c.Channels.{z_fifo_channel_sample_new, z_ring_channel_sample_new}
use zenoh_c.Channels.Queries.{
  z_fifo_channel_query_new, z_ring_channel_query_new, z_fifo_handler_query_try_recv,
  z_ring_handler_query_try_recv,
}
use zenoh_c.Channels.Replies.{
  z_fifo_channel_reply_new, z_ring_channel_reply_new, z_fifo_handler_reply_try_recv,
  z_ring_handler_reply_try_recv,
}
use zenoh_c.Channels.Sending.{
  Delivers, DeliversLatest, fifo_of_samples, ring_of_samples, fifo_of_queries, ring_of_queries,
  fifo_of_replies, ring_of_replies,
}
use zenoh_c.Channels.Fifos.{fifo-Delivers}
use zenoh_c.Channels.Rings.{ring-DeliversLatest}

-- For channels of samples, queries and replies. Where a FIFO channel keeps what is sent in order
-- while there is room, also when its callback is gone: as many as fit into the capacity given to
-- `z_fifo_channel_*_new` are all sent through the closure without waiting, and every one of them is
-- received, in order and with `Z_OK`, by as many calls of `try_recv`. Further calls return
-- `Z_CHANNEL_NODATA` while the closure is there; it can be dropped, which frees its callback, and
-- then all can be received as well, and further calls return `Z_CHANNEL_DISCONNECTED`. Where a ring
-- channel keeps the latest in order, gives up the oldest where there is no room, and loses what is in
-- it with its callback: any number are sent without waiting, for a capacity above 0, and the latest
-- that fit are received in the same way; but once the closure is dropped, every call returns
-- `Z_CHANNEL_DISCONNECTED`.
pub channel_new-Delivers :
    {T : Type 0} (fifo ring : Channel T)
    → IsQueue fifo
    → IsRing ring
    → (xs ys : List T) (capacity k : ℕ) (p : Ptr) → length xs ≤ capacity
    → 0 < capacity
    → Delivers fifo (fifo_of_samples fifo) xs k (z_fifo_channel_sample_new fifo p capacity)
      × Delivers fifo (fifo_of_queries fifo) xs k (z_fifo_channel_query_new fifo p capacity)
      × Delivers fifo (fifo_of_replies fifo) xs k (z_fifo_channel_reply_new fifo p capacity)
      × DeliversLatest ring
          (ring_of_samples ring)
          capacity
          ys
          k
          (z_ring_channel_sample_new ring p capacity)
      × DeliversLatest ring
          (ring_of_queries ring)
          capacity
          ys
          k
          (z_ring_channel_query_new ring p capacity)
      × DeliversLatest ring
          (ring_of_replies ring)
          capacity
          ys
          k
          (z_ring_channel_reply_new ring p capacity)
unfolding z_fifo_channel_sample_new z_ring_channel_sample_new z_fifo_channel_query_new
    z_ring_channel_query_new z_fifo_channel_reply_new z_ring_channel_reply_new z_closure_query_call
    z_closure_query_drop z_closure_reply_call z_closure_reply_drop z_fifo_handler_query_try_recv
    z_ring_handler_query_try_recv z_fifo_handler_reply_try_recv z_ring_handler_reply_try_recv
channel_new-Delivers fifo ring q r xs ys capacity k p h positive =
    let f = fifo-Delivers fifo q xs capacity k p h in
    let g = ring-DeliversLatest ring r ys capacity k p positive in (f, f, f, g, g, g)
