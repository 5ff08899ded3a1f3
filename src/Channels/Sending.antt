-- ===== src/Channels/Sending.antt =====
-- What is sent through the closure of a channel of src/closures/sample_channel.rs, and received.
use zenoh_c.Common.{
  ℕ, zero, suc, ◌+◌, ◌≡◌, refl, ap, ◌∙◌, Option, none, some, List, [], ◌∷◌, ◌++◌, map, ◌-◌, drop,
  length, arith,
}
use zenoh_c.ResultCodes.{ZResult, z_ok, z_channel_disconnected, z_channel_nodata}
use zenoh_c.Collections.Memory.{Ptr}
use zenoh_c.Closures.{default_closure, z_closure_sample_call, z_closure_sample_drop}
use zenoh_c.Closures.Queries.{z_closure_query_call, z_closure_query_drop}
use zenoh_c.Closures.Replies.{z_closure_reply_call, z_closure_reply_drop}
use zenoh_c.Channels.Interface.{Channel}
use zenoh_c.Channels.{
  World, OwnedHandler, SampleClosure, Received, z_fifo_handler_sample_try_recv,
  z_ring_handler_sample_try_recv,
}
use zenoh_c.Channels.Queries.{z_fifo_handler_query_try_recv, z_ring_handler_query_try_recv}
use zenoh_c.Channels.Replies.{z_fifo_handler_reply_try_recv, z_ring_handler_reply_try_recv}

-- The last `n` elements, or all where there are fewer.
abbrev pub latest : {T : Type 0} → ℕ → List T → List T
latest n xs = drop (length xs - n) xs

module _ {T : Type 0} (ch : Channel T) where
  unfoldable pub go_on :
      (World ch → Option (World ch)) → Option (Option T × World ch) → Option (World ch)
  go_on next none = none
  go_on next (some (left, w)) = next w

  -- The functions that C code calls on one kind of channel.
  pub record Calls : Type 0 where
    pub call : SampleClosure ch → Option T → World ch → Option (Option T × World ch)
    pub close : SampleClosure ch → World ch → Option (SampleClosure ch × World ch)
    pub try_recv : World ch → Received ch × World ch

  -- The closure called with each sample in turn.
  abbrev pub send_all : Calls → List T → SampleClosure ch → World ch → Option (World ch)
  send_all fn [] c w = some w
  send_all fn (x ∷ xs) c w = go_on (send_all fn xs c) (fn.call c (some x) w)

  -- What `n` calls of a function that receives write and return.
  abbrev pub receive_all : (World ch → Received ch × World ch) → ℕ → World ch → List (Received ch)
  receive_all try zero w = []
  receive_all try (suc n) w = (try w).0 ∷ receive_all try n (try w).1

  abbrev pub repeat : ℕ → Received ch → List (Received ch)
  repeat zero r = []
  repeat (suc n) r = r ∷ repeat n r

  -- Every sample with `Z_OK`, in order, and then `k` times no sample with the code `e`.
  abbrev pub Arrives : List T → ℕ → ZResult → List (Received ch) → Type 0
  Arrives xs k e rs = rs ≡ map (λ x. (some x, z_ok)) xs ++ repeat k (none, e)

  -- All samples are sent, and can be received before the closure is dropped and after it.
  abbrev pub Delivers : Calls → List T → ℕ → SampleClosure ch × OwnedHandler × World ch → Type 0
  Delivers fn xs k (c, _, new) =
      (w : World ch) × (w' : World ch) × (send_all fn xs c new ≡ some w)
      × Arrives xs k z_channel_nodata (receive_all fn.try_recv (length xs + k) w)
      × (fn.close c w ≡ some (default_closure, w'))
      × (w'.boxes ≡ [])
      × Arrives xs k z_channel_disconnected (receive_all fn.try_recv (length xs + k) w')

  -- All samples are sent, and the latest can be received before the closure is dropped. Then there is
  -- none.
  abbrev pub DeliversLatest :
      Calls → ℕ → List T → ℕ → SampleClosure ch × OwnedHandler × World ch → Type 0
  DeliversLatest fn capacity xs k (c, _, new) =
      (w : World ch) × (w' : World ch) × (send_all fn xs c new ≡ some w)
      × Arrives (latest capacity xs) k z_channel_nodata
          (receive_all fn.try_recv (length (latest capacity xs) + k) w)
      × (fn.close c w ≡ some (default_closure, w'))
      × (w'.boxes ≡ [])
      × Arrives [] k z_channel_disconnected (receive_all fn.try_recv k w')

  abbrev pub fifo_of_samples : Calls
  fifo_of_samples = record {
    call = z_closure_sample_call;
    close = z_closure_sample_drop;
    try_recv = z_fifo_handler_sample_try_recv ch;
  }

  abbrev pub ring_of_samples : Calls
  ring_of_samples = record {
    call = z_closure_sample_call;
    close = z_closure_sample_drop;
    try_recv = z_ring_handler_sample_try_recv ch;
  }

  abbrev pub fifo_of_queries : Calls
  fifo_of_queries = record {
    call = z_closure_query_call;
    close = z_closure_query_drop;
    try_recv = z_fifo_handler_query_try_recv ch;
  }

  abbrev pub ring_of_queries : Calls
  ring_of_queries = record {
    call = z_closure_query_call;
    close = z_closure_query_drop;
    try_recv = z_ring_handler_query_try_recv ch;
  }

  abbrev pub fifo_of_replies : Calls
  fifo_of_replies = record {
    call = z_closure_reply_call;
    close = z_closure_reply_drop;
    try_recv = z_fifo_handler_reply_try_recv ch;
  }

  abbrev pub ring_of_replies : Calls
  ring_of_replies = record {
    call = z_closure_reply_call;
    close = z_closure_reply_drop;
    try_recv = z_ring_handler_reply_try_recv ch;
  }

  -- The world with this state, and these callbacks.
  abbrev pub at_state : ch.State → List Ptr → World ch
  at_state st live = record { state = st; boxes = live }

  -- A function that receives, on a channel that is in the state `st xs` with `xs` in it.
  abbrev pub Receives : (World ch → Received ch × World ch) → (List T → ch.State) → Type 0
  Receives try st =
      (x : T) (xs : List T) (live : List Ptr)
      → try (at_state (st (x ∷ xs)) live) ≡ ((some x, z_ok), at_state (st xs) live)

  abbrev pub Ends : (World ch → Received ch × World ch) → ZResult → ch.State → Type 0
  Ends try code st = (live : List Ptr) → try (at_state st live) ≡ ((none, code), at_state st live)

  pub drained :
      (try : World ch → Received ch × World ch) (code : ZResult) (st : ch.State) (live : List Ptr)
      (k : ℕ)
      → Ends try code st
      → receive_all try k (at_state st live) ≡ repeat k (none, code)
  drained try code st live zero h = refl
  drained try code st live (suc k) h =
      rw (h live) (ap (◌∷◌ (none, code)) (drained try code st live k h))

  pub received_all :
      (try : World ch → Received ch × World ch) (code : ZResult) (st : List T → ch.State)
      (xs : List T) (live : List Ptr) (k : ℕ)
      → Receives try st
      → Ends try code (st [])
      → Arrives xs k code (receive_all try (length xs + k) (at_state (st xs) live))
  received_all try code st [] live k h e =
      let z : zero + k ≡ k = omega arith in
      ap (λ i. receive_all try i (at_state (st []) live)) z ∙ drained try code (st []) live k e
  received_all try code st (x ∷ xs) live k h e =
      let z : length (x ∷ xs) + k ≡ suc (length xs + k) = omega arith in
      ap (λ i. receive_all try i (at_state (st (x ∷ xs)) live)) z
      ∙ ap (λ r. r.0 ∷ receive_all try (length xs + k) r.1) (h x xs live)
      ∙ ap (◌∷◌ (some x, z_ok)) (received_all try code st xs live k h e)

  abbrev pub samples : (World ch → Received ch × World ch) → Calls
  samples try = record {
    call = z_closure_sample_call;
    close = z_closure_sample_drop;
    try_recv = try;
  }
