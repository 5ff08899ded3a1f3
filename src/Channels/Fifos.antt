-- ===== src/Channels/Fifos.antt =====
-- What arrives at the handler of a FIFO channel of src/closures/sample_channel.rs.
use zenoh_c.Common.{
  ℕ, suc, ◌+◌, ◌≤◌, ◌≡◌, refl, ap, sym, ◌∙◌, Bool, true, false, some, List, [], ◌∷◌, ◌++◌,
  append_assoc, append-nil, ◌==◌, length, length-append, arith,
}
use zenoh_c.ResultCodes.{ZResult, z_channel_disconnected, z_channel_nodata}
use zenoh_c.Collections.Memory.{Ptr}
use zenoh_c.Closures.{
  default_closure, drop_closure, dropped, z_closure_sample_call, z_closure_sample_drop,
}
use zenoh_c.Channels.Interface.{Channel, IsQueue}
use zenoh_c.Channels.{
  World, handler, has_box, handler_sample_send, send_taken, sent, handler_sample_drop,
  channel_closure, Received, z_fifo_handler_sample_try_recv,
}
use zenoh_c.Channels.Sending.{
  send_all, go_on, Delivers, fifo_of_samples, at_state, Receives, Ends, received_all, samples,
}

module _ {T : Type 0} (ch : Channel T) (q : IsQueue ch) where
  abbrev end_code : Bool → ZResult
  end_code true = z_channel_nodata
  end_code false = z_channel_disconnected

  -- The world with these samples in the channel.
  abbrev filled : List T → Bool → ℕ → List Ptr → World ch
  filled xs alive capacity live = at_state ch (q.holds xs alive capacity) live

  fifo-Receives :
      (b : Bool) (n : ℕ) → Receives ch (z_fifo_handler_sample_try_recv ch) (λ xs. q.holds xs b n)
  unfolding z_fifo_handler_sample_try_recv
  fifo-Receives b n x xs live = rw (q.try_recv-holds x xs b n) refl

  fifo-Ends :
      (b : Bool) (n : ℕ) → Ends ch (z_fifo_handler_sample_try_recv ch) (end_code b) (q.holds [] b n)
  unfolding z_fifo_handler_sample_try_recv
  fifo-Ends true n live = rw (q.try_recv-alive n) refl
  fifo-Ends false n live = rw (q.try_recv-gone n) refl

  sends_all :
      (try : World ch → Received ch × World ch) (xs ys : List T) (n : ℕ) (p : Ptr) (live : List Ptr)
      → has_box ch p (filled ys true n live) ≡ true
      → length ys + length xs ≤ n
      → send_all ch (samples ch try) xs (channel_closure ch p) (filled ys true n live)
        ≡ some (filled (ys ++ xs) true n live)
  unfolding z_closure_sample_call handler_sample_send send_taken sent go_on
  sends_all try [] ys n p live h k = ap (λ zs. some (filled zs true n live)) (sym (append-nil ys))
  sends_all try (x ∷ xs) ys n p live h k =
      let room : suc (length ys) ≤ n = omega (arith, k) in
      let more : length (ys ++ x ∷ []) + length xs ≤ n =
        omega (arith, k, length-append ys (x ∷ [])) in
      rw (h, q.callback_call-holds ys x n room)
        (sends_all try xs (ys ++ x ∷ []) n p live h more
          ∙ ap (λ zs. some (filled zs true n live)) (append_assoc ys (x ∷ []) xs))

  closes :
      (xs : List T) (n : ℕ) (p : Ptr)
      → z_closure_sample_drop (channel_closure ch p) (filled xs true n (p ∷ []))
        ≡ some (default_closure, filled xs false n [])
  unfolding z_closure_sample_drop drop_closure dropped handler_sample_drop
  closes xs n p = let e : (p == p) ≡ true = ground arith in rw (e, q.drop_callback-holds xs n) refl

  -- A new channel, with the callback's box at `p`.
  pub fifo-Delivers :
      (xs : List T) (n k : ℕ) (p : Ptr)
      → length xs ≤ n
      → Delivers ch
          (fifo_of_samples ch)
          xs
          k
          (channel_closure ch p, some handler, at_state ch (ch.into_handler n) (p ∷ []))
  fifo-Delivers xs n k p h =
      let try = z_fifo_handler_sample_try_recv ch in
      let boxed : has_box ch p (filled [] true n (p ∷ [])) ≡ true = ground arith in
      let room : length {A = T} [] + length xs ≤ n = omega (arith, h) in
      (
        filled xs true n (p ∷ []),
        filled xs false n [],
        ap
              (λ st.
                send_all ch (fifo_of_samples ch) xs (channel_closure ch p)
                  (at_state ch st (p ∷ [])))
              (q.into_handler-holds n)
            ∙ sends_all try xs [] n p (p ∷ []) boxed room,
        received_all ch try z_channel_nodata (λ ys. q.holds ys true n) xs (p ∷ []) k
            (fifo-Receives true n) (fifo-Ends true n),
        closes xs n p,
        refl,
        received_all ch try z_channel_disconnected (λ ys. q.holds ys false n) xs [] k
            (fifo-Receives false n) (fifo-Ends false n),
      )
