-- ===== src/Channels/Rings.antt =====
-- What arrives at the handler of a ring channel of src/closures/sample_channel.rs.
use zenoh_c.Common.{
  ℕ, suc, ◌≤◌, ◌≡◌, refl, ap, sym, ◌∙◌, true, some, List, [], ◌∷◌, ◌++◌, append_assoc, append-nil,
  ◌==◌, ◌-◌, ◌<◌, drop, inl, inr, ltb, Bool-cases, length, length-append, arith,
}
use zenoh_c.ResultCodes.{z_channel_disconnected, z_channel_nodata}
use zenoh_c.Collections.Memory.{Ptr}
use zenoh_c.Closures.{
  default_closure, drop_closure, dropped, z_closure_sample_call, z_closure_sample_drop,
}
use zenoh_c.Channels.Interface.{Channel, IsRing}
use zenoh_c.Channels.{
  World, handler, has_box, handler_sample_send, send_taken, sent, handler_sample_drop,
  channel_closure, z_ring_handler_sample_try_recv,
}
use zenoh_c.Channels.Sending.{
  send_all, go_on, DeliversLatest, latest, ring_of_samples, at_state, Receives, Ends, received_all,
  drained,
}

latest-short : {T : Type 0} (n : ℕ) (xs : List T) → length xs ≤ n → latest n xs ≡ xs
latest-short n xs h = let e : length xs - n ≡ 0 = omega (arith, h) in ap (λ k. drop k xs) e

latest-long :
    {T : Type 0} (n : ℕ) (x : T) (xs : List T) → n ≤ length xs → latest n (x ∷ xs) ≡ latest n xs
latest-long n x xs h =
    let e : length (x ∷ xs) - n ≡ suc (length xs - n) = omega (arith, h) in
    ap (λ k. drop k (x ∷ xs)) e

module _ {T : Type 0} (ch : Channel T) (r : IsRing ch) where
  -- The world with these samples in the channel.
  abbrev filled : List T → ℕ → List Ptr → World ch
  filled xs capacity live = at_state ch (r.holds xs capacity) live

  ring-Receives : (n : ℕ) → Receives ch (z_ring_handler_sample_try_recv ch) (λ xs. r.holds xs n)
  unfolding z_ring_handler_sample_try_recv
  ring-Receives n x xs live = rw (r.try_recv-holds x xs n) refl

  ring-Ends : (n : ℕ) → Ends ch (z_ring_handler_sample_try_recv ch) z_channel_nodata (r.holds [] n)
  unfolding z_ring_handler_sample_try_recv
  ring-Ends n live = rw (r.try_recv-empty n) refl

  gone-Ends :
      (n : ℕ) → Ends ch (z_ring_handler_sample_try_recv ch) z_channel_disconnected (r.gone n)
  unfolding z_ring_handler_sample_try_recv
  gone-Ends n live = rw (r.try_recv-gone n) refl

  sends_latest :
      (xs ys : List T) (n : ℕ) (p : Ptr) (live : List Ptr)
      → 0 < n
      → has_box ch p (filled ys n live) ≡ true
      → length ys ≤ n
      → send_all ch (ring_of_samples ch) xs (channel_closure ch p) (filled ys n live)
        ≡ some (filled (latest n (ys ++ xs)) n live)
  unfolding z_closure_sample_call handler_sample_send send_taken sent go_on
  sends_latest [] ys n p live z h k =
      ap (λ zs. some (filled zs n live))
        (sym (latest-short n (ys ++ []) (omega (arith, k, length-append ys [])) ∙ append-nil ys))
  sends_latest (x ∷ xs) [] n p live z h k =
      rw (h, r.callback_call-room [] x n z)
        (sends_latest xs (x ∷ []) n p live z h (omega (arith, z)))
  sends_latest (x ∷ xs) (y ∷ ys) n p live z h k = elim (Bool-cases (ltb (length (y ∷ ys)) n)) [
    | inl less ↦
        let room : length (y ∷ ys) < n = ground arith in
        rw (h, r.callback_call-room (y ∷ ys) x n room)
          (sends_latest xs (y ∷ ys ++ x ∷ []) n p live z h
              (omega (arith, room, length-append ys (x ∷ [])))
            ∙ ap (λ zs. some (filled (latest n (y ∷ zs)) n live)) (append_assoc ys (x ∷ []) xs))
    | inr full ↦
        let all : length (y ∷ ys) ≡ n = ground (arith, k) in
        let fits : length (ys ++ x ∷ []) ≤ n = omega (arith, all, length-append ys (x ∷ [])) in
        let over : n ≤ length (ys ++ x ∷ xs) = omega (arith, all, length-append ys (x ∷ xs)) in
        rw (h, r.callback_call-full y ys x n all)
          (sends_latest xs (ys ++ x ∷ []) n p live z h fits
            ∙ ap (λ zs. some (filled (latest n zs) n live)) (append_assoc ys (x ∷ []) xs)
            ∙ ap (λ zs. some (filled zs n live)) (sym (latest-long n y (ys ++ x ∷ xs) over)))
  ]

  closes :
      (xs : List T) (n : ℕ) (p : Ptr)
      → z_closure_sample_drop (channel_closure ch p) (filled xs n (p ∷ []))
        ≡ some (default_closure, at_state ch (r.gone n) [])
  unfolding z_closure_sample_drop drop_closure dropped handler_sample_drop
  closes xs n p = let e : (p == p) ≡ true = ground arith in rw (e, r.drop_callback-gone xs n) refl

  -- A new channel, with the callback's box at `p`.
  pub ring-DeliversLatest :
      (xs : List T) (n k : ℕ) (p : Ptr)
      → 0 < n
      → DeliversLatest ch
          (ring_of_samples ch)
          n
          xs
          k
          (channel_closure ch p, some handler, at_state ch (ch.into_handler n) (p ∷ []))
  ring-DeliversLatest xs n k p z =
      let try = z_ring_handler_sample_try_recv ch in
      let boxed : has_box ch p (filled [] n (p ∷ [])) ≡ true = ground arith in
      (
        filled (latest n xs) n (p ∷ []),
        at_state ch (r.gone n) [],
        ap
              (λ st.
                send_all ch (ring_of_samples ch) xs (channel_closure ch p)
                  (at_state ch st (p ∷ [])))
              (r.into_handler-holds n)
            ∙ sends_latest xs [] n p (p ∷ []) z boxed (omega arith),
        received_all ch try z_channel_nodata (λ ys. r.holds ys n) (latest n xs) (p ∷ []) k
            (ring-Receives n) (ring-Ends n),
        closes (latest n xs) n p,
        refl,
        drained ch try z_channel_disconnected (r.gone n) [] k (gone-Ends n),
      )
