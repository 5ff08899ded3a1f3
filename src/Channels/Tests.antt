-- ===== src/Channels/Tests.antt =====
-- Concrete inputs for the models of src/closures/sample_channel.rs.
use zenoh_c.Common.{
  ℕ, ◌<◌, ◌≡◌, refl, Bool, true, false, Option, none, some, List, [], ◌∷◌, ◌++◌, if◌then◌else◌,
  length, ltb, arith,
}
use zenoh_c.Channels.Interface.{Channel, IsQueue, IsRing}
use zenoh_c.Channels.{z_fifo_channel_sample_new, z_ring_channel_sample_new}
use zenoh_c.Channels.Delivery.{channel_new-Delivers}
use zenoh_c.Channels.Sending.{
  Delivers, DeliversLatest, fifo_of_samples, ring_of_samples, fifo_of_queries, ring_of_queries,
  fifo_of_replies, ring_of_replies,
}
use zenoh_c.Channels.Queries.{z_fifo_channel_query_new, z_ring_channel_query_new}
use zenoh_c.Channels.Replies.{z_fifo_channel_reply_new, z_ring_channel_reply_new}

-- The samples, whether the callback is there, and the capacity.
abbrev Buffer : Type 0
Buffer = List ℕ × Bool × ℕ

abbrev push : ℕ → Buffer → Option Buffer
push x (xs, alive, n) = if ltb (length xs) n then some (xs ++ x ∷ [], alive, n) else none

abbrev pop : Buffer → Option (Option ℕ) × Buffer
pop ([], true, n) = (some none, ([], true, n))
pop ([], false, n) = (none, ([], false, n))
pop (x ∷ xs, alive, n) = (some (some x), (xs, alive, n))

abbrev wait : Buffer → Option (Option ℕ × Buffer)
wait ([], true, n) = none
wait ([], false, n) = some (none, ([], false, n))
wait (x ∷ xs, alive, n) = some (some x, (xs, alive, n))

abbrev buffers : Channel ℕ
buffers = record {
  State = Buffer;
  into_handler = λ n. ([], true, n);
  callback_call = push;
  drop_callback = λ b. (b.0, false, b.2);
  drop_handler = λ b. b;
  try_recv = pop;
  recv = wait;
}

push_fits :
    (xs : List ℕ) (x n : ℕ) → length xs < n → push x (xs, true, n) ≡ some (xs ++ x ∷ [], true, n)
push_fits xs x n h = let e : ltb (length xs) n ≡ true = ground (arith, h) in rw e refl

buffers-IsQueue : IsQueue buffers
buffers-IsQueue = record {
  holds = λ xs alive n. (xs, alive, n);
  into_handler-holds = λ n. refl;
  callback_call-holds = push_fits;
  drop_callback-holds = λ xs n. refl;
  try_recv-holds = λ x xs alive n. refl;
  try_recv-alive = λ n. refl;
  try_recv-gone = λ n. refl;
}

-- A ring keeps its samples while the callback is there.
abbrev Ring : Type 0
Ring = Option (List ℕ) × ℕ

abbrev push_ring : ℕ → Ring → Option Ring
push_ring x (none, n) = some (none, n)
push_ring x (some [], n) = some (some (if ltb 0 n then x ∷ [] else []), n)
push_ring x (some (y ∷ ys), n) =
    some (some (if ltb (length (y ∷ ys)) n then y ∷ ys ++ x ∷ [] else ys ++ x ∷ []), n)

abbrev pop_ring : Ring → Option (Option ℕ) × Ring
pop_ring (none, n) = (none, (none, n))
pop_ring (some [], n) = (some none, (some [], n))
pop_ring (some (x ∷ xs), n) = (some (some x), (some xs, n))

abbrev wait_ring : Ring → Option (Option ℕ × Ring)
wait_ring (none, n) = some (none, (none, n))
wait_ring (some [], n) = none
wait_ring (some (x ∷ xs), n) = some (some x, (some xs, n))

abbrev rings : Channel ℕ
rings = record {
  State = Ring;
  into_handler = λ n. (some [], n);
  callback_call = push_ring;
  drop_callback = λ r. (none, r.1);
  drop_handler = λ r. r;
  try_recv = pop_ring;
  recv = wait_ring;
}

push_room :
    (xs : List ℕ) (x n : ℕ)
    → length xs < n
    → push_ring x (some xs, n) ≡ some (some (xs ++ x ∷ []), n)
push_room [] x n h = let e : ltb 0 n ≡ true = ground (arith, h) in rw e refl
push_room (y ∷ ys) x n h = let e : ltb (length (y ∷ ys)) n ≡ true = ground (arith, h) in rw e refl

push_full :
    (y : ℕ) (ys : List ℕ) (x n : ℕ)
    → length (y ∷ ys) ≡ n
    → push_ring x (some (y ∷ ys), n) ≡ some (some (ys ++ x ∷ []), n)
push_full y ys x n h = let e : ltb (length (y ∷ ys)) n ≡ false = ground (arith, h) in rw e refl

rings-IsRing : IsRing rings
rings-IsRing = record {
  holds = λ xs n. (some xs, n);
  gone = λ n. (none, n);
  into_handler-holds = λ n. refl;
  callback_call-room = push_room;
  callback_call-full = push_full;
  drop_callback-gone = λ xs n. refl;
  try_recv-holds = λ x xs n. refl;
  try_recv-empty = λ n. refl;
  try_recv-gone = λ n. refl;
}

-- Two samples in a FIFO channel, and four sent to a ring for three.
abbrev two : List ℕ
two = 7 ∷ 8 ∷ []

abbrev four : List ℕ
four = 1 ∷ 2 ∷ 3 ∷ 4 ∷ []

channel_new-Delivers_example :
    Delivers buffers (fifo_of_samples buffers) two 2 (z_fifo_channel_sample_new buffers 16 3)
    × Delivers buffers (fifo_of_queries buffers) two 2 (z_fifo_channel_query_new buffers 16 3)
    × Delivers buffers (fifo_of_replies buffers) two 2 (z_fifo_channel_reply_new buffers 16 3)
    × DeliversLatest rings (ring_of_samples rings) 3 four 2 (z_ring_channel_sample_new rings 16 3)
    × DeliversLatest rings (ring_of_queries rings) 3 four 2 (z_ring_channel_query_new rings 16 3)
    × DeliversLatest rings (ring_of_replies rings) 3 four 2 (z_ring_channel_reply_new rings 16 3)
channel_new-Delivers_example =
    channel_new-Delivers buffers rings buffers-IsQueue rings-IsRing two four 3 2 16 (omega arith)
      (omega arith)
