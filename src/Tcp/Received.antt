-- ===== src/Tcp/Received.antt =====
-- What `listen_for_messages` queues of the bytes on the connection.
use streaming_gateway.Prelude.{
  ℕ, zero, suc, ◌+◌, ◌-◌, ◌≤◌, ◌<◌, ◌≡◌, refl, sym, ap, ◌∙◌, true, false, none, some, [], ◌∷◌, ◌++◌,
  List, Bytes, length, replicate, drop-replicate, ltb, append_assoc, append-nil, arith,
  length-append,
}
use streaming_gateway.Prelude.Run.{ok}
use streaming_gateway.Memory.{to_bytes, of_bytes}
use streaming_gateway.Memory.Laws.{length-to_bytes, of_bytes-to_bytes}
use streaming_gateway.Frame.{memcpy}
use streaming_gateway.Frame.RoundTrip.{memcpy_after}
use streaming_gateway.Tcp.Listener.{
  Receiver, Listener, recv, receive_rest, emplace, receive_message, with_size, listen_round,
  listen_for_messages,
}

-- What goes over the connection for some messages
unfoldable pub framed : List Bytes → Bytes
framed [] = []
framed (m ∷ ms) = to_bytes 8 (length m) ++ (m ++ framed ms)

-- No message is longer than the listener takes.
unfoldable pub AreShort : List Bytes → Type 0
AreShort [] = Unit
AreShort (m ∷ ms) = (length m ≤ 100000000) × AreShort ms

-- The connection is open, `pending` is what is still to come, and nobody asks to stop. A `recv`
-- gives a byte at least where there are any, and the eight bytes of a length together.
pub record IsStream {W : Type 0} (receiver : Receiver W) (pending : W → Bytes) : Type 0 where
  pub running : (w : W) → receiver.stop_thread w ≡ false
  pub progress :
      (n : ℕ) (w : W)
      → 0 < n
      → 0 < length (pending w)
      → (bytes : Bytes) × ((receiver.recv n w).0 ≡ some bytes)
        × (0 < length bytes)
        × (length bytes ≤ n)
        × (pending w ≡ bytes ++ pending (receiver.recv n w).1)
  pub together :
      (w : W) (size rest : Bytes)
      → length size ≡ 8
      → pending w ≡ size ++ rest
      → ((receiver.recv 8 w).0 ≡ some size) × (pending (receiver.recv 8 w).1 ≡ rest)

-- Two ways to split a list: the shorter front begins the longer one.
split_front :
    (xs ys : Bytes) (us vs : Bytes)
    → xs ++ ys ≡ us ++ vs
    → length xs ≤ length us
    → (ws : Bytes) × (us ≡ xs ++ ws) × (ys ≡ ws ++ vs)
split_front [] ys us vs e h = (us, refl, e)
split_front (x ∷ xs) ys [] vs e h = ground (arith, h)
split_front (x ∷ xs) ys (u ∷ us) vs e h =
    let (ws, a, b) = split_front xs ys us vs (cc e) (omega arith) in (ws, cc (e, a), b)

module _ {W : Type 0} (receiver : Receiver W) (pending : W → Bytes)
    (law : IsStream receiver pending) where
  recv_some :
      (n : ℕ) (bytes : Bytes) (s : Listener W)
      → (receiver.recv n s.kernel).0 ≡ some bytes
      → recv receiver n s ≡ ok (some bytes) (record s { kernel = (receiver.recv n s.kernel).1 })
  unfolding recv
  recv_some n bytes s e = rw (recv, e) refl

  -- The inner loop fills the buffer with the rest of the message.
  abbrev Fills : ℕ → ℕ → Bytes → ℕ → Bytes → Bytes → Listener W → Type 0
  Fills fuel size buffer total whole after s =
      (k : W) × (receive_rest receiver fuel size buffer total s
        ≡ ok whole (record s { kernel = k }))
      × (pending k ≡ after)

  filled :
      (fuel size : ℕ) (buffer : Bytes) (total : ℕ) (s : Listener W)
      → ltb total size ≡ false
      → receive_rest receiver fuel size buffer total s ≡ ok buffer s
  unfolding receive_rest
  filled zero size buffer total s e = rw (receive_rest, e) refl
  filled (suc fuel) size buffer total s e = rw (receive_rest, e) refl

  receive_rest_lem :
      (fuel size : ℕ) (buffer : Bytes) (total : ℕ) (front todo after : Bytes) (s : Listener W)
      → size ≡ length front + length todo
      → buffer ≡ front ++ replicate (length todo) 0
      → total ≡ length front
      → pending s.kernel ≡ todo ++ after
      → length todo ≤ fuel
      → Fills fuel size buffer total (front ++ todo) after s
  unfolding receive_rest
  receive_rest_lem fuel size buffer total front [] after s n b t e h =
      (s.kernel, filled fuel size buffer total s (ground (arith, n, t)) ∙ ap (λ x. ok x s) b, e)
  receive_rest_lem zero size buffer total front (x ∷ todo) after s n b t e h = ground (arith, h)
  receive_rest_lem (suc fuel) size buffer total front (x ∷ todo) after s n b t e h =
      let more : ltb total size ≡ true = ground (arith, n, t) in
      let (bytes, got, some_came, few, came) =
        law.progress (size - total) s.kernel (omega arith)
          (omega (arith, ap length e, length-append (x ∷ todo) after)) in
      let k = (receiver.recv (size - total) s.kernel).1 in
      let (ws, here, left) =
        split_front bytes (pending k) (x ∷ todo) after (sym came ∙ e) (omega arith) in
      let parts : length (x ∷ todo) ≡ length bytes + length ws =
        ap length here ∙ length-append bytes ws in
      let copied : memcpy total bytes buffer ≡ (front ++ bytes) ++ replicate (length ws) 0 =
        ap (memcpy total bytes) b
        ∙ memcpy_after total front bytes (replicate (length (x ∷ todo)) 0) (sym t)
        ∙ ap (◌++◌ (front ++ bytes)) (
            drop-replicate {A = ℕ} (length bytes) (length (x ∷ todo)) 0
            ∙ ap (λ j. replicate j 0) {x = length (x ∷ todo) - length bytes} {y = length ws}
                (omega (arith, parts))) in
      let (k', run, rest) =
        receive_rest_lem fuel size (memcpy total bytes buffer) (total + length bytes)
          (front ++ bytes) ws after (record s { kernel = k })
          (omega (arith, length-append front bytes, parts)) copied
          (omega (arith, length-append front bytes)) left (omega (arith, parts)) in
      (
        k',
        rw (receive_rest, more, recv_some (size - total) bytes s got)
            (run
              ∙ ap (λ z. ok z (record s { kernel = k' }))
                  (append_assoc front bytes ws ∙ ap (◌++◌ front) (sym here))),
        rest,
      )

  receive_message_ok :
      (n : ℕ) (s : Listener W) (whole : Bytes) (k : W)
      → ltb 100000000 n ≡ false
      → receive_rest receiver n n (replicate n 0) 0 s ≡ ok whole (record s { kernel = k })
      → receive_message receiver n s
        ≡ ok tt (record { task_queue = s.task_queue ++ (whole ∷ []); kernel = k })
  unfolding receive_message emplace
  receive_message_ok n s whole k small run = rw (receive_message, small, run) refl

  with_size_ok :
      (bytes : Bytes) (s t : Listener W)
      → ltb (length bytes) 8 ≡ false
      → receive_message receiver (of_bytes bytes) s ≡ ok tt t
      → with_size receiver (some bytes) s ≡ ok true t
  unfolding with_size
  with_size_ok bytes s t full run = rw (with_size, full, run) refl

  -- A message of up to 100000000 bytes that is on the connection is the next task.
  round_lem :
      (m after : Bytes) (s : Listener W)
      → length m ≤ 100000000
      → pending s.kernel ≡ to_bytes 8 (length m) ++ (m ++ after)
      → (k : W) × (listen_round receiver s
          ≡ ok true (record { task_queue = s.task_queue ++ (m ∷ []); kernel = k }))
        × (pending k ≡ after)
  unfolding listen_round
  round_lem m after s small e =
      let size = to_bytes 8 (length m) in
      let (got, left) = law.together s.kernel size (m ++ after) (length-to_bytes 8 (length m)) e in
      let s' : Listener W = record s { kernel = (receiver.recv 8 s.kernel).1 } in
      let stated : of_bytes size ≡ length m = of_bytes-to_bytes 8 (length m) (omega arith) in
      let full : ltb (length size) 8 ≡ false = ground (arith, length-to_bytes 8 (length m)) in
      let fits : ltb 100000000 (length m) ≡ false = ground (arith, small) in
      let (k, run, rest) =
        receive_rest_lem (length m) (length m) (replicate (length m) 0) 0 [] m after s'
          (omega arith) refl refl left (omega arith) in
      let t : Listener W = record { task_queue = s.task_queue ++ (m ∷ []); kernel = k } in
      let taken : receive_message receiver (of_bytes size) s' ≡ ok tt t =
        ap (λ n. receive_message receiver n s') stated
        ∙ receive_message_ok (length m) s' m k fits run in
      (
        k,
        rw (law.running s.kernel, recv_some 8 size s got) (with_size_ok size s' t full taken),
        rest,
      )

  -- Messages of up to 100000000 bytes each that are on the connection, behind their lengths, become
  -- the tasks of the listener, in order and with all their bytes, in one round for each.
  pub listen_lem :
      (ms : List Bytes) (after : Bytes) (s : Listener W)
      → AreShort ms
      → pending s.kernel ≡ framed ms ++ after
      → (k : W) × (listen_for_messages receiver (length ms) s
          ≡ ok true (record { task_queue = s.task_queue ++ ms; kernel = k }))
        × (pending k ≡ after)
  unfolding listen_for_messages framed AreShort
  listen_lem [] after s short e =
      (s.kernel, ap (λ q. ok true (record s { task_queue = q })) (sym (append-nil s.task_queue)), e)
  listen_lem (m ∷ ms) after s short e =
      let size = to_bytes 8 (length m) in
      let (k, run, left) = round_lem m (framed ms ++ after) s short.0 (
        e
        ∙ append_assoc size (m ++ framed ms) after
        ∙ ap (◌++◌ size) (append_assoc m (framed ms) after)) in
      let (k', runs, rest) =
        listen_lem ms after (record { task_queue = s.task_queue ++ (m ∷ []); kernel = k }) short.1
          left in
      (
        k',
        rw (listen_for_messages, run)
            (runs
              ∙ ap (λ q. ok true (record { task_queue = q; kernel = k' }))
                  (append_assoc s.task_queue (m ∷ []) ms)),
        rest,
      )

-- After the other end has closed the connection, so that no `recv` gives a byte, the listener goes on
-- for ever, with no new task, as long as nobody asks it to stop.
pub closed_connection :
    {W : Type 0} (receiver : Receiver W)
    → ((w : W) → receiver.stop_thread w ≡ false)
    → ((w : W) → (receiver.recv 8 w).0 ≡ none)
    → (rounds : ℕ) (s : Listener W)
    → (k : W) × (listen_for_messages receiver rounds s ≡ ok true (record s { kernel = k }))
unfolding listen_for_messages listen_round recv with_size
closed_connection receiver running closed zero s = (s.kernel, refl)
closed_connection receiver running closed (suc rounds) s =
    let k = (receiver.recv 8 s.kernel).1 in
    let (k', others) = closed_connection receiver running closed rounds (record s { kernel = k }) in
    (k', rw (listen_for_messages, running s.kernel, closed s.kernel, with_size, running k) others)
