-- ===== src/Tcp/Listener.antt =====
-- `TCPMessageIterator::listen_for_messages` of TCPStreamer/src/TCPStreamer.h: messages are read from
-- the connection and queued as tasks.
use streaming_gateway.Prelude.{
  ℕ, zero, suc, ◌+◌, ◌-◌, Bool, true, false, Option, none, some, List, [], ◌∷◌, ◌++◌, Bytes, length,
  replicate, ltb, if◌then◌else◌,
}
use streaming_gateway.Prelude.Run.{ok, undefined, blocked, Cmd, pure, raise, ◌>>=◌, ◌>>◌, bad_alloc}
use streaming_gateway.Memory.{of_bytes}
use streaming_gateway.Frame.{memcpy}

-- The sockets of the kernel: `recv` gives some bytes, at most as many as are wanted, or `none` for a
-- result that is not positive. `stop_thread` is `stop_thread_`, which another thread sets.
pub record Receiver (W : Type 0) : Type 0 where
  pub recv : ℕ → W → Option Bytes × W
  pub stop_thread : W → Bool

-- The tasks, each as the message that it will deliver, and the kernel
pub record Listener (W : Type 0) : Type 0 where
  pub task_queue : List Bytes
  pub kernel : W

module _ {W : Type 0} (receiver : Receiver W) where
  -- A call of `recv`
  unfoldable pub recv : ℕ → Cmd (Listener W) (Option Bytes)
  recv n s = let r = receiver.recv n s.kernel in ok r.0 (record s { kernel = r.1 })

  -- The inner loop, on fuel. A failed `recv` leaves the buffer as it is.
  unfoldable pub receive_rest : ℕ → ℕ → Bytes → ℕ → Cmd (Listener W) Bytes
  receive_rest zero message_size buffer total_bytes_received s =
      if ltb total_bytes_received message_size then blocked else ok buffer s
  receive_rest (suc fuel) message_size buffer total_bytes_received s =
      elim (ltb total_bytes_received message_size) [
        | false ↦ ok buffer s
        | true ↦
            (do
              received ← recv (message_size - total_bytes_received)
              elim received [
                | none ↦ pure buffer
                | some bytes ↦
                    receive_rest fuel message_size (memcpy total_bytes_received bytes buffer)
                      (total_bytes_received + length bytes)
              ])
              s
      ]

  -- `task_queue_.emplace`
  unfoldable pub emplace : Bytes → Cmd (Listener W) (Unit {0})
  emplace buffer s = ok tt (record s { task_queue = s.task_queue ++ (buffer ∷ []) })

  -- A round from the test of `message_size` on. Memory for the buffer is there, and each `recv`
  -- gives a byte at least.
  unfoldable pub receive_message : ℕ → Cmd (Listener W) (Unit {0})
  receive_message message_size = if ltb 100000000 message_size then raise bad_alloc else do
    buffer ← receive_rest message_size message_size (replicate message_size 0) 0
    emplace buffer

  -- What a round does with the result of the first `recv`. Where fewer than eight bytes came,
  -- `message_size` is read before all of it was written, which is undefined. `false` leaves the loop.
  unfoldable pub with_size : Option Bytes → Cmd (Listener W) Bool
  with_size none = λ s. if receiver.stop_thread s.kernel then ok false s else ok true s
  with_size (some bytes) =
      if ltb (length bytes) 8
      then (λ _. undefined)
      else (receive_message (of_bytes bytes) >> pure true)

  -- A round of the outer loop
  unfoldable pub listen_round : Cmd (Listener W) Bool
  listen_round s =
      if receiver.stop_thread s.kernel
      then ok false s
      else (do received ← recv 8; with_size received) s

  -- The outer loop for some rounds; the result says whether it still runs.
  unfoldable pub listen_for_messages : ℕ → Cmd (Listener W) Bool
  listen_for_messages zero = pure true
  listen_for_messages (suc rounds) = do
    more ← listen_round
    elim more [ true ↦ listen_for_messages rounds | false ↦ pure false ]
