-- ===== src/Tcp/Publisher.antt =====
-- `TCPPublisher::publish` of TCPStreamer/src/TCPPublisher.h: a message goes out behind its length.
use streaming_gateway.Prelude.{
  ℕ, zero, suc, ◌+◌, Bool, true, false, Option, none, some, List, [], ◌∷◌, ◌++◌, ◌&&◌, Bytes,
  length, take, drop, ltb, if◌then◌else◌,
}
use streaming_gateway.Prelude.Run.{ok, blocked, Cmd, pure, ◌>>=◌}
use streaming_gateway.Memory.{to_bytes}

-- The sockets of the kernel: `send` says how many of the bytes it has taken, or fails.
pub record Sender (W : Type 0) : Type 0 where
  pub send : Bytes → W → Option ℕ × W

-- What has gone out on the connection, and the kernel
pub record Connection (W : Type 0) : Type 0 where
  pub sent : Bytes
  pub kernel : W

module _ {W : Type 0} (sender : Sender W) where
  -- A call of `send`
  unfoldable pub send : Bytes → Cmd (Connection W) (Option ℕ)
  send wanted c =
      let r = sender.send wanted c.kernel in
      elim r.0 [
        | none ↦ ok none (record c { kernel = r.1 })
        | some n ↦ ok (some n) (record { sent = c.sent ++ take n wanted; kernel = r.1 })
      ]

  -- The loop of `publish`, on fuel
  unfoldable pub send_rest : ℕ → Bytes → ℕ → Cmd (Connection W) Bool
  send_rest zero message total_bytes_sent c =
      if ltb total_bytes_sent (length message) then blocked else ok true c
  send_rest (suc fuel) message total_bytes_sent c = elim (ltb total_bytes_sent (length message)) [
    | false ↦ ok true c
    | true ↦
        (do
          bytes_sent ← send (drop total_bytes_sent message)
          elim bytes_sent [
            | none ↦ pure false
            | some n ↦ send_rest fuel message (total_bytes_sent + n)
          ])
          c
  ]

  -- `publish` behind the test of the socket. Each `send` takes a byte at least.
  unfoldable pub publish_opened : Bytes → Cmd (Connection W) Bool
  publish_opened message = do
    bytes_size ← send (to_bytes 8 (length message))
    elim bytes_size [ none ↦ pure false | some _ ↦ send_rest (length message) message 0 ]

  -- `publish`; the flag says whether `sockfd_` is a socket.
  unfoldable pub publish : Bool → Bytes → Cmd (Connection W) Bool
  publish is_open message = if is_open then publish_opened message else pure false

  -- The loop of `TCPFrameProducer::Run` for some messages: a failed `publish` is logged and no more.
  -- The result says whether all went out.
  unfoldable pub publish_each : List Bytes → Cmd (Connection W) Bool
  publish_each [] = pure true
  publish_each (message ∷ messages) = do
    published ← publish true message
    others ← publish_each messages
    pure (published && others)
