-- ===== src/Queue/Fifo.antt =====
-- What a queue promises its clients: a first-in first-out list of byte strings.
use streaming_gateway.Prelude.{ℕ, ◌+◌, List, [], ◌∷◌, ◌++◌, Bytes, length}
use streaming_gateway.Prelude.Run.{
  ok, throw, undefined, blocked, Cmd, pure, ◌>>=◌, ◌>>◌, queue_exception,
}
use streaming_gateway.Queue.{World, Message}
use streaming_gateway.Queue.Enqueue.{enqueue}
use streaming_gateway.Queue.Deque.{deque}

-- A client's calls, and what each gives: a put message, a taken one, or `QueueException`.
pub data Op : Type 0 where
  put : Bytes → Op
  get : Op

pub data Reply : Type 0 where
  done : Reply
  got : Bytes → Reply
  empty : Reply

-- The replies of a list that is appended to and taken from at its front
unfoldable pub fifo : List Bytes → List Op → List Reply
fifo live [] = []
fifo live (put x ∷ ops) = done ∷ fifo (live ++ (x ∷ [])) ops
fifo [] (get ∷ ops) = empty ∷ fifo [] ops
fifo (x ∷ live) (get ∷ ops) = got x ∷ fifo live ops

-- The room that the puts take up
unfoldable pub total : List Op → ℕ
total [] = 0
total (put x ∷ ops) = 17 + length x + total ops
total (get ∷ ops) = total ops

-- The message that a client hands to `Enqueue`
abbrev pub message : Bytes → Message
message x = record { data_length = length x; next_message_start = 0; processed = 0; bytes = x }

-- `Deque` under the handler of `ListenSHMQueue`
unfoldable pub try_deque : Bytes → Cmd World Reply
try_deque region_name w = elim (deque region_name w) [
  | ok msg w' ↦ ok (got msg.bytes) w'
  | throw queue_exception w' ↦ ok empty w'
  | throw e w' ↦ throw e w'
  | undefined ↦ undefined
  | blocked ↦ blocked
]

unfoldable pub client_step : Bytes → Op → Cmd World Reply
client_step region_name (put x) = enqueue region_name (message x) >> pure done
client_step region_name get = try_deque region_name

unfoldable pub client : Bytes → List Op → Cmd World (List Reply)
client region_name [] = pure []
client region_name (op ∷ ops) = do
  reply ← client_step region_name op
  replies ← client region_name ops
  pure (reply ∷ replies)
