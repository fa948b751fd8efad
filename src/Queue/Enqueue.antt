-- ===== src/Queue/Enqueue.antt =====
-- `shm_queue::Enqueue`
use streaming_gateway.Prelude.{ℕ, Bool, ◌&&◌, Bytes, leb, ◌==◌, if◌then◌else◌, not}
use streaming_gateway.Prelude.Run.{Cmd, pure, guard, ◌>>=◌, ◌>>◌, runtime_error}
use streaming_gateway.Manager.{add_size, get_memory_info, get_memory_map}
use streaming_gateway.Queue.{
  World, Message, sub_size, from_relational_pointer, ptr_on_next, message_size_on_shm, metric_size,
}
use streaming_gateway.Queue.Access.{load64, store64, in_manager}
use streaming_gateway.Queue.Metric.{
  message_cnt, head_position, acquire, unlock, head_pos_local, rear_pos_local, set_rear, set_head,
  get_queue_metric,
}
use streaming_gateway.Queue.Transfer.{put_on_shm}
use streaming_gateway.Queue.Join.{join_listener}

-- The start of the message behind the rear one, or of the first
unfoldable pub next_start : (metric queue_start : ℕ) → Cmd World ℕ
next_start metric queue_start = do
  rear ← rear_pos_local metric
  if rear == 0
      then pure queue_start
      else do next ← load64 (ptr_on_next rear); pure (from_relational_pointer queue_start next)

-- The test under `// queue overflow`
unfoldable pub is_overflow : (queue_start byte_size start message_size : ℕ) → Bool
is_overflow queue_start byte_size start message_size =
    leb (add_size queue_start byte_size) (add_size start message_size)

-- The branch of a queue overflow
unfoldable pub make_room : (metric queue_start : ℕ) → Message → Cmd World (Unit {0})
make_room metric queue_start msg = do
  cnt ← load64 (message_cnt metric)
  head ← head_pos_local metric
  if (cnt == 0) && (head == queue_start)
      then pure tt
      else do unlock metric; join_listener queue_start msg; acquire metric

-- From `if(not metric->head_position)` to the end
unfoldable pub update_metric : (metric start : ℕ) → Cmd World (Unit {0})
update_metric metric start = do
  head ← load64 (head_position metric)
  if head == 0 then set_head metric start else pure tt
  set_rear metric start
  cnt ← load64 (message_cnt metric)
  store64 (message_cnt metric) (add_size cnt 1)
  unlock metric

-- From the test of `startAddress` on
unfoldable pub publish : (metric queue_start start : ℕ) → Message → Cmd World (Unit {0})
publish metric queue_start start msg = do
  guard (not (start == 0)) runtime_error
  put_on_shm msg start queue_start
  update_metric metric start

unfoldable pub enqueue : Bytes → Message → Cmd World (Unit {0})
enqueue region_name msg = do
  metric ← get_queue_metric region_name
  acquire metric
  region ← in_manager (get_memory_map region_name)
  queue_start ←
      in_manager (get_memory_info region_name metric_size (sub_size region.byte_size metric_size))
  start ← next_start metric queue_start
  region_info ← in_manager (get_memory_map region_name)
  guard (not (region_info.mapped_addr == 0)) runtime_error
  if is_overflow queue_start region_info.byte_size start (message_size_on_shm msg)
      then (do make_room metric queue_start msg; publish metric queue_start queue_start msg)
      else publish metric queue_start start msg
