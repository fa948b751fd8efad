-- ===== src/Queue/Deque.antt =====
-- `shm_queue::Deque`
use streaming_gateway.Prelude.{ℕ, ◌||◌, [], ◌∷◌, Bytes, ltb, ◌==◌, if◌then◌else◌, not}
use streaming_gateway.Prelude.Run.{
  Cmd, pure, raise, guard, ◌>>=◌, ◌>>◌, runtime_error, queue_exception,
}
use streaming_gateway.Manager.{get_memory_info, get_memory_map}
use streaming_gateway.Queue.{
  World, Message, sub_size, from_relational_pointer, ptr_on_next, ptr_on_processed, metric_size,
}
use streaming_gateway.Queue.Access.{load64, store, store64, in_manager}
use streaming_gateway.Queue.Metric.{
  message_cnt, head_position, acquire, unlock, head_pos_local, rear_pos_local, set_head,
  get_queue_metric,
}
use streaming_gateway.Queue.Transfer.{get_from_shm}

-- The head moves to the next message, or to 0 behind the rear one.
unfoldable pub advance_head : (metric queue_start head : ℕ) → Cmd World (Unit {0})
advance_head metric queue_start head = do
  rear ← rear_pos_local metric
  front ← head_pos_local metric
  if not (rear == front)
      then (do
        next ← load64 (ptr_on_next head)
        set_head metric (from_relational_pointer queue_start next))
      else store64 (head_position metric) 0

-- What `Deque` does with the message at the head
unfoldable pub take_message : (metric queue_start head : ℕ) → Cmd World Message
take_message metric queue_start head = do
  msg ← get_from_shm head queue_start
  advance_head metric queue_start head
  guard (not (msg.next_message_start == 0)) queue_exception
  guard (not (ptr_on_processed head == 0)) queue_exception
  store (ptr_on_processed head) (1 ∷ [])
  cnt ← load64 (message_cnt metric)
  store64 (message_cnt metric) (sub_size cnt 1)
  unlock metric
  pure msg

unfoldable pub deque : Bytes → Cmd World Message
deque region_name = do
  metric ← get_queue_metric region_name
  acquire metric
  cnt ← load64 (message_cnt metric)
  position ← load64 (head_position metric)
  if (cnt == 0) || (position == 0) then (unlock metric >> raise queue_exception) else do
    head ← head_pos_local metric
    region_info ← in_manager (get_memory_map region_name)
    queue_start ←
        in_manager
          (get_memory_info region_name metric_size (sub_size region_info.byte_size metric_size))
    guard (not (queue_start == 0)) runtime_error
    guard (not (ltb head queue_start)) runtime_error
    take_message metric queue_start head
