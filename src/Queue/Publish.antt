-- ===== src/Queue/Publish.antt =====
-- What `publish` writes: the bytes of the message, then the positions and the counter.
use streaming_gateway.Prelude.{
  ℕ, ◌+◌, ◌≤◌, ◌≡◌, [], ◌∷◌, Bytes, arith, ◌==◌, length, take, take_all, if◌then◌else◌,
}
use streaming_gateway.Prelude.Run.{ok}
use streaming_gateway.Memory.{Cells, write_bytes, get64, put64}
use streaming_gateway.Manager.{SharedMemoryInfo, add_size}
use streaming_gateway.Queue.{
  World, Message, sub_size, ptr_on_processed, ptr_on_data_length, ptr_on_next, ptr_on_data,
  message_size_on_shm, to_relational_pointer,
}
use streaming_gateway.Queue.Access.{load64, store, store64}
use streaming_gateway.Queue.Metric.{
  message_cnt, head_position, rear_position, set_head, set_rear, unlock,
}
use streaming_gateway.Queue.Enqueue.{publish, update_metric}
use streaming_gateway.Queue.Transfer.{put_on_shm, copy_data}
use streaming_gateway.Queue.Ready.{IsReady, mapped}

-- The bytes after `PutOnSHM`
unfoldable pub message_cells : (queue_start start : ℕ) → Message → Cells → Cells
message_cells queue_start start msg c =
    let c₁ : Cells = write_bytes c (ptr_on_processed start) (0 ∷ []) in
    let c₂ : Cells = put64 c₁ (ptr_on_data_length start) msg.data_length in
    let c₃ : Cells = put64 c₂ (ptr_on_next start) (add_size start (message_size_on_shm msg)) in
    let c₄ : Cells =
      put64 c₃ (ptr_on_next start)
        (to_relational_pointer queue_start (get64 c₃ (ptr_on_next start))) in
    write_bytes c₄ (ptr_on_data start) (take msg.data_length msg.bytes)

unfoldable pub head_cells : (metric start : ℕ) → Cells → Cells
head_cells metric start c =
    if get64 c (head_position metric) == 0
    then put64 c (head_position metric) (sub_size start metric)
    else c

-- The bytes after the positions, the counter and the lock are written
unfoldable pub metric_cells : (metric start : ℕ) → Cells → Cells
unfolding head_cells
metric_cells metric start c =
    let c₁ : Cells =
      put64 (head_cells metric start c) (rear_position metric) (sub_size start metric) in
    let c₂ : Cells = put64 c₁ (message_cnt metric) (add_size (get64 c₁ (message_cnt metric)) 1) in
    write_bytes c₂ metric (0 ∷ [])

module _ {region_name : Bytes} {info : SharedMemoryInfo} (w : World)
    (r : IsReady w.manager region_name info) where
  update_metric_lem :
      (start : ℕ)
      → update_metric info.mapped_addr start w
        ≡ ok tt (record w { cells = metric_cells info.mapped_addr start w.cells })
  unfolding update_metric load64 store store64 set_head set_rear unlock metric_cells
  update_metric_lem start = ground (
    arith,
    r.room,
    mapped r (head_position info.mapped_addr) 8,
    mapped r (rear_position info.mapped_addr) 8,
    mapped r (message_cnt info.mapped_addr) 8,
    mapped r info.mapped_addr 1,
  )

module _ {region_name : Bytes} {info : SharedMemoryInfo} (w : World)
    (r : IsReady w.manager region_name info) where
  put_on_shm_lem :
      (queue_start start : ℕ) (msg : Message)
      → info.mapped_addr ≤ start
      → start + 17 + msg.data_length ≤ info.mapped_addr + info.byte_size
      → msg.data_length ≡ length msg.bytes
      → put_on_shm msg start queue_start w
        ≡ ok tt (record w { cells = message_cells queue_start start msg w.cells })
  unfolding put_on_shm copy_data load64 store store64 message_cells
  put_on_shm_lem queue_start start msg lo hi len = ground (
    arith,
    r.low,
    r.high,
    mapped r (ptr_on_processed start) 1,
    mapped r (ptr_on_data_length start) 8,
    mapped r (ptr_on_next start) 8,
    mapped r (ptr_on_data start) (length msg.bytes),
    take_all msg.bytes,
  )

  -- Inside the region `publish` succeeds.
  pub publish_lem :
      (queue_start start : ℕ) (msg : Message)
      → info.mapped_addr ≤ start
      → start + 17 + msg.data_length ≤ info.mapped_addr + info.byte_size
      → msg.data_length ≡ length msg.bytes
      → publish info.mapped_addr queue_start start msg w
        ≡ ok tt (record w {
          cells = metric_cells info.mapped_addr start (message_cells queue_start start msg w.cells);
        })
  unfolding publish
  publish_lem queue_start start msg lo hi len =
      ground (arith, r.low, put_on_shm_lem queue_start start msg, updated)
    where
      after : World
      after = record w { cells = message_cells queue_start start msg w.cells }

      updated :
          update_metric info.mapped_addr start after
          ≡ ok tt (record after { cells = metric_cells info.mapped_addr start after.cells })
      updated = update_metric_lem after r start
