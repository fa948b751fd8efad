-- ===== src/Queue/Refine.antt =====
-- The queue in shared memory refines the list, as long as the region is not used up.
use streaming_gateway.Prelude.{ℕ, ◌+◌, ◌≤◌, ◌≡◌, refl, ◌∙◌, List, [], ◌∷◌, Bytes, arith}
use streaming_gateway.Prelude.Run.{ok, ◌>>◌}
use streaming_gateway.Memory.{Cells, write_bytes, put64}
use streaming_gateway.Memory.Laws.{get64-put64, get64-put64-Apart, write_bytes_one, put64_outside}
use streaming_gateway.Manager.{SharedMemoryInfo}
use streaming_gateway.Queue.{World}
use streaming_gateway.Queue.Access.{store, store64}
use streaming_gateway.Queue.Metric.{message_cnt, head_position, rear_position, initialize_queue}
use streaming_gateway.Queue.Fifo.{
  Op, put, get, fifo, total, message, try_deque, client_step, client,
}
use streaming_gateway.Queue.Ready.{IsReady, mapped, in_manager-get_memory_info}
use streaming_gateway.Queue.Shape.{fresh, Holds}
use streaming_gateway.Queue.Append.{enqueue_append}
use streaming_gateway.Queue.Take.{deque_empty}
use streaming_gateway.Queue.Oldest.{deque_oldest}

module _ {region_name : Bytes} {info : SharedMemoryInfo} where
  open info use {mapped_addr as base, byte_size as size}

  -- `InitializeQueue` makes an empty queue of any region that is registered.
  pub initialize_queue_lem :
      (w : World)
      → IsReady w.manager region_name info
      → (c : Cells) × (initialize_queue region_name w ≡ ok tt (record w { cells = c }))
        × Holds c info [] (base + 32)
  unfolding initialize_queue store store64
  initialize_queue_lem w r = (
    c₃,
    ground (
      arith,
      r.room,
      in_manager-get_memory_info w r 0 32,
      mapped r base 1,
      mapped r (message_cnt base) 8,
      mapped r (head_position base) 8,
      mapped r (rear_position base) 8,
    ),
    record {
      unlocked =
          put64_outside c₂ (base + 24) 0 base (omega arith)
          ∙ put64_outside c₁ (base + 16) 32 base (omega arith)
          ∙ put64_outside c₀ (base + 8) 0 base (omega arith)
          ∙ write_bytes_one w.cells base 0;
      count =
          get64-put64-Apart c₂ (base + 24) 0 (base + 8) (omega arith)
          ∙ get64-put64-Apart c₁ (base + 16) 32 (base + 8) (omega arith)
          ∙ get64-put64 c₀ (base + 8) 0 (omega arith);
      shape =
          fresh refl
            (get64-put64-Apart c₂ (base + 24) 0 (base + 16) (omega arith)
              ∙ get64-put64 c₁ (base + 16) 32 (omega arith))
            (get64-put64 c₂ (base + 24) 0 (omega arith)) refl;
      inside = omega (arith, r.room);
    },
  )
    where
      c₀ : Cells
      c₀ = write_bytes w.cells base (0 ∷ [])

      c₁ : Cells
      c₁ = put64 c₀ (base + 8) 0

      c₂ : Cells
      c₂ = put64 c₁ (base + 16) 32

      c₃ : Cells
      c₃ = put64 c₂ (base + 24) 0

  client_refines :
      (ops : List Op) {live : List Bytes} {stop : ℕ} (w : World)
      → IsReady w.manager region_name info
      → Holds w.cells info live stop
      → stop + total ops ≤ base + size
      → (c : Cells) × (client region_name ops w ≡ ok (fifo live ops) (record w { cells = c }))
  unfolding client client_step try_deque fifo total
  client_refines [] w r h room = (w.cells, refl)
  client_refines (put x ∷ ops) w r h room =
      let (c, e, h') = enqueue_append w r (message x) h (omega arith) refl in
      let (c', e') = client_refines ops (record w { cells = c }) r h' (omega arith) in
      (c', ground (arith, e, e'))
  client_refines (get ∷ ops) {live = []} w r h room =
      let (c, e, h') = deque_empty w r h in
      let (c', e') = client_refines ops (record w { cells = c }) r h' room in
      (c', ground (arith, e, e'))
  client_refines (get ∷ ops) {live = x ∷ live} w r h room =
      let (start, c, e, h') = deque_oldest w r h in
      let (c', e') = client_refines ops (record w { cells = c }) r h' room in
      (c', ground (arith, e, e'))

  -- After `InitializeQueue` any sequence of `Enqueue` and `Deque` calls gives the replies of a
  -- first-in first-out list, as long as all the messages put fit into the region one behind another.
  pub client-fifo :
      (ops : List Op) (w : World)
      → IsReady w.manager region_name info
      → 32 + total ops ≤ size
      → (c : Cells) × ((initialize_queue region_name >> client region_name ops) w
          ≡ ok (fifo [] ops) (record w { cells = c }))
  client-fifo ops w r room =
      let (c, e, h) = initialize_queue_lem w r in
      let (c', e') = client_refines ops (record w { cells = c }) r h (omega arith) in
      (c', ground (arith, e, e'))
