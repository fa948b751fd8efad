-- ===== src/Queue/Take.antt =====
-- `Deque` against the queue that the region holds.
use streaming_gateway.Prelude.{
  ℕ, ◌+◌, ◌-◌, ◌∙◌, ◌==◌, if◌then◌else◌, ◌≤◌, ◌<◌, ◌≡◌, [], ◌∷◌, Bytes, arith, length,
}
use streaming_gateway.Prelude.Run.{ok, throw, queue_exception}
use streaming_gateway.Memory.{Cells, write_bytes, get64}
use streaming_gateway.Memory.Laws.{write_bytes_outside, get64_same, get64-write_bytes}
use streaming_gateway.Manager.{SharedMemoryInfo}
use streaming_gateway.Queue.{World}
use streaming_gateway.Queue.Access.{load64, store, store64}
use streaming_gateway.Queue.Metric.{message_cnt, head_position, head_pos_local, unlock}
use streaming_gateway.Queue.Deque.{take_message, deque}
use streaming_gateway.Queue.Ready.{
  IsReady, mapped, in_manager-get_memory_map, acquire_free, get_queue_metric_ok, get_queue_start_ok,
}
use streaming_gateway.Queue.Shape.{IsMessage, IsMessage-same, Holds}
use streaming_gateway.Queue.Remove.{message_at, removed}
use streaming_gateway.Queue.Append.{locked_cells, locked-same, released-Holds}
use streaming_gateway.Queue.Remove.{
  message_at, acknowledged, get_from_shm_lem, new_head, advance_head_lem, removed,
}

module _ {region_name : Bytes} {info : SharedMemoryInfo} (w : World)
    (r : IsReady w.manager region_name info) (start : ℕ) (bytes : Bytes)
    (m : IsMessage w.cells (info.mapped_addr + 32) start bytes)
    (low : info.mapped_addr + 32 ≤ start)
    (high : start + 17 + length bytes ≤ info.mapped_addr + info.byte_size) where
  open info use {mapped_addr as base, byte_size as size}

  abbrev read : World
  read = record w { cells = acknowledged start w.cells }

  read-word : (a : ℕ) → a + 8 ≤ start → get64 read.cells a ≡ get64 w.cells a
  read-word a h = get64-write_bytes w.cells start (1 ∷ []) a (omega arith)

  pub take_message_lem :
      base + get64 w.cells (base + 16) ≡ start
      → base + get64 w.cells (base + 24) ≤ base + size
      → 32 ≤ get64 w.cells (base + 24)
      → take_message base (base + 32) start w
        ≡ ok
            (message_at start bytes)
            (record w { cells = removed base start (new_head w r start bytes m low high) w.cells })
  unfolding take_message store store64 load64 unlock removed
  take_message_lem e u o = ground (
    arith,
    r.high,
    r.low,
    r.room,
    get_from_shm_lem w r start bytes m low high,
    front,
    rear,
    advance_head_lem read r start bytes still low high,
    mapped r (message_cnt base) 8,
    mapped r base 1,
    mapped r start 1,
  )
    where
      still : IsMessage read.cells (base + 32) start bytes
      still =
          IsMessage-same {lo = start + 1} {hi = start + 17 + length bytes} bytes
            (λ b lo hi. write_bytes_outside w.cells start (1 ∷ []) b (omega arith)) (omega arith)
            (omega arith) m

      front : get64 read.cells (base + 16) ≡ get64 w.cells (base + 16)
      front = read-word (base + 16) (omega arith)

      rear : get64 read.cells (base + 24) ≡ get64 w.cells (base + 24)
      rear = read-word (base + 24) (omega arith)

module _ {region_name : Bytes} {info : SharedMemoryInfo} (w : World)
    (r : IsReady w.manager region_name info) where
  open info use {mapped_addr as base, byte_size as size}

  abbrev pub locked : World
  locked = record w { cells = locked_cells base w.cells }

  pub locked-word : (a : ℕ) → base + 8 ≤ a → get64 locked.cells a ≡ get64 w.cells a
  locked-word a h =
      get64_same locked.cells w.cells a
        (λ b lo hi. locked-same base (a + 8) w.cells b (omega arith) hi)

  -- `Deque` as far as the read of the message
  pub deque_opened :
      (start : ℕ)
      → w.cells base ≡ 0
      → 0 < get64 w.cells (base + 8)
      → base + get64 w.cells (base + 16) ≡ start
      → base + 32 ≤ start
      → start ≤ base + size
      → deque region_name w ≡ take_message base (base + 32) start locked
  unfolding deque load64 head_pos_local
  deque_opened start free some_message e low high = ground (
    arith,
    r.low,
    r.high,
    r.room,
    get_queue_metric_ok w r,
    acquire_free w r free,
    in_manager-get_memory_map locked r,
    get_queue_start_ok locked r,
    locked-word (base + 8) (omega arith),
    locked-word (base + 16) (omega arith),
    mapped r (message_cnt base) 8,
    mapped r (head_position base) 8,
  )

  abbrev pub next_head : ℕ → Bytes → ℕ
  next_head start x =
      if base + get64 locked.cells (base + 24) == start then 0 else start + 17 + length x - base

  -- `Deque` returns the message at the head position, wherever the rear one stands.
  pub deque_at :
      (start : ℕ) (x : Bytes)
      → w.cells base ≡ 0
      → 0 < get64 w.cells (base + 8)
      → IsMessage w.cells (base + 32) start x
      → base + get64 w.cells (base + 16) ≡ start
      → base + 32 ≤ start
      → start + 17 + length x ≤ base + size
      → base + get64 w.cells (base + 24) ≤ base + size
      → 32 ≤ get64 w.cells (base + 24)
      → deque region_name w
        ≡ ok
            (message_at start x)
            (record w { cells = removed base start (next_head start x) locked.cells })
  deque_at start x free some_message m front low high back behind =
      deque_opened start free some_message front low (omega arith)
      ∙ take_message_lem locked r start x
          (IsMessage-same {lo = base + 8} {hi = start + 17 + length x} x
            (locked-same base (start + 17 + length x) w.cells) (omega arith) (omega arith) m)
          low high (omega (arith, locked-word (base + 16) (omega arith)))
          (omega (arith, locked-word (base + 24) (omega arith)))
          (omega (arith, locked-word (base + 24) (omega arith)))

  pub deque_none :
      {stop : ℕ}
      → Holds w.cells info [] stop
      → deque region_name w
        ≡ throw queue_exception
            (record w { cells = write_bytes (locked_cells base w.cells) base (0 ∷ []) })
  unfolding deque load64 unlock store
  deque_none h = ground (
    arith,
    h.count,
    r.room,
    get_queue_metric_ok w r,
    acquire_free w r h.unlocked,
    locked-word (base + 8) (omega arith),
    mapped r (message_cnt base) 8,
    mapped r (head_position base) 8,
    mapped r base 1,
  )

  -- `Deque` of an empty queue throws `QueueException`; the queue stays empty, and its lock is free
  -- again.
  pub deque_empty :
      {stop : ℕ}
      → Holds w.cells info [] stop
      → (c : Cells) × (deque region_name w ≡ throw queue_exception (record w { cells = c }))
        × Holds c info [] stop
  deque_empty h = (write_bytes locked.cells base (0 ∷ []), deque_none h, released-Holds h)
