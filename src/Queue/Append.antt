-- ===== src/Queue/Append.antt =====
-- `Enqueue` of a message that fits behind the others.
use streaming_gateway.Prelude.{
  ℕ, ◌+◌, ◌≤◌, ◌≡◌, sym, ◌∙◌, false, List, [], ◌∷◌, ◌++◌, Bytes, arith, length, length-append,
  if◌then◌else◌,
}
use streaming_gateway.Prelude.Run.{ok, ◌>>◌}
use streaming_gateway.Memory.{Cells, write_bytes, get64}
use streaming_gateway.Memory.Laws.{write_bytes_outside, get64_same, write_bytes_one}
use mathlib.Core.Path.{subst}
use streaming_gateway.Manager.{SharedMemoryInfo}
use streaming_gateway.Queue.{World, Message, ptr_on_next, message_size_on_shm}
use streaming_gateway.Queue.Access.{load64}
use streaming_gateway.Queue.Metric.{rear_position, rear_pos_local}
use streaming_gateway.Queue.Enqueue.{next_start, is_overflow, make_room, publish, enqueue}
use streaming_gateway.Queue.Ready.{
  IsReady, mapped, in_manager-get_memory_map, acquire_free, get_queue_metric_ok, get_queue_start_ok,
}
use streaming_gateway.Queue.Publish.{publish_lem}
use streaming_gateway.Queue.Published.{
  published, published_append, published-count, published-unlocked,
}
use streaming_gateway.Queue.Shape.{
  Laid-le, Shape, fresh, drained, busy, Shape-same, Shape-bounds, SameOn, Holds,
}

module _ {region_name : Bytes} {info : SharedMemoryInfo} (w : World)
    (r : IsReady w.manager region_name info) where
  open info use {mapped_addr as base, byte_size as size}

  -- The start of the next message is where the queue ends.
  pub next_start_lem :
      {live : List Bytes} {stop : ℕ}
      → Shape w.cells base live stop
      → stop ≤ base + size
      → next_start base (base + 32) w ≡ ok stop w
  unfolding next_start rear_pos_local load64
  next_start_lem (fresh e h q s) u = ground (arith, r.room, r.high, mapped r (rear_position base) 8)
  next_start_lem (drained rear e h q l s t) u =
      ground (arith, r.room, r.high, mapped r (rear_position base) 8, mapped r (ptr_on_next rear) 8)
  next_start_lem (busy init last head rear e h l q i m s) u = ground (
    arith,
    r.room,
    r.high,
    m.link,
    Laid-le w.cells (base + 32) head init rear i,
    mapped r (rear_position base) 8,
    mapped r (ptr_on_next rear) 8,
  )

-- The bytes once the lock is taken
abbrev pub locked_cells : ℕ → Cells → Cells
locked_cells base c = write_bytes c base (1 ∷ [])

pub locked-same : (base hi : ℕ) (c : Cells) → SameOn (locked_cells base c) c (base + 8) hi
locked-same base hi c b lo u = write_bytes_outside c base (1 ∷ []) b (omega arith)

-- The lock taken and given back leaves the queue as it was.
pub released-Holds :
    {c : Cells} {info : SharedMemoryInfo} {live : List Bytes} {stop : ℕ}
    → Holds c info live stop
    → Holds (write_bytes (locked_cells info.mapped_addr c) info.mapped_addr (0 ∷ [])) info live stop
released-Holds {c} {info} {stop} h = record {
  unlocked = write_bytes_one (locked_cells base c) base 0;
  count =
      get64_same released c (base + 8) (λ b lo hi. same (base + 16) b lo (omega arith)) ∙ h.count;
  shape = Shape-same (same stop) (omega arith) h.shape;
  inside = h.inside;
}
  where
    open info use {mapped_addr as base}

    released : Cells
    released = write_bytes (locked_cells base c) base (0 ∷ [])

    same : (hi : ℕ) → SameOn released c (base + 8) hi
    same hi b lo u =
        write_bytes_outside (locked_cells base c) base (0 ∷ []) b (omega arith)
        ∙ locked-same base hi c b lo u

module _ {region_name : Bytes} {info : SharedMemoryInfo} (w : World)
    (r : IsReady w.manager region_name info) where
  open info use {mapped_addr as base, byte_size as size}

  abbrev pub taken : World
  taken = record w { cells = locked_cells base w.cells }

  -- `Enqueue` as far as the overflow test
  pub enqueue_opened :
      {live : List Bytes} {stop : ℕ} (msg : Message)
      → Holds w.cells info live stop
      → enqueue region_name msg w
        ≡ (if is_overflow (base + 32) size stop (message_size_on_shm msg)
              then (do make_room base (base + 32) msg; publish base (base + 32) (base + 32) msg)
              else publish base (base + 32) stop msg)
            taken
  unfolding enqueue
  enqueue_opened {stop} msg h = ground (
    arith,
    r.low,
    get_queue_metric_ok w r,
    acquire_free w r h.unlocked,
    in_manager-get_memory_map taken r,
    get_queue_start_ok taken r,
    next_start_lem taken r (Shape-same (locked-same base stop w.cells) (omega arith) h.shape)
        h.inside,
  )

  pub published-Holds :
      {live : List Bytes} {stop : ℕ} (msg : Message)
      → Holds w.cells info live stop
      → stop + 17 + msg.data_length ≤ base + size
      → msg.data_length ≡ length msg.bytes
      → Holds
          (published base stop msg taken.cells)
          info
          (live ++ (msg.bytes ∷ []))
          (stop + 17 + msg.data_length)
  published-Holds {live} {stop} msg h fits full =
      let (low, few) = Shape-bounds h.shape in
      let held : get64 taken.cells (base + 8) ≡ length live =
        get64_same taken.cells w.cells (base + 8)
          (λ b lo hi. locked-same base (base + 16) w.cells b lo (omega arith))
        ∙ h.count in
      record {
        unlocked = published-unlocked base stop msg taken.cells low (omega (arith, r.high)) full;
        count = omega (
          arith,
          r.high,
          held,
          length-append live (msg.bytes ∷ []),
          published-count base stop msg taken.cells low (omega (arith, r.high)) full
              (omega (arith, held, r.high)),
        );
        shape =
            subst
              (λ n.
                Shape (published base stop msg taken.cells) base (live ++ (msg.bytes ∷ []))
                  (stop + 17 + n))
              (sym full)
              (published_append base stop msg taken.cells (omega (arith, r.high)) full
                (Shape-same (locked-same base stop w.cells) (omega arith) h.shape));
        inside = fits;
      }

  pub enqueue_fits :
      {live : List Bytes} {stop : ℕ} (msg : Message)
      → Holds w.cells info live stop
      → stop + 17 + msg.data_length ≤ base + size
      → msg.data_length ≡ length msg.bytes
      → enqueue region_name msg w ≡ ok tt (record w { cells = published base stop msg taken.cells })
  unfolding is_overflow published
  enqueue_fits {stop} msg h fits full =
      let (low, few) = Shape-bounds h.shape in
      let no_overflow : is_overflow (base + 32) size stop (message_size_on_shm msg) ≡ false =
        ground (arith, r.high) in
      enqueue_opened msg h
      ∙ rw no_overflow (publish_lem taken r (base + 32) stop msg (omega arith) fits full)

  -- Where a message fits behind the others, `Enqueue` returns, and the queue has it at its end.
  pub enqueue_append :
      {live : List Bytes} {stop : ℕ} (msg : Message)
      → Holds w.cells info live stop
      → stop + 17 + msg.data_length ≤ base + size
      → msg.data_length ≡ length msg.bytes
      → (c : Cells) × (enqueue region_name msg w ≡ ok tt (record w { cells = c }))
        × Holds c info (live ++ (msg.bytes ∷ [])) (stop + 17 + msg.data_length)
  enqueue_append {stop} msg h fits full = (
    published base stop msg taken.cells,
    enqueue_fits msg h fits full,
    published-Holds msg h fits full,
  )
