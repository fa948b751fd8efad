-- ===== src/Queue/Tests.antt =====
-- Runs of the queue on a small region, and the theorems at concrete inputs.
use streaming_gateway.Prelude.{inl, ◌≡◌, refl, false, List, [], ◌∷◌, Bytes, codes, arith, replicate}
use streaming_gateway.Prelude.Run.{Run, ok, throw, undefined, blocked, Cmd, pure, ◌>>=◌, ◌>>◌}
use streaming_gateway.Memory.{
  Cells, write, read_bytes, write_bytes, to_bytes, of_bytes, get64, put64,
}
use streaming_gateway.Dict.{lookup}
use streaming_gateway.Manager.{
  SharedMemoryInfo, get_memory_info, get_memory_map, with_lock, find_and_locate, locate, release,
}
use streaming_gateway.Queue.{World}
use streaming_gateway.Queue.Access.{in_regions, load, load64, store, store64, in_manager}
use streaming_gateway.Queue.Metric.{
  test_and_set, initialize_queue, head_pos_local, rear_pos_local, set_head, set_rear,
  get_queue_metric, acquire, spin, unlock,
}
use streaming_gateway.Queue.Enqueue.{
  next_start, is_overflow, make_room, publish, update_metric, enqueue,
}
use streaming_gateway.Queue.Deque.{take_message, advance_head, deque}
use streaming_gateway.Queue.Transfer.{get_from_shm, put_on_shm, copy_data}
use streaming_gateway.Queue.Fifo.{Op, put, get, fifo, total, message, client}
use streaming_gateway.Queue.Ready.{IsReady}
use streaming_gateway.Queue.Shape.{Holds}
use streaming_gateway.Queue.Append.{enqueue_append}
use streaming_gateway.Queue.Oldest.{Takes, deque_oldest}
use streaming_gateway.Queue.Overrun.{enqueue_past_end}
use streaming_gateway.Queue.Refine.{initialize_queue_lem, client-fifo}

abbrev queue_name : Bytes
queue_name = codes "shm_queue"

abbrev region : SharedMemoryInfo
region = record {
  name = queue_name;
  shm_key = codes "k";
  offset = 0;
  byte_size = 96;
  shm_fd = 3;
  mapped_addr = 4096;
}

abbrev world : World
world = record {
  cells = λ _. 0;
  manager = record { shared_memory_map = (queue_name, region) ∷ []; locked = false };
  peers = [];
}

abbrev result : {A : Type 0} → Run World A → Run (Unit {0}) A
result (ok a w) = ok a tt
result (throw e w) = throw e tt
result undefined = undefined
result blocked = blocked

run_two : Cmd World (List Bytes)
unfolding enqueue deque initialize_queue write write_bytes read_bytes to_bytes of_bytes get64 put64
    lookup in_regions load load64 store store64 in_manager get_memory_info get_memory_map
    get_queue_metric head_pos_local rear_pos_local set_head set_rear get_from_shm with_lock
    find_and_locate locate release acquire spin unlock next_start is_overflow publish update_metric
    put_on_shm copy_data make_room take_message advance_head
run_two = do
  initialize_queue queue_name
  enqueue queue_name (message (7 ∷ 8 ∷ []))
  enqueue queue_name (message (9 ∷ []))
  a ← deque queue_name
  b ← deque queue_name
  pure (a.bytes ∷ b.bytes ∷ [])

run_two_output : result (run_two world) ≡ ok ((7 ∷ 8 ∷ []) ∷ (9 ∷ []) ∷ []) tt
unfolding run_two test_and_set
run_two_output = refl

world-IsReady : IsReady world.manager queue_name region
unfolding lookup
world-IsReady = record {
  registered = refl;
  free = refl;
  whole = refl;
  room = omega arith;
  low = omega arith;
  high = omega arith;
}

abbrev script : List Op
script = put (7 ∷ []) ∷ get ∷ get ∷ put (8 ∷ []) ∷ get ∷ []

client-fifo_example :
    (c : Cells) × ((initialize_queue queue_name >> client queue_name script) world
      ≡ ok (fifo [] script) (record world { cells = c }))
unfolding total
client-fifo_example = client-fifo script world world-IsReady (omega arith)

-- the world after `InitializeQueue`
initialized :
    (c : Cells) × (initialize_queue queue_name world ≡ ok tt (record world { cells = c }))
    × Holds c region [] 4128
initialized = initialize_queue_lem world world-IsReady

-- the queue without a message, and with one
abbrev empty_world : World
empty_world = record world { cells = initialized.0 }

enqueue_append_example :
    (c : Cells) × (enqueue queue_name (message (7 ∷ [])) empty_world
      ≡ ok tt (record empty_world { cells = c }))
    × Holds c region ((7 ∷ []) ∷ []) 4146
enqueue_append_example =
    enqueue_append empty_world world-IsReady (message (7 ∷ [])) initialized.2 (omega arith) refl

abbrev one_world : World
one_world = record world { cells = enqueue_append_example.0 }

deque_oldest_example : Takes one_world world-IsReady (7 ∷ []) [] 4146
deque_oldest_example = deque_oldest one_world world-IsReady enqueue_append_example.2

-- 60 bytes of data end at 4206, and the region ends at 4192.
enqueue_past_end_example : enqueue queue_name (message (replicate 60 5)) empty_world ≡ undefined
enqueue_past_end_example =
    enqueue_past_end empty_world world-IsReady (message (replicate 60 5)) refl initialized.2
      (omega arith) (inl (omega arith)) (omega arith) refl
