-- ===== src/Queue/Metric.antt =====
-- `QueueMetric`: the lock, the counter and the two positions at the head of the region, with
-- `GetQueueMetric` and `InitializeQueue`.
use streaming_gateway.Prelude.{
  ℕ, ◌+◌, Bool, true, false, not, List, [], ◌∷◌, Bytes, ◌==◌, if◌then◌else◌,
}
use streaming_gateway.Prelude.Run.{Run, ok, undefined, blocked, Cmd, pure, ◌>>=◌, ◌>>◌}
use streaming_gateway.Memory.{Cells, write_bytes}
use streaming_gateway.Manager.{add_size, get_memory_info}
use streaming_gateway.Queue.{World, metric_size, sub_size}
use streaming_gateway.Queue.Access.{is_mapped, load64, store, store64, in_manager}

-- The addresses of `message_cnt`, `head_position` and `rear_position`
abbrev pub message_cnt : ℕ → ℕ
message_cnt metric = metric + 8

abbrev pub head_position : ℕ → ℕ
head_position metric = metric + 16

abbrev pub rear_position : ℕ → ℕ
rear_position metric = metric + 24

-- `std::atomic_flag_test_and_set_explicit`: the flag as it was, and the flag set
unfoldable pub test_and_set : ℕ → Cells → Bool × Cells
test_and_set metric c = (not (c metric == 0), write_bytes c metric (1 ∷ []))

-- `QueueMetric::Acquire`: test and set until the flag was clear. Between two tests a peer steps.
unfoldable pub spin : ℕ → List (Cells → Cells) → World → Run World (Unit {0})
spin metric [] w =
    let r = test_and_set metric w.cells in
    if r.0 then blocked else ok tt (record w { cells = r.1; peers = [] })
spin metric (p ∷ ps) w =
    let r = test_and_set metric w.cells in
    elim r.0 [
      | false ↦ ok tt (record w { cells = r.1; peers = p ∷ ps })
      | true ↦ spin metric ps (record w { cells = p r.1; peers = ps })
    ]

unfoldable pub acquire : ℕ → Cmd World (Unit {0})
unfolding spin
acquire metric w = if is_mapped w metric 1 then spin metric w.peers w else undefined

-- `QueueMetric::Unlock`
unfoldable pub unlock : ℕ → Cmd World (Unit {0})
unfolding store
unlock metric = store metric (0 ∷ [])

-- `QueueMetric::head_pos_local`
unfoldable pub head_pos_local : ℕ → Cmd World ℕ
head_pos_local metric = do head ← load64 (head_position metric); pure (add_size metric head)

-- `QueueMetric::rear_pos_local`, which is `nullptr` where no message was put yet
unfoldable pub rear_pos_local : ℕ → Cmd World ℕ
rear_pos_local metric = do
  rear ← load64 (rear_position metric)
  if rear == 0 then pure 0 else pure (add_size metric rear)

-- `QueueMetric::SetRear` and `QueueMetric::SetHead`
unfoldable pub set_rear : ℕ → ℕ → Cmd World (Unit {0})
set_rear metric base_addr = store64 (rear_position metric) (sub_size base_addr metric)

unfoldable pub set_head : ℕ → ℕ → Cmd World (Unit {0})
set_head metric base_addr = store64 (head_position metric) (sub_size base_addr metric)

-- `shm_queue::GetQueueMetric`
unfoldable pub get_queue_metric : Bytes → Cmd World ℕ
get_queue_metric region_name = in_manager (get_memory_info region_name 0 metric_size)

-- `shm_queue::InitializeQueue`
unfoldable pub initialize_queue : Bytes → Cmd World (Unit {0})
initialize_queue region_name = do
  metric ← in_manager (get_memory_info region_name 0 metric_size)
  store metric (0 ∷ [])
  store64 (message_cnt metric) 0
  store64 (head_position metric) metric_size
  store64 (rear_position metric) 0
