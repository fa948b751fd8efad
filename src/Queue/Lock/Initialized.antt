-- ===== src/Queue/Lock/Initialized.antt =====
-- `InitializeQueue` while another process holds the lock of `QueueMetric`.
use streaming_gateway.Prelude.{ℕ, Bytes, ◌≡◌, ◌≢◌, ◌∙◌, refl, sym, ap, [], ◌∷◌, arith}
use streaming_gateway.Memory.{Cells, write_bytes, put64}
use streaming_gateway.Memory.Laws.{write_bytes_one, put64_outside}
use streaming_gateway.Prelude.Run.{ok}
use streaming_gateway.Manager.{SharedMemoryInfo}
use streaming_gateway.Queue.{World, metric_size}
use streaming_gateway.Queue.Access.{store, store64}
use streaming_gateway.Queue.Ready.{IsReady, in_manager-get_memory_info, mapped}
use streaming_gateway.Queue.Metric.{
  initialize_queue, test_and_set, message_cnt, head_position, rear_position,
}
use streaming_gateway.Queue.Lock.{
  outside, spinning, inside, System, moved_to, fresh_metric, calls, enters, initializes, Reaches,
  stays, goes, moved_to-same, moved_to-other, outside≢inside,
}

module _ {region_name : Bytes} {info : SharedMemoryInfo} where
  -- `InitializeQueue` stores what the step does.
  initialize_queue-fresh_metric :
      (w : World)
      → IsReady w.manager region_name info
      → initialize_queue region_name w
        ≡ ok tt (record w { cells = fresh_metric info.mapped_addr w.cells })
  unfolding initialize_queue store store64 fresh_metric
  initialize_queue-fresh_metric w r =
      let base = info.mapped_addr in
      ground (
        arith,
        r.room,
        in_manager-get_memory_info w r 0 32,
        mapped r base 1,
        mapped r (message_cnt base) 8,
        mapped r (head_position base) 8,
        mapped r (rear_position base) 8,
      )

fresh_metric-flag : (metric : ℕ) (c : Cells) → fresh_metric metric c metric ≡ 0
unfolding fresh_metric
fresh_metric-flag metric c =
    let c₁ = write_bytes c metric (0 ∷ []) in
    let c₂ = put64 c₁ (message_cnt metric) 0 in
    let c₃ = put64 c₂ (head_position metric) metric_size in
    put64_outside c₃ (rear_position metric) 0 metric (omega arith)
    ∙ put64_outside c₂ (head_position metric) metric_size metric (omega arith)
    ∙ put64_outside c₁ (message_cnt metric) 0 metric (omega arith)
    ∙ write_bytes_one c metric 0

-- Whenever one process is between `Acquire` and `Unlock` and another is outside, the other can call
-- `InitializeQueue` and then `Acquire`, which returns at its first try: then both are between
-- `Acquire` and `Unlock`, and the bytes are those of a new queue with its flag set.
pub initialized_inside :
    {metric : ℕ} (p q : ℕ) (t : System)
    → t.phase p ≡ inside
    → t.phase q ≡ outside
    → (u : System) × Reaches metric t u
      × (u.cells ≡ (test_and_set metric (fresh_metric metric t.cells)).1)
      × (u.phase p ≡ inside)
      × (u.phase q ≡ inside)
unfolding test_and_set
initialized_inside {metric} p q t here out =
    let other : q ≢ p = λ e. outside≢inside (sym out ∙ ap t.phase e ∙ here) in
    let before = moved_to q spinning t.phase in
    (
      _,
      goes {p = q} (goes {p = q} (goes {p = q} stays (initializes out)) (calls out)) (
          enters (moved_to-same q spinning t.phase)
            (ground (arith, fresh_metric-flag metric t.cells))),
      refl,
      moved_to-other q p inside before other ∙ moved_to-other q p spinning t.phase other ∙ here,
      moved_to-same q inside before,
    )
