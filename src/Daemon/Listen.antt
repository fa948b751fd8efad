-- ===== src/Daemon/Listen.antt =====
-- The loops of `HandleStreamDaemon::ListenSHMQueue`, which fill a batch from the queue.
use streaming_gateway.Prelude.{ℕ, zero, suc, true, false, List, [], ◌∷◌, Bytes, ◌==◌, if◌then◌else◌}
use streaming_gateway.Prelude.Run.{
  Run, ok, throw, undefined, blocked, Cmd, pure, ◌>>=◌, queue_exception,
}
use streaming_gateway.Memory.{Cells, get64}
use streaming_gateway.Queue.{World, Message}
use streaming_gateway.Queue.Access.{is_mapped}
use streaming_gateway.Queue.Metric.{message_cnt, get_queue_metric}
use streaming_gateway.Queue.Deque.{deque}

-- The loop of `wait_for_messages`: while it sleeps, a peer steps.
unfoldable pub wait_loop : ℕ → List (Cells → Cells) → World → Run World (Unit {0})
wait_loop metric [] w =
    if get64 w.cells (message_cnt metric) == 0 then blocked else ok tt (record w { peers = [] })
wait_loop metric (p ∷ ps) w = elim (get64 w.cells (message_cnt metric) == 0) [
  | true ↦ wait_loop metric ps (record w { cells = p w.cells; peers = ps })
  | false ↦ ok tt (record w { peers = p ∷ ps })
]

unfoldable pub wait_for_messages : Bytes → Cmd World (Unit {0})
wait_for_messages region_name = do
  metric ← get_queue_metric region_name
  λ w. if is_mapped w (message_cnt metric) 8 then wait_loop metric w.peers w else undefined

-- The `do ... while(true)` for one place of the batch, on fuel
unfoldable pub receive : ℕ → Bytes → Cmd World Message
receive zero region_name w = blocked
receive (suc rounds) region_name w = elim (wait_for_messages region_name w) [
  | ok _ w₁ ↦ elim (deque region_name w₁) [
    | ok msg w₂ ↦ elim (msg.data_length == 0) [
      | true ↦ receive rounds region_name w₂
      | false ↦ ok msg w₂
    ]
    | throw queue_exception w₂ ↦ receive rounds region_name w₂
    | throw e w₂ ↦ throw e w₂
    | undefined ↦ undefined
    | blocked ↦ blocked
  ]
  | throw e w₁ ↦ throw e w₁
  | undefined ↦ undefined
  | blocked ↦ blocked
]

-- The loop over the batch; `prefetched` is the length of the result.
unfoldable pub prefetch : ℕ → ℕ → Bytes → Cmd World (List Message)
prefetch rounds zero region_name = pure []
prefetch rounds (suc prefetch_count) region_name = do
  msg ← receive rounds region_name
  messages ← prefetch rounds prefetch_count region_name
  pure (msg ∷ messages)
