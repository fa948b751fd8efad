-- ===== src/Daemon/Batch.antt =====
-- A batch is the oldest messages of the queue that have data.
use mathlib.Core.Path.{subst, subst₂}
use streaming_gateway.Prelude.{
  ℕ, zero, suc, ◌+◌, ◌≤◌, ◌≡◌, refl, sym, ap, ◌∙◌, false, List, [], ◌∷◌, Bytes, length, take, drop,
  ◌==◌, arith,
}
use streaming_gateway.Prelude.Run.{ok}
use streaming_gateway.Memory.{Cells, get64}
use streaming_gateway.Manager.{SharedMemoryInfo}
use streaming_gateway.Queue.{World, Message}
use streaming_gateway.Queue.Metric.{message_cnt}
use streaming_gateway.Queue.Ready.{IsReady, mapped, get_queue_metric_ok}
use streaming_gateway.Queue.Shape.{Holds}
use streaming_gateway.Queue.Remove.{message_at}
use streaming_gateway.Queue.Oldest.{deque_oldest}
use streaming_gateway.Daemon.Listen.{wait_loop, wait_for_messages, receive, prefetch}

-- The messages that are not empty
unfoldable pub with_data : List Bytes → List Bytes
with_data [] = []
with_data ([] ∷ live) = with_data live
with_data ((b ∷ bs) ∷ live) = (b ∷ bs) ∷ with_data live

-- The messages, one by one, have these contents, each with its length.
unfoldable pub Carries : List Message → List Bytes → Type 0
Carries [] [] = Unit
Carries [] (x ∷ xs) = ⊥
Carries (m ∷ ms) [] = ⊥
Carries (m ∷ ms) (x ∷ xs) = (m.bytes ≡ x) × (m.data_length ≡ length x) × Carries ms xs

uncons :
    (n : ℕ) (xs : List Bytes) → suc n ≤ length xs → (y : Bytes) × (ys : List Bytes) × (xs ≡ y ∷ ys)
uncons n [] h = ground (arith, h)
uncons n (x ∷ xs) h = (x, xs, refl)

wait_loop_ok :
    (metric : ℕ) (peers : List (Cells → Cells)) (w : World)
    → (get64 w.cells (message_cnt metric) == 0) ≡ false
    → wait_loop metric peers w ≡ ok tt (record w { peers = peers })
unfolding wait_loop
wait_loop_ok metric [] w h = rw h refl
wait_loop_ok metric (p ∷ ps) w h = rw (wait_loop, h) refl

module _ (region_name : Bytes) (info : SharedMemoryInfo) where
  wait_for_messages_ok :
      (w : World)
      → IsReady w.manager region_name info
      → {x : Bytes} {live : List Bytes} {stop : ℕ} → Holds w.cells info (x ∷ live) stop
      → wait_for_messages region_name w ≡ ok tt w
  unfolding wait_for_messages
  wait_for_messages_ok w r {x} {live} h =
      let some_left : (get64 w.cells (info.mapped_addr + 8) == 0) ≡ false =
        ground (arith, h.count) in
      rw
        (
          get_queue_metric_ok w r,
          mapped r (info.mapped_addr + 8) 8 (omega arith) (omega (arith, r.room)),
        )
        (wait_loop_ok info.mapped_addr w.peers w some_left)

  -- What `receive` does with a queue whose messages with data are `y` and then `ys`
  abbrev Receives : World → ℕ → Bytes → List Bytes → ℕ → ℕ → Type 0
  Receives w rounds y ys stop size =
      (start : ℕ) × (c : Cells) × (rest : List Bytes) × (receive rounds region_name w
        ≡ ok (message_at start y) (record w { cells = c }))
      × Holds c info rest stop
      × (with_data rest ≡ ys)
      × (length rest ≤ size)

  receive_lem :
      (rounds : ℕ) (w : World)
      → IsReady w.manager region_name info
      → (live : List Bytes) {y : Bytes} {ys : List Bytes} {stop : ℕ} → Holds w.cells info live stop
      → with_data live ≡ y ∷ ys
      → length live ≤ rounds
      → Receives w rounds y ys stop (length live)
  unfolding receive with_data
  receive_lem rounds w r [] h e few = cc
  receive_lem zero w r (x ∷ live) h e few = ground (arith, few)
  receive_lem (suc rounds) w r ([] ∷ live) h e few =
      let (start, c, taken, h') = deque_oldest w r h in
      let (start', c', rest, out, held, others, short) =
        receive_lem rounds (record w { cells = c }) r live h' e (omega arith) in
      (
        start',
        c',
        rest,
        rw (receive, wait_for_messages_ok w r h, taken) out,
        held,
        others,
        omega arith,
      )
  receive_lem (suc rounds) w r ((z ∷ zs) ∷ live) {y} {ys} {stop} h e few =
      let (start, c, taken, h') = deque_oldest w r h in
      let same : z ∷ zs ≡ y = cc e in
      let others : with_data live ≡ ys = cc e in
      let full : (suc (length zs) == 0) ≡ false = ground arith in
      subst₂ (λ a b. Receives w (suc rounds) a b stop (suc (length live))) same others
        (
          start,
          c,
          live,
          rw (receive, wait_for_messages_ok w r h, taken, full) refl,
          h',
          refl,
          omega arith,
        )

  -- `ListenSHMQueue`'s batch of `n` messages: the oldest `n` that have data
  abbrev Fetches : World → ℕ → ℕ → List Bytes → ℕ → Type 0
  Fetches w rounds n live stop =
      (c : Cells) × (rest : List Bytes) × (batch : List Message) × (prefetch rounds n region_name w
        ≡ ok batch (record w { cells = c }))
      × Holds c info rest stop
      × Carries batch (take n (with_data live))
      × (with_data rest ≡ drop n (with_data live))

  pub prefetch_lem :
      (rounds n : ℕ) (w : World)
      → IsReady w.manager region_name info
      → (live : List Bytes) {stop : ℕ} → Holds w.cells info live stop
      → n ≤ length (with_data live)
      → length live ≤ rounds
      → Fetches w rounds n live stop
  unfolding prefetch Carries
  prefetch_lem rounds zero w r live h enough few = (w.cells, live, [], refl, h, tt, refl)
  prefetch_lem rounds (suc n) w r live {stop} h enough few =
      let (y, ys, e) = uncons n (with_data live) enough in
      let (start, c, rest, out, h', others, short) = receive_lem rounds w r live h e few in
      let (c', rest', batch, outs, held, all, left) =
        prefetch_lem rounds n (record w { cells = c }) r rest h'
          (omega (arith, enough, ap length e, ap length others)) (omega arith) in
      (
        c',
        rest',
        message_at start y ∷ batch,
        rw (prefetch, out, outs) refl,
        held,
        subst (λ zs. Carries (message_at start y ∷ batch) (take (suc n) zs)) (sym e)
            (refl, refl, subst (λ zs. Carries batch (take n zs)) others all),
        left ∙ ap (drop n) others ∙ ap (drop (suc n)) (sym e),
      )
